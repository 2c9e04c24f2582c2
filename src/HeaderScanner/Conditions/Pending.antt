-- ===== src/HeaderScanner/Conditions/Pending.antt =====
-- No macro is lost on the stack of conditions (Extensions/HeaderScanner/headerTracker_.cpp).
use buildpal.Prelude.{
  ℕ, Bool, ◌||◌, not, List, [], ◌∷◌, ◌++◌, ◌≡◌, refl, sym, ap, ◌∙◌, append-nil, append_assoc,
  Bool-cases, if◌then◌else◌, inl, inr,
}
use buildpal.HeaderScanner.Macros.{MacroName}
use buildpal.HeaderScanner.Conditions.{
  Condition, ConditionStack, Token, waiting, commit, last_condition_skippable, if_directive,
  elif_directive, else_directive, endif_directive, take_macros, set_last_branch, skippable,
  pop_back,
}

-- the macros that wait, in the order in which they were used
abbrev pub pending : ConditionStack → List MacroName
pending s = waiting s.conditions ++ s.macros

waiting-set_last_branch :
    (taken : Bool) (cs : List Condition) → waiting (set_last_branch taken cs) ≡ waiting cs
unfolding waiting set_last_branch
waiting-set_last_branch taken [] = refl
waiting-set_last_branch taken (c ∷ cs) = refl

take_macros-macros :
    (c : Condition) (ms : List MacroName) → (take_macros c ms).macros ≡ c.macros ++ ms
unfolding take_macros
take_macros-macros c [] = sym (append-nil c.macros)
take_macros-macros c (m ∷ ms) = refl

module _ (raw_tokens : ℕ → ℕ → List Token) where
  pending-if_directive :
      (s : ConditionStack) (loc : ℕ) (taken : Bool)
      → pending (if_directive raw_tokens s loc taken) ≡ pending s
  unfolding if_directive waiting
  pending-if_directive s loc taken = append-nil _

  -- the stack behind `lastConditionSkippable`
  pending-last_condition_skippable :
      (c : Condition) (cs : List Condition) (ms : List MacroName) (loc : ℕ)
      → (last_condition_skippable raw_tokens c cs ms loc).2
          ++ pending (last_condition_skippable raw_tokens c cs ms loc).1
        ≡ (waiting cs ++ c.macros) ++ ms
  unfolding last_condition_skippable waiting
  pending-last_condition_skippable c cs ms loc =
      elim (Bool-cases (c.last_branch_taken || skippable raw_tokens c.last_location loc)) [
        | inl e ↦ rw (e, last_condition_skippable) refl
        | inr e ↦ rw (e, last_condition_skippable) (append-nil _)
      ]

  -- the same for a condition that has taken over the macros that were used last
  pending_taken :
      (c : Condition) (cs : List Condition) (ms taken_over : List MacroName) (loc : ℕ)
      → c.macros ≡ taken_over ++ ms
      → (last_condition_skippable raw_tokens c cs [] loc).2
          ++ pending (last_condition_skippable raw_tokens c cs [] loc).1
        ≡ (waiting cs ++ taken_over) ++ ms
  pending_taken c cs ms taken_over loc e =
      pending-last_condition_skippable c cs [] loc
      ∙ append-nil _
      ∙ ap (λ (l : List MacroName). waiting cs ++ l) e
      ∙ sym (append_assoc (waiting cs) taken_over ms)

  pending-elif_directive :
      (ms : List MacroName) (cs : List Condition) (loc : ℕ) (taken : Bool)
      → (elif_directive raw_tokens (record { macros = ms; conditions = cs }) loc taken).1
          ++ pending
              (elif_directive raw_tokens (record { macros = ms; conditions = cs }) loc taken).0
        ≡ waiting cs ++ ms
  unfolding elif_directive waiting commit
  pending-elif_directive ms [] loc taken = append-nil _
  pending-elif_directive ms (c ∷ cs) loc taken =
      let taking : Condition = record c {
        macros = c.macros ++ ms;
        any_branch_taken = taken || c.any_branch_taken;
      } in
      let r = last_condition_skippable raw_tokens taking cs [] loc in
      elim (Bool-cases r.0) [
        | inl e ↦
            rw (e, waiting-set_last_branch taken r.1.conditions)
              (pending_taken taking cs ms c.macros loc refl)
        | inr e ↦ rw e (pending_taken taking cs ms c.macros loc refl)
      ]

  pending-else_directive :
      (ms : List MacroName) (cs : List Condition) (loc : ℕ)
      → (else_directive raw_tokens (record { macros = ms; conditions = cs }) loc).1
          ++ pending (else_directive raw_tokens (record { macros = ms; conditions = cs }) loc).0
        ≡ waiting cs ++ ms
  unfolding else_directive waiting commit
  pending-else_directive ms [] loc = append-nil _
  pending-else_directive ms (c ∷ cs) loc =
      let taking = take_macros c ms in
      let r = last_condition_skippable raw_tokens taking cs [] loc in
      elim (Bool-cases r.0) [
        | inl e ↦
            rw (e, waiting-set_last_branch (not taking.any_branch_taken) r.1.conditions)
              (pending_taken taking cs ms c.macros loc (take_macros-macros c ms))
        | inr e ↦ rw e (pending_taken taking cs ms c.macros loc (take_macros-macros c ms))
      ]

  -- `#if`, `#elif` and `#else` lose no macro: those that waited before are reported or wait
  -- further, in the order in which they were used.
  pub pending-directives :
      (s : ConditionStack) (loc : ℕ) (taken : Bool)
      → (pending (if_directive raw_tokens s loc taken) ≡ pending s)
        × ((elif_directive raw_tokens s loc taken).1
              ++ pending (elif_directive raw_tokens s loc taken).0
            ≡ pending s)
        × ((else_directive raw_tokens s loc).1 ++ pending (else_directive raw_tokens s loc).0
            ≡ pending s)
  pending-directives s loc taken = (
    pending-if_directive s loc taken,
    pending-elif_directive s.macros s.conditions loc taken,
    pending-else_directive s.macros s.conditions loc,
  )

  -- `#endif` drops the macros of its block exactly if the block is skippable, or its last branch
  -- was taken and no macro was used since; then nothing is reported. Otherwise everything that
  -- waited is reported, in order, and nothing waits.
  pub pending-endif_directive :
      (c : Condition) (cs : List Condition) (ms : List MacroName) (loc : ℕ)
      → endif_directive raw_tokens (record { macros = ms; conditions = c ∷ cs }) loc ≡ (
          if (take_macros c ms).last_branch_taken || skippable raw_tokens c.last_location loc
          then (record { macros = []; conditions = cs }, [])
          else (record { macros = []; conditions = [] }, waiting cs ++ (c.macros ++ ms)))
  unfolding endif_directive last_condition_skippable take_macros waiting pop_back commit
  pending-endif_directive c cs [] loc =
      elim (Bool-cases (c.last_branch_taken || skippable raw_tokens c.last_location loc)) [
        | inl e ↦ rw (e, endif_directive, last_condition_skippable) refl
        | inr e ↦
            rw (e, endif_directive, last_condition_skippable, append-nil c.macros)
              (rw (append-nil (waiting cs ++ c.macros)) refl)
      ]
  pending-endif_directive c cs (m ∷ ms) loc =
      elim (Bool-cases (skippable raw_tokens c.last_location loc)) [
        | inl e ↦ rw (e, endif_directive, last_condition_skippable) refl
        | inr e ↦
            rw (e, endif_directive, last_condition_skippable)
              (rw (append-nil (waiting cs ++ (c.macros ++ m ∷ ms))) refl)
      ]
