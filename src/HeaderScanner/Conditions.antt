-- ===== src/HeaderScanner/Conditions.antt =====
-- `ConditionStack` of Extensions/HeaderScanner/headerTracker_.hpp and headerTracker_.cpp. The
-- macros that a conditional block uses wait until it is known that the block matters. Each
-- operation also returns the names that it passes to `macroUsedCallback_`, in order. `Conditions`
-- has the innermost condition first.
pub mod Pending
use buildpal.Prelude.{
  ℕ, Bool, true, false, ◌||◌, not, Option, none, some, List, [], ◌∷◌, ◌++◌, ◌≡◌, if◌then◌else◌, ite,
  text_discrete, units,
}
use buildpal.HeaderScanner.Macros.{MacroName}

pub record Condition : Type 0 where
  pub macros : List MacroName
  pub last_location : ℕ
  pub last_branch_taken : Bool
  pub any_branch_taken : Bool

pub record ConditionStack : Type 0 where
  pub macros : List MacroName
  pub conditions : List Condition

-- a token of the raw lexer of Clang
pub data Token : Type 0 where
  hash_at_start : Token
  raw_identifier : List ℕ → Token
  other : Token

unfoldable pub is_content : List ℕ → Bool
is_content identifier = ite (text_discrete identifier (units "define")) true (
    ite (text_discrete identifier (units "undef")) true
      (ite (text_discrete identifier (units "include")) true false))

unfoldable mutual
  -- the loop of `skippable`, up to the end of the block
  pub skippable_tokens : List Token → Bool
  skippable_tokens [] = true
  skippable_tokens (hash_at_start ∷ ts) = after_hash ts
  skippable_tokens (raw_identifier i ∷ ts) = skippable_tokens ts
  skippable_tokens (other ∷ ts) = skippable_tokens ts

  pub after_hash : List Token → Bool
  after_hash [] = true
  after_hash (raw_identifier i ∷ ts) =
      let rest = skippable_tokens ts in if is_content i then false else rest
  after_hash (hash_at_start ∷ ts) = skippable_tokens ts
  after_hash (other ∷ ts) = skippable_tokens ts

unfoldable pub add_macro_name : ConditionStack → MacroName → ConditionStack
add_macro_name s name = record s { macros = s.macros ++ name ∷ [] }

-- the macros of the conditions, the outermost first
unfoldable pub waiting : List Condition → List MacroName
waiting [] = []
waiting (c ∷ cs) = waiting cs ++ c.macros

unfoldable pub commit : ConditionStack → ConditionStack × List MacroName
unfolding waiting
commit s = (record { macros = []; conditions = [] }, waiting s.conditions ++ s.macros)

-- `condition().lastBranchTaken = …`
unfoldable pub set_last_branch : Bool → List Condition → List Condition
set_last_branch taken [] = []
set_last_branch taken (c ∷ cs) = record c { last_branch_taken = taken } ∷ cs

-- a condition that macros were used in since the last directive counts as not taken
unfoldable pub take_macros : Condition → List MacroName → Condition
take_macros c [] = c
take_macros c (m ∷ ms) = record c { macros = c.macros ++ m ∷ ms; last_branch_taken = false }

unfoldable pub pop_back : List Condition → List Condition
pop_back [] = []
pop_back (c ∷ cs) = cs

-- `raw_tokens` are the tokens between two source locations
module _ (raw_tokens : ℕ → ℕ → List Token) where
  unfoldable pub skippable : ℕ → ℕ → Bool
  unfolding skippable_tokens
  skippable start_loc end_loc = skippable_tokens (raw_tokens start_loc end_loc)

  -- `lastConditionSkippable` of the innermost condition `c`, which is not on the stack `cs`; the
  -- condition is back on the stack where it returns true
  unfoldable pub last_condition_skippable :
      Condition → List Condition → List MacroName → ℕ → Bool × ConditionStack × List MacroName
  unfolding skippable commit
  last_condition_skippable c cs macros loc =
      let begin = c.last_location in
      let s : ConditionStack = record {
        macros = macros;
        conditions = record c { last_location = loc } ∷ cs;
      } in
      if c.last_branch_taken || skippable begin loc
      then (true, s, [])
      else (let (s, used) = commit s in (false, s, used))

  unfoldable pub if_directive : ConditionStack → ℕ → Bool → ConditionStack
  if_directive s loc taken = record {
    macros = [];
    conditions =
        record {
          macros = s.macros;
          last_location = loc;
          last_branch_taken = taken;
          any_branch_taken = taken;
        }
        ∷ s.conditions;
  }

  unfoldable pub elif_directive : ConditionStack → ℕ → Bool → ConditionStack × List MacroName
  unfolding last_condition_skippable set_last_branch
  elif_directive s loc taken = elim s.conditions [
    | [] ↦ commit s
    | c ∷ cs ↦
        let c = record c {
          macros = c.macros ++ s.macros;
          any_branch_taken = taken || c.any_branch_taken;
        } in
        let (keeps, s, used) = last_condition_skippable c cs [] loc in
        if keeps
        then (record s { conditions = set_last_branch taken s.conditions }, used)
        else (s, used)
  ]

  unfoldable pub else_directive : ConditionStack → ℕ → ConditionStack × List MacroName
  unfolding last_condition_skippable set_last_branch take_macros
  else_directive s loc = elim s.conditions [
    | [] ↦ commit s
    | c ∷ cs ↦
        let c = take_macros c s.macros in
        let (keeps, s, used) = last_condition_skippable c cs [] loc in
        if keeps
        then (record s { conditions = set_last_branch (not c.any_branch_taken) s.conditions }, used)
        else (s, used)
  ]

  unfoldable pub endif_directive : ConditionStack → ℕ → ConditionStack × List MacroName
  unfolding last_condition_skippable take_macros pop_back
  endif_directive s loc = elim s.conditions [
    | [] ↦ (s, [])
    | c ∷ cs ↦
        let (keeps, s, used) = last_condition_skippable (take_macros c s.macros) cs [] loc in
        if keeps then (record s { conditions = pop_back s.conditions }, used) else (s, used)
  ]
