-- ===== src/HeaderScanner/CacheTree/Runs.antt =====
-- The `CacheTree` (Extensions/HeaderScanner/headerCache_.hpp) of a header that is preprocessed again
-- and again.
use buildpal.Prelude.{
  ℕ, true, Option, none, some, [], ◌∷◌, ◌≡◌, refl, sym, ap, ◌∙◌, subst, ite, arith, Option-cases,
  inl, inr,
}
use buildpal.Prelude.Assoc.{Assoc}
use buildpal.HeaderScanner.Macros.{MacroName, MacroValue, Macros, get_macro_value, Agrees}
use buildpal.HeaderScanner.CacheTree.{
  CacheTree, empty_tree, add_at, entry_at, find, named, compatible, consistent,
}
use buildpal.HeaderScanner.CacheTree.Find.{find-entry_at, find-FoundAt}
use buildpal.HeaderScanner.CacheTree.Add.{
  macros_discrete, compatible-empty_tree, entry_at-empty_tree, entry_at-add_at, compatible-add_at,
  named-add_at,
}

-- a header, as far as the macros go that it uses: which one it asks for next depends on the values
-- of those that it has asked for
pub data Reader : Type 0 where
  done : Reader
  ask : MacroName → (MacroValue → Reader) → Reader

-- the macros that it uses in a state, with their values
unfoldable pub used_macros : Reader → Macros → Macros
used_macros done state = []
used_macros (ask name next) state =
    (name, get_macro_value state name) ∷ used_macros (next (get_macro_value state name)) state

-- the entries that are added, in order, when the header is preprocessed in the given states
unfoldable pub record_runs : Reader → Assoc Macros ℕ → CacheTree → CacheTree
record_runs r [] t = t
record_runs r ((state, e) ∷ runs) t = record_runs r runs (add_at (used_macros r state) e t)

-- the entry of the first run that used the same macros, with the same values
unfoldable pub first_run : Reader → Assoc Macros ℕ → Macros → Option ℕ
first_run r [] used = none
first_run r ((state, e) ∷ runs) used =
    ite (macros_discrete used (used_macros r state)) (some e) (first_run r runs used)

used_macros-consistent :
    (r : Reader) (s t : Macros) → consistent (used_macros r s) (used_macros r t) ≡ true
unfolding used_macros consistent
used_macros-consistent done s t = refl
used_macros-consistent (ask name next) s t =
    ground (arith, used_macros-consistent (next (get_macro_value s name)) s t)

used_macros-Agrees : (r : Reader) (s : Macros) → Agrees s (used_macros r s)
unfolding used_macros
used_macros-Agrees done s = tt
used_macros-Agrees (ask name next) s = (refl, used_macros-Agrees (next (get_macro_value s name)) s)

used_macros_same :
    (r : Reader) (s t : Macros) → Agrees t (used_macros r s) → used_macros r t ≡ used_macros r s
unfolding used_macros
used_macros_same done s t a = refl
used_macros_same (ask name next) s t (e, a) = rw e (
    ap (λ (l : Macros). (name, get_macro_value s name) ∷ l)
      (used_macros_same (next (get_macro_value s name)) s t a))

entry_at-record_runs :
    (r : Reader) (runs : Assoc Macros ℕ) (t : CacheTree) (q : Macros)
    → ((s : Macros) → compatible (used_macros r s) t ≡ true)
    → entry_at q (record_runs r runs t)
      ≡ elim (entry_at q t) [ none ↦ first_run r runs q | some old ↦ some old ]
unfolding record_runs first_run
entry_at-record_runs r [] t q h = ground arith
entry_at-record_runs r ((state, e) ∷ runs) t q h =
    let p = used_macros r state in
    entry_at-record_runs r runs (add_at p e t) q (λ s.
      compatible-add_at p (used_macros r s) e t (h state) (h s) (used_macros-consistent r s state))
    ∙ ground (arith, entry_at-add_at p q e t (h state))

named-record_runs :
    (r : Reader) (runs : Assoc Macros ℕ) (t : CacheTree)
    → named t ≡ true
    → named (record_runs r runs t) ≡ true
unfolding record_runs
named-record_runs r [] t h = h
named-record_runs r ((state, e) ∷ runs) t h =
    named-record_runs r runs _ (named-add_at (used_macros r state) e t h)

entry_at-recorded :
    (r : Reader) (runs : Assoc Macros ℕ) (q : Macros)
    → entry_at q (record_runs r runs empty_tree) ≡ first_run r runs q
entry_at-recorded r runs q =
    entry_at-record_runs r runs empty_tree q (λ s. compatible-empty_tree (used_macros r s))
    ∙ ground (arith, entry_at-empty_tree q)

first_run-same :
    (r : Reader) (runs : Assoc Macros ℕ) (used state : Macros) (e : ℕ)
    → first_run r runs used ≡ some e
    → Agrees state used
    → used_macros r state ≡ used
unfolding first_run
first_run-same r [] used state e f a = absurd cc
first_run-same r ((s, d) ∷ runs) used state e f a = elim (macros_discrete used (used_macros r s)) [
  | yes same ↦ used_macros_same r s state (subst (Agrees state) same a) ∙ sym same
  | no other ↦ first_run-same r runs used state e (ground arith) a
]

-- The cache of a header that was preprocessed in any states finds, in any state, the entry of the
-- first run that used the macros, with the values, that the header would use now, and finds nothing
-- if no run did.
pub find-record_runs :
    (r : Reader) (runs : Assoc Macros ℕ) (state : Macros)
    → find state (record_runs r runs empty_tree) ≡ first_run r runs (used_macros r state)
find-record_runs r runs state = elim (Option-cases (first_run r runs (used_macros r state))) [
  | inr (e, hit) ↦
      find-entry_at state (used_macros r state) _ e (entry_at-recorded r runs _ ∙ hit)
        (used_macros-Agrees r state)
      ∙ sym hit
  | inl miss ↦ elim (Option-cases (find state (record_runs r runs empty_tree))) [
    | inl nothing ↦ nothing ∙ sym miss
    | inr (e, found) ↦
        let at =
          find-FoundAt state _ e (named-record_runs r runs empty_tree (unfold named in refl))
            found in
        let recorded : first_run r runs at.used ≡ some e =
          sym (entry_at-recorded r runs at.used) ∙ at.at in
        absurd (ground (arith, first_run-same r runs at.used state e recorded at.agrees))
  ]
]
