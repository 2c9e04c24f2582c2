-- ===== src/HeaderScanner/CacheTree/Find.antt =====
-- What `CacheTree::find` (Extensions/HeaderScanner/headerCache_.cpp) finds.
use buildpal.Prelude.{
  ℕ, true, none, some, [], ◌∷◌, ◌≡◌, refl, arith, text_discrete, Option-cases, inl, inr,
}
use buildpal.HeaderScanner.Macros.{MacroValue, Macros, get_macro_value, Agrees}
use buildpal.HeaderScanner.CacheTree.{
  CacheTree, node, Children, nil, cons, child, find, find_in, entry_at, named, all_named,
}
use buildpal.HeaderScanner.CacheTree.ByValue.{find_in-child}

-- An entry whose macros have in the state the values that they had when it was recorded is found.
pub find-entry_at :
    (state used : Macros) (t : CacheTree) (e : ℕ)
    → entry_at used t ≡ some e
    → Agrees state used
    → find state t ≡ some e
unfolding find entry_at
find-entry_at state [] (node n (some f) ts) e at a = at
find-entry_at state [] (node n none ts) e at a = absurd cc
find-entry_at state ((name, value) ∷ used) (node n (some f) ts) e at a = absurd (ground arith)
find-entry_at state ((name, value) ∷ used) (node none none ts) e at a = absurd cc
find-entry_at state ((name, value) ∷ used) (node (some n) none ts) e at a =
    elim (Option-cases (child value ts)) [
      | inl gone ↦ absurd (ground arith)
      | inr (t, found) ↦
          let deeper = find-entry_at state used t e (ground arith) a.1 in
          let (v, _) = a in ground (arith, find_in-child state value ts)
    ]

-- the macros on the way to an entry
pub record FoundAt (state : Macros) (t : CacheTree) (e : ℕ) : Type 0 where
  pub used : Macros
  pub at : entry_at used t ≡ some e
  pub agrees : Agrees state used

mutual
  unfolding find entry_at named child

  -- An entry that is found stands at macros that have in the state the values that they had when
  -- it was recorded.
  pub find-FoundAt :
      (state : Macros) (t : CacheTree) (e : ℕ)
      → named t ≡ true
      → find state t ≡ some e
      → FoundAt state t e
  find-FoundAt state (node n (some f) ts) e w h = record { used = []; at = h; agrees = tt }
  find-FoundAt state (node none none nil) e w h = absurd cc
  find-FoundAt state (node none none (cons v t ts)) e w h = absurd cc
  find-FoundAt state (node (some n) none ts) e w h =
      let (t, c, r) = find_in-FoundAt state (get_macro_value state n) ts e w h in
      record {
        used = (n, get_macro_value state n) ∷ r.used;
        at = ground (arith, r.at);
        agrees = (refl, r.agrees);
      }

  find_in-FoundAt :
      (state : Macros) (value : MacroValue) (ts : Children) (e : ℕ)
      → all_named ts ≡ true
      → find_in state value ts ≡ some e
      → (t : CacheTree) × (child value ts ≡ some t) × FoundAt state t e
  find_in-FoundAt state value nil e w h = absurd cc
  find_in-FoundAt state value (cons v t ts) e w h = elim (text_discrete value v) [
    | yes same ↦ (t, ground arith, find-FoundAt state t e (ground arith) (ground arith))
    | no other ↦
        let (u, c, r) = find_in-FoundAt state value ts e (ground arith) (ground arith) in
        (u, ground arith, r)
  ]
