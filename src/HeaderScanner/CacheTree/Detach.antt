-- ===== src/HeaderScanner/CacheTree/Detach.antt =====
-- The entries of a `CacheTree` after `detach` (Extensions/HeaderScanner/headerCache_.hpp).
use buildpal.Prelude.{
  ℕ, Option, none, some, [], ◌∷◌, ◌≡◌, refl, ite, arith, text_discrete, Option-cases, inl, inr,
}
use buildpal.HeaderScanner.Macros.{MacroName, MacroValue, Macros}
use buildpal.HeaderScanner.CacheTree.{
  CacheTree, node, Children, nil, cons, child, keep_child, detach, entry_at,
}
use buildpal.HeaderScanner.CacheTree.ByValue.{child-put_child, child-erase_child}
use buildpal.HeaderScanner.CacheTree.Add.{macros_discrete}

-- the entry behind a child
unfoldable entry_in : Macros → MacroValue → Children → Option ℕ
entry_in q v ts = elim (child v ts) [ none ↦ none | some t ↦ entry_at q t ]

bare_node : (n : Option MacroName) (q : Macros) → entry_at q (node n none nil) ≡ none
unfolding entry_at child
bare_node n [] = refl
bare_node none ((name, value) ∷ q) = refl
bare_node (some n) ((name, value) ∷ q) = ground arith

entry_in-keep_child :
    (q : Macros) (v w : MacroValue) (t : CacheTree) (ts : Children)
    → entry_at [] t ≡ none
    → entry_in q w (keep_child v t ts) ≡ ite (text_discrete w v) (entry_at q t) (entry_in q w ts)
unfolding entry_in entry_at
entry_in-keep_child q v w (node n (some e) us) ts h = absurd cc
entry_in-keep_child q v w (node n none nil) ts h =
    ground (arith, child-erase_child v w ts, bare_node n q)
entry_in-keep_child q v w (node n none (cons u s us)) ts h =
    ground (arith, child-put_child v w (node n none (cons u s us)) ts)

detach-inner :
    (m : MacroName × MacroValue) (p : Macros) (t : CacheTree) (e : ℕ)
    → entry_at (m ∷ p) t ≡ some e
    → entry_at [] (detach (m ∷ p) t) ≡ none
unfolding detach entry_at
detach-inner m [] (node (some n) none ts) e h = refl
detach-inner m [] (node (some n) (some d) ts) e h = absurd cc
detach-inner m [] (node none d ts) e h = absurd cc
detach-inner m (k ∷ p) (node (some n) none ts) e h = refl
detach-inner m (k ∷ p) (node (some n) (some d) ts) e h = absurd cc
detach-inner m (k ∷ p) (node none d ts) e h = absurd cc

-- `detach` of an entry's node removes that entry from the tree and no other.
pub entry_at-detach :
    (m : MacroName × MacroValue) (p q : Macros) (t : CacheTree) (e : ℕ)
    → entry_at (m ∷ p) t ≡ some e
    → entry_at q (detach (m ∷ p) t) ≡ ite (macros_discrete q (m ∷ p)) none (entry_at q t)
unfolding detach entry_at entry_in
entry_at-detach m p q (node none d ts) e h = absurd cc
entry_at-detach m p q (node (some n) (some d) ts) e h = absurd cc
entry_at-detach (name, value) [] [] (node (some n) none ts) e h = ground arith
entry_at-detach (name, value) [] ((k, w) ∷ q) (node (some n) none ts) e h =
    ground (arith, child-erase_child value w ts)
entry_at-detach (name, value) (next ∷ p) [] (node (some n) none ts) e h = ground arith
entry_at-detach (name, value) (next ∷ p) ((k, w) ∷ q) (node (some n) none ts) e h =
    elim (Option-cases (child value ts)) [
      | inl gone ↦ absurd (ground arith)
      | inr (t, found) ↦
          let deeper : entry_at (next ∷ p) t ≡ some e = ground arith in
          ground (
            arith,
            entry_in-keep_child q value w (detach (next ∷ p) t) ts (detach-inner next p t e deeper),
            entry_at-detach next p q t e deeper,
          )
    ]
