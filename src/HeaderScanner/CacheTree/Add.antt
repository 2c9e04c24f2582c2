-- ===== src/HeaderScanner/CacheTree/Add.antt =====
-- The entries of a `CacheTree` after `Cache::addEntry` (Extensions/HeaderScanner/headerCache_.cpp).
use buildpal.Prelude.{
  ℕ, true, Option, none, some, [], ◌∷◌, ◌≡◌, refl, ite, arith, text_discrete, Option-cases, inl,
  inr,
}
use buildpal.HeaderScanner.Macros.{MacroValue, Macros}
use buildpal.HeaderScanner.CacheTree.{
  CacheTree, node, Children, nil, cons, empty_tree, child, put_child, or_empty, at_child, get_entry,
  add_at, entry_at, named, all_named, compatible, consistent,
}
use buildpal.HeaderScanner.CacheTree.ByValue.{child-put_child}

unfoldable pub macros_discrete : Discrete Macros
unfolding text_discrete
macros_discrete = hlevel text_discrete

pub compatible-empty_tree : (used : Macros) → compatible used empty_tree ≡ true
unfolding compatible child
compatible-empty_tree [] = refl
compatible-empty_tree ((name, value) ∷ used) = refl

pub entry_at-empty_tree : (used : Macros) → entry_at used empty_tree ≡ none
unfolding entry_at
entry_at-empty_tree [] = refl
entry_at-empty_tree (m ∷ used) = refl

-- the entry at a path in a child that may not be there
entry_at-child :
    (q : Macros) (v : MacroValue) (ts : Children)
    → entry_at q (or_empty (child v ts)) ≡ elim (child v ts) [ none ↦ none | some t ↦ entry_at q t ]
entry_at-child q v ts = ground (arith, entry_at-empty_tree q)

compatible-child :
    (q : Macros) (v : MacroValue) (ts : Children)
    → compatible q (or_empty (child v ts))
      ≡ elim (child v ts) [ none ↦ true | some t ↦ compatible q t ]
compatible-child q v ts = ground (arith, compatible-empty_tree q)

pub entry_at-at_child :
    (f : Option ℕ → Option ℕ) (p q : Macros) (t : CacheTree)
    → compatible p t ≡ true
    → entry_at q (at_child f p t) ≡ ite (macros_discrete q p) (f (entry_at p t)) (entry_at q t)
unfolding entry_at at_child compatible child
entry_at-at_child f [] [] (node n e nil) h = ground arith
entry_at-at_child f [] ((m, w) ∷ q) (node none (some e) nil) h = ground arith
entry_at-at_child f [] ((m, w) ∷ q) (node none none nil) h = ground arith
entry_at-at_child f [] ((m, w) ∷ q) (node (some n) (some e) nil) h = ground arith
entry_at-at_child f [] ((m, w) ∷ q) (node (some n) none nil) h = elim (Option-cases (f none)) [
  | inl e ↦ rw e (ground arith)
  | inr (o, e) ↦ rw e (ground arith)
]
entry_at-at_child f [] q (node n e (cons v t ts)) h = absurd cc
entry_at-at_child f ((name, value) ∷ p) q (node n (some e) ts) h = absurd (ground arith)
entry_at-at_child f ((name, value) ∷ p) [] (node n none ts) h = ground arith
entry_at-at_child f ((name, value) ∷ p) ((m, w) ∷ q) (node none none nil) h = ground (
  arith,
  child-put_child value w (at_child f p empty_tree) nil,
  entry_at-at_child f p q empty_tree (compatible-empty_tree p),
  entry_at-empty_tree p,
  entry_at-empty_tree q,
)
entry_at-at_child f ((name, value) ∷ p) ((m, w) ∷ q) (node none none (cons v t ts)) h =
    absurd (ground arith)
entry_at-at_child f ((name, value) ∷ p) ((m, w) ∷ q) (node (some n) none ts) h = ground (
  arith,
  child-put_child value w (at_child f p (or_empty (child value ts))) ts,
  entry_at-at_child f p q (or_empty (child value ts)),
  entry_at-child p value ts,
  entry_at-child q value ts,
  compatible-child p value ts,
)

get_entry-entry_at :
    (p : Macros) (t : CacheTree) → compatible p t ≡ true → get_entry p t ≡ entry_at p t
unfolding get_entry entry_at compatible child
get_entry-entry_at [] (node n e ts) h = refl
get_entry-entry_at ((name, value) ∷ p) (node n (some e) ts) h = absurd (ground arith)
get_entry-entry_at ((name, value) ∷ p) (node none none nil) h = refl
get_entry-entry_at ((name, value) ∷ p) (node none none (cons v t ts)) h = absurd (ground arith)
get_entry-entry_at ((name, value) ∷ p) (node (some n) none ts) h =
    elim (Option-cases (child value ts)) [
      | inl e ↦ ground arith
      | inr (t, e) ↦ ground (arith, get_entry-entry_at p t)
    ]

-- `addEntry` keeps an entry that is there, and adds one where there is none; the entries at all
-- other lists of macros stay.
pub entry_at-add_at :
    (p q : Macros) (e : ℕ) (t : CacheTree)
    → compatible p t ≡ true
    → entry_at q (add_at p e t)
      ≡ ite
          (macros_discrete q p)
          (elim (entry_at p t) [ none ↦ some e | some old ↦ some old ])
          (entry_at q t)
unfolding add_at
entry_at-add_at p q e t h = ground (
  arith,
  get_entry-entry_at p t h,
  entry_at-at_child (λ _. some e) p q t h,
  entry_at-at_child (λ o. o) p q t h,
)

compatible-at_child :
    (f : Option ℕ → Option ℕ) (p q : Macros) (t : CacheTree)
    → compatible p t ≡ true
    → compatible q t ≡ true
    → consistent q p ≡ true
    → compatible q (at_child f p t) ≡ true
unfolding compatible at_child consistent child put_child
compatible-at_child f [] [] (node n e ts) hp hq c = hp
compatible-at_child f [] (m ∷ q) t hp hq c = absurd cc
compatible-at_child f (m ∷ p) [] t hp hq c = absurd cc
compatible-at_child f ((name, value) ∷ p) ((m, w) ∷ q) (node n (some e) ts) hp hq c =
    absurd (ground arith)
compatible-at_child f ((name, value) ∷ p) ((m, w) ∷ q) (node none none nil) hp hq c = ground (
  arith,
  child-put_child value w (at_child f p empty_tree) nil,
  compatible-at_child f p q empty_tree (compatible-empty_tree p) (compatible-empty_tree q),
)
compatible-at_child f ((name, value) ∷ p) ((m, w) ∷ q) (node none none (cons v t ts)) hp hq c =
    absurd (ground arith)
compatible-at_child f ((name, value) ∷ p) ((m, w) ∷ q) (node (some n) none ts) hp hq c = ground (
  arith,
  child-put_child value w (at_child f p (or_empty (child value ts))) ts,
  compatible-at_child f p q (or_empty (child value ts)),
  compatible-child p value ts,
  compatible-child q value ts,
)

pub compatible-add_at :
    (p q : Macros) (e : ℕ) (t : CacheTree)
    → compatible p t ≡ true
    → compatible q t ≡ true
    → consistent q p ≡ true
    → compatible q (add_at p e t) ≡ true
unfolding add_at
compatible-add_at p q e t hp hq c = ground (
  arith,
  compatible-at_child (λ _. some e) p q t hp hq c,
  compatible-at_child (λ o. o) p q t hp hq c,
)

named-child :
    (v : MacroValue) (ts : Children) → all_named ts ≡ true → named (or_empty (child v ts)) ≡ true
unfolding named child
named-child v nil h = refl
named-child v (cons u t ts) h = ground (arith, named-child v ts)

named-put_child :
    (v : MacroValue) (t : CacheTree) (ts : Children)
    → named t ≡ true
    → all_named ts ≡ true
    → all_named (put_child v t ts) ≡ true
unfolding named put_child
named-put_child v t nil ht h = ground arith
named-put_child v t (cons u s ts) ht h = ground (arith, named-put_child v t ts)

named-at_child :
    (f : Option ℕ → Option ℕ) (p : Macros) (t : CacheTree)
    → named t ≡ true
    → named (at_child f p t) ≡ true
unfolding named at_child
named-at_child f [] (node none e nil) h = refl
named-at_child f [] (node none e (cons v t ts)) h = absurd cc
named-at_child f [] (node (some n) e ts) h = h
named-at_child f ((name, value) ∷ p) (node none e nil) h =
    named-put_child value _ nil (named-at_child f p _ (named-child value nil refl)) refl
named-at_child f ((name, value) ∷ p) (node none e (cons v t ts)) h = absurd cc
named-at_child f ((name, value) ∷ p) (node (some n) e ts) h =
    named-put_child value _ ts (named-at_child f p _ (named-child value ts h)) h

pub named-add_at :
    (p : Macros) (e : ℕ) (t : CacheTree) → named t ≡ true → named (add_at p e t) ≡ true
unfolding add_at
named-add_at p e t h =
    ground (arith, named-at_child (λ _. some e) p t h, named-at_child (λ o. o) p t h)
