-- ===== src/HeaderScanner/CacheTree/ByValue.antt =====
-- The children of a node of `CacheTree` (Extensions/HeaderScanner/headerCache_.hpp) as a map.
use buildpal.Prelude.{none, some, ◌≡◌, refl, ite, arith, text_discrete}
use buildpal.HeaderScanner.Macros.{MacroValue, Macros}
use buildpal.HeaderScanner.CacheTree.{
  CacheTree, Children, nil, cons, child, put_child, erase_child, find, find_in,
}

pub child-put_child :
    (v w : MacroValue) (t : CacheTree) (ts : Children)
    → child w (put_child v t ts) ≡ ite (text_discrete w v) (some t) (child w ts)
unfolding child put_child
child-put_child v w t nil = refl
child-put_child v w t (cons u s ts) = ground (arith, child-put_child v w t ts)

pub child-erase_child :
    (v w : MacroValue) (ts : Children)
    → child w (erase_child v ts) ≡ ite (text_discrete w v) none (child w ts)
unfolding child erase_child
child-erase_child v w nil = ground arith
child-erase_child v w (cons u s ts) = ground (arith, child-erase_child v w ts)

pub find_in-child :
    (state : Macros) (v : MacroValue) (ts : Children)
    → find_in state v ts ≡ elim (child v ts) [ none ↦ none | some t ↦ find state t ]
unfolding child find_in
find_in-child state v nil = refl
find_in-child state v (cons u s ts) = ground (arith, find_in-child state v ts)
