-- ===== src/HeaderScanner/CacheTree.antt =====
-- `CacheTree` of Extensions/HeaderScanner/headerCache_.hpp and headerCache_.cpp: the entries of one
-- header, by the values of the macros that it uses. A node is addressed by the macros on the way to
-- it; an entry is a number that stands for its address. The parent pointers are the way back.
pub mod ByValue
pub mod Find
pub mod Add
pub mod Runs
pub mod Detach
use buildpal.Prelude.{
  ℕ, Bool, true, false, ◌&&◌, Option, none, some, List, [], ◌∷◌, ◌≡◌, refl, ite, arith,
  text_discrete,
}
use buildpal.HeaderScanner.Macros.{
  MacroName, MacroValue, Macros, undefined_macro_value, get_macro_value,
}

mutual
  pub data CacheTree : Type 0 where
    node : Option MacroName → Option ℕ → Children → CacheTree

  pub data Children : Type 0 where
    nil : Children
    cons : MacroValue → CacheTree → Children → Children

-- `CacheTree()`
abbrev pub empty_tree : CacheTree
empty_tree = node none none nil

-- `children_.find( value )`
unfoldable pub child : MacroValue → Children → Option CacheTree
child value nil = none
child value (cons v t ts) = ite (text_discrete value v) (some t) (child value ts)

-- the tree that a reference into `children_` changes
unfoldable pub put_child : MacroValue → CacheTree → Children → Children
put_child value t nil = cons value t nil
put_child value t (cons v u ts) =
    ite (text_discrete value v) (cons v t ts) (cons v u (put_child value t ts))

-- `children_.erase( value )`
unfoldable pub erase_child : MacroValue → Children → Children
erase_child value nil = nil
erase_child value (cons v t ts) =
    ite (text_discrete value v) (erase_child value ts) (cons v t (erase_child value ts))

abbrev pub or_empty : Option CacheTree → CacheTree
or_empty none = empty_tree
or_empty (some t) = t

-- `if ( !macroName_ ) macroName_ = name;`
abbrev pub or_name : Option MacroName → MacroName → MacroName
or_name none name = name
or_name (some n) name = n

-- `getChild` of a list of macros, and then `f` on the entry of the node that it returns
unfoldable pub at_child : (Option ℕ → Option ℕ) → Macros → CacheTree → CacheTree
at_child f [] (node n e ts) = node n (f e) ts
at_child f ((name, value) ∷ used) (node n e ts) =
    node (some (or_name n name)) e
      (put_child value (at_child f used (or_empty (child value ts))) ts)

-- `getEntry` of the node that `getChild` returns
unfoldable pub get_entry : Macros → CacheTree → Option ℕ
get_entry [] (node n e ts) = e
get_entry ((name, value) ∷ used) (node n e ts) = elim (child value ts) [
  | none ↦ none
  | some t ↦ get_entry used t
]

-- `getChild`, and `setEntry` where the node has no entry yet
unfoldable pub add_at : Macros → ℕ → CacheTree → CacheTree
unfolding at_child get_entry
add_at used e t = elim (get_entry used t) [
  | none ↦ at_child (λ _. some e) used t
  | some old ↦ at_child (λ o. o) used t
]

unfoldable mutual
  -- a node without a name asks for a name that no macro has
  pub find : Macros → CacheTree → Option ℕ
  find state (node n (some e) ts) = some e
  find state (node none none ts) = find_in state undefined_macro_value ts
  find state (node (some n) none ts) = find_in state (get_macro_value state n) ts

  -- `children_.find( value )`, and on with it
  pub find_in : Macros → MacroValue → Children → Option ℕ
  find_in state value nil = none
  find_in state value (cons v t ts) =
      let here = find state t in
      let rest = find_in state value ts in ite (text_discrete value v) here rest

abbrev pub no_children : Children → Bool
no_children nil = true
no_children (cons v t ts) = false

-- a child from which an entry was detached: a node without children goes, too
abbrev pub keep_child : MacroValue → CacheTree → Children → Children
keep_child value (node n e nil) ts = erase_child value ts
keep_child value (node n e (cons v t us)) ts = put_child value (node n e (cons v t us)) ts

-- `detach` of the node with that path, which is not the root
unfoldable pub detach : Macros → CacheTree → CacheTree
unfolding keep_child
detach [] t = t
detach ((name, value) ∷ []) (node n e ts) = node n e (erase_child value ts)
detach ((name, value) ∷ next ∷ used) (node n e ts) =
    node n e (keep_child value (detach (next ∷ used) (or_empty (child value ts))) ts)

-- The entry at a path, along the names of the nodes; an inner node has no entry.
unfoldable pub entry_at : Macros → CacheTree → Option ℕ
entry_at [] (node n e ts) = e
entry_at ((name, value) ∷ used) (node (some n) none ts) =
    ite (text_discrete name n) (elim (child value ts) [ none ↦ none | some t ↦ entry_at used t ])
      none
entry_at ((name, value) ∷ used) _ = none

unfoldable mutual
  -- a node that has children has a name
  pub named : CacheTree → Bool
  named (node none e nil) = true
  named (node none e (cons v t ts)) = false
  named (node (some n) e ts) = all_named ts

  pub all_named : Children → Bool
  all_named nil = true
  all_named (cons v t ts) = named t && all_named ts

abbrev pub is_named : MacroName → Option MacroName → Children → Bool
is_named name none ts = no_children ts
is_named name (some n) ts = ite (text_discrete name n) true false

abbrev pub is_none : Option ℕ → Bool
is_none none = true
is_none (some e) = false

-- The way of the macros leads through nodes without an entry that ask for these macros, and ends at
-- a node without children: what the assertions of `getChild` demand.
unfoldable pub compatible : Macros → CacheTree → Bool
compatible [] (node n e ts) = no_children ts
compatible ((name, value) ∷ used) (node n e ts) =
    is_none e
    && is_named name n ts
    && elim (child value ts) [ none ↦ true | some t ↦ compatible used t ]

-- Two lists of used macros of one header are the same up to a macro with two values.
unfoldable pub consistent : Macros → Macros → Bool
consistent [] [] = true
consistent [] (m ∷ q) = false
consistent (m ∷ p) [] = false
consistent ((name, value) ∷ p) ((m, w) ∷ q) =
    let rest = consistent p q in
    ite (text_discrete name m) (ite (text_discrete value w) rest true) false
