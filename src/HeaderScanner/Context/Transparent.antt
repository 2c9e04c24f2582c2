-- ===== src/HeaderScanner/Context/Transparent.antt =====
-- That a header went into the cache makes no difference to the header that includes it
-- (Extensions/HeaderScanner/headerTracker_.cpp).
use buildpal.Prelude.{
  ◌+◌, ◌/◌, Bool, true, ◌||◌, ◌≡◌, refl, sym, ap, none, some, [], ◌∷◌, foldl, ite, if_pos, if_neg,
  arith, text_discrete, ℕ_discrete,
}
use buildpal.Prelude.Assoc.{lookup, assign, lookup-assign}
use buildpal.HeaderScanner.Macros.{MacroName, Macros, define_macro, get_macro_value, Agrees}
use buildpal.HeaderScanner.CacheTree.{get_entry}
use buildpal.HeaderScanner.Cache.{Key, CacheEntry, Cache, add_entry, tree_of, is_some}
use buildpal.HeaderScanner.Context.{
  MacroSet, member, insert, HeaderCtx, changed_macros, included_headers, propagate_macros,
  propagate_to_parent, add_to_cache, macro_used_with,
}

pub member-insert :
    (set : MacroSet) (name n : MacroName)
    → member n (insert set name) ≡ ite (text_discrete n name) true (member n set)
unfolding member insert
member-insert set name n = ground arith

-- the macros that a state lists
abbrev pub is_key : MacroName → Macros → Bool
is_key n ms = is_some (lookup text_discrete n ms)

pub member-insert_keys :
    (ms : Macros) (set : MacroSet) (n : MacroName)
    → member n (foldl (λ set m. insert set m.0) set ms) ≡ member n set || is_key n ms
unfolding lookup
member-insert_keys [] set n = ground arith
member-insert_keys ((name, value) ∷ ms) set n =
    ground (arith, member-insert_keys ms (insert set name) n, member-insert set name n)

pub member-insert_all :
    (names set : MacroSet) (n : MacroName)
    → member n (foldl insert set names) ≡ member n set || member n names
unfolding member
member-insert_all [] set n = ground arith
member-insert_all (name ∷ names) set n =
    ground (arith, member-insert_all names (insert set name) n, member-insert set name n)

-- `changedMacros`, from a state that it starts with
abbrev changed_from : Macros → MacroSet → Macros → Macros
changed_from state names ms =
    foldl (λ changed n. define_macro changed n (get_macro_value state n)) ms names

is_key-changed_from :
    (state : Macros) (names : MacroSet) (ms : Macros) (n : MacroName)
    → is_key n (changed_from state names ms) ≡ member n names || is_key n ms
unfolding define_macro member
is_key-changed_from state [] ms n = refl
is_key-changed_from state (name ∷ names) ms n = ground (
  arith,
  is_key-changed_from state names (define_macro ms name (get_macro_value state name)) n,
  lookup-assign text_discrete name n (get_macro_value state name) ms,
)

assign-Agrees :
    (state ms : Macros) (name : MacroName)
    → Agrees state ms
    → Agrees state (assign text_discrete name (get_macro_value state name) ms)
unfolding assign
assign-Agrees state [] name h = (refl, tt)
assign-Agrees state ((n, v) ∷ ms) name h = elim (text_discrete name n) [
  | yes e ↦ rw (if_pos _ e) (ap (get_macro_value state) (sym e), h.1)
  | no other ↦ rw (if_neg _ other) (h.0, assign-Agrees state ms name h.1)
]

changed_from-Agrees :
    (state : Macros) (names : MacroSet) (ms : Macros)
    → Agrees state ms
    → Agrees state (changed_from state names ms)
unfolding define_macro
changed_from-Agrees state [] ms h = h
changed_from-Agrees state (name ∷ names) ms h =
    changed_from-Agrees state names _ (assign-Agrees state ms name h)

-- to define macros again as they are changes nothing
get_macro_value-again :
    (ms now state : Macros)
    → ((n : MacroName) → get_macro_value now n ≡ get_macro_value state n)
    → Agrees state ms
    → (n : MacroName)
    → get_macro_value (foldl (λ now m. define_macro now m.0 m.1) now ms) n ≡ get_macro_value state n
unfolding define_macro
get_macro_value-again [] now state same h n = same n
get_macro_value-again ((name, v) ∷ ms) now state same h n =
    get_macro_value-again ms (define_macro now name v) state
      (λ k.
        unfold get_macro_value in
        ground (arith, lookup-assign text_discrete name k v now, same k, h.0))
      h.1 n

-- the two parents cannot be told apart: they used the same macros, in order, with the same values,
-- changed the same ones and include the same headers, and every macro has the same value behind
-- them
pub record SameParent (p q : HeaderCtx × Macros) : Type 0 where
  pub used : p.0.used_here ≡ q.0.used_here
  pub changed : (n : MacroName) → member n p.0.changed_here ≡ member n q.0.changed_here
  pub headers : p.0.headers_here ≡ q.0.headers_here
  pub values : (n : MacroName) → get_macro_value p.1 n ≡ get_macro_value q.1 n

-- an entry that was made of the context
record EntryOf (ctx : HeaderCtx) (state : Macros) (o : CacheEntry) : Type 0 where
  used : o.used ≡ ctx.used_here
  macros : o.macro_state ≡ changed_macros state ctx.changed_here
  headers : o.headers ≡ ctx.headers_here

changed_macros-Agrees :
    (state : Macros) (names : MacroSet) → Agrees state (changed_macros state names)
unfolding changed_macros
changed_macros-Agrees state names = changed_from-Agrees state names [] tt

pub is_key-changed_macros :
    (state : Macros) (names : MacroSet) (n : MacroName)
    → is_key n (changed_macros state names) ≡ member n names
unfolding changed_macros lookup
is_key-changed_macros state names n = ground (arith, is_key-changed_from state names [] n)

propagate-EntryOf :
    (hit ctx parent : HeaderCtx) (state : Macros) (o : CacheEntry)
    → hit.cache_hit ≡ some o
    → ctx.cache_hit ≡ none
    → EntryOf ctx state o
    → SameParent (propagate_to_parent hit parent state) (propagate_to_parent ctx parent state)
unfolding propagate_to_parent
propagate-EntryOf hit ctx parent state o h c e =
    let before = foldl macro_used_with parent ctx.used_here in
    let changed = changed_macros state ctx.changed_here in
    rw (h, c, propagate_to_parent, propagate_macros, included_headers)
      (rw (e.used, e.macros, e.headers)
        (record {
          used = refl;
          changed = λ n. ground (
            arith,
            member-insert_keys changed before.changed_here n,
            member-insert_all ctx.changed_here before.changed_here n,
            is_key-changed_macros state ctx.changed_here n,
          );
          headers = refl;
          values =
              get_macro_value-again changed state state (λ n. refl)
                (changed_macros-Agrees state ctx.changed_here);
        }))

-- the entry that `addToCache` makes of a context
abbrev pub made_entry : Cache → Key → Macros → HeaderCtx → CacheEntry
made_entry cache key state ctx = record {
  key = key;
  used = ctx.used_here;
  macro_state = changed_macros state ctx.changed_here;
  headers = ctx.headers_here;
  last_time_hit = (cache.hits + cache.misses) / 2;
}

pub add_to_cache-made_entry :
    (cache : Cache) (key : Key) (state : Macros) (ctx : HeaderCtx)
    → get_entry ctx.used_here (tree_of cache key) ≡ none
    → (add_to_cache cache key state ctx).1.cache_hit ≡ some (made_entry cache key state ctx)
unfolding add_to_cache add_entry
add_to_cache-made_entry cache key state ctx free =
    rw (free, add_entry)
      (ground (
        arith,
        lookup-assign ℕ_discrete cache.counter cache.counter (made_entry cache key state ctx)
            cache.objects,
      ))

-- When a header's results have just gone into the cache as a new entry, its parent takes them from
-- that entry; it comes out as if there were no cache.
pub propagate-add_to_cache :
    (cache : Cache) (key : Key) (state : Macros) (ctx parent : HeaderCtx)
    → ctx.cache_hit ≡ none
    → get_entry ctx.used_here (tree_of cache key) ≡ none
    → SameParent
        (propagate_to_parent (add_to_cache cache key state ctx).1 parent state)
        (propagate_to_parent ctx parent state)
propagate-add_to_cache cache key state ctx parent c free =
    propagate-EntryOf _ ctx parent state (made_entry cache key state ctx)
      (add_to_cache-made_entry cache key state ctx free) c
      (record { used = refl; macros = refl; headers = refl })
