-- ===== src/HeaderScanner/Context/Records.antt =====
-- What one step of a header leaves recorded in its context
-- (Extensions/HeaderScanner/headerTracker_.hpp).
use buildpal.Prelude.{
  false, ◌≡◌, refl, sym, ◌∙◌, none, some, [], ◌∷◌, foldl, arith, text_discrete, All-append,
  Bool-cases, Option-cases, inl, inr,
}
use buildpal.Prelude.Assoc.{lookup, lookup-assign}
use buildpal.HeaderScanner.Macros.{
  MacroName, MacroValue, Macros, define_macro, get_macro_value, add_macro, Agrees,
}
use buildpal.HeaderScanner.Context.{
  member, insert, HeaderCtx, propagate_macros, propagate_to_parent, add_to_cache, macro_used,
  macro_used_with,
}
use buildpal.HeaderScanner.Context.Transparent.{
  member-insert, member-insert_all, is_key, member-insert_keys, is_key-changed_macros, made_entry,
  add_to_cache-made_entry,
}
use buildpal.HeaderScanner.CacheTree.{get_entry}
use buildpal.HeaderScanner.Cache.{Cache, Key, CacheEntry, tree_of}

-- the context of a header, as far as it has come, against the macro state at its beginning: what it
-- is said to have used had these values then, and what it is not said to have changed has the value
-- that it had then
pub record IsRecorded (start : Macros) (p : HeaderCtx × Macros) : Type 0 where
  pub uncached : p.0.cache_hit ≡ none
  pub used : Agrees start p.0.used_here
  pub unchanged :
      (n : MacroName)
      → member n p.0.changed_here ≡ false
      → get_macro_value p.1 n ≡ get_macro_value start n

abbrev pub enter : HeaderCtx
enter = record {
  replaced = false;
  cache_hit = none;
  used_here = [];
  changed_here = [];
  headers_here = [];
}

add_macro-Agrees :
    (start ms : Macros) (name : MacroName) (getter : MacroName → MacroValue)
    → Agrees start ms
    → get_macro_value start name ≡ getter name
    → Agrees start (add_macro ms name getter).0
unfolding add_macro
add_macro-Agrees start ms name getter h e = elim (Option-cases (lookup text_discrete name ms)) [
  | inl new ↦ rw (new, add_macro) (All-append _ ms _ h (e, tt))
  | inr (v, known) ↦ rw (known, add_macro) h
]

pub macro_used-IsRecorded :
    (start : Macros) (ctx : HeaderCtx) (state : Macros) (name : MacroName)
    → IsRecorded start (ctx, state)
    → IsRecorded start (macro_used state ctx name, state)
unfolding macro_used
macro_used-IsRecorded start ctx state name h = elim (Bool-cases (member name ctx.changed_here)) [
  | inl here ↦ rw (here, macro_used) h
  | inr elsewhere ↦
      rw (elsewhere, macro_used)
        (record {
          uncached = h.uncached;
          used =
              add_macro-Agrees start ctx.used_here name (get_macro_value state) h.used
                (sym (h.unchanged name elsewhere));
          unchanged = h.unchanged;
        })
]

pub changed-IsRecorded :
    (start : Macros) (ctx : HeaderCtx) (state : Macros) (name : MacroName) (value : MacroValue)
    → IsRecorded start (ctx, state)
    → IsRecorded start
        (record ctx { changed_here = insert ctx.changed_here name }, define_macro state name value)
unfolding define_macro get_macro_value
changed-IsRecorded start ctx state name value h = record {
  uncached = h.uncached;
  used = h.used;
  unchanged = λ n e. ground (
    arith,
    member-insert ctx.changed_here name n,
    lookup-assign text_discrete name n value state,
    h.unchanged n,
  );
}

macro_used_with-changed_here :
    (ctx : HeaderCtx) (m : MacroName × MacroValue)
    → ((macro_used_with ctx m).changed_here ≡ ctx.changed_here)
      × ((macro_used_with ctx m).cache_hit ≡ ctx.cache_hit)
unfolding macro_used_with
macro_used_with-changed_here ctx (name, value) = ground arith

macro_used_with-IsRecorded :
    (start here : Macros) (ctx : HeaderCtx) (name : MacroName) (value : MacroValue)
    → IsRecorded start (ctx, here)
    → get_macro_value here name ≡ value
    → IsRecorded start (macro_used_with ctx (name, value), here)
unfolding macro_used_with
macro_used_with-IsRecorded start here ctx name value h e =
    elim (Bool-cases (member name ctx.changed_here)) [
      | inl inside ↦ rw (inside, macro_used_with) h
      | inr elsewhere ↦
          rw (elsewhere, macro_used_with)
            (record {
              uncached = h.uncached;
              used =
                  add_macro-Agrees start ctx.used_here name (λ _. value) h.used
                    (sym (h.unchanged name elsewhere) ∙ e);
              unchanged = h.unchanged;
            })
    ]

-- what an included header used, in the state in which it was included
uses-IsRecorded :
    (start here : Macros) (ms : Macros) (ctx : HeaderCtx)
    → IsRecorded start (ctx, here)
    → Agrees here ms
    → IsRecorded start (foldl macro_used_with ctx ms, here)
      × ((foldl macro_used_with ctx ms).changed_here ≡ ctx.changed_here)
uses-IsRecorded start here [] ctx h a = (h, refl)
uses-IsRecorded start here ((name, value) ∷ ms) ctx h a =
    let (rest, same) =
      uses-IsRecorded start here ms (macro_used_with ctx (name, value))
        (macro_used_with-IsRecorded start here ctx name value h a.0) a.1 in
    (rest, same ∙ (macro_used_with-changed_here ctx (name, value)).0)

pub propagate-IsRecorded :
    (start here after : Macros) (ctx parent : HeaderCtx)
    → IsRecorded start (parent, here)
    → IsRecorded here (ctx, after)
    → IsRecorded start (propagate_to_parent ctx parent after)
unfolding propagate_to_parent
propagate-IsRecorded start here after ctx parent hp hc =
    let (uses, same) = uses-IsRecorded start here ctx.used_here parent hp hc.used in
    rw (hc.uncached, propagate_to_parent, propagate_macros)
      (record {
        uncached = uses.uncached;
        used = uses.used;
        unchanged = λ n e. ground (
          arith,
          member-insert_all ctx.changed_here
              (foldl macro_used_with parent ctx.used_here).changed_here n,
          hc.unchanged n,
          uses.unchanged n,
        );
      })

-- the macros that an entry lists are the only ones that it changes
define_all-other :
    (ms state : Macros) (n : MacroName)
    → is_key n ms ≡ false
    → get_macro_value (foldl (λ state m. define_macro state m.0 m.1) state ms) n
      ≡ get_macro_value state n
unfolding define_macro get_macro_value lookup
define_all-other [] state n h = refl
define_all-other ((name, value) ∷ ms) state n h = ground (
  arith,
  define_all-other ms (define_macro state name value) n,
  lookup-assign text_discrete name n value state,
)

pub propagate_hit-IsRecorded :
    (start here after : Macros) (ctx parent : HeaderCtx) (e : CacheEntry)
    → ctx.cache_hit ≡ some e
    → Agrees here e.used
    → ((n : MacroName)
        → is_key n e.macro_state ≡ false
        → get_macro_value after n ≡ get_macro_value here n)
    → IsRecorded start (parent, here)
    → IsRecorded start (propagate_to_parent ctx parent after)
unfolding propagate_to_parent
propagate_hit-IsRecorded start here after ctx parent e hit agrees same hp =
    let (uses, kept) = uses-IsRecorded start here e.used parent hp agrees in
    rw (hit, propagate_to_parent, propagate_macros)
      (record {
        uncached = uses.uncached;
        used = uses.used;
        unchanged = λ n u. ground (
          arith,
          member-insert_keys e.macro_state (foldl macro_used_with parent e.used).changed_here n,
          define_all-other e.macro_state after n,
          same n,
          uses.unchanged n,
        );
      })

pub propagate_cached-IsRecorded :
    (start here after : Macros) (ctx parent : HeaderCtx) (cache : Cache) (key : Key)
    → get_entry ctx.used_here (tree_of cache key) ≡ none
    → IsRecorded start (parent, here)
    → IsRecorded here (ctx, after)
    → IsRecorded start (propagate_to_parent (add_to_cache cache key after ctx).1 parent after)
propagate_cached-IsRecorded start here after ctx parent cache key free hp hc =
    propagate_hit-IsRecorded start here after _ parent (made_entry cache key after ctx)
      (add_to_cache-made_entry cache key after ctx free) hc.used
      (λ n k. hc.unchanged n (sym (is_key-changed_macros after ctx.changed_here n) ∙ k)) hp
