-- ===== src/HeaderScanner/Context/Recorded.antt =====
-- What a context (Extensions/HeaderScanner/headerTracker_.hpp) has recorded of a header, with the
-- headers that it includes.
use buildpal.Prelude.{◌≡◌, refl, none, some}
use buildpal.HeaderScanner.Macros.{MacroName, MacroValue, Macros, undefine_macro, Agrees}
use buildpal.HeaderScanner.Context.{
  HeaderCtx, propagate_to_parent, add_to_cache, macro_used, macro_defined, macro_undefined,
}
use buildpal.HeaderScanner.CacheTree.{get_entry}
use buildpal.HeaderScanner.Cache.{Cache, Key, CacheEntry, tree_of}
use buildpal.HeaderScanner.Context.Records.{
  IsRecorded, enter, macro_used-IsRecorded, changed-IsRecorded, propagate-IsRecorded,
  propagate_hit-IsRecorded, propagate_cached-IsRecorded,
}

-- What the preprocessor reports of a header: the macros that are used, defined and undefined, and
-- the headers that are included. An included header that is read is left with or without going into
-- the cache; one that the cache has is not read, and its entry was found in the present state.
pub data Run : HeaderCtx × Macros → HeaderCtx × Macros → Type 0 where
  begin : {p : HeaderCtx × Macros} → Run p p
  used :
      {p : HeaderCtx × Macros} {ctx : HeaderCtx} {state : Macros} (name : MacroName)
      → Run p (ctx, state)
      → Run p (macro_used state ctx name, state)
  defined :
      {p : HeaderCtx × Macros} {ctx : HeaderCtx} {state : Macros} (name : MacroName)
      (value : MacroValue)
      → Run p (ctx, state)
      → Run p (macro_defined state ctx name value)
  undefined :
      {p : HeaderCtx × Macros} {ctx : HeaderCtx} {state : Macros} (name : MacroName)
      → Run p (ctx, state)
      → Run p (macro_undefined state ctx name)
  uncached :
      {p : HeaderCtx × Macros} {parent ctx : HeaderCtx} {here after : Macros}
      → Run p (parent, here)
      → Run (enter, here) (ctx, after)
      → Run p (propagate_to_parent ctx parent after)
  cached :
      {p : HeaderCtx × Macros} {parent ctx : HeaderCtx} {here after : Macros} (cache : Cache)
      (key : Key)
      → get_entry ctx.used_here (tree_of cache key) ≡ none
      → Run p (parent, here)
      → Run (enter, here) (ctx, after)
      → Run p (propagate_to_parent (add_to_cache cache key after ctx).1 parent after)
  hit :
      {p : HeaderCtx × Macros} {parent : HeaderCtx} {here : Macros} (e : CacheEntry)
      → Agrees here e.used
      → Run p (parent, here)
      → Run p (propagate_to_parent (record enter { cache_hit = some e }) parent here)

enter-IsRecorded : (start : Macros) → IsRecorded start (enter, start)
enter-IsRecorded start = record { uncached = refl; used = tt; unchanged = λ n e. refl }

-- Whatever a header and the headers that it includes use, define and undefine, in whatever order,
-- and whether an included header stays out of the cache, goes into it as a new entry, or is taken
-- from an entry whose macros have the values of the state: the macros that its context lists as used
-- had the listed values where the header begins, and a macro that it does not list as changed still
-- has its value from there.
pub Run-IsRecorded :
    (start : Macros) (p q : HeaderCtx × Macros) → Run p q → IsRecorded start p → IsRecorded start q
unfolding macro_defined macro_undefined undefine_macro
Run-IsRecorded start p _ begin h = h
Run-IsRecorded start p _ (used {ctx = ctx} {state = state} name r) h =
    macro_used-IsRecorded start ctx state name (Run-IsRecorded start p _ r h)
Run-IsRecorded start p _ (defined {ctx = ctx} {state = state} name value r) h =
    changed-IsRecorded start ctx state name value (Run-IsRecorded start p _ r h)
Run-IsRecorded start p _ (undefined {ctx = ctx} {state = state} name r) h =
    changed-IsRecorded start ctx state name _ (Run-IsRecorded start p _ r h)
Run-IsRecorded start p _
      (uncached {parent = parent} {ctx = ctx} {here = here} {after = after} r inner) h =
    propagate-IsRecorded start here after ctx parent (Run-IsRecorded start p _ r h)
      (Run-IsRecorded here _ _ inner (enter-IsRecorded here))
Run-IsRecorded start p _
      (cached {parent = parent} {ctx = ctx} {here = here} {after = after} cache key free r inner)
      h =
    propagate_cached-IsRecorded start here after ctx parent cache key free
      (Run-IsRecorded start p _ r h) (Run-IsRecorded here _ _ inner (enter-IsRecorded here))
Run-IsRecorded start p _ (hit {parent = parent} {here = here} e agrees r) h =
    propagate_hit-IsRecorded start here here _ parent e refl agrees (λ n k. refl)
      (Run-IsRecorded start p _ r h)
