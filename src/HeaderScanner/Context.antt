-- ===== src/HeaderScanner/Context.antt =====
-- `HeaderCtx` of Extensions/HeaderScanner/headerTracker_.hpp and headerTracker_.cpp: what is known
-- of a header while it is preprocessed. The macro state is the tracker's, and is passed along.
pub mod Transparent
pub mod Records
pub mod Recorded
use buildpal.Prelude.{
  ℕ, Bool, true, false, ◌||◌, ◌≡◌, Option, none, some, List, [], ◌∷◌, foldl, ite, length, ltb, not,
  if◌then◌else◌, text_discrete, ℕ_discrete,
}
use buildpal.Prelude.Assoc.{Assoc, lookup, insert_new}
use buildpal.HeaderScanner.Macros.{
  MacroName, MacroValue, Macros, define_macro, undefine_macro, get_macro_value, add_macro,
}
use buildpal.HeaderScanner.Cache.{Headers, Key, CacheEntry, Cache, add_entry, contains}

-- `Header`'s order looks at the directory and the name
unfoldable pub name_discrete : Discrete (List ℕ × List ℕ)
unfolding text_discrete
name_discrete = hlevel text_discrete

abbrev pub MacroSet : Type 0
MacroSet = List MacroName

unfoldable pub member : MacroName → MacroSet → Bool
member name [] = false
member name (n ∷ ns) = let rest = member name ns in ite (text_discrete name n) true rest

unfoldable pub insert : MacroSet → MacroName → MacroSet
insert set name = if member name set then set else name ∷ set

-- `replaced` tells whether `replacement_` is not 0
pub record HeaderCtx : Type 0 where
  pub replaced : Bool
  pub cache_hit : Option CacheEntry
  pub used_here : Macros
  pub changed_here : MacroSet
  pub headers_here : Headers

-- `macroUsed( macroName, macroValue )`
unfoldable pub macro_used_with : HeaderCtx → MacroName × MacroValue → HeaderCtx
macro_used_with ctx (name, value) =
    if member name ctx.changed_here
    then ctx
    else record ctx { used_here = (add_macro ctx.used_here name (λ _. value)).0 }

-- `macroUsed( macroName )`
unfoldable pub macro_used : Macros → HeaderCtx → MacroName → HeaderCtx
macro_used state ctx name =
    if member name ctx.changed_here
    then ctx
    else record ctx { used_here = (add_macro ctx.used_here name (get_macro_value state)).0 }

unfoldable pub macro_defined : Macros → HeaderCtx → MacroName → MacroValue → HeaderCtx × Macros
macro_defined state ctx name value =
    (record ctx { changed_here = insert ctx.changed_here name }, define_macro state name value)

unfoldable pub macro_undefined : Macros → HeaderCtx → MacroName → HeaderCtx × Macros
macro_undefined state ctx name =
    (record ctx { changed_here = insert ctx.changed_here name }, undefine_macro state name)

unfoldable pub add_header : Headers → (List ℕ × List ℕ) × (ℕ × Bool) → Headers
add_header headers (name, content) = insert_new name_discrete name content headers

unfoldable pub included_headers : HeaderCtx → Headers
included_headers ctx = elim ctx.cache_hit [ none ↦ ctx.headers_here | some e ↦ e.headers ]

-- the macros that a header used and those that it changed, for its parent
unfoldable pub propagate_macros : HeaderCtx → HeaderCtx → Macros → HeaderCtx × Macros
propagate_macros ctx parent state = elim ctx.cache_hit [
  | some e ↦
      let parent = foldl macro_used_with parent e.used in
      (
        record parent {
          changed_here = foldl (λ set m. insert set m.0) parent.changed_here e.macro_state;
        },
        foldl (λ state m. define_macro state m.0 m.1) state e.macro_state,
      )
  | none ↦
      let parent = foldl macro_used_with parent ctx.used_here in
      (record parent { changed_here = foldl insert parent.changed_here ctx.changed_here }, state)
]

unfoldable pub propagate_to_parent : HeaderCtx → HeaderCtx → Macros → HeaderCtx × Macros
unfolding propagate_macros included_headers
propagate_to_parent ctx parent state =
    let (parent, state) = propagate_macros ctx parent state in
    (
      record parent { headers_here = foldl add_header parent.headers_here (included_headers ctx) },
      state,
    )

-- Only headers without overridden content, that use fewer than 1024 macros.
unfoldable pub is_viable_for_cache : HeaderCtx → Bool
is_viable_for_cache ctx = if ctx.replaced then false else ltb (length ctx.used_here) 1024

-- the macros that were changed, with their values
unfoldable pub changed_macros : Macros → MacroSet → Macros
changed_macros state names =
    foldl (λ changed n. define_macro changed n (get_macro_value state n)) [] names

-- The entry that `addEntry` returns is the cache hit of the context from then on.
unfoldable pub add_to_cache : Cache → Key → Macros → HeaderCtx → Cache × HeaderCtx
unfolding changed_macros
add_to_cache cache key state ctx =
    let (cache, e) =
      add_entry cache key ctx.used_here (changed_macros state ctx.changed_here) ctx.headers_here in
    (cache, record ctx { cache_hit = lookup ℕ_discrete e cache.objects })
