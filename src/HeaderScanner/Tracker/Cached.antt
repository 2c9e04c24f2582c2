-- ===== src/HeaderScanner/Tracker/Cached.antt =====
-- What a tracker (Extensions/HeaderScanner/headerTracker_.cpp) makes of a header, with a cache and
-- without one, and when it comes again.
use buildpal.Prelude.{
  ℕ, false, ◌≡◌, refl, ap, none, some, List, [], ◌∷◌, arith, text_discrete, units, Bool-cases, inl,
  inr,
}
use buildpal.Prelude.Assoc.{lookup-assign}
use buildpal.HeaderScanner.Macros.{Macros, define_macro, get_macro_value}
use buildpal.HeaderScanner.CacheTree.{get_entry}
use buildpal.HeaderScanner.Cache.{Cache, tree_of}
use buildpal.HeaderScanner.Context.{HeaderCtx, macro_defined, is_viable_for_cache, add_header}
use buildpal.HeaderScanner.Context.Transparent.{SameParent, propagate-add_to_cache}
use buildpal.HeaderScanner.Conditions.{Token}
use buildpal.HeaderScanner.Tracker.{
  HeaderTracker, IncludedHeader, ignores_macros, define_here, pragma_once, macro_for_pragma_once,
}
use buildpal.HeaderScanner.Tracker.Files.{
  empty_file, make_header, exit_file, store, leave_header, replace_file,
}

add_header-SameParent :
    (h : IncludedHeader) (a b : HeaderCtx × Macros)
    → SameParent a b
    → SameParent
        (record a.0 { headers_here = add_header a.0.headers_here (make_header h) }, a.1)
        (record b.0 { headers_here = add_header b.0.headers_here (make_header h) }, b.1)
add_header-SameParent h a b s = record {
  used = s.used;
  changed = s.changed;
  headers = ap (λ hs. add_header hs (make_header h)) s.headers;
  values = s.values;
}

module _ (ulong : ℕ → List ℕ) (raw_tokens : ℕ → ℕ → List Token) (search_path_id : ℕ) where
  pragma_once-get_macro_value :
      (t : HeaderTracker) (h : IncludedHeader) (hs : List IncludedHeader)
      → t.file_stack ≡ h ∷ hs
      → ignores_macros t ≡ false
      → get_macro_value
          (pragma_once ulong raw_tokens search_path_id t).macro_state
          (macro_for_pragma_once ulong raw_tokens search_path_id h.entry)
        ≡ units " 1"
  unfolding pragma_once ignores_macros define_here macro_defined define_macro get_macro_value
  pragma_once-get_macro_value t h hs e listens =
      let name = macro_for_pragma_once ulong raw_tokens search_path_id h.entry in
      ground (arith, lookup-assign text_discrete name name (units " 1") t.macro_state)

  -- After `#pragma once` in a file, that file is replaced by the empty file when it is included.
  pub replace_file-pragma_once :
      (t : HeaderTracker) (h : IncludedHeader) (hs : List IncludedHeader)
      → t.file_stack ≡ h ∷ hs
      → ignores_macros t ≡ false
      → (replace_file ulong raw_tokens search_path_id
          (pragma_once ulong raw_tokens search_path_id t)
          h.entry).1
        ≡ empty_file
  unfolding replace_file pragma_once ignores_macros define_here macro_defined define_macro
      get_macro_value
  replace_file-pragma_once t h hs e listens =
      ground (arith, pragma_once-get_macro_value t h hs e listens)

  -- the tracker's current context and its macros
  abbrev pub top : HeaderTracker → HeaderCtx → HeaderCtx × Macros
  top t d = elim t.contexts [ [] ↦ (d, t.macro_state) | c ∷ cs ↦ (c, t.macro_state) ]

  -- Leaving a header: the header that includes it gets the same from a tracker whose cache takes
  -- the header in as a new entry as from one without a cache.
  pub leave_header-cache :
      (t : HeaderTracker) (h : IncludedHeader) (hs : List IncludedHeader) (c p : HeaderCtx)
      (ps : List HeaderCtx) (cache : Cache)
      → t.file_stack ≡ h ∷ hs
      → t.contexts ≡ c ∷ p ∷ ps
      → c.cache_hit ≡ none
      → get_entry c.used_here (tree_of cache ((h.entry.device, h.entry.file), search_path_id))
        ≡ none
      → SameParent
          (top (leave_header ulong raw_tokens search_path_id (record t { cache = some cache })) p)
          (top (leave_header ulong raw_tokens search_path_id (record t { cache = none })) p)
  unfolding leave_header store exit_file
  leave_header-cache t h hs c p ps cache files chain fresh free =
      rw (files, chain, leave_header)
        (elim (Bool-cases (is_viable_for_cache c)) [
          | inl fits ↦
              rw (fits, store)
                (add_header-SameParent h _ _ (
                  propagate-add_to_cache cache ((h.entry.device, h.entry.file), search_path_id)
                    t.macro_state c p fresh free))
          | inr unfit ↦
              rw (unfit, store)
                (record { used = refl; changed = λ n. refl; headers = refl; values = λ n. refl })
        ])
