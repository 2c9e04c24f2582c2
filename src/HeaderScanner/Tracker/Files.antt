-- ===== src/HeaderScanner/Tracker/Files.antt =====
-- The callbacks of `HeaderTracker` (Extensions/HeaderScanner/headerTracker_.hpp and
-- headerTracker_.cpp) that enter, leave, replace and skip files.
use buildpal.Prelude.{
  ℕ, Bool, true, false, ◌||◌, ◌&&◌, not, Option, none, some, List, [], ◌∷◌, ◌++◌, foldl, ite, ◌==◌,
  if◌then◌else◌, text_discrete, ℕ_discrete,
}
use buildpal.HeaderScanner.Macros.{MacroName, Macros, undefined_macro_value, get_macro_value}
use buildpal.HeaderScanner.Cache.{Headers, Cache, find_entry, release, is_some}
use buildpal.Prelude.Assoc.{lookup}
use buildpal.HeaderScanner.Context.{
  HeaderCtx, macro_used, add_header, propagate_to_parent, is_viable_for_cache, add_to_cache,
}
use buildpal.HeaderScanner.Conditions.{Token}
use buildpal.HeaderScanner.Tracker.{
  macro_for_pragma_once, use_macros, commit_macros, FileEntry, IncludedHeader, HeaderTracker,
}

pub data Replacement : Type 0 where
  itself empty_file : Replacement
  cached_file : ℕ → Replacement

-- what Clang knows of a header that it skips: is it `#pragma once`, and its include guard
pub record HeaderFileInfo : Type 0 where
  pub is_pragma_once : Bool
  pub controlling_macro : MacroName

-- `makeHeader`
unfoldable pub make_header : IncludedHeader → (List ℕ × List ℕ) × (ℕ × Bool)
make_header h = ((h.dir, h.name), (h.entry.content_entry, h.relative))

abbrev pub has_slash : List ℕ → Bool
has_slash [] = false
has_slash (c ∷ cs) = (c == b'/') || has_slash cs

-- up to the last slash and with it; nothing where there is none
unfoldable pub parent_dir : List ℕ → List ℕ
parent_dir [] = []
parent_dir (c ∷ cs) =
    let rest = parent_dir cs in if has_slash cs then c ∷ rest else if c == b'/' then c ∷ [] else []

-- `ulong` prints a number; `raw_tokens` are the tokens between two source locations
module _ (ulong : ℕ → List ℕ) (raw_tokens : ℕ → ℕ → List Token) (search_path_id : ℕ) where
  unfoldable pub inclusion_directive :
      HeaderTracker → List ℕ → List ℕ → Bool → FileEntry → HeaderTracker
  unfolding commit_macros parent_dir
  inclusion_directive t search_path relative_path is_angled entry =
      let t = commit_macros ulong raw_tokens search_path_id t in
      elim t.file_stack [
        | [] ↦ t
        | h ∷ hs ↦
            let relative =
              not is_angled && ite (text_discrete h.entry.dir_name search_path) true false in
            record t {
              file_stack =
                  record {
                    dir = if relative then h.dir else search_path;
                    name = if relative then parent_dir h.name ++ relative_path else relative_path;
                    relative = relative;
                    entry = entry;
                  }
                  ∷ h
                  ∷ hs;
            }
      ]

  -- `enterFile`, for a file that is on the stack
  unfoldable pub enter_file : HeaderTracker → FileEntry → HeaderTracker
  unfolding macro_for_pragma_once
  enter_file t entry =
      let c : HeaderCtx = record {
        replaced = t.replaced;
        cache_hit = t.cache_hit;
        used_here = [];
        changed_here = [];
        headers_here = [];
      } in
      record t {
        contexts =
            (if is_some t.cache_hit
              then c
              else macro_used t.macro_state c
                  (macro_for_pragma_once ulong raw_tokens search_path_id entry))
            ∷ t.contexts;
        replaced = false;
        cache_hit = none;
      }

  unfoldable pub enter_header : HeaderTracker → HeaderTracker
  unfolding enter_file
  enter_header t = elim t.file_stack [ [] ↦ t | h ∷ hs ↦ enter_file t h.entry ]

  -- `filename( fileName )` of the main file is its last component
  unfoldable pub enter_source_file : HeaderTracker → FileEntry → List ℕ → HeaderTracker
  unfolding enter_file
  enter_source_file t entry file_name =
      enter_file
        (record t {
          file_stack =
              record { dir = entry.dir_name; name = file_name; relative = true; entry = entry }
              ∷ t.file_stack;
        })
        entry

  -- `exitFile`, without the end of the context's life
  unfoldable pub exit_file : IncludedHeader → List HeaderCtx → List HeaderCtx
  exit_file h [] = []
  exit_file h (c ∷ []) = []
  exit_file h (c ∷ p ∷ cs) =
      record p { headers_here = add_header p.headers_here (make_header h) } ∷ cs

  -- the entry that `findEntry` returned
  unfoldable pub use_entry : HeaderTracker → Cache → Option ℕ → HeaderTracker × Replacement
  use_entry t cache none = (record t { cache = some cache; cache_hit = none }, itself)
  use_entry t cache (some e) = (
    record t {
      cache = some cache;
      cache_hit = lookup ℕ_discrete e cache.objects;
      replaced = true;
      used_cache_entries = e ∷ t.used_cache_entries;
    },
    cached_file e,
  )

  unfoldable pub replace_file : HeaderTracker → FileEntry → HeaderTracker × Replacement
  unfolding use_entry macro_for_pragma_once
  replace_file t entry =
      let found : HeaderTracker × Replacement = elim t.cache [
        | none ↦ (t, itself)
        | some cache ↦
            let (cache, e) =
              find_entry t.used_cache_entries cache ((entry.device, entry.file), search_path_id)
                t.macro_state in
            use_entry t cache e
      ] in
      ite
        (text_discrete
          (get_macro_value t.macro_state
            (macro_for_pragma_once ulong raw_tokens search_path_id entry))
          undefined_macro_value)
        found (record t { replaced = true }, empty_file)

  unfoldable pub header_skipped : HeaderTracker → HeaderFileInfo → HeaderTracker
  unfolding use_macros macro_for_pragma_once
  header_skipped t info = elim t.file_stack [
    | [] ↦ t
    | h ∷ hs ↦
        let once = macro_for_pragma_once ulong raw_tokens search_path_id h.entry in
        let t : HeaderTracker = elim t.cache [
          | none ↦ t
          | some cache ↦
              use_macros ulong raw_tokens search_path_id t
                (if info.is_pragma_once then once ∷ [] else once ∷ info.controlling_macro ∷ [])
        ] in
        record t {
          contexts = elim t.contexts [
            | [] ↦ []
            | c ∷ cs ↦ record c { headers_here = add_header c.headers_here (make_header h) } ∷ cs
          ];
          file_stack = hs;
        }
  ]

  -- `addToCache`, if there is a cache and the context is viable
  unfoldable pub store : Option Cache → FileEntry → Macros → HeaderCtx → Option Cache × HeaderCtx
  store none entry state c = (none, c)
  store (some cache) entry state c = elim (is_viable_for_cache c) [
    | false ↦ (some cache, c)
    | true ↦
        let (cache, c) = add_to_cache cache ((entry.device, entry.file), search_path_id) state c in
        (some cache, c)
  ]

  unfoldable pub leave_header : HeaderTracker → HeaderTracker
  unfolding store exit_file
  leave_header t = elim t.file_stack [
    | [] ↦ t
    | h ∷ hs ↦ elim t.contexts [
      | [] ↦ t
      | c ∷ cs ↦ elim cs [
        | [] ↦ t
        | p ∷ ps ↦
            let (cache, c) = store t.cache h.entry t.macro_state c in
            let (p, state) = propagate_to_parent c p t.macro_state in
            record t {
              cache = cache;
              contexts = exit_file h (c ∷ p ∷ ps);
              macro_state = state;
              file_stack = hs;
            }
      ]
    ]
  ]

  -- the headers of the source file, and the tracker without its references to entries
  unfoldable pub exit_source_file : HeaderTracker → Headers × HeaderTracker
  unfolding exit_file
  exit_source_file t = elim t.contexts [
    | [] ↦ ([], t)
    | c ∷ cs ↦ (
      c.headers_here,
      record t {
        cache = elim t.cache [
          | none ↦ none
          | some cache ↦ some (foldl (release []) cache t.used_cache_entries)
        ];
        used_cache_entries = [];
        contexts = elim t.file_stack [ [] ↦ cs | h ∷ hs ↦ exit_file h (c ∷ cs) ];
      },
    )
  ]
