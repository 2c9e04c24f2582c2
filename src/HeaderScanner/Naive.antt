-- ===== src/HeaderScanner/Naive.antt =====
-- The naive preprocessor of Extensions/HeaderScanner/naivePreprocessor_.cpp: it follows every
-- `#include` of a file, whatever the conditions around it, and gives up where the file's name is not
-- written out. A file is a number, which stands for its `FileEntry` and for its unique id.
pub mod Includes
pub mod Closure
pub mod Visited
pub mod Complete
pub mod Work
pub mod Ends
pub mod Handled
pub mod Steps
pub mod Named
pub mod Reported
pub mod Reaches
use buildpal.Prelude.{
  ℕ, zero, suc, Bool, true, false, not, ◌&&◌, ◌||◌, ◌==◌, Option, none, some, List, [], ◌∷◌, ◌++◌,
  ite, if◌then◌else◌, text_discrete, ℕ_discrete,
}
use buildpal.Prelude.Assoc.{lookup, insert_new}
use buildpal.HeaderScanner.Cache.{Headers}
use buildpal.HeaderScanner.Context.{name_discrete}
use buildpal.HeaderScanner.IncludeFinder.{
  IncludeDirective, RawToken, NaiveCacheEntry, NaiveCache, mark_complex, store, in_text,
  include_found, header_done, header_complex, next_include, IncludeFinder, fixed, lexing,
}

-- `Header` without its content entry, which is that of `file`
pub record HeaderCtx : Type 0 where
  pub dir : List ℕ
  pub name : List ℕ
  pub relative : Bool
  pub include_finder : IncludeFinder
  pub file : ℕ

-- the stack has its back first
pub record NaiveState : Type 0 where
  pub header_stack : List HeaderCtx
  pub already_visited : List ℕ
  pub all_headers : Headers
  pub cache : NaiveCache

unfoldable pub visited : ℕ → List ℕ → Bool
visited file [] = false
visited file (f ∷ files) = (file == f) || visited file files

-- up to the last slash and with it
unfoldable pub name_prefix : List ℕ → List ℕ
name_prefix [] = []
name_prefix (c ∷ cs) =
    let rest = name_prefix cs in
    elim rest [ r ∷ rs ↦ c ∷ r ∷ rs | [] ↦ if c == b'/' then c ∷ [] else [] ]

-- what `LookupFile` finds
pub record Found : Type 0 where
  pub file : ℕ
  pub search_path : List ℕ
  pub relative_path : List ℕ

-- how the run ends: with the headers, or with no result, for the caller to preprocess the file
pub data Run : Type 0 where
  done : NaiveState → Run
  gives_up : NaiveCache → Run
  no_fuel : Run

unfoldable pub mark_all : List HeaderCtx → NaiveCache → NaiveCache
unfolding mark_complex
mark_all [] cache = cache
mark_all (c ∷ cs) cache = mark_complex c.file (mark_all cs cache)

-- `look_up` is `HeaderSearch::LookupFile` for a directive in a file, `tokens` are those of a file, and
-- `dir_name` is the name of its directory
module _ (look_up : ℕ → IncludeDirective → Option Found) (tokens : ℕ → List RawToken)
    (dir_name : ℕ → List ℕ) where
  -- `pushHeader`
  unfoldable pub finder_for : Option NaiveCacheEntry → ℕ → IncludeFinder
  finder_for none file = lexing (tokens file) []
  finder_for (some e) file = fixed e.includes

  -- the header for a file that is found
  unfoldable pub header_for : HeaderCtx → Bool → Found → Option NaiveCacheEntry → HeaderCtx
  unfolding finder_for name_prefix
  header_for parent angled f entry =
      let relative =
        not angled && ite (text_discrete (dir_name parent.file) f.search_path) true false in
      record {
        dir = if relative then parent.dir else f.search_path;
        name = if relative then name_prefix parent.name ++ f.relative_path else f.relative_path;
        relative = relative;
        include_finder = finder_for entry f.file;
        file = f.file;
      }

  -- `none` is `false`; `top` is the back of the stack
  unfoldable pub enter_found : NaiveState → HeaderCtx → Bool → Found → Option NaiveState
  unfolding header_for
  enter_found s top angled f =
      let entered = λ (entry : Option NaiveCacheEntry). record s {
        header_stack = header_for top angled f entry ∷ s.header_stack;
        already_visited = f.file ∷ s.already_visited;
      } in
      elim (lookup ℕ_discrete f.file s.cache) [
        | none ↦ some (entered none)
        | some e ↦ elim e.complex [ true ↦ none | false ↦ some (entered (some e)) ]
      ]

  unfoldable pub handle_include : NaiveState → HeaderCtx → IncludeDirective → Option NaiveState
  unfolding enter_found visited
  handle_include s top d = elim (look_up top.file d) [
    | none ↦ some s
    | some f ↦ elim (visited f.file s.already_visited) [
      | true ↦ some s
      | false ↦ enter_found s top d.is_angled f
    ]
  ]

  -- `popHeader`: the last header on the stack, the main file, is not reported
  unfoldable pub pop_header : NaiveState → HeaderCtx → List HeaderCtx → NaiveState
  pop_header s top [] = record s { header_stack = [] }
  pop_header s top (c ∷ cs) = record s {
    header_stack = c ∷ cs;
    all_headers =
        insert_new name_discrete (top.dir, top.name) (top.file, top.relative) s.all_headers;
  }

  -- `nextInclude`: the directive and the finder behind it, the end, or a complex header
  pub data Asked : Type 0 where
    found : IncludeDirective → IncludeFinder → Asked
    ended : NaiveCache → Asked
    complex_header : Asked

  unfoldable pub ask : IncludeFinder → ℕ → NaiveCache → Asked
  unfolding next_include store
  ask (fixed []) file cache = ended cache
  ask (fixed (d ∷ ds)) file cache = found d (fixed ds)
  ask (lexing ts includes) file cache = elim (next_include in_text ts) [
    | include_found d rest ↦ found d (lexing rest (includes ++ d ∷ []))
    | header_done ↦ ended (store file includes cache)
    | header_complex ↦ complex_header
  ]

  -- `while ( !headerStack_.empty() )`
  unfoldable pub run_loop : ℕ → NaiveState → Run
  unfolding ask handle_include pop_header mark_all
  run_loop zero s = no_fuel
  run_loop (suc fuel) s = elim s.header_stack [
    | [] ↦ done s
    | top ∷ rest ↦ elim (ask top.include_finder top.file s.cache) [
      | found d finder ↦
          let top = record top { include_finder = finder } in
          elim (handle_include (record s { header_stack = top ∷ rest }) top d) [
            | none ↦ gives_up s.cache
            | some s ↦ run_loop fuel s
          ]
      | ended cache ↦ run_loop fuel (pop_header (record s { cache = cache }) top rest)
      | complex_header ↦ gives_up (mark_all (top ∷ rest) s.cache)
    ]
  ]

  -- the loop over the forced includes, each seen from the back of the stack
  unfoldable pub force_includes : List (List ℕ) → NaiveState → Option NaiveState
  unfolding handle_include
  force_includes [] s = some s
  force_includes (include ∷ includes) s = elim s.header_stack [
    | [] ↦ some s
    | top ∷ rest ↦ elim (handle_include s top (record { filename = include; is_angled = false })) [
      | none ↦ none
      | some s ↦ force_includes includes s
    ]
  ]

  -- the state with the main file on the stack
  unfoldable pub start : List ℕ → ℕ → NaiveCache → NaiveState
  start main_name main cache = record {
    header_stack =
        record {
          dir = dir_name main;
          name = main_name;
          relative = true;
          include_finder = lexing (tokens main) [];
          file = main;
        }
        ∷ [];
    already_visited = [];
    all_headers = [];
    cache = cache;
  }

  unfoldable pub run : ℕ → List (List ℕ) → List ℕ → ℕ → NaiveCache → Run
  unfolding start force_includes run_loop
  run fuel forced main_name main cache = elim (force_includes forced (start main_name main cache)) [
    | none ↦ gives_up cache
    | some s ↦ run_loop fuel s
  ]
