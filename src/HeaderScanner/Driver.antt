-- ===== src/HeaderScanner/Driver.antt =====
-- `PreprocessingContext` and `Preprocessor::scanHeaders` of Extensions/HeaderScanner/headerScanner_.hpp
-- and headerScanner_.cpp: the search path, the naive run, and the scan by the preprocessor of Clang
-- behind it. What Clang calls is a list of callbacks, and LLVM's path functions are parameters.
pub mod Search
pub mod Scans
use buildpal.Prelude.{
  ℕ, ◌+◌, Bool, true, false, Option, none, some, List, [], ◌∷◌, ◌++◌, length, units, text_discrete,
  ite, if◌then◌else◌,
}
use buildpal.Prelude.Assoc.{Assoc}
use buildpal.HeaderScanner.Cache.{Cache, Headers}
use buildpal.HeaderScanner.Tracker.{HeaderTracker}
use buildpal.HeaderScanner.Conditions.{Token}
use buildpal.HeaderScanner.Callbacks.{Callback, Scan, scan_callbacks}
use buildpal.HeaderScanner.IncludeFinder.{IncludeDirective, RawToken, NaiveCache}
use buildpal.HeaderScanner.Naive.{Found, Run, done, gives_up, no_fuel}
use buildpal.HeaderScanner.Naive

-- `llvm::sys::path`
pub record PathOps : Type 0 where
  pub components : List ℕ → List (List ℕ)
  pub append : List ℕ → List ℕ → List ℕ
  pub remove_filename : List ℕ → List ℕ
  pub native : List ℕ → List ℕ

module _ (os : PathOps) where
  -- `none` where the assertion fails that `result` is not empty
  unfoldable pub add_component : List ℕ → List ℕ → Option (List ℕ)
  add_component result c = ite (text_discrete c (units ".")) (some result) (
      ite (text_discrete c (units ".."))
        (elim result [ [] ↦ none | r ∷ rs ↦ some (os.remove_filename (r ∷ rs)) ])
        (some (os.append result c)))

  unfoldable pub normalize_loop : List ℕ → List (List ℕ) → Option (List ℕ)
  unfolding add_component
  normalize_loop result [] = some result
  normalize_loop result (c ∷ cs) = elim (add_component result c) [
    | none ↦ none
    | some result ↦ normalize_loop result cs
  ]

  unfoldable pub normalize : List ℕ → Option (List ℕ)
  unfolding normalize_loop
  normalize path = elim (normalize_loop [] (os.components path)) [
    | none ↦ none
    | some result ↦ some (os.native result)
  ]

pub record PreprocessingContext : Type 0 where
  pub user_search_path : List (List ℕ)
  pub system_search_path : List (List ℕ)
  pub defines : List (List ℕ × List ℕ)
  pub forced_includes : List (List ℕ)

abbrev pub empty_context : PreprocessingContext
empty_context = record {
  user_search_path = [];
  system_search_path = [];
  defines = [];
  forced_includes = [];
}

unfoldable pub add_include_path :
    PathOps → PreprocessingContext → List ℕ → Bool → Option PreprocessingContext
unfolding normalize
add_include_path os ppc [] sysinclude = some ppc
add_include_path os ppc (c ∷ path) sysinclude = elim (normalize os (c ∷ path)) [
  | none ↦ none
  | some path ↦ some (
      if sysinclude
      then record ppc { system_search_path = ppc.system_search_path ++ (path ∷ []) }
      else record ppc { user_search_path = ppc.user_search_path ++ (path ∷ []) })
]

unfoldable pub add_define : PreprocessingContext → List ℕ → List ℕ → PreprocessingContext
add_define ppc name value = record ppc { defines = ppc.defines ++ ((name, value) ∷ []) }

unfoldable pub add_forced_include : PreprocessingContext → List ℕ → PreprocessingContext
add_forced_include ppc include = record ppc {
  forced_includes = ppc.forced_includes ++ (include ∷ []);
}

-- the lines of `MacroBuilder`
pub data Predefine : Type 0 where
  define_line : List ℕ → List ℕ → Predefine
  append_line : List ℕ → Predefine

unfoldable pub define_lines : List (List ℕ × List ℕ) → List Predefine
define_lines [] = []
define_lines ((name, value) ∷ macros) = define_line name value ∷ define_lines macros

unfoldable pub include_lines : List (List ℕ) → List Predefine
include_lines [] = []
include_lines (include ∷ includes) =
    append_line (units "#include \"" ++ (include ++ units "\"")) ∷ include_lines includes

-- the arguments of `SetSearchPaths`, and `searchPathId`
pub record SearchPath : Type 0 where
  pub dirs : List (List ℕ)
  pub system_dir_idx : ℕ
  pub search_path_id : ℕ

-- `exists` says whether there is such a directory, and `hash_combine` is LLVM's, whose result the
-- code drops
module _ (exists : List ℕ → Bool) (hash_combine : ℕ → List ℕ → ℕ) where
  unfoldable pub add_dirs : List (List ℕ) × ℕ → List (List ℕ) → List (List ℕ) × ℕ
  add_dirs s [] = s
  add_dirs (dirs, id) (path ∷ paths) =
      let dropped = hash_combine id path in
      add_dirs (if exists path then (dirs ++ (path ∷ []), id) else (dirs, id)) paths

  unfoldable pub search_path : PreprocessingContext → SearchPath
  unfolding add_dirs
  search_path ppc =
      let (dirs, id) = add_dirs (add_dirs ([], 0) ppc.user_search_path) ppc.system_search_path in
      record { dirs = dirs; system_dir_idx = length ppc.user_search_path; search_path_id = id }

pub record Statistics : Type 0 where
  pub files_preprocessed_regularly : ℕ
  pub files_preprocessed_naively : ℕ

-- `could_not_find` is the exception; `result` is what is returned
pub data ScanResult : Type 0 where
  could_not_find : ScanResult
  out_of_fuel : ScanResult
  scanned : (result : Bool) → Scan → NaiveCache → Statistics → ScanResult

-- What a scan asks of Clang: the main file, `LookupFile` for a search path, the raw tokens of a
-- file, the name of its directory; the calls of the preprocessor in `EnterMainSourceFile`, with
-- whether a fatal error has occurred behind it; and those in the loop of `LexNonComment` and in
-- `EndSourceFile`.
pub record Clang : Type 0 where
  pub get_file : List ℕ → Option ℕ
  pub look_up : SearchPath → ℕ → IncludeDirective → Option Found
  pub tokens : ℕ → List RawToken
  pub dir_name : ℕ → List ℕ
  pub enter_main_source_file : SearchPath → List Predefine → List Callback × Bool
  pub lex : SearchPath → List Predefine → List Callback
  pub ulong : ℕ → List ℕ
  pub raw_tokens : ℕ → ℕ → List Token

-- behind the naive run
unfoldable pub scan_regularly :
    Clang → SearchPath → PreprocessingContext → List ℕ → Scan → NaiveCache → Statistics → ScanResult
unfolding define_lines include_lines
scan_regularly clang path ppc file_name s cache statistics =
    let lines = define_lines ppc.defines ++ include_lines ppc.forced_includes in
    let (calls, fatal) = clang.enter_main_source_file path lines in
    let t = scan_callbacks clang.ulong clang.raw_tokens path.search_path_id file_name s calls in
    let u =
      scan_callbacks clang.ulong clang.raw_tokens path.search_path_id file_name t
        (clang.lex path lines) in
    if fatal
    then scanned false t cache statistics
    else scanned true u cache (record statistics {
      files_preprocessed_regularly = statistics.files_preprocessed_regularly + 1;
    })

-- the result of the naive run, or the scan that it leaves to Clang
unfoldable pub after_naive_run :
    Clang → SearchPath → PreprocessingContext → List ℕ → Scan → Statistics → Run → ScanResult
unfolding scan_regularly
after_naive_run clang path ppc file_name s statistics no_fuel = out_of_fuel
after_naive_run clang path ppc file_name s statistics (gives_up cache) =
    scan_regularly clang path ppc file_name s cache statistics
after_naive_run clang path ppc file_name s statistics (done naive) =
    scanned true (record s { headers = naive.all_headers }) naive.cache
      (record statistics { files_preprocessed_naively = statistics.files_preprocessed_naively + 1 })

-- `s` has the new tracker, and the headers and missing headers of the caller
unfoldable pub scan_headers :
    Clang
    → (List ℕ → Bool)
    → (ℕ → List ℕ → ℕ)
    → ℕ
    → PreprocessingContext
    → List ℕ
    → Scan
    → NaiveCache
    → Statistics
    → ScanResult
unfolding search_path after_naive_run
scan_headers clang exists hash_combine fuel ppc file_name s cache statistics =
    let path = search_path exists hash_combine ppc in
    elim (clang.get_file file_name) [
      | none ↦ could_not_find
      | some main ↦ after_naive_run clang path ppc file_name s statistics (
          Naive.run (clang.look_up path) clang.tokens clang.dir_name fuel ppc.forced_includes
            file_name main cache)
    ]
