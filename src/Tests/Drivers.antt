-- ===== src/Tests/Drivers.antt =====
-- The theorems on the scan of a whole file, the search path, and the text and the invalidation of
-- cached headers.
use buildpal.Prelude.{
  ℕ, zero, suc, ◌+◌, ◌≡◌, refl, Bool, true, false, none, some, List, [], ◌∷◌, ◌++◌, length, take,
  arith, units, ◌==◌, ℕ_discrete, text_discrete, foldl,
}
use buildpal.Prelude.Assoc.{lookup}
use buildpal.HeaderScanner.Macros.{Macros, undefined_macro_value}
use buildpal.HeaderScanner.CacheTree.{empty_tree, add_at, find}
use buildpal.HeaderScanner.Cache.{key_discrete, Cache, empty_cache, contains, is_some, find_entry}
use buildpal.HeaderScanner.Cache.Invalidate.{invalidate, entry_uses, invalidate-find_entry}
use buildpal.HeaderScanner.Cache.Text.{lines, generate_content}
use buildpal.HeaderScanner.Driver.{
  PathOps, normalize, PreprocessingContext, empty_context, search_path, Clang, Statistics, scanned,
  scan_headers,
}
use buildpal.HeaderScanner.Driver.Search.{present, missing, search_path-dirs}
use buildpal.HeaderScanner.Driver.Scans.{Outcome, naive_run, scan_headers-outcome}
use buildpal.HeaderScanner.Callbacks.{Callback, Scan}
use buildpal.HeaderScanner.Content.{empty_content}
use buildpal.HeaderScanner.Content.Size.{
  IsSized, read, open_file, stat, clear_all, answer, answers-IsSized,
}
use buildpal.HeaderScanner.IncludeFinder.{NaiveCache}
use buildpal.HeaderScanner.Naive.{visited}
use buildpal.HeaderScanner.Naive.Work.{fresh_work}
use buildpal.Tests.Naive.{texts, looks_up, dirs, in_files, cold-IsTrue}
use buildpal.Tests.Headers.{tracker, digit, no_content}

-- one letter is one component, and the letter 0 stands for two dots
abbrev component : ℕ → List ℕ
component zero = units ".."
component (suc c) = suc c ∷ []

abbrev letters : List ℕ → List (List ℕ)
letters [] = []
letters (c ∷ cs) = component c ∷ letters cs

abbrev drop_letter : List ℕ → List ℕ
drop_letter [] = []
drop_letter (c ∷ []) = []
drop_letter (c ∷ d ∷ cs) = c ∷ drop_letter (d ∷ cs)

abbrev letter_ops : PathOps
letter_ops = record {
  components = letters;
  append = λ path c. path ++ c;
  remove_filename = drop_letter;
  native = λ path. path;
}

-- a/.././b
abbrev path : List ℕ
path = b'a' ∷ 0 ∷ b'.' ∷ b'b' ∷ []

normalized : normalize letter_ops path ≡ some (units "b")
unfolding normalize text_discrete
normalized = refl

-- two dots with nothing before them
nothing_before : normalize letter_ops (0 ∷ b'b' ∷ []) ≡ none
unfolding normalize text_discrete
nothing_before = refl

-- one directory of the user is gone
abbrev is_there : List ℕ → Bool
is_there [] = false
is_there (c ∷ cs) = c == b'c'

abbrev hash : ℕ → List ℕ → ℕ
hash id text = id + length text + 1

abbrev ppc : PreprocessingContext
ppc = record empty_context {
  user_search_path = units "d:/u" ∷ units "c:/u" ∷ [];
  system_search_path = units "c:/s" ∷ units "c:/t" ∷ [];
}

search_path-dirs_example :
    (let path = search_path is_there hash ppc in
      let users = present is_there ppc.user_search_path in
      let systems = present is_there ppc.system_search_path in
      (path.dirs ≡ users ++ systems)
      × (take path.system_dir_idx path.dirs
          ≡ users ++ take (missing is_there ppc.user_search_path) systems)
      × (path.search_path_id ≡ 0))
search_path-dirs_example = search_path-dirs is_there hash ppc

counted_as_users : take 2 (search_path is_there hash ppc).dirs ≡ units "c:/u" ∷ units "c:/s" ∷ []
unfolding search_path take
counted_as_users = refl

abbrev clang : Clang
clang = record {
  get_file = λ name. some 1;
  look_up = λ path. looks_up;
  tokens = texts;
  dir_name = dirs;
  enter_main_source_file = λ path lines. ([], false);
  lex = λ path lines. Callback.missing_header (units "b.h") ∷ [];
  ulong = digit;
  raw_tokens = no_content;
}

abbrev first_scan : Scan
first_scan = record { tracker = tracker; headers = []; missing_headers = []; replacements = [] }

abbrev statistics : Statistics
statistics = record { files_preprocessed_regularly = 0; files_preprocessed_naively = 0 }

scan_headers-outcome_example :
    (result : Bool) × (t : Scan) × (c : NaiveCache) × (m : Statistics) × (scan_headers clang
        is_there hash 20 ppc
        (units "a.cpp")
        first_scan
        []
        statistics
      ≡ scanned result t c m)
    × Outcome clang is_there hash ppc first_scan t statistics m result
        (units "b.h")
        (naive_run clang is_there hash 20 ppc (units "a.cpp") 1 [])
scan_headers-outcome_example =
    scan_headers-outcome clang is_there hash (2 ∷ []) 20 ppc (units "a.cpp") first_scan []
      statistics 1 (units "b.h") in_files cold-IsTrue (unfold fresh_work visited in omega arith)
      refl

abbrev state : Macros
state =
    (units "A", units " 1") ∷ (units "F_2", units "(x) x") ∷ (units "B", undefined_macro_value) ∷ []

generated : generate_content state ≡ units "#define A 1\n#define F_2(x) x\n#undef B\n"
unfolding generate_content text_discrete
generated = refl

abbrev warm : Cache
warm = record empty_cache {
  container = (((1, 1), 0), add_at [] 5 empty_tree) ∷ [];
  entries = 5 ∷ [];
  objects =
      (
        5,
        record {
          key = ((1, 1), 0);
          used = [];
          macro_state = [];
          headers = ((units "inc", units "a.h"), (7, false)) ∷ [];
          last_time_hit = 0;
        },
      )
      ∷ [];
  temp_last_time_hit = (5, 3) ∷ [];
}

still_hit :
    (d : ℕ)
    → contains d warm.entries ≡ true
    → entry_uses warm.objects 7 d ≡ true
    → is_some (lookup ℕ_discrete d warm.temp_last_time_hit) ≡ true
unfolding lookup
still_hit d c u = ground arith

stale : (find_entry [] (invalidate [] warm 7) ((1, 1), 0) []).1 ≡ some 5
unfolding find_entry invalidate lookup add_at find key_discrete
stale = refl

invalidate-find_entry_example :
    (find_entry [] (invalidate [] warm 7) ((1, 1), 0) []).1 ≡ (find_entry [] warm ((1, 1), 0) []).1
invalidate-find_entry_example = invalidate-find_entry [] warm 7 ((1, 1), 0) [] still_hit

answers-IsSized_example : IsSized (
    foldl
      (answer (λ path. some 10) (λ e. e.size) (λ path. none))
      empty_content
      (read (units "a.h") ∷ clear_all ∷ stat (units "b.h") ∷ open_file (units "b.h") ∷ []))
answers-IsSized_example =
    answers-IsSized (λ path. some 10) (λ e. e.size) (λ path. none) empty_content
      (read (units "a.h") ∷ clear_all ∷ stat (units "b.h") ∷ open_file (units "b.h") ∷ [])
      (record { counted = refl; bounded = omega arith })
