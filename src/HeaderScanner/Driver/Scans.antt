-- ===== src/HeaderScanner/Driver/Scans.antt =====
-- What `scanHeaders` (Extensions/HeaderScanner/headerScanner_.cpp) reports.
use buildpal.Prelude.{
  ℕ, suc, ◌+◌, ◌<◌, ◌≡◌, ◌≢◌, length, refl, ◌∙◌, Bool, true, false, not, ◌||◌, ◌&&◌, Bool-cases,
  inl, inr, none, some, List, [], ◌∷◌, ◌++◌, arith, ite, if◌then◌else◌, text_discrete,
}
use buildpal.Prelude.Assoc.{lookup, lookup-insert_new}
use buildpal.HeaderScanner.Cache.{is_some}
use buildpal.HeaderScanner.Callbacks.{Callback, Scan, callback, scan_callbacks}
use buildpal.HeaderScanner.IncludeFinder.{IncludeDirective, NaiveCache}
use buildpal.HeaderScanner.Naive.{Found, Run, done, gives_up, no_fuel, visited}
use buildpal.HeaderScanner.Naive
use buildpal.HeaderScanner.Naive.Closure.{IsTrue}
use buildpal.HeaderScanner.Naive.Work.{fresh_work}
use buildpal.HeaderScanner.Naive.Ends.{run-ends}
use buildpal.HeaderScanner.Conditions.{Token}
use buildpal.HeaderScanner.Driver.{
  PreprocessingContext, Clang, search_path, Statistics, scanned, scan_regularly, after_naive_run,
  scan_headers, define_lines, include_lines,
}

-- Clang reports the name as that of a header that is not found.
abbrev pub is_missing : List ℕ → List Callback → Bool
is_missing name [] = false
is_missing name (Callback.missing_header file ∷ cs) =
    ite (text_discrete name file) true false || is_missing name cs
is_missing name (c ∷ cs) = is_missing name cs

abbrev pub has_missing : Scan → List ℕ → Bool
has_missing s name = is_some (lookup text_discrete name s.missing_headers)

module _ (ulong : ℕ → List ℕ) (raw_tokens : ℕ → ℕ → List Token) (id : ℕ) (file : List ℕ)
    (name : List ℕ) where
  callback-missing :
      (s : Scan) (c : Callback) (cs : List Callback)
      → (has_missing (callback ulong raw_tokens id file s c) name || is_missing name cs)
        ≡ (has_missing s name || is_missing name (c ∷ cs))
  unfolding callback
  callback-missing s (Callback.missing_header f) cs =
      ground (arith, lookup-insert_new text_discrete f name tt s.missing_headers)
  callback-missing s (Callback.undefined_identifier none) cs = refl
  callback-missing s (Callback.undefined_identifier (some m)) cs = refl
  callback-missing s (Callback.enters none main) cs = refl
  callback-missing s (Callback.enters (some f) true) cs = refl
  callback-missing s (Callback.enters (some f) false) cs = refl
  callback-missing s (Callback.exits none) cs = refl
  callback-missing s (Callback.exits (some f)) cs = refl
  callback-missing s (Callback.pragma_directive none) cs = refl
  callback-missing s (Callback.pragma_directive (some word)) cs = ground arith
  callback-missing s c cs = refl

  scan_callbacks-missing :
      (s : Scan) (cs : List Callback)
      → has_missing (scan_callbacks ulong raw_tokens id file s cs) name
        ≡ (has_missing s name || is_missing name cs)
  unfolding scan_callbacks
  scan_callbacks-missing s [] = ground arith
  scan_callbacks-missing s (c ∷ cs) =
      scan_callbacks-missing (callback ulong raw_tokens id file s c) cs ∙ callback-missing s c cs

either_scanned :
    (fatal : Bool) (s u : Scan) (cache : NaiveCache) (n k : Statistics)
    → (result : Bool) × (t : Scan) × (c : NaiveCache) × (m : Statistics) × ((if fatal
          then scanned false s cache n
          else scanned true u cache k)
        ≡ scanned result t c m)
either_scanned true s u cache n k = (false, s, cache, n, refl)
either_scanned false s u cache n k = (true, u, cache, k, refl)

module _ (clang : Clang) (exists : List ℕ → Bool) (hash_combine : ℕ → List ℕ → ℕ) where
  -- what Clang calls behind a naive run that gives up, until the main file is entered, and whether
  -- a fatal error has occurred then; and what it calls afterwards
  abbrev pub entering : PreprocessingContext → List Callback × Bool
  entering ppc =
      clang.enter_main_source_file (search_path exists hash_combine ppc)
        (define_lines ppc.defines ++ include_lines ppc.forced_includes)

  abbrev pub lexing : PreprocessingContext → List Callback
  lexing ppc =
      clang.lex (search_path exists hash_combine ppc)
        (define_lines ppc.defines ++ include_lines ppc.forced_includes)

  abbrev pub naive_run : ℕ → PreprocessingContext → List ℕ → ℕ → NaiveCache → Run
  naive_run fuel ppc file_name main cache =
      Naive.run (clang.look_up (search_path exists hash_combine ppc)) clang.tokens clang.dir_name
        fuel ppc.forced_includes file_name main cache

  -- what is reported behind a naive run
  abbrev pub Outcome :
      PreprocessingContext → Scan → Scan → Statistics → Statistics → Bool → List ℕ → Run → Type 0
  Outcome ppc s t n m result name no_fuel = ⊥
  Outcome ppc s t n m result name (done naive) =
      (result ≡ true)
      × (t.headers ≡ naive.all_headers)
      × (has_missing t name ≡ has_missing s name)
      × (m.files_preprocessed_regularly ≡ n.files_preprocessed_regularly)
      × (m.files_preprocessed_naively ≡ n.files_preprocessed_naively + 1)
  Outcome ppc s t n m result name (gives_up given) =
      (result ≡ not (entering ppc).1)
      × (has_missing t name ≡ (
          has_missing s name
          || (is_missing name (entering ppc).0
              || (not (entering ppc).1 && is_missing name (lexing ppc)))))
      × (m.files_preprocessed_regularly
          ≡ n.files_preprocessed_regularly + (if (entering ppc).1 then 0 else 1))
      × (m.files_preprocessed_naively ≡ n.files_preprocessed_naively)

  after_naive_run-scanned :
      (r : Run) (ppc : PreprocessingContext) (file_name : List ℕ) (s : Scan) (n : Statistics)
      → r ≢ no_fuel
      → (result : Bool) × (t : Scan) × (c : NaiveCache) × (m : Statistics) × (after_naive_run clang
            (search_path exists hash_combine ppc)
            ppc
            file_name
            s
            n
            r
          ≡ scanned result t c m)
  unfolding after_naive_run scan_regularly
  after_naive_run-scanned no_fuel ppc file_name s n h = absurd (h refl)
  after_naive_run-scanned (done naive) ppc file_name s n h = (true, _, _, _, refl)
  after_naive_run-scanned (gives_up given) ppc file_name s n h =
      either_scanned (entering ppc).1 _ _ _ _ _

  after_naive_run-Outcome :
      (r : Run) (ppc : PreprocessingContext) (file_name : List ℕ) (s t : Scan) (c : NaiveCache)
      (n m : Statistics) (result : Bool) (name : List ℕ)
      → after_naive_run clang (search_path exists hash_combine ppc) ppc file_name s n r
        ≡ scanned result t c m
      → Outcome ppc s t n m result name r
  unfolding after_naive_run scan_regularly
  after_naive_run-Outcome no_fuel ppc file_name s t c n m result name e = absurd (ground arith)
  after_naive_run-Outcome (done naive) ppc file_name s t c n m result name e =
      (ground arith, ground arith, ground arith, ground arith, ground arith)
  after_naive_run-Outcome (gives_up given) ppc file_name s t c n m result name e =
      let path = search_path exists hash_combine ppc in
      let missed =
        scan_callbacks-missing clang.ulong clang.raw_tokens path.search_path_id file_name name s
          (entering ppc).0 in
      let entered =
        scan_callbacks clang.ulong clang.raw_tokens path.search_path_id file_name s
          (entering ppc).0 in
      let later =
        scan_callbacks-missing clang.ulong clang.raw_tokens path.search_path_id file_name name
          entered (lexing ppc) in
      elim (Bool-cases (entering ppc).1) [
        | inl fatal ↦ (ground arith, ground (arith, missed), ground arith, ground arith)
        | inr fine ↦ (ground arith, ground (arith, missed, later), ground arith, ground arith)
      ]

  -- A scan of a file that is there comes to its end, with fuel for the tokens of the main file and
  -- of every file that can be found, if the naive cache is right about the files that it knows to
  -- be simple. If the naive run comes to its end, its headers are the result, and the missing
  -- headers are those of before. If it gives up, the missing headers are those of before and those
  -- that Clang reports. The scan fails, and is not counted, exactly if a fatal error has occurred
  -- when the main file is entered; what Clang reports behind that is not looked at then, and a
  -- fatal error that occurs later makes no difference to the result.
  pub scan_headers-outcome :
      (files : List ℕ) (fuel : ℕ) (ppc : PreprocessingContext) (file_name : List ℕ) (s : Scan)
      (cache : NaiveCache) (n : Statistics) (main : ℕ) (name : List ℕ)
      → ((file : ℕ) (d : IncludeDirective) (f : Found)
          → clang.look_up (search_path exists hash_combine ppc) file d ≡ some f
          → visited f.file files ≡ true)
      → IsTrue
          (clang.look_up (search_path exists hash_combine ppc))
          clang.tokens
          clang.dir_name
          cache
      → suc (length (clang.tokens main))
          + fresh_work
              (clang.look_up (search_path exists hash_combine ppc))
              clang.tokens
              clang.dir_name
              []
              files
        < fuel
      → clang.get_file file_name ≡ some main
      → (result : Bool) × (t : Scan) × (c : NaiveCache) × (m : Statistics) × (scan_headers clang
            exists hash_combine fuel ppc file_name s cache n
          ≡ scanned result t c m)
        × Outcome ppc s t n m result name (naive_run fuel ppc file_name main cache)
  unfolding scan_headers
  scan_headers-outcome files fuel ppc file_name s cache n main name known truth enough found =
      let path = search_path exists hash_combine ppc in
      let ends =
        run-ends (clang.look_up path) clang.tokens clang.dir_name files known fuel
          ppc.forced_includes file_name main cache truth enough in
      let r = naive_run fuel ppc file_name main cache in
      let (result, t, c, m, e) = after_naive_run-scanned r ppc file_name s n ends in
      (
        result,
        t,
        c,
        m,
        ground (arith, e, found),
        after_naive_run-Outcome r ppc file_name s t c n m result name e,
      )
