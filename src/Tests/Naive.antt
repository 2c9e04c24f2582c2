-- ===== src/Tests/Naive.antt =====
-- A source file that includes a header, for Extensions/HeaderScanner/naivePreprocessor_.cpp.
use buildpal.Prelude.{
  ℕ, true, false, ◌≡◌, ◌≢◌, ◌⊎◌, refl, Option, some, List, [], ◌∷◌, arith, units, text_discrete,
  take, drop,
}
use buildpal.Prelude.Assoc.{lookup}
use buildpal.HeaderScanner.IncludeFinder.{
  IncludeDirective, RawToken, hash, raw_identifier, string_literal, other, in_text, directive,
  NaiveCache,
}
use buildpal.HeaderScanner.Naive.{NaiveState, Found, done, gives_up, no_fuel, visited, run}
use buildpal.HeaderScanner.Naive.Includes.{includes_of, prefix}
use buildpal.HeaderScanner.Naive.Closure.{IsTrue}
use buildpal.HeaderScanner.Naive.Work.{fresh_work}
use buildpal.HeaderScanner.Naive.Ends.{run-ends}
use buildpal.HeaderScanner.Naive.Named.{Reported}
use buildpal.HeaderScanner.Naive.Reaches.{itself, includes, first, run-Reaches}

-- file 1 includes file 2, which includes file 2
abbrev pub texts : ℕ → List RawToken
texts file = hash ∷ raw_identifier (units "include") ∷ string_literal (units "'a.h'") ∷ other ∷ []

abbrev header : Found
header = record { file = 2; search_path = units "c:/inc"; relative_path = units "a.h" }

abbrev pub looks_up : ℕ → IncludeDirective → Option Found
looks_up file d = some header

abbrev pub dirs : ℕ → List ℕ
dirs file = units "c:/src"

some-header : (f : Found) → some header ≡ some f → visited f.file (2 ∷ []) ≡ true
unfolding visited
some-header f e = ground (arith, e)

pub in_files :
    (file : ℕ) (d : IncludeDirective) (f : Found)
    → looks_up file d ≡ some f
    → visited f.file (2 ∷ []) ≡ true
in_files file d f e = some-header f e

pub cold-IsTrue : IsTrue looks_up texts dirs []
unfolding IsTrue lookup
cold-IsTrue = λ file e found whole. cc

run-ends_example : run looks_up texts dirs 20 [] (units "a.cpp") 1 [] ≢ no_fuel
run-ends_example =
    run-ends looks_up texts dirs (2 ∷ []) in_files 20 [] (units "a.cpp") 1 [] cold-IsTrue
      (unfold fresh_work visited in omega arith)

abbrev a_h : IncludeDirective
a_h = record { filename = units "a.h"; is_angled = false }

texts-includes_of : includes_of in_text (texts 1) ≡ some (a_h ∷ [])
unfolding includes_of prefix directive text_discrete take drop
texts-includes_of = refl

run-Reaches_example :
    ((c : NaiveCache) × (run looks_up texts dirs 20 [] (units "a.cpp") 1 [] ≡ gives_up c))
    ⊎ ((t : NaiveState) × ((run looks_up texts dirs 20 [] (units "a.cpp") 1 [] ≡ done t)
          × ((header.file ≡ 1)
              ⊎ ((visited header.file t.already_visited ≡ true)
                  × Reported looks_up texts dirs (units "a.cpp") 1 t.all_headers header.file))))
run-Reaches_example =
    run-Reaches looks_up texts dirs (2 ∷ []) in_files 20 [] (units "a.cpp") 1 2 [] cold-IsTrue
      (unfold fresh_work visited in omega arith)
      (includes {f = header} itself texts-includes_of first refl)
