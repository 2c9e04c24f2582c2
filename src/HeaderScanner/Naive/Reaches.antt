-- ===== src/HeaderScanner/Naive/Reaches.antt =====
-- The files that a main file includes, directly or not, for the naive preprocessor of
-- Extensions/HeaderScanner/naivePreprocessor_.cpp.
use buildpal.Prelude.{
  ℕ, suc, ◌+◌, ◌<◌, true, ◌≡◌, ◌⊎◌, inl, inr, refl, Option, some, List, [], ◌∷◌, length, arith,
}
use buildpal.HeaderScanner.IncludeFinder.{IncludeDirective, RawToken, in_text, NaiveCache}
use buildpal.HeaderScanner.Naive.{NaiveState, visited, Found, Run, done, gives_up, no_fuel, run}
use buildpal.HeaderScanner.Naive.Includes.{includes_of}
use buildpal.HeaderScanner.Naive.Closure.{resolved, all_resolved, closed, IsTrue}
use buildpal.HeaderScanner.Naive.Visited.{on_stack, has_main, IsSound}
use buildpal.HeaderScanner.Naive.Complete.{run-IsSound}
use buildpal.HeaderScanner.Naive.Work.{fresh_work}
use buildpal.HeaderScanner.Naive.Ends.{run-ends}
use buildpal.HeaderScanner.Naive.Named.{Reported}
use buildpal.HeaderScanner.Naive.Reported.{run-Reported}

pub data Listed (d : IncludeDirective) : List IncludeDirective → Type 0 where
  first : {ds : List IncludeDirective} → Listed d (d ∷ ds)
  later : {e : IncludeDirective} {ds : List IncludeDirective} → Listed d ds → Listed d (e ∷ ds)

module _ (look_up : ℕ → IncludeDirective → Option Found) (tokens : ℕ → List RawToken)
    (dir_name : ℕ → List ℕ) where
  -- the files that a file includes, and those that they include
  pub data Reaches (main : ℕ) : ℕ → Type 0 where
    itself : Reaches main main
    includes :
        {file : ℕ} {ds : List IncludeDirective} {d : IncludeDirective} {f : Found}
        → Reaches main file
        → includes_of in_text (tokens file) ≡ some ds
        → Listed d ds
        → look_up file d ≡ some f
        → Reaches main f.file

  Listed-resolved :
      (seen : List ℕ) (file : ℕ) (d : IncludeDirective) (ds : List IncludeDirective)
      → Listed d ds
      → all_resolved look_up tokens dir_name seen file ds ≡ true
      → resolved look_up tokens dir_name seen file d ≡ true
  unfolding all_resolved
  Listed-resolved seen file d [] l h = elim l [ ]
  Listed-resolved seen file d (_ ∷ ds) first h = ground (arith, h)
  Listed-resolved seen file d (e ∷ ds) (later l) h =
      Listed-resolved seen file d ds l (ground (arith, h))

  closed-visited :
      (seen : List ℕ) (file : ℕ) (d : IncludeDirective) (ds : List IncludeDirective) (f : Found)
      → closed look_up tokens dir_name seen file ≡ true
      → includes_of in_text (tokens file) ≡ some ds
      → Listed d ds
      → look_up file d ≡ some f
      → visited f.file seen ≡ true
  unfolding closed resolved
  closed-visited seen file d ds f h e l looks =
      let r : all_resolved look_up tokens dir_name seen file ds ≡ true = ground (arith, h, e) in
      ground (arith, Listed-resolved seen file d ds l r, looks)

  -- at the end, the main file and all that is visited are closed
  sound-closed :
      (main file : ℕ) (t : NaiveState)
      → IsSound look_up tokens dir_name main t
      → t.header_stack ≡ []
      → (file ≡ main) ⊎ (visited file t.already_visited ≡ true)
      → closed look_up tokens dir_name t.already_visited file ≡ true
  unfolding has_main on_stack
  sound-closed main file t i e (inl q) = ground (arith, i.main_file, e, q)
  sound-closed main file t i e (inr v) = ground (arith, i.known file v, e)

  reached-visited :
      (main file : ℕ) (t : NaiveState)
      → IsSound look_up tokens dir_name main t
      → t.header_stack ≡ []
      → Reaches main file
      → (file ≡ main) ⊎ (visited file t.already_visited ≡ true)
  reached-visited main _ t i e itself = inl refl
  reached-visited main _ t i e (includes {file = from} {ds = ds} {d = d} {f = f} r all l looks) =
      inr (
        closed-visited t.already_visited from d ds f
          (sound-closed main from t i e (reached-visited main from t i e r)) all l looks)

  module _ (files : List ℕ)
      (in_files : (file : ℕ) (d : IncludeDirective) (f : Found)
        → look_up file d ≡ some f
        → visited f.file files ≡ true) where
    -- The run gives up, or it ends with every file visited that the main file includes, directly or
    -- through other files, and reports it: among the headers is a name that the file has by the
    -- search path that it is found on, or beside the file that includes it in quotes. Provided that
    -- the files that can be found are finitely many, with fuel for all their tokens, and that the
    -- entries of the cache that are not complex have the directives of their files. The main file
    -- itself need not be reported.
    pub run-Reaches :
        (fuel : ℕ) (forced : List (List ℕ)) (main_name : List ℕ) (main file : ℕ)
        (cache : NaiveCache)
        → IsTrue look_up tokens dir_name cache
        → suc (length (tokens main)) + fresh_work look_up tokens dir_name [] files < fuel
        → Reaches main file
        → ((c : NaiveCache) × (run look_up tokens dir_name fuel forced main_name main cache
              ≡ gives_up c))
          ⊎ ((t : NaiveState) × ((run look_up tokens dir_name fuel forced main_name main cache
                  ≡ done t)
                × ((file ≡ main)
                    ⊎ ((visited file t.already_visited ≡ true)
                        × Reported look_up tokens dir_name main_name main t.all_headers file))))
    run-Reaches fuel forced main_name main file cache truth enough r =
        by_run (run look_up tokens dir_name fuel forced main_name main cache) refl
      where
        by_run :
            (o : Run)
            → run look_up tokens dir_name fuel forced main_name main cache ≡ o
            → ((c : NaiveCache) × (run look_up tokens dir_name fuel forced main_name main cache
                  ≡ gives_up c))
              ⊎ ((t : NaiveState) × ((run look_up tokens dir_name fuel forced main_name main cache
                      ≡ done t)
                    × ((file ≡ main)
                        ⊎ ((visited file t.already_visited ≡ true)
                            × Reported look_up tokens dir_name main_name main t.all_headers file))))
        by_run (gives_up c) e = inl (c, e)
        by_run (done t) e =
            let (sound, empty) =
              run-IsSound look_up tokens dir_name fuel forced main_name main cache t truth e in
            inr (
              t,
              (
                e,
                elim (reached-visited main file t sound empty r) [
                  | inl same ↦ inl same
                  | inr v ↦ inr (
                    v,
                    run-Reported look_up tokens dir_name main_name main fuel forced cache t file e
                        v,
                  )
                ],
              ),
            )
        by_run no_fuel e = absurd (
            run-ends look_up tokens dir_name files in_files fuel forced main_name main cache truth
              enough e)
