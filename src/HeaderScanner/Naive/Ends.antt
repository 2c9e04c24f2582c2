-- ===== src/HeaderScanner/Naive/Ends.antt =====
-- How many rounds the naive preprocessor of Extensions/HeaderScanner/naivePreprocessor_.cpp takes.
use buildpal.Prelude.{
  ℕ, zero, suc, ◌+◌, ◌<◌, ◌≤◌, true, false, ◌≡◌, ◌≢◌, inl, inr, refl, ap, subst, Option, some, List,
  [], ◌∷◌, length, arith, Option-cases,
}
use buildpal.HeaderScanner.IncludeFinder.{IncludeDirective, RawToken, NaiveCache}
use buildpal.HeaderScanner.Naive.{
  NaiveState, HeaderCtx, visited, Found, no_fuel, handle_include, Asked, found, ended,
  complex_header, ask, pop_header, run_loop, force_includes, start, run,
}
use buildpal.HeaderScanner.Naive.Closure.{IsTrue, IsAnswered, ask-IsAnswered}
use buildpal.HeaderScanner.Naive.Visited.{AllRead, IsSound, pop-IsSound}
use buildpal.HeaderScanner.Naive.Handled.{handle_include-IsSound, found-IsPending, sound-IsPending}
use buildpal.HeaderScanner.Naive.Complete.{force_includes-IsSound, start-IsSound}
use buildpal.HeaderScanner.Naive.Work.{stack_work, fresh_work, ask-left}
use buildpal.HeaderScanner.Naive.Steps.{work, handle_include-work, pop-work, work-start}

module _ (look_up : ℕ → IncludeDirective → Option Found) (tokens : ℕ → List RawToken)
    (dir_name : ℕ → List ℕ) (files : List ℕ)
    (in_files : (file : ℕ) (d : IncludeDirective) (f : Found)
      → look_up file d ≡ some f
      → visited f.file files ≡ true) where
  -- a round that does not end the loop leaves less work
  Lessens : ℕ → ℕ → NaiveState → Type 0
  Lessens fuel main s =
      (u : NaiveState) × (IsSound look_up tokens dir_name main u
        × ((work look_up tokens dir_name files in_files u
              < work look_up tokens dir_name files in_files s)
            × (run_loop look_up tokens dir_name fuel u ≡ no_fuel)))

  Lessens-answer :
      (fuel main : ℕ) (s : NaiveState) (top : HeaderCtx) (rest : List HeaderCtx)
      (a : Asked look_up tokens dir_name)
      → IsSound look_up tokens dir_name main s
      → run_loop look_up tokens dir_name (suc fuel) s ≡ no_fuel
      → s.header_stack ≡ top ∷ rest
      → ask look_up tokens dir_name top.include_finder top.file s.cache ≡ a
      → Lessens fuel main s
  unfolding run_loop Lessens IsAnswered
  Lessens-answer fuel main s top rest (found d next) i e es ea =
      let top' : HeaderCtx = record top { include_finder = next } in
      let s' : NaiveState = record s { header_stack = top' ∷ rest } in
      elim (Option-cases (handle_include look_up tokens dir_name s' top' d)) [
        | inl failed ↦ absurd (ground (arith, e, es, ea, failed))
        | inr (u, handled) ↦ (
          u,
          (
            handle_include-IsSound look_up tokens dir_name main s' u top' rest d
                (found-IsPending look_up tokens dir_name main s top rest d next es ea i) handled,
            (
              unfold work stack_work in
                  omega (
                    arith,
                    handle_include-work look_up tokens dir_name files in_files s' u top' d i.truth
                        handled,
                    ask-left look_up tokens dir_name top.include_finder next top.file s d ea,
                    ap stack_work es,
                  ),
              ground (arith, e, es, ea, handled),
            ),
          ),
        )
      ]
  Lessens-answer fuel main s top rest (ended cache) i e es ea =
      let (all_found, truth) =
        subst (IsAnswered look_up tokens dir_name s.already_visited top.file) ea (
          ask-IsAnswered look_up tokens dir_name s.already_visited top.file top.include_finder
            s.cache (subst (AllRead look_up tokens dir_name s.already_visited) es i.read).0
            i.truth) in
      (
        pop_header look_up tokens dir_name (record s { cache = cache }) top rest,
        (
          pop-IsSound look_up tokens dir_name main s top rest cache es all_found truth i,
          (
            pop-work look_up tokens dir_name files in_files s top rest cache es,
            ground (arith, e, es, ea),
          ),
        ),
      )
  Lessens-answer fuel main s top rest complex_header i e es ea = absurd (ground (arith, e, es, ea))

  run_loop-ends :
      (fuel main : ℕ) (s : NaiveState)
      → IsSound look_up tokens dir_name main s
      → work look_up tokens dir_name files in_files s < fuel
      → run_loop look_up tokens dir_name fuel s ≢ no_fuel
  unfolding Lessens
  run_loop-ends zero main s i h e = absurd (omega arith)
  run_loop-ends (suc fuel) main s i h e = by_stack s.header_stack refl (run_loop-ends fuel main)
    where
      by_stack :
          (cs : List HeaderCtx)
          → s.header_stack ≡ cs
          → ((u : NaiveState)
              → IsSound look_up tokens dir_name main u
              → work look_up tokens dir_name files in_files u < fuel
              → run_loop look_up tokens dir_name fuel u ≢ no_fuel)
          → ⊥
      by_stack [] es later = absurd (unfold run_loop in ground (arith, e, es))
      by_stack (top ∷ rest) es later =
          let (u, (j, (less, stuck))) = Lessens-answer fuel main s top rest _ i e es refl in
          later u j (omega arith) stuck

  force_includes-work :
      (main : ℕ) (forced : List (List ℕ)) (s t : NaiveState)
      → IsSound look_up tokens dir_name main s
      → force_includes look_up tokens dir_name forced s ≡ some t
      → work look_up tokens dir_name files in_files t
        ≤ work look_up tokens dir_name files in_files s
  unfolding force_includes
  force_includes-work main [] s t i e =
      let same : s ≡ t = ground (arith, e) in
      omega (arith, ap (work look_up tokens dir_name files in_files) same)
  force_includes-work main (name ∷ forced) s t i e =
      by_stack s.header_stack refl (force_includes-work main forced)
    where
      by_stack :
          (cs : List HeaderCtx)
          → s.header_stack ≡ cs
          → ((u v : NaiveState)
              → IsSound look_up tokens dir_name main u
              → force_includes look_up tokens dir_name forced u ≡ some v
              → work look_up tokens dir_name files in_files v
                ≤ work look_up tokens dir_name files in_files u)
          → work look_up tokens dir_name files in_files t
            ≤ work look_up tokens dir_name files in_files s
      by_stack [] es later =
          let same : s ≡ t = ground (arith, e, es) in
          omega (arith, ap (work look_up tokens dir_name files in_files) same)
      by_stack (top ∷ rest) es later =
          let d : IncludeDirective = record { filename = name; is_angled = false } in
          elim (Option-cases (handle_include look_up tokens dir_name s top d)) [
            | inl failed ↦ absurd (ground (arith, e, es, failed))
            | inr (u, handled) ↦
                let sound =
                  handle_include-IsSound look_up tokens dir_name main s u top rest d
                    (sound-IsPending look_up tokens dir_name main s top rest d es i) handled in
                omega (
                  arith,
                  handle_include-work look_up tokens dir_name files in_files s u top d i.truth
                      handled,
                  later u t sound (ground (arith, e, es, handled)),
                )
          ]

  -- The run ends: fuel for the tokens of the main file and of every file that can be found, and for
  -- each of them one more, is enough; provided that the entries of the cache that are not complex
  -- have the directives of their files.
  pub run-ends :
      (fuel : ℕ) (forced : List (List ℕ)) (main_name : List ℕ) (main : ℕ) (cache : NaiveCache)
      → IsTrue look_up tokens dir_name cache
      → suc (length (tokens main)) + fresh_work look_up tokens dir_name [] files < fuel
      → run look_up tokens dir_name fuel forced main_name main cache ≢ no_fuel
  unfolding run
  run-ends fuel forced main_name main cache truth enough e =
      let s = start look_up tokens dir_name main_name main cache in
      let sound = start-IsSound look_up tokens dir_name main_name main cache truth in
      elim (Option-cases (force_includes look_up tokens dir_name forced s)) [
        | inl failed ↦ ground (arith, e, failed)
        | inr (u, handled) ↦
            run_loop-ends fuel main u
              (force_includes-IsSound look_up tokens dir_name main forced s u sound handled)
              (omega (
                arith,
                force_includes-work main forced s u sound handled,
                work-start look_up tokens dir_name files in_files main_name main cache,
              ))
              (ground (arith, e, handled))
      ]
