-- ===== src/HeaderScanner/Naive/Complete.antt =====
-- The run of the naive preprocessor of Extensions/HeaderScanner/naivePreprocessor_.cpp.
use buildpal.Prelude.{
  ℕ, zero, suc, false, ◌≡◌, ◌⊎◌, inl, inr, refl, subst, Option, none, some, List, [], ◌∷◌, arith,
  Option-cases,
}
use buildpal.HeaderScanner.IncludeFinder.{IncludeDirective, RawToken, NaiveCache}
use buildpal.HeaderScanner.Naive.{
  HeaderCtx, NaiveState, visited, Found, done, finder_for, handle_include, pop_header, Asked, found,
  ended, complex_header, ask, run_loop, force_includes, start, run,
}
use buildpal.HeaderScanner.Naive.Closure.{IsTrue, IsAnswered, ask-IsAnswered}
use buildpal.HeaderScanner.Naive.Visited.{AllRead, has_main, IsSound, pop-IsSound, new-IsRead}
use buildpal.HeaderScanner.Naive.Handled.{handle_include-IsSound, found-IsPending, sound-IsPending}

module _ (look_up : ℕ → IncludeDirective → Option Found) (tokens : ℕ → List RawToken)
    (dir_name : ℕ → List ℕ) where
  -- a round of the loop ends it, or leaves a state for the other rounds
  Goes : ℕ → ℕ → NaiveState → NaiveState → Type 0
  Goes fuel main s t =
      ((s.header_stack ≡ []) × (s ≡ t))
      ⊎ ((u : NaiveState) × (IsSound look_up tokens dir_name main u
            × (run_loop look_up tokens dir_name fuel u ≡ done t)))

  Goes-answer :
      (fuel main : ℕ) (s t : NaiveState) (top : HeaderCtx) (rest : List HeaderCtx)
      (a : Asked look_up tokens dir_name)
      → IsSound look_up tokens dir_name main s
      → run_loop look_up tokens dir_name (suc fuel) s ≡ done t
      → s.header_stack ≡ top ∷ rest
      → ask look_up tokens dir_name top.include_finder top.file s.cache ≡ a
      → Goes fuel main s t
  unfolding run_loop Goes IsAnswered
  Goes-answer fuel main s t top rest (found d next) i e es ea =
      let top' : HeaderCtx = record top { include_finder = next } in
      let s' : NaiveState = record s { header_stack = top' ∷ rest } in
      elim (Option-cases (handle_include look_up tokens dir_name s' top' d)) [
        | inl failed ↦ absurd (ground (arith, e, es, ea, failed))
        | inr (u, handled) ↦ inr (
          u,
          (
            handle_include-IsSound look_up tokens dir_name main s' u top' rest d
                (found-IsPending look_up tokens dir_name main s top rest d next es ea i) handled,
            ground (arith, e, es, ea, handled),
          ),
        )
      ]
  Goes-answer fuel main s t top rest (ended cache) i e es ea =
      let (all_found, truth) =
        subst (IsAnswered look_up tokens dir_name s.already_visited top.file) ea (
          ask-IsAnswered look_up tokens dir_name s.already_visited top.file top.include_finder
            s.cache (subst (AllRead look_up tokens dir_name s.already_visited) es i.read).0
            i.truth) in
      inr (
        pop_header look_up tokens dir_name (record s { cache = cache }) top rest,
        (
          pop-IsSound look_up tokens dir_name main s top rest cache es all_found truth i,
          ground (arith, e, es, ea),
        ),
      )
  Goes-answer fuel main s t top rest complex_header i e es ea = absurd (ground (arith, e, es, ea))

  Goes-stack :
      (fuel main : ℕ) (s t : NaiveState) (cs : List HeaderCtx)
      → IsSound look_up tokens dir_name main s
      → run_loop look_up tokens dir_name (suc fuel) s ≡ done t
      → s.header_stack ≡ cs
      → Goes fuel main s t
  unfolding run_loop Goes
  Goes-stack fuel main s t [] i e es = inl (es, ground (arith, e, es))
  Goes-stack fuel main s t (top ∷ rest) i e es = Goes-answer fuel main s t top rest _ i e es refl

  run_loop-IsSound :
      (fuel main : ℕ) (s t : NaiveState)
      → IsSound look_up tokens dir_name main s
      → run_loop look_up tokens dir_name fuel s ≡ done t
      → IsSound look_up tokens dir_name main t × (t.header_stack ≡ [])
  unfolding Goes
  run_loop-IsSound zero main s t i e = absurd (unfold run_loop in ground (arith, e))
  run_loop-IsSound (suc fuel) main s t i e =
      elim (Goes-stack fuel main s t s.header_stack i e refl) [
        | inl (empty, same) ↦
            subst
              (λ (u : NaiveState). IsSound look_up tokens dir_name main u × (u.header_stack ≡ []))
              same (i, empty)
        | inr (u, (j, later)) ↦ run_loop-IsSound fuel main u t j later
      ]

  pub force_includes-IsSound :
      (main : ℕ) (forced : List (List ℕ)) (s t : NaiveState)
      → IsSound look_up tokens dir_name main s
      → force_includes look_up tokens dir_name forced s ≡ some t
      → IsSound look_up tokens dir_name main t
  unfolding force_includes
  force_includes-IsSound main [] s t i e =
      subst (IsSound look_up tokens dir_name main) (ground (arith, e)) i
  force_includes-IsSound main (name ∷ forced) s t i e =
      by_stack s.header_stack refl (force_includes-IsSound main forced)
    where
      by_stack :
          (cs : List HeaderCtx)
          → s.header_stack ≡ cs
          → ((u v : NaiveState)
              → IsSound look_up tokens dir_name main u
              → force_includes look_up tokens dir_name forced u ≡ some v
              → IsSound look_up tokens dir_name main v)
          → IsSound look_up tokens dir_name main t
      by_stack [] es later = subst (IsSound look_up tokens dir_name main) (ground (arith, e, es)) i
      by_stack (top ∷ rest) es later =
          let d : IncludeDirective = record { filename = name; is_angled = false } in
          elim (Option-cases (handle_include look_up tokens dir_name s top d)) [
            | inl failed ↦ absurd (ground (arith, e, es, failed))
            | inr (u, handled) ↦
                later u t
                  (handle_include-IsSound look_up tokens dir_name main s u top rest d
                    (sound-IsPending look_up tokens dir_name main s top rest d es i) handled)
                  (ground (arith, e, es, handled))
          ]

  pub start-IsSound :
      (main_name : List ℕ) (main : ℕ) (cache : NaiveCache)
      → IsTrue look_up tokens dir_name cache
      → IsSound look_up tokens dir_name main (start look_up tokens dir_name main_name main cache)
  unfolding start finder_for visited has_main
  start-IsSound main_name main cache t = record {
    truth = t;
    read = (new-IsRead look_up tokens dir_name [] main none (λ e q. cc), tt);
    known = λ file v. cc;
    main_file = ground arith;
  }

  pub run-IsSound :
      (fuel : ℕ) (forced : List (List ℕ)) (main_name : List ℕ) (main : ℕ) (cache : NaiveCache)
      (t : NaiveState)
      → IsTrue look_up tokens dir_name cache
      → run look_up tokens dir_name fuel forced main_name main cache ≡ done t
      → IsSound look_up tokens dir_name main t × (t.header_stack ≡ [])
  unfolding run
  run-IsSound fuel forced main_name main cache t h e =
      let s = start look_up tokens dir_name main_name main cache in
      elim (Option-cases (force_includes look_up tokens dir_name forced s)) [
        | inl failed ↦ absurd (ground (arith, e, failed))
        | inr (u, handled) ↦
            run_loop-IsSound fuel main u t
              (force_includes-IsSound main forced s u (start-IsSound main_name main cache h)
                handled)
              (ground (arith, e, handled))
      ]
