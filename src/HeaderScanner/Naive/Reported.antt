-- ===== src/HeaderScanner/Naive/Reported.antt =====
-- The names under which the naive preprocessor of Extensions/HeaderScanner/naivePreprocessor_.cpp
-- reports the files that it visits.
use buildpal.Prelude.{
  ℕ, zero, suc, true, false, ◌≡◌, inl, inr, refl, Option, some, List, [], ◌∷◌, arith, subst,
  Option-cases,
}
use buildpal.HeaderScanner.IncludeFinder.{IncludeDirective, RawToken, NaiveCache}
use buildpal.HeaderScanner.Naive.{
  HeaderCtx, NaiveState, Found, done, visited, handle_include, pop_header, Asked, found, ended,
  complex_header, ask, run_loop, force_includes, start, run,
}
use buildpal.HeaderScanner.Naive.Visited.{on_stack}
use buildpal.HeaderScanner.Naive.Named.{
  main_file, Reported, IsReported, handle_include-IsReported, pop-IsReported, found-IsReported,
}

module _ (look_up : ℕ → IncludeDirective → Option Found) (tokens : ℕ → List RawToken)
    (dir_name : ℕ → List ℕ) (main_name : List ℕ) (main : ℕ) where
  -- a round leaves a state for the other rounds
  Goes : ℕ → NaiveState → NaiveState → Type 0
  Goes fuel s t =
      (u : NaiveState) × IsReported look_up tokens dir_name main_name main u
      × (run_loop look_up tokens dir_name fuel u ≡ done t)

  Goes-answer :
      (fuel : ℕ) (s t : NaiveState) (top : HeaderCtx) (rest : List HeaderCtx)
      (a : Asked look_up tokens dir_name)
      → IsReported look_up tokens dir_name main_name main s
      → run_loop look_up tokens dir_name (suc fuel) s ≡ done t
      → s.header_stack ≡ top ∷ rest
      → ask look_up tokens dir_name top.include_finder top.file s.cache ≡ a
      → Goes fuel s t
  unfolding run_loop Goes
  Goes-answer fuel s t top rest (found d next) i e es ea =
      let top' : HeaderCtx = record top { include_finder = next } in
      let s' : NaiveState = record s { header_stack = top' ∷ rest } in
      elim (Option-cases (handle_include look_up tokens dir_name s' top' d)) [
        | inl failed ↦ absurd (ground (arith, e, es, ea, failed))
        | inr (u, handled) ↦ (
          u,
          handle_include-IsReported look_up tokens dir_name main_name main s' u top' rest d
              (found-IsReported look_up tokens dir_name main_name main s top rest next i es) refl
              handled,
          ground (arith, e, es, ea, handled),
        )
      ]
  Goes-answer fuel s t top rest (ended cache) i e es ea = (
    pop_header look_up tokens dir_name (record s { cache = cache }) top rest,
    pop-IsReported look_up tokens dir_name main_name main s top rest cache i es,
    ground (arith, e, es, ea),
  )
  Goes-answer fuel s t top rest complex_header i e es ea = absurd (ground (arith, e, es, ea))

  run_loop-IsReported :
      (fuel : ℕ) (s t : NaiveState)
      → IsReported look_up tokens dir_name main_name main s
      → run_loop look_up tokens dir_name fuel s ≡ done t
      → IsReported look_up tokens dir_name main_name main t × (t.header_stack ≡ [])
  unfolding Goes
  run_loop-IsReported zero s t i e = absurd (unfold run_loop in ground (arith, e))
  run_loop-IsReported (suc fuel) s t i e =
      by_stack s.header_stack refl (λ u. run_loop-IsReported fuel u t)
    where
      by_stack :
          (cs : List HeaderCtx)
          → s.header_stack ≡ cs
          → ((u : NaiveState)
              → IsReported look_up tokens dir_name main_name main u
              → run_loop look_up tokens dir_name fuel u ≡ done t
              → IsReported look_up tokens dir_name main_name main t × (t.header_stack ≡ []))
          → IsReported look_up tokens dir_name main_name main t × (t.header_stack ≡ [])
      by_stack [] es later =
          let same : s ≡ t = unfold run_loop in ground (arith, e, es) in
          subst
            (λ (u : NaiveState).
              IsReported look_up tokens dir_name main_name main u × (u.header_stack ≡ []))
            same (i, es)
      by_stack (top ∷ rest) es later =
          let (u, j, rounds) = Goes-answer fuel s t top rest _ i e es refl in later u j rounds

  force_includes-IsReported :
      (forced : List (List ℕ)) (s t : NaiveState)
      → IsReported look_up tokens dir_name main_name main s
      → force_includes look_up tokens dir_name forced s ≡ some t
      → IsReported look_up tokens dir_name main_name main t
  unfolding force_includes
  force_includes-IsReported [] s t i e =
      subst (IsReported look_up tokens dir_name main_name main) (ground (arith, e)) i
  force_includes-IsReported (name ∷ forced) s t i e =
      by_stack s.header_stack refl (force_includes-IsReported forced)
    where
      by_stack :
          (cs : List HeaderCtx)
          → s.header_stack ≡ cs
          → ((u v : NaiveState)
              → IsReported look_up tokens dir_name main_name main u
              → force_includes look_up tokens dir_name forced u ≡ some v
              → IsReported look_up tokens dir_name main_name main v)
          → IsReported look_up tokens dir_name main_name main t
      by_stack [] es later =
          subst (IsReported look_up tokens dir_name main_name main) (ground (arith, e, es)) i
      by_stack (top ∷ rest) es later =
          let d : IncludeDirective = record { filename = name; is_angled = false } in
          elim (Option-cases (handle_include look_up tokens dir_name s top d)) [
            | inl failed ↦ absurd (ground (arith, e, es, failed))
            | inr (u, handled) ↦
                later u t
                  (handle_include-IsReported look_up tokens dir_name main_name main s u top rest d i
                    es handled)
                  (ground (arith, e, es, handled))
          ]

  start-IsReported :
      (cache : NaiveCache)
      → IsReported look_up tokens dir_name main_name main
          (start look_up tokens dir_name main_name main cache)
  unfolding start visited
  start-IsReported cache = record {
    named = (main_file, tt);
    reported = λ file v. absurd (ground (arith, v));
  }

  -- A run that comes to its end reports every file that it has visited, under a name of the file.
  pub run-Reported :
      (fuel : ℕ) (forced : List (List ℕ)) (cache : NaiveCache) (t : NaiveState) (file : ℕ)
      → run look_up tokens dir_name fuel forced main_name main cache ≡ done t
      → visited file t.already_visited ≡ true
      → Reported look_up tokens dir_name main_name main t.all_headers file
  unfolding run on_stack
  run-Reported fuel forced cache t file e v =
      let s = start look_up tokens dir_name main_name main cache in
      elim (Option-cases (force_includes look_up tokens dir_name forced s)) [
        | inl failed ↦ absurd (ground (arith, e, failed))
        | inr (u, included) ↦
            let (i, empty) =
              run_loop-IsReported fuel u t
                (force_includes-IsReported forced s u (start-IsReported cache) included)
                (ground (arith, e, included)) in
            elim (i.reported file v) [ inl on ↦ absurd (ground (arith, on, empty)) | inr r ↦ r ]
      ]
