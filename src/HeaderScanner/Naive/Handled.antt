-- ===== src/HeaderScanner/Naive/Handled.antt =====
-- How the naive preprocessor of Extensions/HeaderScanner/naivePreprocessor_.cpp handles a directive.
use buildpal.Prelude.{
  ℕ, true, ◌≡◌, inl, inr, refl, sym, subst, ◌∙◌, Option, none, some, List, ◌∷◌, ℕ_discrete, arith,
  Bool-cases, Option-cases,
}
use buildpal.Prelude.Assoc.{lookup}
use buildpal.HeaderScanner.IncludeFinder.{IncludeDirective, RawToken, IncludeFinder}
use buildpal.HeaderScanner.Naive.{
  HeaderCtx, NaiveState, visited, Found, enter_found, handle_include, found, ask,
}
use buildpal.HeaderScanner.Naive.Closure.{
  resolved, IsRead, IsRead-more, IsTrue, IsAnswered, ask-IsAnswered,
}
use buildpal.HeaderScanner.Naive.Visited.{
  AllRead, has_main, IsSound, IsPending, resolved-IsSound, entered-IsSound, on_stack-same,
  has_main-more,
}

module _ (look_up : ℕ → IncludeDirective → Option Found) (tokens : ℕ → List RawToken)
    (dir_name : ℕ → List ℕ) where
  enter_found-IsSound :
      (main : ℕ) (s t : NaiveState) (top : HeaderCtx) (rest : List HeaderCtx) (d : IncludeDirective)
      (f : Found)
      → IsPending look_up tokens dir_name main s top rest d
      → look_up top.file d ≡ some f
      → enter_found look_up tokens dir_name s top d.is_angled f ≡ some t
      → IsSound look_up tokens dir_name main t
  unfolding enter_found IsTrue
  enter_found-IsSound main s t top rest d f p looks e =
      elim (Option-cases (lookup ℕ_discrete f.file s.cache)) [
        | inl absent ↦
            subst (IsSound look_up tokens dir_name main) (ground (arith, e, absent))
              (entered-IsSound look_up tokens dir_name main s top rest d f none p looks (λ x q. cc))
        | inr (entry, known) ↦ elim (Bool-cases entry.complex) [
          | inl complex ↦ absurd (ground (arith, e, known, complex))
          | inr whole ↦
              subst (IsSound look_up tokens dir_name main) (ground (arith, e, known, whole)) (
                entered-IsSound look_up tokens dir_name main s top rest d f (some entry) p looks
                  (λ x q. p.truth f.file x (known ∙ q) (ground (arith, q, whole))))
        ]
      ]

  pub handle_include-IsSound :
      (main : ℕ) (s t : NaiveState) (top : HeaderCtx) (rest : List HeaderCtx) (d : IncludeDirective)
      → IsPending look_up tokens dir_name main s top rest d
      → handle_include look_up tokens dir_name s top d ≡ some t
      → IsSound look_up tokens dir_name main t
  unfolding handle_include resolved
  handle_include-IsSound main s t top rest d p e = elim (Option-cases (look_up top.file d)) [
    | inl absent ↦
        subst (IsSound look_up tokens dir_name main) (ground (arith, e, absent))
          (resolved-IsSound look_up tokens dir_name main s top rest d p (ground (arith, absent)))
    | inr (f, looks) ↦ elim (Bool-cases (visited f.file s.already_visited)) [
      | inl seen ↦ subst (IsSound look_up tokens dir_name main) (ground (arith, e, looks, seen)) (
          resolved-IsSound look_up tokens dir_name main s top rest d p
            (ground (arith, looks, seen)))
      | inr unseen ↦
          enter_found-IsSound main s t top rest d f p looks (ground (arith, e, looks, unseen))
    ]
  ]

  -- the finder has found a directive
  pub found-IsPending :
      (main : ℕ) (s : NaiveState) (top : HeaderCtx) (rest : List HeaderCtx) (d : IncludeDirective)
      (next : IncludeFinder)
      → s.header_stack ≡ top ∷ rest
      → ask look_up tokens dir_name top.include_finder top.file s.cache ≡ found d next
      → IsSound look_up tokens dir_name main s
      → IsPending look_up tokens dir_name main
          (record s { header_stack = record top { include_finder = next } ∷ rest })
          (record top { include_finder = next })
          rest
          d
  unfolding IsAnswered
  found-IsPending main s top rest d next e asked i =
      let read = subst (AllRead look_up tokens dir_name s.already_visited) e i.read in
      let answer : (files : List ℕ)
          → IsRead look_up tokens dir_name files top.file top.include_finder
          → resolved look_up tokens dir_name files top.file d ≡ true
          → IsRead look_up tokens dir_name files top.file next =
        λ files r. subst (IsAnswered look_up tokens dir_name files top.file) asked (
          ask-IsAnswered look_up tokens dir_name files top.file top.include_finder s.cache r
            i.truth) in
      record {
        stack = refl;
        truth = i.truth;
        read = read.1;
        top_read = λ files o. elim o [
          | inl q ↦ answer files (
              subst (λ (fs : List ℕ). IsRead look_up tokens dir_name fs top.file top.include_finder)
                (sym q) read.0)
          | inr (new, q) ↦ answer files (
              subst (λ (fs : List ℕ). IsRead look_up tokens dir_name fs top.file top.include_finder)
                (sym q)
                (IsRead-more look_up tokens dir_name s.already_visited new top.file
                  top.include_finder read.0))
        ];
        known = λ file v. ground (
          arith,
          i.known file v,
          e,
          on_stack-same look_up tokens dir_name file top (record top { include_finder = next }) rest
              refl,
        );
        main_file =
            has_main-more look_up tokens dir_name main s.already_visited s.already_visited top _
              rest refl
              (subst
                (λ (cs : List HeaderCtx).
                  has_main look_up tokens dir_name main s.already_visited cs ≡ true)
                e i.main_file);
      }

  -- a directive is handled on top of any sound state
  pub sound-IsPending :
      (main : ℕ) (s : NaiveState) (top : HeaderCtx) (rest : List HeaderCtx) (d : IncludeDirective)
      → s.header_stack ≡ top ∷ rest
      → IsSound look_up tokens dir_name main s
      → IsPending look_up tokens dir_name main s top rest d
  sound-IsPending main s top rest d e i =
      let read = subst (AllRead look_up tokens dir_name s.already_visited) e i.read in
      record {
        stack = e;
        truth = i.truth;
        read = read.1;
        top_read = λ files o r. elim o [
          | inl q ↦
              subst (λ (fs : List ℕ). IsRead look_up tokens dir_name fs top.file top.include_finder)
                (sym q) read.0
          | inr (new, q) ↦
              subst (λ (fs : List ℕ). IsRead look_up tokens dir_name fs top.file top.include_finder)
                (sym q)
                (IsRead-more look_up tokens dir_name s.already_visited new top.file
                  top.include_finder read.0)
        ];
        known = λ file v. ground (arith, i.known file v, e);
        main_file =
            subst
              (λ (cs : List HeaderCtx).
                has_main look_up tokens dir_name main s.already_visited cs ≡ true)
              e i.main_file;
      }
