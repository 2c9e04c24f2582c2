-- ===== src/HeaderScanner/Naive/Steps.antt =====
-- What a step of the naive preprocessor of Extensions/HeaderScanner/naivePreprocessor_.cpp leaves to
-- do.
use buildpal.Prelude.{
  ℕ, suc, ◌+◌, ◌<◌, ◌≤◌, Bool, true, false, ◌≡◌, inl, inr, refl, ap, ◌∙◌, Option, none, some, List,
  [], ◌∷◌, length, ℕ_discrete, arith, Bool-cases, Option-cases,
}
use buildpal.Prelude.Assoc.{lookup}
use buildpal.HeaderScanner.IncludeFinder.{
  IncludeDirective, RawToken, in_text, NaiveCache, NaiveCacheEntry,
}
use buildpal.HeaderScanner.Naive.{
  NaiveState, HeaderCtx, visited, Found, finder_for, header_for, enter_found, handle_include,
  pop_header, start,
}
use buildpal.HeaderScanner.Naive.Includes.{includes_of}
use buildpal.HeaderScanner.Naive.Closure.{IsTrue}
use buildpal.HeaderScanner.Naive.Work.{
  count, count-includes_of, left, stack_work, fresh_work, fresh_work-visited,
}

module _ (look_up : ℕ → IncludeDirective → Option Found) (tokens : ℕ → List RawToken)
    (dir_name : ℕ → List ℕ) (files : List ℕ)
    (in_files : (file : ℕ) (d : IncludeDirective) (f : Found)
      → look_up file d ≡ some f
      → visited f.file files ≡ true) where
  unfoldable pub work : NaiveState → ℕ
  unfolding fresh_work stack_work
  work s = stack_work s.header_stack + fresh_work look_up tokens dir_name s.already_visited files

  finder_for-left :
      (file : ℕ) (entry : Option NaiveCacheEntry)
      → ((e : NaiveCacheEntry)
          → entry ≡ some e
          → includes_of in_text (tokens file) ≡ some e.includes)
      → left (finder_for look_up tokens dir_name entry file) ≤ length (tokens file)
  unfolding finder_for left count
  finder_for-left file none h = omega arith
  finder_for-left file (some e) h =
      ground (arith, h e refl, count-includes_of in_text (tokens file))

  unfoldable entered : NaiveState → HeaderCtx → Bool → Found → Option NaiveCacheEntry → NaiveState
  unfolding header_for
  entered s top angled f entry = record s {
    header_stack = header_for look_up tokens dir_name top angled f entry ∷ s.header_stack;
    already_visited = f.file ∷ s.already_visited;
  }

  entered-work :
      (s : NaiveState) (top : HeaderCtx) (angled : Bool) (f : Found)
      (entry : Option NaiveCacheEntry)
      → visited f.file files ≡ true
      → visited f.file s.already_visited ≡ false
      → ((e : NaiveCacheEntry)
          → entry ≡ some e
          → includes_of in_text (tokens f.file) ≡ some e.includes)
      → work (entered s top angled f entry) ≤ work s
  unfolding work stack_work header_for entered
  entered-work s top angled f entry known new h = omega (
    arith,
    finder_for-left f.file entry h,
    fresh_work-visited look_up tokens dir_name s.already_visited files f.file known new,
  )

  pub handle_include-work :
      (s t : NaiveState) (top : HeaderCtx) (d : IncludeDirective)
      → IsTrue look_up tokens dir_name s.cache
      → handle_include look_up tokens dir_name s top d ≡ some t
      → work t ≤ work s
  unfolding handle_include enter_found IsTrue entered
  handle_include-work s t top d truth e = elim (Option-cases (look_up top.file d)) [
    | inl absent ↦ let same : s ≡ t = ground (arith, e, absent) in omega (arith, ap work same)
    | inr (f, looks) ↦ elim (Bool-cases (visited f.file s.already_visited)) [
      | inl seen ↦ let same : s ≡ t = ground (arith, e, looks, seen) in omega (arith, ap work same)
      | inr new ↦ elim (Option-cases (lookup ℕ_discrete f.file s.cache)) [
        | inl absent ↦
            let same : entered s top d.is_angled f none ≡ t =
              ground (arith, e, looks, new, absent) in
            omega (
              arith,
              ap work same,
              entered-work s top d.is_angled f none (in_files top.file d f looks) new (λ x q. cc),
            )
        | inr (entry, known) ↦ elim (Bool-cases entry.complex) [
          | inl complex ↦ absurd (ground (arith, e, looks, new, known, complex))
          | inr whole ↦
              let same : entered s top d.is_angled f (some entry) ≡ t =
                ground (arith, e, looks, new, known, whole) in
              omega (
                arith,
                ap work same,
                entered-work s top d.is_angled f (some entry) (in_files top.file d f looks) new
                    (λ x q. truth f.file x (known ∙ q) (ground (arith, q, whole))),
              )
        ]
      ]
    ]
  ]

  pub pop-work :
      (s : NaiveState) (top : HeaderCtx) (rest : List HeaderCtx) (cache : NaiveCache)
      → s.header_stack ≡ top ∷ rest
      → work (pop_header look_up tokens dir_name (record s { cache = cache }) top rest) < work s
  unfolding work stack_work pop_header
  pop-work s top [] cache e = omega (arith, ap stack_work e)
  pop-work s top (c ∷ cs) cache e = omega (arith, ap stack_work e)

  pub work-start :
      (main_name : List ℕ) (main : ℕ) (cache : NaiveCache)
      → work (start look_up tokens dir_name main_name main cache)
        ≡ suc (length (tokens main)) + fresh_work look_up tokens dir_name [] files
  unfolding work start stack_work left
  work-start main_name main cache = omega arith
