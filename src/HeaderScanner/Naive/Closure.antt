-- ===== src/HeaderScanner/Naive/Closure.antt =====
-- What the naive preprocessor of Extensions/HeaderScanner/naivePreprocessor_.cpp knows of the files
-- that it has visited.
use buildpal.Prelude.{
  ℕ, Bool, true, false, ◌&&◌, ◌≡◌, inl, inr, refl, sym, ap, ◌∙◌, Option, none, some, List, [], ◌∷◌,
  ◌++◌, append-nil, ite, ℕ_discrete, arith, Option-cases,
}
use buildpal.Prelude.Assoc.{lookup, assign, lookup-assign}
use buildpal.HeaderScanner.IncludeFinder.{
  IncludeDirective, RawToken, in_text, NextInclude, include_found, header_done, header_complex,
  next_include, NaiveCache, NaiveCacheEntry, store, IncludeFinder, fixed, lexing,
}
use buildpal.HeaderScanner.Naive.{visited, Found, Asked, found, ended, complex_header, ask}
use buildpal.HeaderScanner.Naive.Includes.{
  prefix, includes_of, rest_of, includes_of-next_include, prefix-prefix,
}

module _ (look_up : ℕ → IncludeDirective → Option Found) (tokens : ℕ → List RawToken)
    (dir_name : ℕ → List ℕ) where
  -- what the directive names is visited, if there is such a file
  unfoldable pub resolved : List ℕ → ℕ → IncludeDirective → Bool
  resolved files file d = elim (look_up file d) [ none ↦ true | some f ↦ visited f.file files ]

  unfoldable pub all_resolved : List ℕ → ℕ → List IncludeDirective → Bool
  unfolding resolved
  all_resolved files file [] = true
  all_resolved files file (d ∷ ds) = resolved files file d && all_resolved files file ds

  -- the file is not complex, and all that it includes is visited
  unfoldable pub closed : List ℕ → ℕ → Bool
  unfolding all_resolved
  closed files file = elim (includes_of in_text (tokens file)) [
    | none ↦ false
    | some ds ↦ all_resolved files file ds
  ]

  all_resolved-more :
      (files : List ℕ) (new file : ℕ) (ds : List IncludeDirective)
      → all_resolved files file ds ≡ true
      → all_resolved (new ∷ files) file ds ≡ true
  unfolding all_resolved resolved visited
  all_resolved-more files new file [] h = refl
  all_resolved-more files new file (d ∷ ds) h =
      ground (arith, h, all_resolved-more files new file ds)

  all_resolved-last :
      (files : List ℕ) (file : ℕ) (ds : List IncludeDirective) (d : IncludeDirective)
      → all_resolved files file ds ≡ true
      → resolved files file d ≡ true
      → all_resolved files file (ds ++ d ∷ []) ≡ true
  unfolding all_resolved
  all_resolved-last files file [] d h r = ground (arith, r)
  all_resolved-last files file (e ∷ ds) d h r =
      ground (arith, h, r, all_resolved-last files file ds d)

  pub closed-more :
      (files : List ℕ) (new file : ℕ) → closed files file ≡ true → closed (new ∷ files) file ≡ true
  unfolding closed
  closed-more files new file h = elim (Option-cases (includes_of in_text (tokens file))) [
    | inl e ↦ absurd (ground (arith, h, e))
    | inr (ds, e) ↦ ground (arith, h, e, all_resolved-more files new file ds)
  ]

  -- what a finder has still to find
  unfoldable pub remaining : IncludeFinder → Option (List IncludeDirective)
  remaining (fixed ds) = some ds
  remaining (lexing ts includes) = includes_of in_text ts

  -- the directives that a finder has kept
  unfoldable pub IsKept : IncludeFinder → List IncludeDirective → Type 0
  IsKept (fixed ds) taken = Unit
  IsKept (lexing ts includes) taken = includes ≡ taken

  pub record IsRead (files : List ℕ) (file : ℕ) (finder : IncludeFinder) : Type 0 where
    pub taken : List IncludeDirective
    pub all : includes_of in_text (tokens file) ≡ prefix taken (remaining finder)
    pub kept : IsKept finder taken
    pub resolves : all_resolved files file taken ≡ true

  pub IsRead-more :
      (files : List ℕ) (new file : ℕ) (finder : IncludeFinder)
      → IsRead files file finder
      → IsRead (new ∷ files) file finder
  IsRead-more files new file finder h = record {
    taken = h.taken;
    all = h.all;
    kept = h.kept;
    resolves = all_resolved-more files new file h.taken h.resolves;
  }

  -- a complete entry of the cache has the directives of its file
  unfoldable pub IsTrue : NaiveCache → Type 0
  IsTrue cache =
      (file : ℕ) (e : NaiveCacheEntry)
      → lookup ℕ_discrete file cache ≡ some e
      → e.complex ≡ false
      → includes_of in_text (tokens file) ≡ some e.includes

  store-IsTrue :
      (file : ℕ) (includes : List IncludeDirective) (cache : NaiveCache)
      → includes_of in_text (tokens file) ≡ some includes
      → IsTrue cache
      → IsTrue (store file includes cache)
  unfolding IsTrue store
  store-IsTrue file includes cache h t g e known whole =
      let new : NaiveCacheEntry = record { complex = false; includes = includes } in
      let at : lookup ℕ_discrete g (assign ℕ_discrete file new cache)
          ≡ ite (ℕ_discrete g file) (some new) (lookup ℕ_discrete g cache) =
        lookup-assign ℕ_discrete file g new cache in
      elim (ℕ_discrete g file) [
        | yes q ↦ ground (arith, q, h, known, at)
        | no n ↦ t g e (ground (arith, n, known, at)) whole
      ]

  closed-all :
      (files : List ℕ) (file : ℕ) (taken : List IncludeDirective)
      → includes_of in_text (tokens file) ≡ some taken
      → all_resolved files file taken ≡ true
      → closed files file ≡ true
  unfolding closed
  closed-all files file taken e h = ground (arith, e, h)

  prefix-nil : (ds : List IncludeDirective) → prefix ds (some []) ≡ some ds
  unfolding prefix
  prefix-nil ds = ap some (append-nil ds)

  prefix-cons :
      (d : IncludeDirective) (ds : List IncludeDirective)
      → some (d ∷ ds) ≡ prefix (d ∷ []) (some ds)
  unfolding prefix
  prefix-cons d ds = refl

  -- what is known behind a question to the finder
  unfoldable pub IsAnswered : List ℕ → ℕ → Asked look_up tokens dir_name → Type 0
  IsAnswered files file (found d next) = resolved files file d ≡ true → IsRead files file next
  IsAnswered files file (ended cache) = (closed files file ≡ true) × IsTrue cache
  IsAnswered files file complex_header = Unit

  pub ask-IsAnswered :
      (files : List ℕ) (file : ℕ) (finder : IncludeFinder) (cache : NaiveCache)
      → IsRead files file finder
      → IsTrue cache
      → IsAnswered files file (ask look_up tokens dir_name finder file cache)
  unfolding ask IsAnswered remaining IsKept rest_of
  ask-IsAnswered files file (fixed []) cache h t =
      (closed-all files file h.taken (h.all ∙ prefix-nil h.taken) h.resolves, t)
  ask-IsAnswered files file (fixed (d ∷ ds)) cache h t = λ r. record {
    taken = h.taken ++ d ∷ [];
    all = h.all ∙ ap (prefix h.taken) (prefix-cons d ds) ∙ prefix-prefix h.taken d (some ds);
    kept = tt;
    resolves = all_resolved-last files file h.taken d h.resolves r;
  }
  ask-IsAnswered files file (lexing ts includes) cache h t =
      by_next (next_include in_text ts) (includes_of-next_include in_text ts)
    where
      by_next :
          (n : NextInclude)
          → includes_of in_text ts ≡ rest_of n
          → IsAnswered files file (elim n [
            | include_found d rest ↦ found d (lexing rest (includes ++ d ∷ []))
            | header_done ↦ ended (store file includes cache)
            | header_complex ↦ complex_header
          ])
      by_next (include_found d rest) e = λ r. record {
        taken = h.taken ++ d ∷ [];
        all = h.all ∙ ap (prefix h.taken) e ∙ prefix-prefix h.taken d (includes_of in_text rest);
        kept = ap (λ (xs : List IncludeDirective). xs ++ d ∷ []) h.kept;
        resolves = all_resolved-last files file h.taken d h.resolves r;
      }
      by_next header_done e =
          let whole = h.all ∙ ap (prefix h.taken) e ∙ prefix-nil h.taken in
          (
            closed-all files file h.taken whole h.resolves,
            store-IsTrue file includes cache (whole ∙ ap some (sym h.kept)) t,
          )
      by_next header_complex e = tt
