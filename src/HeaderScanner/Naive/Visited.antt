-- ===== src/HeaderScanner/Naive/Visited.antt =====
-- The files that the naive preprocessor of Extensions/HeaderScanner/naivePreprocessor_.cpp has
-- visited when it is done.
use buildpal.Prelude.{
  ℕ, Bool, true, false, ◌||◌, ◌==◌, ◌≡◌, ◌⊎◌, inl, inr, refl, sym, subst, Option, none, some, List,
  [], ◌∷◌, arith, Bool-cases,
}
use buildpal.HeaderScanner.IncludeFinder.{
  IncludeDirective, RawToken, in_text, NaiveCache, NaiveCacheEntry,
}
use buildpal.HeaderScanner.Naive.{
  HeaderCtx, NaiveState, visited, Found, finder_for, header_for, pop_header,
}
use buildpal.HeaderScanner.Naive.Includes.{prefix, includes_of}
use buildpal.HeaderScanner.Naive.Closure.{
  resolved, all_resolved, closed, closed-more, remaining, IsKept, IsRead, IsRead-more, IsTrue,
}

-- on the stack, and not its last
unfoldable pub on_stack : ℕ → List HeaderCtx → Bool
on_stack file [] = false
on_stack file (c ∷ []) = false
on_stack file (c ∷ d ∷ cs) = (file == c.file) || on_stack file (d ∷ cs)

module _ (look_up : ℕ → IncludeDirective → Option Found) (tokens : ℕ → List RawToken)
    (dir_name : ℕ → List ℕ) where
  abbrev pub AllRead : List ℕ → List HeaderCtx → Type 0
  AllRead files [] = Unit
  AllRead files (c ∷ cs) =
      IsRead look_up tokens dir_name files c.file c.include_finder × AllRead files cs

  AllRead-more :
      (files : List ℕ) (new : ℕ) (cs : List HeaderCtx) → AllRead files cs → AllRead (new ∷ files) cs
  AllRead-more files new [] h = tt
  AllRead-more files new (c ∷ cs) h = (
    IsRead-more look_up tokens dir_name files new c.file c.include_finder h.0,
    AllRead-more files new cs h.1,
  )

  -- the main file is the last on the stack, or closed when it is empty
  unfoldable pub has_main : ℕ → List ℕ → List HeaderCtx → Bool
  unfolding closed
  has_main main files [] = closed look_up tokens dir_name files main
  has_main main files (c ∷ []) = main == c.file
  has_main main files (c ∷ d ∷ cs) = has_main main files (d ∷ cs)

  -- what is known in each state
  pub record IsSound (main : ℕ) (s : NaiveState) : Type 0 where
    pub truth : IsTrue look_up tokens dir_name s.cache
    pub read : AllRead s.already_visited s.header_stack
    pub known :
        (file : ℕ)
        → visited file s.already_visited ≡ true
        → (on_stack file s.header_stack || closed look_up tokens dir_name s.already_visited file)
          ≡ true
    pub main_file : has_main main s.already_visited s.header_stack ≡ true

  pub pop-IsSound :
      (main : ℕ) (s : NaiveState) (top : HeaderCtx) (rest : List HeaderCtx) (cache : NaiveCache)
      → s.header_stack ≡ top ∷ rest
      → closed look_up tokens dir_name s.already_visited top.file ≡ true
      → IsTrue look_up tokens dir_name cache
      → IsSound main s
      → IsSound main (pop_header look_up tokens dir_name (record s { cache = cache }) top rest)
  unfolding pop_header has_main on_stack
  pop-IsSound main s top [] cache e h t i = record {
    truth = t;
    read = tt;
    known = λ file v. ground (arith, i.known file v, e);
    main_file = ground (arith, i.main_file, e, h);
  }
  pop-IsSound main s top (c ∷ cs) cache e h t i = record {
    truth = t;
    read = (subst (AllRead s.already_visited) e i.read).1;
    known = λ file v. ground (arith, i.known file v, e, h);
    main_file = ground (arith, i.main_file, e);
  }

  -- the stack under the top keeps the main file
  pub has_main-more :
      (main : ℕ) (files more : List ℕ) (c d : HeaderCtx) (cs : List HeaderCtx)
      → c.file ≡ d.file
      → has_main main files (c ∷ cs) ≡ true
      → has_main main more (d ∷ cs) ≡ true
  unfolding has_main
  has_main-more main files more c d [] e h = ground (arith, e, h)
  has_main-more main files more c d (b ∷ cs) e h = has_main-more main files more b b cs refl h

  pub on_stack-same :
      (file : ℕ) (c d : HeaderCtx) (cs : List HeaderCtx)
      → c.file ≡ d.file
      → on_stack file (c ∷ cs) ≡ on_stack file (d ∷ cs)
  unfolding on_stack
  on_stack-same file c d [] e = refl
  on_stack-same file c d (b ∷ cs) e = ground (arith, e)

  -- a file that is entered, with what the cache has of it
  pub new-IsRead :
      (files : List ℕ) (file : ℕ) (entry : Option NaiveCacheEntry)
      → ((e : NaiveCacheEntry)
          → entry ≡ some e
          → includes_of in_text (tokens file) ≡ some e.includes)
      → IsRead look_up tokens dir_name files file (finder_for look_up tokens dir_name entry file)
  unfolding finder_for remaining IsKept prefix all_resolved
  new-IsRead files file none h = record {
    taken = [];
    all = prefix_nothing _;
    kept = refl;
    resolves = refl;
  }
    where
      prefix_nothing : (o : Option (List IncludeDirective)) → o ≡ prefix [] o
      prefix_nothing none = refl
      prefix_nothing (some ds) = refl
  new-IsRead files file (some e) h = record {
    taken = [];
    all = h e refl;
    kept = tt;
    resolves = refl;
  }

  -- what is known before an include is handled: all but that the directive is resolved
  pub record IsPending (main : ℕ) (s : NaiveState) (top : HeaderCtx) (rest : List HeaderCtx)
      (d : IncludeDirective) : Type 0 where
    pub stack : s.header_stack ≡ top ∷ rest
    pub truth : IsTrue look_up tokens dir_name s.cache
    pub read : AllRead s.already_visited rest
    pub top_read :
        (files : List ℕ)
        → (files ≡ s.already_visited) ⊎ ((new : ℕ) × (files ≡ new ∷ s.already_visited))
        → resolved look_up tokens dir_name files top.file d ≡ true
        → IsRead look_up tokens dir_name files top.file top.include_finder
    pub known :
        (file : ℕ)
        → visited file s.already_visited ≡ true
        → (on_stack file (top ∷ rest) || closed look_up tokens dir_name s.already_visited file)
          ≡ true
    pub main_file : has_main main s.already_visited (top ∷ rest) ≡ true

  pub resolved-IsSound :
      (main : ℕ) (s : NaiveState) (top : HeaderCtx) (rest : List HeaderCtx) (d : IncludeDirective)
      → IsPending main s top rest d
      → resolved look_up tokens dir_name s.already_visited top.file d ≡ true
      → IsSound main s
  resolved-IsSound main s top rest d p r = record {
    truth = p.truth;
    read =
        subst (AllRead s.already_visited) (sym p.stack)
          (p.top_read s.already_visited (inl refl) r, p.read);
    known = λ file v.
        subst
          (λ (cs : List HeaderCtx).
            (on_stack file cs || closed look_up tokens dir_name s.already_visited file) ≡ true)
          (sym p.stack) (p.known file v);
    main_file =
        subst (λ (cs : List HeaderCtx). has_main main s.already_visited cs ≡ true) (sym p.stack)
          p.main_file;
  }

  known-more :
      (file g : ℕ) (files : List ℕ) (new top : HeaderCtx) (rest : List HeaderCtx)
      → new.file ≡ g
      → (visited file files ≡ true
          → (on_stack file (top ∷ rest) || closed look_up tokens dir_name files file) ≡ true)
      → visited file (g ∷ files) ≡ true
      → (on_stack file (new ∷ top ∷ rest) || closed look_up tokens dir_name (g ∷ files) file) ≡ true
  unfolding visited on_stack
  known-more file g files new top rest e h v = elim (Bool-cases (visited file files)) [
    | inl seen ↦ ground (arith, h seen, closed-more look_up tokens dir_name files g file)
    | inr unseen ↦ ground (arith, e, v, unseen)
  ]

  pub entered-IsSound :
      (main : ℕ) (s : NaiveState) (top : HeaderCtx) (rest : List HeaderCtx) (d : IncludeDirective)
      (f : Found) (entry : Option NaiveCacheEntry)
      → IsPending main s top rest d
      → look_up top.file d ≡ some f
      → ((e : NaiveCacheEntry)
          → entry ≡ some e
          → includes_of in_text (tokens f.file) ≡ some e.includes)
      → IsSound main (record s {
        header_stack = header_for look_up tokens dir_name top d.is_angled f entry ∷ s.header_stack;
        already_visited = f.file ∷ s.already_visited;
      })
  unfolding header_for resolved visited has_main
  entered-IsSound main s top rest d f entry p looks whole =
      let files = f.file ∷ s.already_visited in
      let new = header_for look_up tokens dir_name top d.is_angled f entry in
      record {
        truth = p.truth;
        read = (
          new-IsRead files f.file entry whole,
          subst (AllRead files) (sym p.stack) (
            p.top_read files (inr (f.file, refl)) (ground (arith, looks)),
            AllRead-more s.already_visited f.file rest p.read,
          ),
        );
        known = λ file v.
            subst
              (λ (cs : List HeaderCtx).
                (on_stack file (new ∷ cs) || closed look_up tokens dir_name files file) ≡ true)
              (sym p.stack)
              (known-more file (f.file) s.already_visited new top rest refl (p.known file) v);
        main_file =
            subst (λ (cs : List HeaderCtx). has_main main files (new ∷ cs) ≡ true) (sym p.stack)
              (has_main-more main s.already_visited files top top rest refl p.main_file);
      }
