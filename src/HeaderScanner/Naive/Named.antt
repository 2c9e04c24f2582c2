-- ===== src/HeaderScanner/Naive/Named.antt =====
-- The names that the naive preprocessor of Extensions/HeaderScanner/naivePreprocessor_.cpp has for
-- the files that it visits.
use buildpal.Prelude.{
  ℕ, Bool, true, false, ◌&&◌, not, ◌≡◌, ◌⊎◌, inl, inr, refl, Option, none, some, List, [], ◌∷◌,
  ◌++◌, ◌==◌, arith, subst, Bool-cases, Option-cases, text_discrete, ℕ_discrete, ite,
}
use buildpal.Prelude.Assoc.{lookup, insert_new, lookup-insert_new}
use buildpal.HeaderScanner.Cache.{Headers, is_some}
use buildpal.HeaderScanner.Context.{name_discrete}
use buildpal.HeaderScanner.IncludeFinder.{
  IncludeDirective, RawToken, NaiveCache, NaiveCacheEntry, IncludeFinder,
}
use buildpal.HeaderScanner.Naive.{
  HeaderCtx, NaiveState, Found, visited, name_prefix, header_for, enter_found, handle_include,
  pop_header,
}
use buildpal.HeaderScanner.Naive.Visited.{on_stack, on_stack-same}

module _ (look_up : ℕ → IncludeDirective → Option Found) (tokens : ℕ → List RawToken)
    (dir_name : ℕ → List ℕ) (main_name : List ℕ) (main : ℕ) where
  -- A file may be named by the search path that it is found on, or, if that is the directory of the
  -- file that includes it in quotes, beside a name of that file.
  pub data Named : ℕ → List ℕ → List ℕ → Type 0 where
    main_file : Named main (dir_name main) main_name
    on_path :
        {file : ℕ} {d : IncludeDirective} {f : Found}
        → look_up file d ≡ some f
        → Named f.file f.search_path f.relative_path
    beside :
        {file : ℕ} {dir name : List ℕ} {d : IncludeDirective} {f : Found}
        → Named file dir name
        → look_up file d ≡ some f
        → d.is_angled ≡ false
        → dir_name file ≡ f.search_path
        → Named f.file dir (name_prefix name ++ f.relative_path)

  -- a name of the file is among the headers
  abbrev pub Reported : Headers → ℕ → Type 0
  Reported headers file =
      (dir : List ℕ) × (name : List ℕ) × Named file dir name
      × (is_some (lookup name_discrete (dir, name) headers) ≡ true)

  Reported-more :
      (headers : Headers) (k : List ℕ × List ℕ) (v : ℕ × Bool) (file : ℕ)
      → Reported headers file
      → Reported (insert_new name_discrete k v headers) file
  Reported-more headers k v file (dir, name, n, e) =
      (dir, name, n, ground (arith, e, lookup-insert_new name_discrete k (dir, name) v headers))

  Reported-new :
      (headers : Headers) (v : ℕ × Bool) (c : HeaderCtx)
      → Named c.file c.dir c.name
      → Reported (insert_new name_discrete (c.dir, c.name) v headers) c.file
  Reported-new headers v c n = (
    c.dir,
    c.name,
    n,
    ground (arith, lookup-insert_new name_discrete (c.dir, c.name) (c.dir, c.name) v headers),
  )

  abbrev pub AllNamed : List HeaderCtx → Type 0
  AllNamed [] = Unit
  AllNamed (c ∷ cs) = Named c.file c.dir c.name × AllNamed cs

  pub record IsReported (s : NaiveState) : Type 0 where
    pub named : AllNamed s.header_stack
    pub reported :
        (file : ℕ)
        → visited file s.already_visited ≡ true
        → (on_stack file s.header_stack ≡ true) ⊎ Reported s.all_headers file

  header_for-Named :
      (top : HeaderCtx) (d : IncludeDirective) (f : Found) (entry : Option NaiveCacheEntry)
      → Named top.file top.dir top.name
      → look_up top.file d ≡ some f
      → (let h : HeaderCtx = header_for look_up tokens dir_name top d.is_angled f entry in
          Named h.file h.dir h.name)
  unfolding header_for
  header_for-Named top d f entry n looks =
      elim (Bool-cases
        (not d.is_angled && ite (text_discrete (dir_name top.file) f.search_path) true false)) [
          | inl e ↦ rw e (beside n looks (ground (arith, e)) (ground (arith, e)))
          | inr e ↦ rw e (on_path looks)
        ]

  entered-IsReported :
      (s : NaiveState) (top : HeaderCtx) (rest : List HeaderCtx) (d : IncludeDirective) (f : Found)
      (entry : Option NaiveCacheEntry)
      → IsReported s
      → s.header_stack ≡ top ∷ rest
      → look_up top.file d ≡ some f
      → IsReported (record s {
        header_stack = header_for look_up tokens dir_name top d.is_angled f entry ∷ s.header_stack;
        already_visited = f.file ∷ s.already_visited;
      })
  unfolding visited on_stack header_for
  entered-IsReported s top rest d f entry i e looks = record {
    named = (header_for-Named top d f entry (subst AllNamed e i.named).0 looks, i.named);
    reported = λ file v. elim (Bool-cases (file == f.file)) [
      | inl same ↦ inl (ground (arith, e, same))
      | inr other ↦ elim (i.reported file (ground (arith, v, other))) [
        | inl on ↦ inl (ground (arith, e, on))
        | inr r ↦ inr r
      ]
    ];
  }

  enter_found-IsReported :
      (s t : NaiveState) (top : HeaderCtx) (rest : List HeaderCtx) (d : IncludeDirective)
      (f : Found)
      → IsReported s
      → s.header_stack ≡ top ∷ rest
      → look_up top.file d ≡ some f
      → enter_found look_up tokens dir_name s top d.is_angled f ≡ some t
      → IsReported t
  unfolding enter_found
  enter_found-IsReported s t top rest d f i es looks e =
      elim (Option-cases (lookup ℕ_discrete f.file s.cache)) [
        | inl absent ↦
            subst IsReported (ground (arith, e, absent))
              (entered-IsReported s top rest d f none i es looks)
        | inr (entry, known) ↦ elim (Bool-cases entry.complex) [
          | inl complex ↦ absurd (ground (arith, e, known, complex))
          | inr whole ↦
              subst IsReported (ground (arith, e, known, whole))
                (entered-IsReported s top rest d f (some entry) i es looks)
        ]
      ]

  pub handle_include-IsReported :
      (s t : NaiveState) (top : HeaderCtx) (rest : List HeaderCtx) (d : IncludeDirective)
      → IsReported s
      → s.header_stack ≡ top ∷ rest
      → handle_include look_up tokens dir_name s top d ≡ some t
      → IsReported t
  unfolding handle_include
  handle_include-IsReported s t top rest d i es e = elim (Option-cases (look_up top.file d)) [
    | inl absent ↦ subst IsReported (ground (arith, e, absent)) i
    | inr (f, looks) ↦ elim (Bool-cases (visited f.file s.already_visited)) [
      | inl seen ↦ subst IsReported (ground (arith, e, looks, seen)) i
      | inr unseen ↦
          enter_found-IsReported s t top rest d f i es looks (ground (arith, e, looks, unseen))
    ]
  ]

  pub pop-IsReported :
      (s : NaiveState) (top : HeaderCtx) (rest : List HeaderCtx) (cache : NaiveCache)
      → IsReported s
      → s.header_stack ≡ top ∷ rest
      → IsReported (pop_header look_up tokens dir_name (record s { cache = cache }) top rest)
  unfolding pop_header on_stack
  pop-IsReported s top [] cache i es = record {
    named = tt;
    reported = λ file v. elim (i.reported file v) [
      | inl on ↦ absurd (ground (arith, on, es))
      | inr r ↦ inr r
    ];
  }
  pop-IsReported s top (c ∷ cs) cache i es =
      let (n, ns) : AllNamed (top ∷ c ∷ cs) = subst AllNamed es i.named in
      let new = Reported-new s.all_headers (top.file, top.relative) top n in
      record {
        named = ns;
        reported = λ file v. elim (i.reported file v) [
          | inl on ↦ elim (Bool-cases (file == top.file)) [
            | inl same ↦
                let e : top.file ≡ file = ground (arith, same) in
                inr (
                  subst (Reported (pop_header look_up tokens dir_name s top (c ∷ cs)).all_headers) e
                    new)
            | inr other ↦ inl (ground (arith, on, es, other))
          ]
          | inr r ↦ inr (Reported-more s.all_headers (top.dir, top.name) _ file r)
        ];
      }

  pub found-IsReported :
      (s : NaiveState) (top : HeaderCtx) (rest : List HeaderCtx) (next : IncludeFinder)
      → IsReported s
      → s.header_stack ≡ top ∷ rest
      → IsReported (record s { header_stack = record top { include_finder = next } ∷ rest })
  found-IsReported s top rest next i es = record {
    named = subst AllNamed es i.named;
    reported = λ file v. elim (i.reported file v) [
      | inl on ↦ inl (
          ground (
            arith,
            on,
            es,
            on_stack-same look_up tokens dir_name file top (record top { include_finder = next })
                rest refl,
          ))
      | inr r ↦ inr r
    ];
  }
