-- ===== src/HeaderScanner/Driver/Search.antt =====
-- The search path of `scanHeaders` (Extensions/HeaderScanner/headerScanner_.cpp).
use buildpal.Prelude.{
  ℕ, suc, ◌+◌, ◌≡◌, sym, ap, ap₂, ◌∙◌, Bool, Bool-cases, inl, inr, List, [], ◌∷◌, ◌++◌, append-nil,
  append_assoc, length, take, arith, if◌then◌else◌,
}
use buildpal.HeaderScanner.Driver.{PreprocessingContext, add_dirs, search_path}

abbrev pub present : (List ℕ → Bool) → List (List ℕ) → List (List ℕ)
present exists [] = []
present exists (p ∷ ps) = if exists p then p ∷ present exists ps else present exists ps

abbrev pub missing : (List ℕ → Bool) → List (List ℕ) → ℕ
missing exists [] = 0
missing exists (p ∷ ps) = if exists p then missing exists ps else suc (missing exists ps)

length-present :
    (exists : List ℕ → Bool) (ps : List (List ℕ))
    → length (present exists ps) + missing exists ps ≡ length ps
length-present exists [] = omega arith
length-present exists (p ∷ ps) = ground (arith, length-present exists ps)

-- taking more than the first list
take-append : (xs ys : List (List ℕ)) (n : ℕ) → take (length xs + n) (xs ++ ys) ≡ xs ++ take n ys
unfolding take
take-append [] ys n = ap (λ k. take k ys) (omega arith)
take-append (x ∷ xs) ys n =
    let next : suc (length xs) + n ≡ suc (length xs + n) = omega arith in
    ap (λ k. take k (x ∷ (xs ++ ys))) next ∙ ap (◌∷◌ x) (take-append xs ys n)

module _ (exists : List ℕ → Bool) (hash_combine : ℕ → List ℕ → ℕ) where
  add_dirs-present :
      (dirs : List (List ℕ)) (id : ℕ) (ps : List (List ℕ))
      → add_dirs exists hash_combine (dirs, id) ps ≡ (dirs ++ present exists ps, id)
  unfolding add_dirs
  add_dirs-present dirs id [] = ap (λ (d : List (List ℕ)). (d, id)) (sym (append-nil dirs))
  add_dirs-present dirs id (p ∷ ps) = elim (Bool-cases (exists p)) [
    | inl e ↦ rw e (
        add_dirs-present (dirs ++ (p ∷ [])) id ps
        ∙ ap (λ (d : List (List ℕ)). (d, id)) (append_assoc dirs (p ∷ []) (present exists ps)))
    | inr e ↦ rw e (add_dirs-present dirs id ps)
  ]

  -- The search path has the directories that exist, the user's first. But the index that is handed
  -- over as the first system directory counts those of the user that do not exist, too: as many
  -- system directories are searched as if they were the user's. And whatever the directories are,
  -- the number of the search path is 0, since the hash is dropped: all contexts share the cache.
  pub search_path-dirs :
      (ppc : PreprocessingContext)
      → (let path = search_path exists hash_combine ppc in
          let users = present exists ppc.user_search_path in
          let systems = present exists ppc.system_search_path in
          (path.dirs ≡ users ++ systems)
          × (take path.system_dir_idx path.dirs
              ≡ users ++ take (missing exists ppc.user_search_path) systems)
          × (path.search_path_id ≡ 0))
  unfolding search_path
  search_path-dirs ppc =
      let users = present exists ppc.user_search_path in
      let systems = present exists ppc.system_search_path in
      let k = missing exists ppc.user_search_path in
      let first = add_dirs-present [] 0 ppc.user_search_path in
      let both = add_dirs-present users 0 ppc.system_search_path in
      let all : add_dirs exists hash_combine
            (add_dirs exists hash_combine ([], 0) ppc.user_search_path) ppc.system_search_path
          ≡ (users ++ systems, 0) =
        ap (λ s. add_dirs exists hash_combine s ppc.system_search_path) first ∙ both in
      let dirs = ap (λ (s : List (List ℕ) × ℕ). s.0) all in
      (
        dirs,
        ap₂ take (sym (length-present exists ppc.user_search_path)) dirs
            ∙ take-append users systems k,
        ap (λ (s : List (List ℕ) × ℕ). s.1) all,
      )
