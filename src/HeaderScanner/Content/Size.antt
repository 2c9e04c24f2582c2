-- ===== src/HeaderScanner/Content/Size.antt =====
-- The size of a `ContentCache` (Extensions/HeaderScanner/contentCache_.cpp).
use buildpal.Prelude.{
  ℕ, ◌+◌, ◌-◌, ◌≤◌, ◌≡◌, Option, some, List, [], ◌∷◌, ◌++◌, arith, Option-cases, Bool-cases, inl,
  refl, sym, subst, foldl, inr, ltb,
}
use buildpal.HeaderScanner.Content.{
  ContentEntry, ContentCache, max_content_cache_size, find_name, without, evict, add_new_entry,
  get_or_create, open_file_for_read, status, clear,
}

abbrev pub total : List ContentEntry → ℕ
total [] = 0
total (e ∷ es) = e.size + total es

-- `contentSize_` is the size of the entries, and within the bound
pub record IsSized (s : ContentCache) : Type 0 where
  pub counted : s.content_size ≡ total s.content
  pub bounded : s.content_size ≤ max_content_cache_size

total-append :
    (xs : List ContentEntry) (e : ContentEntry) → total (xs ++ e ∷ []) ≡ total xs + e.size
total-append [] e = omega arith
total-append (x ∷ xs) e = omega (arith, total-append xs e)

total-without :
    (path : List ℕ) (es : List ContentEntry) (e : ContentEntry)
    → find_name path es ≡ some e
    → total (without path es) + e.size ≡ total es
unfolding find_name without
total-without path [] e h = absurd cc
total-without path (x ∷ es) e h = ground (arith, total-without path es e)

evict-IsSized : (es : List ContentEntry) (size : ℕ) → size ≡ total es → IsSized (evict es size)
unfolding evict
evict-IsSized [] size h = record { counted = h; bounded = omega arith }
evict-IsSized (e ∷ es) size h = elim (Bool-cases (ltb max_content_cache_size size)) [
  | inl big ↦ rw (big, evict) (evict-IsSized es (size - e.size) (omega arith))
  | inr small ↦ rw (small, evict) (record { counted = h; bounded = ground arith })
]

module _ (create : List ℕ → Option ℕ) where
  -- Whatever is read, the cache knows the size of what it holds, which stays within 100 MB.
  pub get_or_create-IsSized :
      (s : ContentCache) (path : List ℕ) → IsSized s → IsSized (get_or_create create s path).0
  unfolding get_or_create add_new_entry
  get_or_create-IsSized s path h = elim (Option-cases (find_name path s.content)) [
    | inr (e, hit) ↦
        rw (hit, get_or_create)
          (record {
            counted = omega (
              arith,
              h.counted,
              total-append (without path s.content) e,
              total-without path s.content e hit,
            );
            bounded = h.bounded;
          })
    | inl miss ↦ elim (Option-cases (create path)) [
      | inl fails ↦ rw (miss, get_or_create) (rw (fails, add_new_entry) h)
      | inr (size, reads) ↦
          rw (miss, get_or_create)
            (rw (reads, add_new_entry)
              (rw miss (
                evict-IsSized (s.content ++ record { name = path; size = size } ∷ [])
                  (s.content_size + size)
                  (omega (
                    arith,
                    h.counted,
                    total-append s.content (record { name = path; size = size }),
                  )))))
    ]
  ]

-- what is asked of the cache
pub data CacheRequest : Type 0 where
  read : List ℕ → CacheRequest
  open_file : List ℕ → CacheRequest
  stat : List ℕ → CacheRequest
  clear_all : CacheRequest

module _ {S : Type 0} (create : List ℕ → Option ℕ) (entry_status : ContentEntry → S)
    (file_status : List ℕ → Option S) where
  unfoldable pub answer : ContentCache → CacheRequest → ContentCache
  answer s (read path) = (get_or_create create s path).0
  answer s (open_file path) = (open_file_for_read create s path).0
  answer s (stat path) = (status create entry_status file_status s path).0
  answer s clear_all = clear s

  answer-IsSized : (s : ContentCache) (r : CacheRequest) → IsSized s → IsSized (answer s r)
  unfolding answer open_file_for_read clear
  answer-IsSized s (read path) h = get_or_create-IsSized create s path h
  answer-IsSized s (open_file path) h = get_or_create-IsSized create s path h
  answer-IsSized s (stat path) h =
      subst IsSized (sym (same s path)) (get_or_create-IsSized create s path h)
    where
      same :
          (s : ContentCache) (path : List ℕ)
          → (status create entry_status file_status s path).0 ≡ (get_or_create create s path).0
      same s path =
          unfold status in
          elim (Option-cases (get_or_create create s path).1) [
            | inl e ↦ ground arith
            | inr (x, e) ↦ ground arith
          ]
  answer-IsSized s clear_all h = record { counted = refl; bounded = omega arith }

  -- Whatever is asked of the cache, in any order and with any clearing, it knows the size of what it
  -- holds, which stays within 100 MB.
  pub answers-IsSized :
      (s : ContentCache) (requests : List CacheRequest)
      → IsSized s
      → IsSized (foldl answer s requests)
  answers-IsSized s [] h = h
  answers-IsSized s (r ∷ rs) h = answers-IsSized (answer s r) rs (answer-IsSized s r h)
