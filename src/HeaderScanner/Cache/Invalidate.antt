-- ===== src/HeaderScanner/Cache/Invalidate.antt =====
-- `Cache::invalidate` of Extensions/HeaderScanner/headerCache_.cpp, for a content entry that has
-- changed, and `CacheEntry::usesBuffer`.
use buildpal.Prelude.{
  ℕ, Bool, true, false, ◌||◌, ◌&&◌, none, some, List, [], ◌∷◌, ◌≡◌, refl, ap, sym, ◌∙◌, arith, ◌==◌,
  if◌then◌else◌, ℕ_discrete, foldl, Option-cases, inl, inr,
}
use buildpal.Prelude.Assoc.{Assoc, lookup}
use buildpal.HeaderScanner.Macros.{Macros}
use buildpal.HeaderScanner.CacheTree.{find}
use buildpal.HeaderScanner.Cache.{
  CacheEntry, Cache, Key, Headers, key_discrete, contains, is_some, release, find_entry,
}

unfoldable pub uses_buffer : Headers → ℕ → Bool
uses_buffer [] content = false
uses_buffer ((name, (entry, relative)) ∷ headers) content =
    (entry == content) || uses_buffer headers content

unfoldable pub entry_uses : Assoc ℕ CacheEntry → ℕ → ℕ → Bool
unfolding uses_buffer
entry_uses objects content e = elim (lookup ℕ_discrete e objects) [
  | none ↦ false
  | some o ↦ uses_buffer o.headers content
]

-- the entries that stay, and `entriesToRemove`
unfoldable pub split_used : Assoc ℕ CacheEntry → ℕ → List ℕ → List ℕ × List ℕ
unfolding entry_uses
split_used objects content [] = ([], [])
split_used objects content (e ∷ es) =
    let (kept, used) = split_used objects content es in
    if entry_uses objects content e then (kept, e ∷ used) else (e ∷ kept, used)

-- `cacheEntries_.erase` for each of them, which gives the reference back
unfoldable pub invalidate : List ℕ → Cache → ℕ → Cache
unfolding split_used release
invalidate held s content =
    let (kept, used) = split_used s.objects content s.entries in
    foldl (release held) (record s { entries = kept }) used

-- what `tempLastTimeHit_` refers to is not destroyed
release-hit :
    (held : List ℕ) (s : Cache) (e : ℕ)
    → is_some (lookup ℕ_discrete e s.temp_last_time_hit) ≡ true
    → release held s e ≡ s
unfolding release
release-hit held s e h = ground arith

releases-hit :
    (held es : List ℕ) (s : Cache)
    → ((e : ℕ) → contains e es ≡ true → is_some (lookup ℕ_discrete e s.temp_last_time_hit) ≡ true)
    → foldl (release held) s es ≡ s
releases-hit held [] s h = refl
releases-hit held (e ∷ es) s h =
    ap (λ t. foldl (release held) t es) (release-hit held s e (h e (ground arith)))
    ∙ releases-hit held es s (λ d c. h d (ground arith))

used-split_used :
    (objects : Assoc ℕ CacheEntry) (content e : ℕ) (es : List ℕ)
    → contains e (split_used objects content es).1 ≡ contains e es && entry_uses objects content e
unfolding split_used
used-split_used objects content e [] = refl
used-split_used objects content e (d ∷ es) = ground (arith, used-split_used objects content e es)

-- what is found is a matter of the trees
found-entry :
    (held : List ℕ) (s : Cache) (key : Key) (state : Macros)
    → (find_entry held s key state).1
      ≡ elim (lookup key_discrete key s.container) [ none ↦ none | some tree ↦ find state tree ]
unfolding find_entry
found-entry held s key state = elim (Option-cases (lookup key_discrete key s.container)) [
  | inl e ↦ ground arith
  | inr (tree, e) ↦ elim (Option-cases (find state tree)) [
    | inl f ↦ ground arith
    | inr (d, f) ↦ ground arith
  ]
]

-- While every entry of `cacheEntries_` with a header that has the content has been hit since
-- `maintenance` ran last, `invalidate` is not seen: `tempLastTimeHit_` keeps the entries alive and
-- their trees refer to them, so the next `findEntry` returns what it would have returned.
pub invalidate-find_entry :
    (held : List ℕ) (s : Cache) (content : ℕ) (key : Key) (state : Macros)
    → ((d : ℕ)
        → contains d s.entries ≡ true
        → entry_uses s.objects content d ≡ true
        → is_some (lookup ℕ_discrete d s.temp_last_time_hit) ≡ true)
    → (find_entry held (invalidate held s content) key state).1 ≡ (find_entry held s key state).1
unfolding invalidate
invalidate-find_entry held s content key state hit =
    let kept = (split_used s.objects content s.entries).0 in
    let used = (split_used s.objects content s.entries).1 in
    let same : foldl (release held) (record s { entries = kept }) used
        ≡ record s { entries = kept } =
      releases-hit held used (record s { entries = kept })
        (λ d c. ground (arith, hit d, used-split_used s.objects content d s.entries)) in
    ap (λ t. (find_entry held t key state).1) same
    ∙ found-entry held (record s { entries = kept }) key state
    ∙ sym (found-entry held s key state)
