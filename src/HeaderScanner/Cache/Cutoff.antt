-- ===== src/HeaderScanner/Cache/Cutoff.antt =====
-- Which entries `Cache::maintenance` (Extensions/HeaderScanner/headerCache_.cpp) keeps.
use buildpal.Prelude.{
  ℕ, ◌+◌, ◌/◌, ◌%◌, ◌^◌, ◌<◌, true, false, ◌&&◌, not, none, some, List, [], ◌∷◌, ◌≡◌, refl, ap, ◌∙◌,
  ite, arith, ltb, if◌then◌else◌, ◌-◌, ℕ_discrete, foldl, Option-cases, inl, inr,
}
use buildpal.Prelude.Assoc.{Assoc, lookup, lookup-assign, lookup-erase, Distinct}
use buildpal.HeaderScanner.Macros.{Macros}
use buildpal.HeaderScanner.CacheTree.{get_entry}
use buildpal.HeaderScanner.Cache.{
  CacheEntry, Cache, Key, Headers, tree_of, add_entry, contains, is_some, destroy_entry, release,
  set_last_time_hit, update_hits, keys, is_old, split_old, cache_cleanup_period, cutoff_time,
  clean_up, maintenance,
}

release-entries : (held : List ℕ) (s : Cache) (e : ℕ) → (release held s e).entries ≡ s.entries
unfolding release destroy_entry
release-entries held s e = ground arith

pub releases-entries :
    (held es : List ℕ) (s : Cache) → (foldl (release held) s es).entries ≡ s.entries
releases-entries held [] s = refl
releases-entries held (e ∷ es) s =
    releases-entries held es (release held s e) ∙ release-entries held s e

-- an entry of `cacheEntries_` does not go with another reference
release-objects :
    (held : List ℕ) (s : Cache) (d e : ℕ)
    → contains e s.entries ≡ true
    → lookup ℕ_discrete e (release held s d).objects ≡ lookup ℕ_discrete e s.objects
unfolding release destroy_entry
release-objects held s d e h = ground (arith, lookup-erase ℕ_discrete d e s.objects)

releases-objects :
    (held es : List ℕ) (s : Cache) (e : ℕ)
    → contains e s.entries ≡ true
    → lookup ℕ_discrete e (foldl (release held) s es).objects ≡ lookup ℕ_discrete e s.objects
releases-objects held [] s e h = refl
releases-objects held (d ∷ es) s e h =
    releases-objects held es (release held s d) e (ap (contains e) (release-entries held s d) ∙ h)
    ∙ release-objects held s d e h

contains-split_old :
    (cutoff : ℕ) (objects : Assoc ℕ CacheEntry) (e : ℕ) (es : List ℕ)
    → contains e (split_old cutoff objects es).0 ≡ contains e es && not (is_old cutoff objects e)
unfolding split_old
contains-split_old cutoff objects e [] = refl
contains-split_old cutoff objects e (d ∷ es) =
    ground (arith, contains-split_old cutoff objects e es)

lookup-set_last_time_hit :
    (d time : ℕ) (objects : Assoc ℕ CacheEntry) (e : ℕ)
    → lookup ℕ_discrete e (set_last_time_hit d time objects) ≡ elim (lookup ℕ_discrete e objects) [
      | none ↦ none
      | some o ↦ some (ite (ℕ_discrete e d) (record o { last_time_hit = time }) o)
    ]
unfolding set_last_time_hit
lookup-set_last_time_hit d time objects e = elim (Option-cases (lookup ℕ_discrete d objects)) [
  | inl gone ↦ ground arith
  | inr (o, found) ↦
      ground (arith, lookup-assign ℕ_discrete d e (record o { last_time_hit = time }) objects)
]

is_old-update_hits :
    (entries : List ℕ) (hits : Assoc ℕ ℕ) (objects : Assoc ℕ CacheEntry) (cutoff e : ℕ)
    → Distinct ℕ_discrete hits
    → contains e entries ≡ true
    → is_old cutoff (update_hits entries hits objects) e ≡ (
        is_some (lookup ℕ_discrete e objects) && elim (lookup ℕ_discrete e hits) [
          | none ↦ is_old cutoff objects e
          | some time ↦ ltb time cutoff
        ])
unfolding update_hits is_old lookup
is_old-update_hits entries [] objects cutoff e d h = ground arith
is_old-update_hits entries ((k, time) ∷ hits) objects cutoff e d h = ground (
  arith,
  is_old-update_hits entries hits objects cutoff e d.1 h,
  is_old-update_hits entries hits (set_last_time_hit k time objects) cutoff e d.1 h,
  lookup-set_last_time_hit k time objects e,
  d.0,
)

clean_up-entries :
    (held : List ℕ) (now e : ℕ) (s : Cache)
    → contains e s.entries ≡ true
    → contains e (clean_up held now s).entries
      ≡ not (is_old (cutoff_time now) (update_hits s.entries s.temp_last_time_hit s.objects) e)
unfolding clean_up
clean_up-entries held now e s h =
    let updated = record s {
      objects = update_hits s.entries s.temp_last_time_hit s.objects;
      temp_last_time_hit = [];
    } in
    let after = foldl (release held) updated (keys s.temp_last_time_hit) in
    let same = releases-entries held (keys s.temp_last_time_hit) updated in
    ap (contains e) (
      releases-entries held (split_old (cutoff_time now) after.objects after.entries).1
        (record after { entries = (split_old (cutoff_time now) after.objects after.entries).0 }))
    ∙ contains-split_old (cutoff_time now) after.objects e after.entries
    ∙ unfold is_old in
      ground (arith, same, releases-objects held (keys s.temp_last_time_hit) updated e h)

-- the request at which the entry was hit last, as far as it is known
abbrev pub last_hit : Cache → ℕ → CacheEntry → ℕ
last_hit s e o = elim (lookup ℕ_discrete e s.temp_last_time_hit) [
  | none ↦ o.last_time_hit
  | some time ↦ time
]

-- When `maintenance` runs, after a multiple of 2048 requests, it keeps exactly those entries whose
-- last hit, as far as it is known, is not before the cutoff: the request 16384 requests ago, or, up
-- to the request 16384, the one at a fifth of the number of requests. The hits since it ran before
-- count. An entry that was never hit has the time that it was given when it was made, half of
-- the number of requests at that time, and is removed if that is before the cutoff.
pub maintenance-entries :
    (held : List ℕ) (s : Cache) (e : ℕ) (o : CacheEntry)
    → (s.hits + s.misses) % 2 ^ 32 % cache_cleanup_period ≡ 0
    → Distinct ℕ_discrete s.temp_last_time_hit
    → contains e s.entries ≡ true
    → lookup ℕ_discrete e s.objects ≡ some o
    → contains e (maintenance held s).entries
      ≡ not (
          ltb (last_hit s e o) (
            if ltb 16384 ((s.hits + s.misses) % 2 ^ 32)
            then (s.hits + s.misses) % 2 ^ 32 - 16384
            else (s.hits + s.misses) % 2 ^ 32 / 5))
unfolding maintenance is_old cutoff_time
maintenance-entries held s e o due d h found = ground (
  arith,
  clean_up-entries held ((s.hits + s.misses) % 2 ^ 32) e s h,
  is_old-update_hits s.entries s.temp_last_time_hit s.objects
      (cutoff_time ((s.hits + s.misses) % 2 ^ 32)) e d h,
)

-- An entry that `addEntry` makes and that is not hit before `maintenance` runs next is removed by
-- it, however new it is, once the cache has served more than 32768 requests: its `lastTimeHit_`
-- starts at half of the time.
pub fresh_entry-removed :
    (held : List ℕ) (s : Cache) (key : Key) (used macro_state : Macros) (headers : Headers) (k : ℕ)
    → get_entry used (tree_of s key) ≡ none
    → Distinct ℕ_discrete s.temp_last_time_hit
    → lookup ℕ_discrete s.counter s.temp_last_time_hit ≡ none
    → (s.hits + s.misses + k) % cache_cleanup_period ≡ 0
    → 32768 < s.hits + s.misses + k
    → s.hits + s.misses + k < 2 ^ 32
    → contains s.counter
        (maintenance held
          (record (add_entry s key used macro_state headers).0 { misses = s.misses + k })).entries
      ≡ false
unfolding add_entry cutoff_time
fresh_entry-removed held s key used macro_state headers k free d unseen due late small =
    let o : CacheEntry = record {
      key = key;
      used = used;
      macro_state = macro_state;
      headers = headers;
      last_time_hit = (s.hits + s.misses) / 2;
    } in
    rw (free, add_entry)
      (maintenance-entries held _ s.counter o (omega arith) d (ground arith)
          (ground (arith, lookup-assign ℕ_discrete s.counter s.counter o s.objects))
        ∙ ground arith)
