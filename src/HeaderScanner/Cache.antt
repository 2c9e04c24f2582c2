-- ===== src/HeaderScanner/Cache.antt =====
-- `Cache` and `CacheEntry` of Extensions/HeaderScanner/headerCache_.hpp and headerCache_.cpp, one
-- call at a time. An entry's address is the number in its file name. An entry lives as long as
-- `cacheEntries_`, `tempLastTimeHit_` or a context of a tracker refers to it: `held` are the
-- entries that contexts refer to. `std::size_t` counters do not come to their end.
pub mod Cutoff
pub mod Invalidate
pub mod Text
use buildpal.Prelude.{
  ℕ, ◌+◌, ◌-◌, ◌*◌, ◌/◌, ◌%◌, ◌^◌, Bool, true, false, ◌||◌, not, Option, none, some, List, [], ◌∷◌,
  ◌≡◌, ite, arith, ltb, ◌==◌, if◌then◌else◌, text_discrete, ℕ_discrete, foldl,
}
use buildpal.Prelude.Assoc.{Assoc, lookup, assign, erase, insert_new}
use buildpal.HeaderScanner.Macros.{MacroName, MacroValue, Macros}
use buildpal.HeaderScanner.CacheTree.{CacheTree, empty_tree, get_entry, add_at, find, detach}

-- `Header`, ordered and compared by `dir` and `name`; a content entry is a number
abbrev pub Headers : Type 0
Headers = Assoc (List ℕ × List ℕ) (ℕ × Bool)

-- the unique id of a file, and the number of the search path
abbrev pub Key : Type 0
Key = (ℕ × ℕ) × ℕ

unfoldable pub key_discrete : Discrete Key
unfolding ℕ_discrete
key_discrete = hlevel ℕ_discrete

-- `key` and `used` stand for the reference to a node of a tree
pub record CacheEntry : Type 0 where
  pub key : Key
  pub used : Macros
  pub macro_state : Macros
  pub headers : Headers
  pub last_time_hit : ℕ

-- `objects` are the entries that live, `entries` what `cacheEntries_` refers to
pub record Cache : Type 0 where
  pub container : Assoc Key CacheTree
  pub objects : Assoc ℕ CacheEntry
  pub entries : List ℕ
  pub temp_last_time_hit : Assoc ℕ ℕ
  pub counter : ℕ
  pub hits : ℕ
  pub misses : ℕ

abbrev pub empty_cache : Cache
empty_cache = record {
  container = [];
  objects = [];
  entries = [];
  temp_last_time_hit = [];
  counter = 0;
  hits = 0;
  misses = 0;
}

abbrev pub contains : ℕ → List ℕ → Bool
contains e [] = false
contains e (d ∷ ds) = (e == d) || contains e ds

abbrev pub is_some {ℓ} : {A : Type ℓ} → Option A → Bool
is_some none = false
is_some (some a) = true

abbrev pub or_empty : Option CacheTree → CacheTree
or_empty none = empty_tree
or_empty (some t) = t

-- `cacheContainer_[ key ]`
unfoldable pub tree_of : Cache → Key → CacheTree
tree_of s key = or_empty (lookup key_discrete key s.container)

-- the entry that is returned, and the cache behind it
unfoldable pub add_entry : Cache → Key → Macros → Macros → Headers → Cache × ℕ
unfolding tree_of
add_entry s key used macro_state headers =
    let tree = tree_of s key in
    elim (get_entry used tree) [
      | some e ↦ (
        record s { container = assign key_discrete key (add_at used s.counter tree) s.container },
        e,
      )
      | none ↦ (
        record s {
          container = assign key_discrete key (add_at used s.counter tree) s.container;
          objects =
              assign ℕ_discrete s.counter
                (record {
                  key = key;
                  used = used;
                  macro_state = macro_state;
                  headers = headers;
                  last_time_hit = (s.hits + s.misses) / 2;
                })
                s.objects;
          entries = s.counter ∷ s.entries;
          counter = s.counter + 1;
        },
        s.counter,
      )
    ]

-- `~CacheEntry`
unfoldable pub destroy_entry : Cache → ℕ → Cache
unfolding tree_of
destroy_entry s e = elim (lookup ℕ_discrete e s.objects) [
  | none ↦ s
  | some o ↦ record s {
    container = assign key_discrete o.key (detach o.used (tree_of s o.key)) s.container;
    objects = erase ℕ_discrete e s.objects;
  }
]

-- a reference to the entry goes
unfoldable pub release : List ℕ → Cache → ℕ → Cache
unfolding destroy_entry
release held s e =
    if contains e held || contains e s.entries || is_some (lookup ℕ_discrete e s.temp_last_time_hit)
    then s
    else destroy_entry s e

unfoldable pub set_last_time_hit : ℕ → ℕ → Assoc ℕ CacheEntry → Assoc ℕ CacheEntry
set_last_time_hit e time objects = elim (lookup ℕ_discrete e objects) [
  | none ↦ objects
  | some o ↦ assign ℕ_discrete e (record o { last_time_hit = time }) objects
]

-- `std::for_each( tempLastTimeHit_.begin(), … )`
unfoldable pub update_hits : List ℕ → Assoc ℕ ℕ → Assoc ℕ CacheEntry → Assoc ℕ CacheEntry
unfolding set_last_time_hit
update_hits entries [] objects = objects
update_hits entries ((e, time) ∷ hits) objects =
    update_hits entries hits
      (if contains e entries then set_last_time_hit e time objects else objects)

unfoldable pub keys : Assoc ℕ ℕ → List ℕ
keys [] = []
keys ((e, time) ∷ hits) = e ∷ keys hits

-- was the entry hit before `cutoff`?
unfoldable pub is_old : ℕ → Assoc ℕ CacheEntry → ℕ → Bool
is_old cutoff objects e = elim (lookup ℕ_discrete e objects) [
  | none ↦ false
  | some o ↦ ltb o.last_time_hit cutoff
]

-- the entries that stay, and those that `index.erase` takes out
unfoldable pub split_old : ℕ → Assoc ℕ CacheEntry → List ℕ → List ℕ × List ℕ
unfolding is_old
split_old cutoff objects [] = ([], [])
split_old cutoff objects (e ∷ es) =
    let (kept, old) = split_old cutoff objects es in
    if is_old cutoff objects e then (kept, e ∷ old) else (e ∷ kept, old)

abbrev pub cache_cleanup_period : ℕ
cache_cleanup_period = 1024 * 2

unfoldable pub cutoff_time : ℕ → ℕ
cutoff_time current_time =
    let history_length = 8 * cache_cleanup_period in
    if ltb history_length current_time then current_time - history_length else current_time / 5

-- behind the return for a time that is no multiple of the period
unfoldable pub clean_up : List ℕ → ℕ → Cache → Cache
unfolding update_hits keys split_old cutoff_time release
clean_up held current_time s =
    let objects = update_hits s.entries s.temp_last_time_hit s.objects in
    let hit = keys s.temp_last_time_hit in
    let s = foldl (release held) (record s { objects = objects; temp_last_time_hit = [] }) hit in
    let (kept, old) = split_old (cutoff_time current_time) s.objects s.entries in
    foldl (release held) (record s { entries = kept }) old

unfoldable pub maintenance : List ℕ → Cache → Cache
maintenance held s =
    let current_time = (s.hits + s.misses) % 2 ^ 32 in
    if current_time % cache_cleanup_period == 0 then clean_up held current_time s else s

-- the entry that is found is held while `maintenance` runs
unfoldable pub find_entry : List ℕ → Cache → Key → Macros → Cache × Option ℕ
unfolding maintenance
find_entry held s key state = elim (lookup key_discrete key s.container) [
  | none ↦ (maintenance held (record s { misses = s.misses + 1 }), none)
  | some tree ↦ elim (find state tree) [
    | none ↦ (maintenance held (record s { misses = s.misses + 1 }), none)
    | some e ↦ (
      maintenance (e ∷ held) (record s {
        temp_last_time_hit =
            assign ℕ_discrete e ((s.hits + s.misses) % 2 ^ 32) s.temp_last_time_hit;
        hits = s.hits + 1;
      }),
      some e,
    )
  ]
]
