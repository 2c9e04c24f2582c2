-- ===== src/HeaderScanner/Content.antt =====
-- `ContentCache` of Extensions/HeaderScanner/contentCache_.hpp and contentCache_.cpp, one call at a
-- time: the contents of files, with the one that was used last in front.
pub mod Size
use buildpal.Prelude.{
  ℕ, ◌+◌, ◌-◌, ◌*◌, Bool, true, false, Option, none, some, List, [], ◌∷◌, ◌++◌, ltb, ite,
  if◌then◌else◌, text_discrete,
}

pub record ContentEntry : Type 0 where
  pub name : List ℕ
  pub size : ℕ

-- `content` has the back first
pub record ContentCache : Type 0 where
  pub content : List ContentEntry
  pub content_size : ℕ

abbrev pub empty_content : ContentCache
empty_content = record { content = []; content_size = 0 }

abbrev pub max_content_cache_size : ℕ
max_content_cache_size = 100 * 1024 * 1024

-- `content_.get<ByName>().find( path )`
unfoldable pub find_name : List ℕ → List ContentEntry → Option ContentEntry
find_name path [] = none
find_name path (e ∷ es) = ite (text_discrete path e.name) (some e) (find_name path es)

-- the others
unfoldable pub without : List ℕ → List ContentEntry → List ContentEntry
without path [] = []
without path (e ∷ es) = ite (text_discrete path e.name) es (e ∷ without path es)

-- `while ( contentSize_ > maxContentCacheSize )`
unfoldable pub evict : List ContentEntry → ℕ → ContentCache
evict [] size = record { content = []; content_size = size }
evict (e ∷ es) size =
    let rest = evict es (size - e.size) in
    if ltb max_content_cache_size size
    then rest
    else record { content = e ∷ es; content_size = size }

-- `create` is `ContentEntry::create`, which opens the file and names the entry by the path
module _ (create : List ℕ → Option ℕ) where
  unfoldable pub add_new_entry : ContentCache → List ℕ → ContentCache × Option ContentEntry
  unfolding evict
  add_new_entry s path = elim (create path) [
    | none ↦ (s, none)
    | some size ↦
        let new : ContentEntry = record { name = path; size = size } in
        elim (find_name path s.content) [
          | some e ↦ (s, some e)
          | none ↦ (evict (s.content ++ new ∷ []) (s.content_size + size), some new)
        ]
  ]

  -- an entry that is there moves to the front
  unfoldable pub get_or_create : ContentCache → List ℕ → ContentCache × Option ContentEntry
  unfolding add_new_entry find_name without
  get_or_create s path = elim (find_name path s.content) [
    | none ↦ add_new_entry s path
    | some e ↦ (record s { content = without path s.content ++ e ∷ [] }, some e)
  ]

  -- `openFileForRead`: the file that is opened reads from the entry's buffer
  unfoldable pub open_file_for_read : ContentCache → List ℕ → ContentCache × Option ContentEntry
  unfolding get_or_create
  open_file_for_read s path = get_or_create s path

  -- `status`, with the entry's, or with that of the file system, which `file_status` knows
  unfoldable pub status :
      {S : Type 0}
      → (ContentEntry → S)
      → (List ℕ → Option S)
      → ContentCache
      → List ℕ
      → ContentCache × Option S
  unfolding get_or_create
  status entry_status file_status s path =
      let (s, e) = get_or_create s path in
      elim e [ some e ↦ (s, some (entry_status e)) | none ↦ (s, file_status path) ]

unfoldable pub clear : ContentCache → ContentCache
clear s = record { content = []; content_size = 0 }
