-- ===== src/MapFiles/Hooks.antt =====
-- The hooks of Extensions/MapFiles/mapFiles.cpp that replace NtCreateFile, NtQueryDirectoryFile,
-- NtClose and NtQueryFullAttributesFile. Of the many arguments only those are modelled that the
-- hooks look at; a hook that calls the original function yields the arguments of that call.
pub mod Redirect
use buildpal.Prelude.{
  ℕ, ◌+◌, ◌-◌, ◌/◌, ◌%◌, ◌^◌, Bool, true, false, Option, none, some, List, [], ◌∷◌, length, take,
  drop, ltb, ◌==◌, if◌then◌else◌,
}
use buildpal.MapFiles.Paths.{PathApi}
use buildpal.MapFiles.Mapping.{DirMap, UnicodeString, real_file, get_dir}

-- `forwarded` has the object name of the call of the original function, and the object name
-- behind it; `bad_read` is a read outside the object name's buffer, or of an empty string
pub data Created : Type 0 where
  fake_handle : ℕ → ℕ → Created
  forwarded : Option UnicodeString → Option UnicodeString → Created
  bad_read : Created

pub data Queried : Type 0 where
  attributes : ℕ → Queried
  forwarded : Option UnicodeString → Option UnicodeString → Queried
  bad_read : Queried

pub data OnHandle : Type 0 where
  status : ℕ → OnHandle
  forwarded : ℕ → OnHandle

-- `fakeHandle_`
abbrev pub fake : ℕ
fake = 0xFAB0BEEF

unfoldable pub is_fake : ℕ → Bool
is_fake handle = handle == fake

-- `Buffer[ 0 ] == … && Buffer[ 1 ] == … && …`; `none` is a read outside the buffer
unfoldable pub starts_with : List ℕ → List ℕ → Option Bool
starts_with [] buffer = some true
starts_with (c ∷ cs) [] = none
starts_with (c ∷ cs) (x ∷ xs) = let rest = starts_with cs xs in if x == c then rest else some false

-- `"\??\"`
abbrev pub device_prefix : List ℕ
device_prefix = 92 ∷ 63 ∷ 63 ∷ 92 ∷ []

unfoldable pub is_device_path : UnicodeString → Option Bool
unfolding starts_with
is_device_path str =
    if ltb 4 str.length_bytes then starts_with device_prefix str.buffer else some false

-- `std::wstring( Buffer + 4, Length / sizeof(wchar_t) - 4 )`
unfoldable pub file_name : UnicodeString → Option (List ℕ)
file_name str =
    let size = (str.length_bytes / 2 + 2 ^ 64 - 4) % 2 ^ 64 in
    if ltb (length (drop 4 str.buffer)) size then none else some (take size (drop 4 str.buffer))

module _ (api : PathApi) (dirs : DirMap) where
  -- behind the test of the prefix
  unfoldable pub create_device : UnicodeString → Option (List ℕ) → Created
  create_device str none = bad_read
  create_device str (some name) = elim (get_dir api dirs name) [
    | none ↦ bad_read
    | some true ↦ fake_handle fake 4
    | some false ↦ elim (real_file api dirs name) [
      | some tmp ↦ forwarded (some tmp) (some str)
      | none ↦ forwarded (some str) (some str)
    ]
  ]

  -- The name that is passed on stands in the attributes during the call only.
  unfoldable pub nt_create_file : Option UnicodeString → Created
  unfolding create_device is_device_path file_name
  nt_create_file none = forwarded none none
  nt_create_file (some str) = elim (is_device_path str) [
    | none ↦ bad_read
    | some false ↦ forwarded (some str) (some str)
    | some true ↦ create_device str (file_name str)
  ]

  -- behind the test of the prefix
  unfoldable pub query_device : UnicodeString → Option (List ℕ) → Queried
  query_device str none = bad_read
  query_device str (some name) = elim (get_dir api dirs name) [
    | none ↦ bad_read
    | some true ↦ attributes 16
    | some false ↦ elim (real_file api dirs name) [
      | some tmp ↦ forwarded (some tmp) (some str)
      | none ↦ forwarded (some str) (some str)
    ]
  ]

  unfoldable pub nt_query_full_attributes_file : Option UnicodeString → Queried
  unfolding query_device is_device_path file_name
  nt_query_full_attributes_file none = forwarded none none
  nt_query_full_attributes_file (some str) = elim (is_device_path str) [
    | none ↦ bad_read
    | some false ↦ forwarded (some str) (some str)
    | some true ↦ query_device str (file_name str)
  ]

-- STATUS_DEVICE_BUSY on the virtual directory
unfoldable pub nt_query_directory_file : ℕ → OnHandle
unfolding is_fake
nt_query_directory_file handle = if is_fake handle then status 0x80000011 else forwarded handle

unfoldable pub nt_close : ℕ → OnHandle
unfolding is_fake
nt_close handle = if is_fake handle then status 0 else forwarded handle
