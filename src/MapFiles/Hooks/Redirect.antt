-- ===== src/MapFiles/Hooks/Redirect.antt =====
-- Which file a process gets that opens or queries a name (Extensions/MapFiles/mapFiles.cpp).
use buildpal.Prelude.{
  ℕ, ◌+◌, ◌-◌, ◌*◌, ◌/◌, ◌%◌, ◌^◌, ◌<◌, ◌≡◌, refl, true, false, Option, none, some, List, ◌++◌,
  length, arith, units, drop, take_all, [], ◌∷◌,
}
use buildpal.MapFiles.Paths.{PathApi}
use buildpal.MapFiles.Mapping.{DirMap, UnicodeString, add_file, get_dir}
use buildpal.MapFiles.Mapping.Lookup.{as_unicode, real_file-add_file_self}
use buildpal.MapFiles.Hooks.{
  Created, fake_handle, Queried, status, device_prefix, is_device_path, file_name, nt_create_file,
  nt_query_full_attributes_file, nt_query_directory_file, nt_close,
}

-- a path as the native functions are given it
abbrev pub device_path : List ℕ → UnicodeString
device_path path = record { buffer = device_prefix ++ path; length_bytes = (4 + length path) * 2 }

device_path-is_device_path : (path : List ℕ) → is_device_path (device_path path) ≡ some true
unfolding is_device_path
device_path-is_device_path path = ground arith

file_name-device_path :
    (path : List ℕ) → length path < 2 ^ 63 → file_name (device_path path) ≡ some path
unfolding file_name drop
file_name-device_path path h =
    let size : ((4 + length path) * 2 / 2 + 2 ^ 64 - 4) % 2 ^ 64 ≡ length path = omega arith in
    rw size (ground (arith, take_all path))

module _ (api : PathApi) where
  -- A process that opens or queries a mapped path, which is not itself faked as a directory, gets
  -- the mapped file, under the device prefix; the caller's object name is restored afterwards.
  pub open_mapped :
      (dirs : DirMap) (path real : List ℕ)
      → length path < 2 ^ 63
      → get_dir api (add_file api dirs path real) path ≡ some false
      → (nt_create_file api (add_file api dirs path real) (some (device_path path))
          ≡ Created.forwarded
              (as_unicode (some (units "\\??\\" ++ real)))
              (some (device_path path)))
        × (nt_query_full_attributes_file api (add_file api dirs path real) (some (device_path path))
            ≡ Queried.forwarded
                (as_unicode (some (units "\\??\\" ++ real)))
                (some (device_path path)))
  unfolding nt_create_file nt_query_full_attributes_file
  open_mapped dirs path real h plain = (
    ground (
      arith,
      plain,
      device_path-is_device_path path,
      file_name-device_path path h,
      real_file-add_file_self api dirs path real,
    ),
    ground (
      arith,
      plain,
      device_path-is_device_path path,
      file_name-device_path path h,
      real_file-add_file_self api dirs path real,
    ),
  )

  -- Whatever name the original NtCreateFile is called with, the caller's object name is what it
  -- was when the hook returns.
  pub nt_create_file-restores :
      (dirs : DirMap) (name used left : Option UnicodeString)
      → nt_create_file api dirs name ≡ Created.forwarded used left
      → left ≡ name
  unfolding nt_create_file
  nt_create_file-restores dirs none used left e = ground arith
  nt_create_file-restores dirs (some str) used left e = ground arith

  -- A handle that NtCreateFile makes up is taken care of by the other hooks: closing it succeeds
  -- and a directory query on it is refused, neither with a call of the original functions.
  pub nt_create_file-fake_handle :
      (dirs : DirMap) (name : Option UnicodeString) (handle information : ℕ)
      → nt_create_file api dirs name ≡ fake_handle handle information
      → (nt_close handle ≡ status 0) × (nt_query_directory_file handle ≡ status 0x80000011)
  unfolding nt_create_file nt_close nt_query_directory_file
  nt_create_file-fake_handle dirs none handle information e = ground arith
  nt_create_file-fake_handle dirs (some str) handle information e = ground arith

  -- A name without the device prefix reaches the original functions unchanged.
  pub not_device :
      (dirs : DirMap) (name : UnicodeString)
      → is_device_path name ≡ some false
      → (nt_create_file api dirs (some name) ≡ Created.forwarded (some name) (some name))
        × (nt_query_full_attributes_file api dirs (some name)
            ≡ Queried.forwarded (some name) (some name))
  unfolding nt_create_file nt_query_full_attributes_file
  not_device dirs name e = ground arith

-- Three characters pass the test of the length, which counts bytes, and the test of the prefix
-- then reads behind them.
pub short_name_overrun :
    (api : PathApi) (dirs : DirMap)
    → (nt_create_file api dirs (some (record { buffer = 92 ∷ 63 ∷ 63 ∷ []; length_bytes = 6 }))
        ≡ Created.bad_read)
      × (nt_query_full_attributes_file api dirs
            (some (record { buffer = 92 ∷ 63 ∷ 63 ∷ []; length_bytes = 6 }))
          ≡ Queried.bad_read)
unfolding nt_create_file nt_query_full_attributes_file
short_name_overrun api dirs = (refl, refl)
