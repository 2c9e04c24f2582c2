-- ===== src/MapFiles/Mapping/Lookup.antt =====
-- What is found in a `FileMapping` of Extensions/MapFiles/mapFiles.cpp after `addFile` and
-- `removeFile`.
use buildpal.Prelude.{
  ℕ, ◌*◌, ◌%◌, ◌^◌, ◌≡◌, refl, ite, Option, none, some, true, List, [], ◌++◌, length, arith, units,
  text_discrete,
}
use buildpal.Prelude.Assoc.{lookup, assign, erase, lookup-assign, lookup-erase}
use buildpal.MapFiles.Paths.{PathApi, decompose_path}
use buildpal.MapFiles.Mapping.{
  DirMap, FileList, UnicodeString, or_empty, find_file, add_file_in, add_file, remove_file,
  real_file, dir_key, get_dir,
}

-- how `realFile` fills the string
abbrev pub as_unicode : Option (List ℕ) → Option UnicodeString
as_unicode none = none
as_unicode (some real) = some (record { buffer = real; length_bytes = length real * 2 % 2 ^ 16 })

pub find_file-add_file_in :
    (dirs : DirMap) (dir file real d f : List ℕ)
    → find_file (add_file_in dirs dir file real) d f
      ≡ ite
          (text_discrete d dir)
          (ite (text_discrete f file) (some real) (find_file dirs d f))
          (find_file dirs d f)
unfolding find_file add_file_in
find_file-add_file_in dirs dir file real d f = ground (
  arith,
  lookup-assign text_discrete dir d
      (assign text_discrete file real (or_empty (lookup text_discrete dir dirs))) dirs,
  lookup-assign text_discrete file f real (or_empty (lookup text_discrete dir dirs)),
)

find_file-erase :
    (dirs : DirMap) (dir file d f : List ℕ)
    → find_file
        (assign text_discrete dir
          (erase text_discrete file (or_empty (lookup text_discrete dir dirs)))
          dirs)
        d
        f
      ≡ ite
          (text_discrete d dir)
          (ite (text_discrete f file) none (find_file dirs d f))
          (find_file dirs d f)
unfolding find_file
find_file-erase dirs dir file d f = ground (
  arith,
  lookup-assign text_discrete dir d
      (erase text_discrete file (or_empty (lookup text_discrete dir dirs))) dirs,
  lookup-erase text_discrete file f (or_empty (lookup text_discrete dir dirs)),
)

-- a directory that is there, or that `operator[]` has just made
pub dir_kept :
    (dirs : DirMap) (dir : List ℕ) (files : FileList)
    → lookup text_discrete dir (assign text_discrete dir files dirs) ≡ some files
dir_kept dirs dir files = ground (arith, lookup-assign text_discrete dir dir files dirs)

lookup-nil : (file : List ℕ) → lookup {V = List ℕ} text_discrete file [] ≡ none
unfolding lookup
lookup-nil file = refl

module _ (api : PathApi) where
  real_file-find_file :
      (dirs : DirMap) (path : List ℕ)
      → real_file api dirs path
        ≡ as_unicode (find_file dirs (decompose_path api path).0 (decompose_path api path).1)
  unfolding real_file find_file
  real_file-find_file dirs path = ground (arith, lookup-nil (decompose_path api path).1)

  -- After `addFile` a path is redirected to the new file, under the device prefix, exactly if it
  -- decomposes as the path that was added; every other path is redirected as before.
  pub real_file-add_file :
      (dirs : DirMap) (path real other : List ℕ)
      → real_file api (add_file api dirs path real) other
        ≡ ite
            (text_discrete (decompose_path api other).0 (decompose_path api path).0)
            (ite
              (text_discrete (decompose_path api other).1 (decompose_path api path).1)
              (as_unicode (some (units "\\??\\" ++ real)))
              (real_file api dirs other))
            (real_file api dirs other)
  unfolding add_file
  real_file-add_file dirs path real other =
      let (dir, file) = decompose_path api path in
      let (d, f) = decompose_path api other in
      ground (
        arith,
        real_file-find_file (add_file api dirs path real) other,
        real_file-find_file dirs other,
        find_file-add_file_in dirs dir file (units "\\??\\" ++ real) d f,
      )

  pub real_file-add_file_self :
      (dirs : DirMap) (path real : List ℕ)
      → real_file api (add_file api dirs path real) path
        ≡ as_unicode (some (units "\\??\\" ++ real))
  real_file-add_file_self dirs path real = ground (arith, real_file-add_file dirs path real path)

  -- After `removeFile` a path is not redirected if it decomposes as the path that was removed;
  -- every other path is redirected as before.
  pub real_file-remove_file :
      (dirs : DirMap) (path other : List ℕ)
      → real_file api (remove_file api dirs path) other
        ≡ ite
            (text_discrete (decompose_path api other).0 (decompose_path api path).0)
            (ite
              (text_discrete (decompose_path api other).1 (decompose_path api path).1)
              none
              (real_file api dirs other))
            (real_file api dirs other)
  unfolding remove_file
  real_file-remove_file dirs path other =
      let (dir, file) = decompose_path api path in
      let (d, f) = decompose_path api other in
      ground (
        arith,
        real_file-find_file (remove_file api dirs path) other,
        real_file-find_file dirs other,
        find_file-erase dirs dir file d f,
      )

  get_dir-known :
      (dirs : DirMap) (dir key : List ℕ) (files : FileList)
      → dir_key api dir ≡ some key
      → lookup text_discrete key dirs ≡ some files
      → get_dir api dirs dir ≡ some true
  unfolding get_dir
  get_dir-known dirs dir key files e found = ground arith

  -- `removeFile` keeps the directory of the path that it removes, also if no file is left in it,
  -- and makes that directory where there was none: it is still opened as a directory.
  pub get_dir-remove_file :
      (dirs : DirMap) (path dir : List ℕ)
      → dir_key api dir ≡ some (decompose_path api path).0
      → get_dir api (remove_file api dirs path) dir ≡ some true
  unfolding remove_file
  get_dir-remove_file dirs path dir e = get_dir-known _ dir _ _ e (dir_kept dirs _ _)

  -- A directory is opened as a fake one after `addFile` of a file in it.
  pub get_dir-add_file :
      (dirs : DirMap) (path real dir : List ℕ)
      → dir_key api dir ≡ some (decompose_path api path).0
      → get_dir api (add_file api dirs path real) dir ≡ some true
  unfolding add_file
  get_dir-add_file dirs path real dir e = get_dir-known _ dir _ _ e (dir_kept dirs _ _)
