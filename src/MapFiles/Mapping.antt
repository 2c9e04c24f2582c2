-- ===== src/MapFiles/Mapping.antt =====
-- `FileMapping` and `GlobalFileMapping` of Extensions/MapFiles/mapFiles.cpp.
pub mod Lookup
use buildpal.Prelude.{
  ℕ, ◌+◌, ◌-◌, ◌*◌, ◌%◌, ◌^◌, Option, none, some, List, [], ◌∷◌, ◌++◌, length, ◌==◌, if◌then◌else◌,
  text_discrete, units, Bool, true, false,
}
use buildpal.Prelude.Assoc.{Assoc, lookup, assign, erase}
use buildpal.MapFiles.Paths.{PathApi, normalize_path, decompose_path}

abbrev pub FileList : Type 0
FileList = Assoc (List ℕ) (List ℕ)

abbrev pub DirMap : Type 0
DirMap = Assoc (List ℕ) FileList

abbrev pub or_empty : Option FileList → FileList
or_empty none = []
or_empty (some files) = files

-- `dirMap_[ virtualDir ][ virtualFile ] = realFile;`
unfoldable pub add_file_in : DirMap → List ℕ → List ℕ → List ℕ → DirMap
add_file_in dirs dir file real =
    assign text_discrete dir
      (assign text_discrete file real (or_empty (lookup text_discrete dir dirs))) dirs

-- a `UNICODE_STRING`: `Length` is an `USHORT` that counts bytes
pub record UnicodeString : Type 0 where
  pub buffer : List ℕ
  pub length_bytes : ℕ

-- the last character, where there is one
abbrev pub last : List ℕ → Option ℕ
last [] = none
last (c ∷ []) = some c
last (c ∷ d ∷ cs) = last (d ∷ cs)

-- the real file that a directory and a file name are mapped to
unfoldable pub find_file : DirMap → List ℕ → List ℕ → Option (List ℕ)
find_file dirs dir file = lookup text_discrete file (or_empty (lookup text_discrete dir dirs))

module _ (api : PathApi) where
  unfoldable pub add_file : DirMap → List ℕ → List ℕ → DirMap
  unfolding add_file_in
  add_file dirs virtual_path real_file =
      let (dir, file) = decompose_path api virtual_path in
      add_file_in dirs dir file (units "\\??\\" ++ real_file)

  -- `dirMap_[ dir ].erase( file );`
  unfoldable pub remove_file : DirMap → List ℕ → DirMap
  remove_file dirs virtual_path =
      let (dir, file) = decompose_path api virtual_path in
      assign text_discrete dir (erase text_discrete file (or_empty (lookup text_discrete dir dirs)))
        dirs

  unfoldable pub real_file : DirMap → List ℕ → Option UnicodeString
  real_file dirs virtual_file =
      let (dir, file) = decompose_path api virtual_file in
      elim (lookup text_discrete dir dirs) [
        | none ↦ none
        | some files ↦ elim (lookup text_discrete file files) [
          | none ↦ none
          | some real ↦ some (record { buffer = real; length_bytes = length real * 2 % 2 ^ 16 })
        ]
      ]

  -- a directory's key; `none` where the code indexes an empty string
  unfoldable pub dir_key : List ℕ → Option (List ℕ)
  dir_key path =
      let normalized = normalize_path api path in
      elim (last normalized) [
        | none ↦ none
        | some c ↦ some (if c == 92 then normalized else normalized ++ 92 ∷ [])
      ]

  -- does the mapping fake this directory?
  unfoldable pub get_dir : DirMap → List ℕ → Option Bool
  unfolding dir_key
  get_dir dirs path = elim (dir_key path) [
    | none ↦ none
    | some key ↦ elim (lookup text_discrete key dirs) [ none ↦ some false | some _ ↦ some true ]
  ]
