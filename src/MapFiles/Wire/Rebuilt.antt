-- ===== src/MapFiles/Wire/Rebuilt.antt =====
-- What is found in the mapping that a child process has built (Extensions/MapFiles/mapFiles.cpp).
use buildpal.Prelude.{
  ℕ, ◌≡◌, refl, Option, none, some, List, [], ◌∷◌, All, arith, ite, text_discrete,
}
use buildpal.Prelude.Assoc.{lookup, Distinct, Values}
use buildpal.MapFiles.Mapping.{FileList, DirMap, add_file_in, find_file}
use buildpal.MapFiles.Mapping.Lookup.{find_file-add_file_in}
use buildpal.MapFiles.Wire.Roundtrip.{add_files, add_dirs, add_maps}

-- the later answer, where there is one
abbrev pub override : Option (List ℕ) → Option (List ℕ) → Option (List ℕ)
override (some r) old = some r
override none old = old

-- no directory and no file of a directory stands twice
abbrev pub IsMap : DirMap → Type 0
IsMap dirs = Distinct text_discrete dirs × Values text_discrete (Distinct text_discrete) dirs

find_file-add_files :
    (dir : List ℕ) (files : FileList) (m : DirMap) (d f : List ℕ)
    → Distinct text_discrete files
    → find_file (add_files dir files m) d f
      ≡ ite
          (text_discrete d dir)
          (override (lookup text_discrete f files) (find_file m d f))
          (find_file m d f)
unfolding lookup
find_file-add_files dir [] m d f h = ground arith
find_file-add_files dir ((file, real) ∷ files) m d f h = ground (
  arith,
  find_file-add_files dir files (add_file_in m dir file real) d f h.1,
  find_file-add_file_in m dir file real d f,
  h.0,
)

find_file-add_dirs :
    (dirs m : DirMap) (d f : List ℕ)
    → IsMap dirs
    → find_file (add_dirs dirs m) d f ≡ override (find_file dirs d f) (find_file m d f)
unfolding find_file lookup
find_file-add_dirs [] m d f h = refl
find_file-add_dirs ((dir, files) ∷ dirs) m d f h = ground (
  arith,
  find_file-add_dirs dirs (add_files dir files m) d f (h.0.1, h.1.1),
  find_file-add_files dir files m d f h.1.0,
  h.0.0,
)

-- the last of the mappings that knows the file
abbrev pub find_in : List DirMap → List ℕ → List ℕ → Option (List ℕ)
find_in [] d f = none
find_in (dirs ∷ maps) d f = override (find_in maps d f) (find_file dirs d f)

-- The child finds a file where the last of the mappings that it was sent and that knows the file
-- puts it, and otherwise where it found it before.
pub find_file-add_maps :
    (maps : List DirMap) (m : DirMap) (d f : List ℕ)
    → All IsMap maps
    → find_file (add_maps maps m) d f ≡ override (find_in maps d f) (find_file m d f)
find_file-add_maps [] m d f h = refl
find_file-add_maps (dirs ∷ maps) m d f h =
    ground
      (arith, find_file-add_maps maps (add_dirs dirs m) d f h.1, find_file-add_dirs dirs m d f h.0)
