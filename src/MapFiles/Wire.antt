-- ===== src/MapFiles/Wire.antt =====
-- `writeDir` ... `writeMappings`, and `readDir`, `readMapping` and `Initialize`, of
-- Extensions/MapFiles/mapFiles.cpp: a process hands its file mappings to a child process.
pub mod Frames
pub mod Read
pub mod Roundtrip
pub mod EmptyDir
pub mod Rebuilt
use buildpal.Prelude.{
  ℕ, zero, suc, ◌+◌, ◌-◌, ◌*◌, ◌^◌, Option, none, some, Bool, true, false, not, ◌&&◌, ltb, List, [],
  ◌∷◌, ◌++◌, length, ◌==◌,
}
use buildpal.MapFiles.Pipe.{
  PipeApi, ◌>>=◌, count_bytes, size_bytes, read_count, read_size, wide_bytes, from_wide_bytes, byte,
}
use buildpal.MapFiles.Mapping.{FileList, DirMap, add_file_in}

pub record DirRead (P : Type 0) : Type 0 where
  pub dir_name : List ℕ
  pub entries : ℕ
  pub pipe : P

-- what `Initialize` returns, and the global mapping behind it
pub data Initialized : Type 0 where
  returned : ℕ → DirMap → Initialized
  out_of_fuel : Initialized

-- a failed assertion ends the process, without a result
unfoldable pub assert : {A : Type 0} → Bool → Option A → Option A
assert true m = m
assert false m = none

module _ (os : PipeApi) where
  open os use {Pipe, write_file, read_file}

  unfoldable pub write_dir : Pipe → List ℕ → ℕ → Option Pipe
  unfolding assert
  write_dir p dir_name entries = do
    p ← write_file p (count_bytes entries)
    assert (ltb (length dir_name) 0xFFFF)
        (do p ← write_file p (size_bytes (length dir_name)); write_file p (wide_bytes dir_name))

  unfoldable pub write_mapping : Pipe → List ℕ → List ℕ → Option Pipe
  unfolding assert
  write_mapping p first second =
      assert (ltb (length first) 0xFFFF && ltb (length second) 0xFFFF) (do
        p ← write_file p (size_bytes (length first) ++ size_bytes (length second))
        p ← write_file p (wide_bytes first)
        write_file p (wide_bytes second))

  unfoldable pub write_end : Pipe → Option Pipe
  write_end p = write_file p (0 ∷ 0 ∷ 0 ∷ 0 ∷ [])

  -- the files of one directory
  unfoldable pub write_files : Pipe → FileList → Option Pipe
  unfolding write_mapping
  write_files p [] = some p
  write_files p ((file, real) ∷ files) = do p ← write_mapping p file real; write_files p files

  -- the directories of one mapping
  unfoldable pub write_dirs : Pipe → DirMap → Option Pipe
  unfolding write_dir write_files
  write_dirs p [] = some p
  write_dirs p ((dir, files) ∷ dirs) = do
    p ← write_dir p dir (length files)
    p ← write_files p files
    write_dirs p dirs

  write_maps : Pipe → List DirMap → Option Pipe
  unfolding write_dirs
  write_maps p [] = some p
  write_maps p (dirs ∷ maps) = do p ← write_dirs p dirs; write_maps p maps

  -- `none` where it returns -1
  unfoldable pub write_mappings : Pipe → List DirMap → Option Pipe
  unfolding write_maps write_end
  write_mappings p maps = do p ← write_maps p maps; write_end p

  -- without entries, what follows is not read and the name stays
  unfoldable pub read_dir : Pipe → List ℕ → Option (DirRead Pipe)
  unfolding assert
  read_dir p dir_name = do
    (entries_buffer, p) ← read_file p 4
    let entries = read_count entries_buffer
    elim (entries == 0) [
      | true ↦ some (record { dir_name = dir_name; entries = 0; pipe = p })
      | false ↦ do
        (size_buff, p) ← read_file p 2
        (str, p) ← read_file p (read_size size_buff * 2)
        assert (not (read_size size_buff == 0))
            (some (record { dir_name = from_wide_bytes str; entries = entries; pipe = p }))
    ]

  unfoldable pub read_mapping : Pipe → Option (List ℕ × List ℕ × Pipe)
  read_mapping p = do
    (sizes, p) ← read_file p 4
    let first_size = byte 1 sizes * 256 + byte 0 sizes
    let second_size = byte 3 sizes * 256 + byte 2 sizes
    (first, p) ← read_file p (first_size * 2)
    (second, p) ← read_file p (second_size * 2)
    some (from_wide_bytes first, from_wide_bytes second, p)

  -- the inner loop of `Initialize`: the mapping so far, and the pipe if no read failed
  unfoldable pub read_files : ℕ → Pipe → List ℕ → DirMap → DirMap × Option Pipe
  unfolding read_mapping
  read_files zero p dir_name dirs = (dirs, some p)
  read_files (suc entries) p dir_name dirs = elim (read_mapping p) [
    | none ↦ (dirs, none)
    | some (file_name, real_file, p) ↦
        read_files entries p dir_name (add_file_in dirs dir_name file_name real_file)
  ]

  -- The outer loop of `Initialize`. `(DWORD)-1` and `(DWORD)-2` are written out.
  unfoldable pub initialize : ℕ → Pipe → List ℕ → DirMap → Initialized
  unfolding read_dir read_files
  initialize zero p dir_name dirs = out_of_fuel
  initialize (suc fuel) p dir_name dirs = elim (read_dir p dir_name) [
    | none ↦ returned (2 ^ 32 - 1) dirs
    | some r ↦ elim (r.entries == 0) [
      | true ↦ returned 0 dirs
      | false ↦
          let (dirs, left) = read_files r.entries r.pipe r.dir_name dirs in
          elim left [
            | none ↦ returned (2 ^ 32 - 2) dirs
            | some p ↦ initialize fuel p r.dir_name dirs
          ]
    ]
  ]
