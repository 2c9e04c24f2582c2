-- ===== src/MapFiles/Paths.antt =====
-- `FileMapping::normalizePath` and `decomposePath` of Extensions/MapFiles/mapFiles.cpp.
use buildpal.Prelude.{ℕ, ◌≤◌, List, map, length, take, drop, ◌==◌, if◌then◌else◌}

-- The path functions of Windows that the code calls: `CharLowerW` on one character,
-- `PathCanonicalizeW`, and `PathFindFileNameW` as the offset of the file name, which lies within
-- the path.
pub record PathApi : Type 0 where
  pub char_lower : ℕ → ℕ
  pub path_canonicalize : List ℕ → List ℕ
  pub path_find_file_name : List ℕ → ℕ
  pub file_name_within : (path : List ℕ) → path_find_file_name path ≤ length path

module _ (api : PathApi) where
  open api use {char_lower, path_canonicalize, path_find_file_name}

  pub normalize_char : ℕ → ℕ
  normalize_char c = if c == b'/' then 92 else char_lower c

  unfoldable pub normalize_path : List ℕ → List ℕ
  unfolding normalize_char
  normalize_path path = path_canonicalize (map normalize_char path)

  -- the directory, with its last separator, and the file name
  unfoldable pub decompose_path : List ℕ → List ℕ × List ℕ
  decompose_path path =
      let normalized = normalize_path path in
      let offset = path_find_file_name normalized in
      (take offset normalized, drop offset normalized)
