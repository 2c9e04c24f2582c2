-- ===== src/Tests/Systems.antt =====
-- Systems on which the theorems about Extensions/MapFiles are tried out: paths that need no work
-- but the case of their letters, and a pipe that never fails to write.
use buildpal.Prelude.{
  ℕ, suc, ◌+◌, ◌≤◌, ◌≡◌, refl, Option, none, some, List, [], ◌∷◌, ◌++◌, length, take, drop, arith,
  ltb, leb, ◌&&◌, ◌==◌, if◌then◌else◌, take-length, drop-length, length-append,
}
use buildpal.MapFiles.Paths.{PathApi}
use buildpal.MapFiles.Pipe.{PipeApi}

abbrev pub ascii_lower : ℕ → ℕ
ascii_lower c = if leb 65 c && leb c 90 then c + 32 else c

-- behind the last backslash
abbrev pub name_offset : List ℕ → ℕ
name_offset [] = 0
name_offset (c ∷ cs) =
    let rest = name_offset cs in if ltb 0 rest then suc rest else if c == 92 then 1 else 0

pub name_offset-within : (path : List ℕ) → name_offset path ≤ length path
name_offset-within [] = omega arith
name_offset-within (c ∷ cs) = ground (arith, name_offset-within cs)

-- paths that are canonical already
abbrev pub paths : PathApi
paths = record {
  char_lower = ascii_lower;
  path_canonicalize = λ path. path;
  path_find_file_name = name_offset;
  file_name_within = name_offset-within;
}

-- a pipe that never fails to write
unfoldable pub list_read : List ℕ → ℕ → Option (List ℕ × List ℕ)
list_read p n = if ltb (length p) n then none else some (take n p, drop n p)

pub list_read-takes :
    (p bytes rest : List ℕ)
    → p ≡ bytes ++ rest
    → (q : List ℕ) × (list_read p (length bytes) ≡ some (bytes, q)) × (q ≡ rest)
unfolding list_read
list_read-takes p bytes rest e = (
  rest,
  ground (arith, length-append bytes rest, take-length bytes rest, drop-length bytes rest),
  refl,
)

abbrev pub pipe : PipeApi
pipe = record {
  Pipe = List ℕ;
  contents = λ p. p;
  write_file = λ p bytes. some (p ++ bytes);
  read_file = list_read;
  write_appends = λ p bytes q e. ground (arith, e);
  read_takes = list_read-takes;
}
