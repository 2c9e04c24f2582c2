-- ===== src/Client/Environment.antt =====
-- `Environment`, `getPath` and `findOnPath` of Extensions/Client/client.cpp. A block is the list of
-- its characters; behind its end stands what ends it, a NUL. The wide variant converts the texts.
pub mod Roundtrip
pub mod Path
use buildpal.Prelude.{
  ℕ, ◌+◌, Bool, true, false, not, ◌&&◌, Option, none, some, List, [], ◌∷◌, ◌++◌, ◌==◌, length,
  if◌then◌else◌, text_discrete, units,
}
use buildpal.Prelude.Assoc.{Assoc, lookup, insert_new, erase}

abbrev pub EnvMap : Type 0
EnvMap = Assoc (List ℕ) (List ℕ)

abbrev pub prepend : ℕ → List (List ℕ) → List (List ℕ)
prepend c [] = (c ∷ []) ∷ []
prepend c (line ∷ lines) = (c ∷ line) ∷ lines

-- the strings of a block, and what stands behind the last NUL
unfoldable pub split_lines : List ℕ → List (List ℕ)
split_lines [] = [] ∷ []
split_lines (c ∷ cs) = let rest = split_lines cs in if c == 0 then [] ∷ rest else prepend c rest

-- the key and the value, around the first '='; `none` where there is none: there the code takes a
-- null pointer for the end of the key, which has no defined behaviour
unfoldable pub split_equal : List ℕ → Option (List ℕ × List ℕ)
split_equal [] = none
split_equal (c ∷ cs) =
    let rest = split_equal cs in
    if c == b'='
    then some ([], cs)
    else elim rest [ none ↦ none | some (key, value) ↦ some (c ∷ key, value) ]

-- Bookkeeping variables, with an empty key, are left out, as are here the strings without '='.
unfoldable pub add_line : EnvMap → Option (List ℕ × List ℕ) → EnvMap
add_line env none = env
add_line env (some ([], value)) = env
add_line env (some (c ∷ key, value)) = insert_new text_discrete (c ∷ key) value env

-- the loop of the constructor, up to an empty string
unfoldable pub parse_lines : List (List ℕ) → EnvMap → EnvMap
unfolding add_line split_equal
parse_lines [] env = env
parse_lines ([] ∷ lines) env = env
parse_lines ((c ∷ line) ∷ lines) env = parse_lines lines (add_line env (split_equal (c ∷ line)))

unfoldable pub environment : List ℕ → EnvMap
unfolding parse_lines split_lines
environment block = parse_lines (split_lines block) []

-- `process_env` is the environment of the process
unfoldable pub get : (List ℕ → Option (List ℕ)) → EnvMap → List ℕ → Option (List ℕ)
get process_env env str = elim (lookup text_discrete str env) [
  | none ↦ process_env str
  | some value ↦ some value
]

unfoldable pub remove : EnvMap → List ℕ → EnvMap
remove env key = erase text_discrete key env

unfoldable pub add : EnvMap → List ℕ → List ℕ → EnvMap
add env key val = insert_new text_discrete key val env

unfoldable pub env_strings : EnvMap → List ℕ
env_strings [] = []
env_strings ((key, value) ∷ env) = key ++ (b'=' ∷ (value ++ (0 ∷ env_strings env)))

-- `none` is a null pointer; the NUL at the end is that of `c_str()`
unfoldable pub create_env_block : EnvMap → Option (List ℕ)
unfolding env_strings
create_env_block [] = none
create_env_block (m ∷ env) = some (env_strings (m ∷ env) ++ 0 ∷ [])

-- the loop of `getPath`; `segment` are the characters from `last` on
unfoldable pub path_loop : List ℕ → List ℕ → List (List ℕ)
path_loop segment [] = []
path_loop segment (c ∷ cs) =
    let pushed = path_loop [] cs in
    let longer = path_loop (segment ++ c ∷ []) cs in
    if (c == b';') && not (length segment == 1) then segment ∷ pushed else longer

unfoldable pub get_path : Option (List ℕ) → List (List ℕ)
unfolding path_loop
get_path none = []
get_path (some path) = path_loop [] path

-- `path_combine` and `file_exists` are functions of Windows
module _ (path_combine : List ℕ → List ℕ → List ℕ) (file_exists : List ℕ → Bool) where
  unfoldable pub find_on_path : List (List ℕ) → List ℕ → Option (List ℕ)
  find_on_path [] file = none
  find_on_path (dir ∷ dirs) file =
      let rest = find_on_path dirs file in
      let tmp = path_combine dir file in if file_exists tmp then some tmp else rest
