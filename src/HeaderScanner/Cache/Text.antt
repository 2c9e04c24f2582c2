-- ===== src/HeaderScanner/Cache/Text.antt =====
-- The text that stands for a cached header, as `CacheEntry::generateContent` and
-- `CacheEntry::cachedContent` of Extensions/HeaderScanner/headerCache_.cpp make it. `getFileEntry`
-- overrides a virtual file's contents with it; files and their contents are Clang's.
use buildpal.Prelude.{
  ℕ, ◌≡◌, ◌≢◌, Bool, true, false, ◌&&◌, ◌||◌, not, Option, none, some, List, [], ◌∷◌, ◌++◌, All,
  units, leb, ◌==◌, if◌then◌else◌, text_discrete, ite,
}
use buildpal.HeaderScanner.Macros.{MacroName, MacroValue, Macros, undefined_macro_value}

unfoldable pub macro_line : MacroName → MacroValue → List ℕ
macro_line name value =
    ite (text_discrete value undefined_macro_value) (units "#undef " ++ (name ++ (b'\n' ∷ [])))
      (units "#define " ++ (name ++ (value ++ (b'\n' ∷ []))))

-- `forEachMacro`
unfoldable pub generate_content : Macros → List ℕ
unfolding macro_line
generate_content [] = []
generate_content ((name, value) ∷ macros) = macro_line name value ++ generate_content macros

-- what a cached text is, and the buffer that the entry keeps of it
unfoldable pub cached_content : Macros → Option (List ℕ) → Option (List ℕ) × List ℕ
unfolding generate_content
cached_content macros none = (some (generate_content macros), generate_content macros)
cached_content macros (some buffer) = (some buffer, buffer)

-- `isFileOverridden` and `overrideFileContents`: the contents of the entry's virtual file, and the
-- entry's buffer
unfoldable pub get_file_entry :
    Macros → Option (List ℕ) → Option (List ℕ) → Option (List ℕ) × Option (List ℕ)
unfolding cached_content
get_file_entry macros buffer (some contents) = (some contents, buffer)
get_file_entry macros buffer none =
    let (buffer, text) = cached_content macros buffer in (some text, buffer)

-- the letters of an identifier
abbrev pub is_word : ℕ → Bool
is_word c =
    (leb b'a' c && leb c b'z')
    || (leb b'A' c && leb c b'Z')
    || (leb b'0' c && leb c b'9')
    || (c == b'_')

abbrev pub cut : (ℕ → Bool) → List ℕ → List ℕ × List ℕ
cut p [] = ([], [])
cut p (c ∷ cs) = let (w, rest) = cut p cs in if p c then (c ∷ w, rest) else ([], c ∷ cs)

abbrev pub strip : List ℕ → List ℕ → Option (List ℕ)
strip [] text = some text
strip (p ∷ ps) [] = none
strip (p ∷ ps) (c ∷ cs) = let rest = strip ps cs in if c == p then rest else none

-- the lines, each ended by a newline
abbrev pub put_front : ℕ → List (List ℕ) → List (List ℕ)
put_front c [] = (c ∷ []) ∷ []
put_front c (l ∷ ls) = (c ∷ l) ∷ ls

pub lines : List ℕ → List (List ℕ)
lines [] = []
lines (c ∷ cs) = let rest = lines cs in if c == b'\n' then [] ∷ rest else put_front c rest

-- a list of parameters is closed
abbrev pub has : ℕ → List ℕ → Bool
has x [] = false
has x (c ∷ cs) = (c == x) || has x cs

abbrev pub is_closed : List ℕ → Bool
is_closed [] = true
is_closed (c ∷ cs) = not (c == b'(') || has b')' cs

-- an identifier does not begin with a digit
abbrev pub is_identifier : List ℕ → Bool
is_identifier [] = false
is_identifier (c ∷ cs) = not (leb b'0' c && leb c b'9')

-- A directive on a line, without comments and without a continuation on the next line: the macro,
-- and what stands behind its name, which for `#undef` is nothing. Where the name is no identifier,
-- or a list of parameters is not closed, it is no directive.
pub read_line : List ℕ → Option (MacroName × MacroValue)
read_line line = elim (strip (units "#define ") line) [
  | some rest ↦
      if is_identifier (cut is_word rest).0 && is_closed (cut is_word rest).1
      then some (cut is_word rest)
      else none
  | none ↦ elim (strip (units "#undef ") line) [
    | some rest ↦
        if is_identifier (cut is_word rest).0
        then some ((cut is_word rest).0, undefined_macro_value)
        else none
    | none ↦ none
  ]
]

pub read_lines : List (List ℕ) → Macros
unfolding read_line
read_lines [] = []
read_lines (l ∷ ls) = elim (read_line l) [ none ↦ read_lines ls | some m ↦ m ∷ read_lines ls ]

-- a name is an identifier, and a value that is defined begins with no letter of one, is on one line,
-- and has no list of parameters that is not closed
abbrev pub IsName : List ℕ → Type 0
IsName name = All (λ c. is_word c ≡ true) name

abbrev pub IsValue : List ℕ → Type 0
IsValue [] = Unit
IsValue (c ∷ cs) = (is_word c ≡ false) × All (λ c. c ≢ b'\n') (c ∷ cs)

abbrev pub IsMacro : MacroName × MacroValue → Type 0
IsMacro (name, value) =
    IsName name × IsValue value × (is_closed value ≡ true) × (is_identifier name ≡ true)
