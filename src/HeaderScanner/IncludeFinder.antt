-- ===== src/HeaderScanner/IncludeFinder.antt =====
-- The include finders of Extensions/HeaderScanner/naivePreprocessor_.cpp: the directives of a file
-- from its raw tokens or from the naive preprocessor's cache, and that cache.
use buildpal.Prelude.{
  ℕ, ◌-◌, Bool, true, false, none, some, List, [], ◌∷◌, length, take, drop, ite, text_discrete,
  ℕ_discrete, units,
}
use buildpal.Prelude.Assoc.{Assoc, lookup, assign, erase}

-- the location serves messages only
pub record IncludeDirective : Type 0 where
  pub filename : List ℕ
  pub is_angled : Bool

-- a token of the raw lexer of Clang; `hash` stands at the start of a line. Behind an identifier
-- `include`, it is the token of `LexIncludeFilename`, whose text has its quotes.
pub data RawToken : Type 0 where
  hash : RawToken
  raw_identifier : List ℕ → RawToken
  angle_string_literal : List ℕ → RawToken
  string_literal : List ℕ → RawToken
  other : RawToken

pub record NaiveCacheEntry : Type 0 where
  pub complex : Bool
  pub includes : List IncludeDirective

abbrev pub NaiveCache : Type 0
NaiveCache = Assoc ℕ NaiveCacheEntry

-- `container[ … ].complex = true`, for an entry that is made where there is none
unfoldable pub mark_complex : ℕ → NaiveCache → NaiveCache
mark_complex file cache = elim (lookup ℕ_discrete file cache) [
  | none ↦ assign ℕ_discrete file (record { complex = true; includes = [] }) cache
  | some e ↦ assign ℕ_discrete file (record e { complex = true }) cache
]

unfoldable pub store : ℕ → List IncludeDirective → NaiveCache → NaiveCache
store file includes cache =
    assign ℕ_discrete file (record { complex = false; includes = includes }) cache

unfoldable pub invalidate : ℕ → NaiveCache → NaiveCache
invalidate file cache = erase ℕ_discrete file cache

-- what `LexingIncludeFinder::nextInclude` is about to read: any token, the token behind a hash, or
-- the name of a file
pub data Mode : Type 0 where
  in_text : Mode
  after_hash : Mode
  in_include : Mode

-- `NextIncludeResult`, with the tokens that are left
pub data NextInclude : Type 0 where
  include_found : IncludeDirective → List RawToken → NextInclude
  header_done : NextInclude
  header_complex : NextInclude

-- without the quotes
unfoldable pub directive : List ℕ → Bool → IncludeDirective
directive text angled = record {
  filename = take (length text - 2) (drop 1 text);
  is_angled = angled;
}

-- a token that is no identifier is not `include`
unfoldable pub next_include : Mode → List RawToken → NextInclude
unfolding directive
next_include in_text [] = header_done
next_include in_text (hash ∷ ts) = next_include after_hash ts
next_include in_text (raw_identifier n ∷ ts) = next_include in_text ts
next_include in_text (angle_string_literal t ∷ ts) = next_include in_text ts
next_include in_text (string_literal t ∷ ts) = next_include in_text ts
next_include in_text (other ∷ ts) = next_include in_text ts
next_include after_hash [] = header_done
next_include after_hash (hash ∷ ts) = next_include after_hash ts
next_include after_hash (raw_identifier n ∷ ts) =
    let include = next_include in_include ts in
    let text = next_include in_text ts in ite (text_discrete n (units "include")) include text
next_include after_hash (angle_string_literal t ∷ ts) = next_include in_text ts
next_include after_hash (string_literal t ∷ ts) = next_include in_text ts
next_include after_hash (other ∷ ts) = next_include in_text ts
next_include in_include (angle_string_literal t ∷ ts) = include_found (directive t true) ts
next_include in_include (string_literal t ∷ ts) = include_found (directive t false) ts
next_include in_include _ = header_complex

-- `FixedIncludeFinder`, with the directives from its iterator on, and `LexingIncludeFinder`
pub data IncludeFinder : Type 0 where
  fixed : List IncludeDirective → IncludeFinder
  lexing : List RawToken → List IncludeDirective → IncludeFinder
