-- ===== src/HeaderScanner/Entry/Encoding/Units.antt =====
-- Texts in UTF-16, as Extensions/HeaderScanner/contentEntry_.cpp converts them.
use buildpal.Prelude.{
  ℕ, ◌+◌, ◌/◌, ◌%◌, ◌≡◌, refl, ap, ap₂, List, [], ◌∷◌, ◌++◌, map, ltb, if◌then◌else◌, arith,
  text_discrete, take, drop,
}
use buildpal.HeaderScanner.Entry.Encoding.{
  converted, starts_with, join, join_units, utf8_copy, convert_encoding,
}

-- the bytes of units
abbrev pub little_endian : List ℕ → List ℕ
little_endian [] = []
little_endian (u ∷ us) = u % 256 ∷ u / 256 ∷ little_endian us

abbrev pub big_endian : List ℕ → List ℕ
big_endian [] = []
big_endian (u ∷ us) = u / 256 ∷ u % 256 ∷ big_endian us

-- a low byte with its upper bit replaces the high byte by ones
unfoldable pub sign_extended : ℕ → ℕ
sign_extended u = if ltb (u % 256) 128 then u else 0xFF00 + u % 256

join-little_endian :
    (us : List ℕ) → join_units (λ low high. join high low) (little_endian us) ≡ map sign_extended us
unfolding join_units join sign_extended
join-little_endian [] = refl
join-little_endian (u ∷ us) = ap₂ ◌∷◌ (ground arith) (join-little_endian us)

join-big_endian : (us : List ℕ) → join_units join (big_endian us) ≡ map sign_extended us
unfolding join_units join sign_extended
join-big_endian [] = refl
join-big_endian (u ∷ us) = ap₂ ◌∷◌ (ground arith) (join-big_endian us)

-- A text in UTF-16 that is not empty, of either order of bytes, is converted to the UTF-8 of its
-- units, but for the units whose low byte is above 127: of those the high byte is replaced by 0xFF.
pub convert_encoding-units :
    (to_bytes : List ℕ → List ℕ) (u : ℕ) (us : List ℕ)
    → (convert_encoding to_bytes (0xFF ∷ 0xFE ∷ little_endian (u ∷ us))
        ≡ converted (to_bytes (map sign_extended (u ∷ us)) ++ 0 ∷ []))
      × (convert_encoding to_bytes (0xFE ∷ 0xFF ∷ big_endian (u ∷ us))
          ≡ converted (to_bytes (map sign_extended (u ∷ us)) ++ 0 ∷ []))
unfolding convert_encoding starts_with utf8_copy text_discrete take drop
convert_encoding-units to_bytes u us = (
  ap (utf8_copy to_bytes) (join-little_endian (u ∷ us)),
  ap (utf8_copy to_bytes) (join-big_endian (u ∷ us)),
)
