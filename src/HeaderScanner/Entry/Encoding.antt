-- ===== src/HeaderScanner/Entry/Encoding.antt =====
-- `convertEncodingIfNeeded` of Extensions/HeaderScanner/contentEntry_.cpp. A `wchar_t` has 16 bits,
-- and a byte is a `char`, which has a sign.
pub mod Units
use buildpal.Prelude.{
  ℕ, ◌+◌, ◌-◌, ◌*◌, ◌%◌, ◌^◌, Bool, true, false, List, [], ◌∷◌, ◌++◌, ltb, ite, if◌then◌else◌,
  text_discrete, take, drop,
}

-- `undefined` is an access to the first unit of an empty text
pub data Converted : Type 0 where
  unchanged : Converted
  converted : List ℕ → Converted
  undefined : Converted

unfoldable pub starts_with : List ℕ → List ℕ → Bool
starts_with prefix bytes = ite (text_discrete (take 2 bytes) prefix) true false

-- `( high << 8 ) | low`, cast to a `wchar_t`: the sign of a low byte fills the high one
unfoldable pub join : ℕ → ℕ → ℕ
join high low = if ltb low 128 then high * 256 + low else 0xFF00 + low

-- the units of the text, and what its loop makes of each; an odd byte at the end is left
unfoldable pub join_units : (ℕ → ℕ → ℕ) → List ℕ → List ℕ
join_units f [] = []
join_units f (a ∷ []) = []
join_units f (a ∷ b ∷ bytes) = f a b ∷ join_units f bytes

-- `to_bytes` is that of a `std::wstring_convert`
module _ (to_bytes : List ℕ → List ℕ) where
  unfoldable pub utf8_copy : List ℕ → Converted
  utf8_copy [] = undefined
  utf8_copy (u ∷ input) = converted (to_bytes (u ∷ input) ++ 0 ∷ [])

  unfoldable pub convert_encoding : List ℕ → Converted
  unfolding starts_with join join_units utf8_copy
  convert_encoding bytes =
      if starts_with (0xFF ∷ 0xFE ∷ []) bytes
      then utf8_copy (join_units (λ low high. join high low) (drop 2 bytes))
      else if starts_with (0xFE ∷ 0xFF ∷ []) bytes
      then utf8_copy (join_units join (drop 2 bytes))
      else unchanged
