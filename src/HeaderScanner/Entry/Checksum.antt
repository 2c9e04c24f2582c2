-- ===== src/HeaderScanner/Entry/Checksum.antt =====
-- `bsc_adler32` of Extensions/HeaderScanner/contentEntry_.cpp. The sums are `unsigned int`, and a
-- byte is a `char`, which has a sign.
pub mod Adler
use buildpal.Prelude.{
  ℕ, zero, suc, ◌+◌, ◌-◌, ◌*◌, ◌%◌, ◌^◌, Bool, true, false, List, [], ◌∷◌, foldl, length, take,
  drop, ltb, if◌then◌else◌,
}

pub record Sums : Type 0 where
  pub sum1 : ℕ
  pub sum2 : ℕ

abbrev pub base : ℕ
base = 65521

abbrev pub nmax : ℕ
nmax = 5552

-- what a `char` adds to an `unsigned int`
unfoldable pub from_char : ℕ → ℕ
from_char c = if ltb c 128 then c else c + (2 ^ 32 - 256)

-- `DO1`
unfoldable pub do1 : Sums → ℕ → Sums
unfolding from_char
do1 s c =
    let sum1 = (s.sum1 + from_char c) % 2 ^ 32 in
    record { sum1 = sum1; sum2 = (s.sum2 + sum1) % 2 ^ 32 }

-- `MOD` of both sums
unfoldable pub mod_base : Sums → Sums
mod_base s = record { sum1 = s.sum1 % base; sum2 = s.sum2 % base }

-- `DO16`, again and again
unfoldable pub do16s : ℕ → List ℕ → Sums → Sums
unfolding do1
do16s zero bytes s = s
do16s (suc n) bytes s = do16s n (drop 16 bytes) (foldl do1 s (take 16 bytes))

-- `while ( size >= NMAX )`: the sums, and what is left of the data
unfoldable pub nmax_loop : ℕ → List ℕ → Sums → Sums × List ℕ
unfolding do16s mod_base
nmax_loop zero bytes s = (s, bytes)
nmax_loop (suc fuel) bytes s = elim (ltb (length bytes) nmax) [
  | true ↦ (s, bytes)
  | false ↦ nmax_loop fuel (drop nmax bytes) (mod_base (do16s 347 bytes s))
]

-- `while ( size >= 16 )`
unfoldable pub loop16 : ℕ → List ℕ → Sums → Sums × List ℕ
unfolding do16s
loop16 zero bytes s = (s, bytes)
loop16 (suc fuel) bytes s = elim (ltb (length bytes) 16) [
  | true ↦ (s, bytes)
  | false ↦ loop16 fuel (drop 16 bytes) (do16s 1 bytes s)
]

-- each round of a loop shortens the data, so their length is enough fuel
unfoldable pub bsc_adler32 : List ℕ → ℕ
unfolding nmax_loop loop16 do1 mod_base
bsc_adler32 bytes =
    let (s, bytes) = nmax_loop (length bytes) bytes (record { sum1 = 1; sum2 = 0 }) in
    let (s, bytes) = loop16 (length bytes) bytes s in
    let s = mod_base (foldl do1 s bytes) in s.sum1 + s.sum2 * 2 ^ 16
