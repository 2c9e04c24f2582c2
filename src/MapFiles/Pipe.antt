-- ===== src/MapFiles/Pipe.antt =====
-- What Extensions/MapFiles/mapFiles.cpp uses of anonymous pipes, and the byte order in which it
-- writes sizes and wide characters.
use buildpal.Prelude.{
  ℕ, zero, suc, ◌+◌, ◌-◌, ◌*◌, ◌/◌, ◌%◌, ◌^◌, ◌<◌, ◌≡◌, refl, ap₂, Option, none, some, List, [],
  ◌∷◌, ◌++◌, length, All, arith, ltb, if◌then◌else◌,
}

-- `WriteFile` appends the bytes that it is given, or fails; `ReadFile` takes the bytes that it is
-- asked for where the pipe holds them.
pub record PipeApi : Type 1 where
  pub Pipe : Type 0
  pub contents : Pipe → List ℕ
  pub write_file : Pipe → List ℕ → Option Pipe
  pub read_file : Pipe → ℕ → Option (List ℕ × Pipe)
  pub write_appends :
      (p : Pipe) (bytes : List ℕ) (q : Pipe)
      → write_file p bytes ≡ some q
      → contents q ≡ contents p ++ bytes
  pub read_takes :
      (p : Pipe) (bytes rest : List ℕ)
      → contents p ≡ bytes ++ rest
      → (q : Pipe) × (read_file p (length bytes) ≡ some (bytes, q)) × (contents q ≡ rest)

infixl 5 ◌>>=◌
abbrev pub ◌>>=◌ {ℓ κ} : {A : Type ℓ} {B : Type κ} → Option A → (A → Option B) → Option B
none >>= f = none
some a >>= f = f a

-- `entries & 0xFF`, `( entries >> 8 ) & 0xFF`, ...
unfoldable pub count_bytes : ℕ → List ℕ
count_bytes n = n % 256 ∷ n / 256 % 256 ∷ n / 65536 % 256 ∷ n / 16777216 % 256 ∷ []

-- `size & 0xFF` and `size >> 8`, in an `unsigned char`
unfoldable pub size_bytes : ℕ → List ℕ
size_bytes n = n % 256 ∷ n / 256 % 256 ∷ []

abbrev pub byte : ℕ → List ℕ → ℕ
byte i [] = 0
byte zero (b ∷ bs) = b
byte (suc i) (b ∷ bs) = byte i bs

-- `( b[3] << 24 ) | ( b[2] << 16 ) | ( b[1] << 8 ) | b[0]`, an `int` that becomes a 64-bit
-- `std::size_t`
unfoldable pub read_count : List ℕ → ℕ
read_count b =
    let w = byte 0 b + byte 1 b * 256 + byte 2 b * 65536 + byte 3 b * 16777216 in
    if ltb w (2 ^ 31) then w else w + (2 ^ 64 - 2 ^ 32)

-- `( b[1] << 8 ) + b[0]`
unfoldable pub read_size : List ℕ → ℕ
read_size b = byte 1 b * 256 + byte 0 b

-- the memory of a `std::wstring`
unfoldable pub wide_bytes : List ℕ → List ℕ
wide_bytes [] = []
wide_bytes (c ∷ cs) = c % 256 ∷ c / 256 % 256 ∷ wide_bytes cs

unfoldable pub from_wide_bytes : List ℕ → List ℕ
from_wide_bytes (lo ∷ hi ∷ bs) = (hi * 256 + lo) ∷ from_wide_bytes bs
from_wide_bytes _ = []

abbrev pub IsUnit : ℕ → Type 0
IsUnit c = c < 2 ^ 16

pub from-wide_bytes : (cs : List ℕ) → All IsUnit cs → from_wide_bytes (wide_bytes cs) ≡ cs
unfolding from_wide_bytes wide_bytes
from-wide_bytes [] h = refl
from-wide_bytes (c ∷ cs) h = ap₂ ◌∷◌ (omega arith) (from-wide_bytes cs h.1)

pub length-wide_bytes : (cs : List ℕ) → length (wide_bytes cs) ≡ length cs * 2
unfolding wide_bytes
length-wide_bytes [] = omega arith
length-wide_bytes (c ∷ cs) = omega (arith, length-wide_bytes cs)

pub read-count_bytes : (n : ℕ) → n < 2 ^ 31 → read_count (count_bytes n) ≡ n
unfolding read_count count_bytes
read-count_bytes n h = ground arith

pub read-size_bytes : (n : ℕ) → n < 2 ^ 16 → read_size (size_bytes n) ≡ n
unfolding read_size size_bytes
read-size_bytes n h = omega arith
