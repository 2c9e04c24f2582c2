-- ===== src/Client/Bytes.antt =====
-- `to_byte_array` and `from_byte_array` of Extensions/Client/client.cpp: numbers in network order.
-- The width is `sizeof(T)` in bytes; the message format uses the widths 2 and 4.
use buildpal.Prelude.{
  ℕ, zero, suc, ◌+◌, ◌*◌, ◌/◌, ◌%◌, ◌^◌, ◌<◌, ◌≡◌, List, [], ◌∷◌, length, All, arith,
}

-- the bytes that are left to write, most significant first; `index` is `width - 1`
unfoldable pub to_byte_array : ℕ → ℕ → List ℕ
to_byte_array zero val = []
to_byte_array (suc index) val = val / 2 ^ (index * 8) % 256 ∷ to_byte_array index val

-- `result <<= 8; result += value[x];` in the unsigned type of `len` bytes
unfoldable pub from_bytes_loop : ℕ → ℕ → List ℕ → ℕ
from_bytes_loop len result [] = result
from_bytes_loop len result (x ∷ value) =
    from_bytes_loop len ((result * 256 % 2 ^ (len * 8) + x) % 2 ^ (len * 8)) value

-- reads the bytes that it is given: the caller passes `len` of them
unfoldable pub from_byte_array : ℕ → List ℕ → ℕ
unfolding from_bytes_loop
from_byte_array len [] = 0
from_byte_array len (x ∷ value) = from_bytes_loop len x value

abbrev pub IsByte : ℕ → Type 0
IsByte b = b < 256

-- A 16-bit number is read back from the two bytes that were written for it.
pub from-to_byte_array_2 : (v : ℕ) → v < 2 ^ 16 → from_byte_array 2 (to_byte_array 2 v) ≡ v
unfolding from_byte_array to_byte_array
from-to_byte_array_2 v h = omega arith

-- A 32-bit number is read back from the four bytes that were written for it.
pub from-to_byte_array_4 : (v : ℕ) → v < 2 ^ 32 → from_byte_array 4 (to_byte_array 4 v) ≡ v
unfolding from_byte_array to_byte_array
from-to_byte_array_4 v h = omega arith

pub length-to_byte_array : (n v : ℕ) → length (to_byte_array n v) ≡ n
unfolding to_byte_array
length-to_byte_array zero v = omega arith
length-to_byte_array (suc n) v = omega (arith, length-to_byte_array n v)

pub to_byte_array-IsByte : (n v : ℕ) → All IsByte (to_byte_array n v)
unfolding to_byte_array
to_byte_array-IsByte zero v = tt
to_byte_array-IsByte (suc n) v = (omega arith, to_byte_array-IsByte n v)

pub to-from_byte_array_4 :
    (a b c d : ℕ)
    → IsByte a
    → IsByte b
    → IsByte c
    → IsByte d
    → to_byte_array 4 (from_byte_array 4 (a ∷ b ∷ c ∷ d ∷ [])) ≡ a ∷ b ∷ c ∷ d ∷ []
unfolding from_byte_array to_byte_array
to-from_byte_array_4 a b c d ha hb hc hd = ground arith

pub to-from_byte_array_2 :
    (a b : ℕ) → IsByte a → IsByte b → to_byte_array 2 (from_byte_array 2 (a ∷ b ∷ [])) ≡ a ∷ b ∷ []
unfolding from_byte_array to_byte_array
to-from_byte_array_2 a b ha hb = ground arith

pub from_byte_array_4-lt : (a b c d : ℕ) → from_byte_array 4 (a ∷ b ∷ c ∷ d ∷ []) < 2 ^ 32
unfolding from_byte_array
from_byte_array_4-lt a b c d = omega arith

pub from_byte_array_2-lt : (a b : ℕ) → from_byte_array 2 (a ∷ b ∷ []) < 2 ^ 16
unfolding from_byte_array
from_byte_array_2-lt a b = omega arith
