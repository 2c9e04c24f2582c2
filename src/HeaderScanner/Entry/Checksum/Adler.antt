-- ===== src/HeaderScanner/Entry/Checksum/Adler.antt =====
-- The checksum of Extensions/HeaderScanner/contentEntry_.cpp against the definition of Adler-32.
use buildpal.Prelude.{
  ℕ, zero, suc, ◌+◌, ◌*◌, ◌%◌, ◌^◌, ◌<◌, ◌≤◌, ◌≡◌, refl, sym, ap, subst, ◌∙◌, List, [], ◌∷◌, foldl,
  length, take, drop, All, All-take, take-add, All-drop, dec_lt, arith, ltb, take-append-drop,
  length-take, length-drop, Bool-cases, inl, inr,
}
use mathlib.Core.List.{foldl-append}
use buildpal.HeaderScanner.Entry.Checksum.{
  Sums, from_char, do1, mod_base, do16s, nmax_loop, loop16, bsc_adler32,
}

-- both sums are reduced after every byte
unfoldable pub add_byte : Sums → ℕ → Sums
add_byte s c =
    let sum1 = (s.sum1 + c) % 65521 in record { sum1 = sum1; sum2 = (s.sum2 + sum1) % 65521 }

unfoldable pub adler32 : List ℕ → ℕ
unfolding add_byte
adler32 bytes =
    let s = foldl add_byte (record { sum1 = 1; sum2 = 0 }) bytes in s.sum1 + s.sum2 * 65536

abbrev pub IsAscii : List ℕ → Type 0
IsAscii = All (λ c. c < 128)

-- `n` more bytes do not wrap
record Fits (n : ℕ) (s : Sums) : Type 0 where
  pub sum1 : s.sum1 + 127 * n ≤ 770624
  pub sum2 : s.sum2 + 770624 * n < 2 ^ 32

do1-Fits : (n c : ℕ) (s : Sums) → c < 128 → Fits (suc n) s → Fits n (do1 s c)
unfolding do1 from_char
do1-Fits n c s small h =
    let h1 = h.sum1 in
    let h2 = h.sum2 in record { sum1 = ground (arith, h1, h2); sum2 = ground (arith, h1, h2) }

mod-do1 :
    (n c : ℕ) (s : Sums) → c < 128 → Fits (suc n) s → mod_base (do1 s c) ≡ add_byte (mod_base s) c
unfolding do1 from_char mod_base add_byte
mod-do1 n c s small h = let h1 = h.sum1 in let h2 = h.sum2 in ground (arith, h1, h2)

mod-foldl :
    (bytes : List ℕ) (s : Sums)
    → IsAscii bytes
    → Fits (length bytes) s
    → mod_base (foldl do1 s bytes) ≡ foldl add_byte (mod_base s) bytes
mod-foldl [] s h f = refl
mod-foldl (c ∷ bytes) s h f =
    mod-foldl bytes (do1 s c) h.1 (do1-Fits (length bytes) c s h.0 f)
    ∙ ap (λ (t : Sums). foldl add_byte t bytes) (mod-do1 (length bytes) c s h.0 f)

foldl-do1 :
    (n : ℕ) (bytes : List ℕ) (s : Sums)
    → foldl do1 (foldl do1 s (take n bytes)) (drop n bytes) ≡ foldl do1 s bytes
foldl-do1 n bytes s =
    sym (foldl-append do1 s (take n bytes) (drop n bytes))
    ∙ ap (foldl do1 s) (take-append-drop n bytes)

foldl-loop16 :
    (fuel : ℕ) (bytes : List ℕ) (s : Sums)
    → foldl do1 (loop16 fuel bytes s).0 (loop16 fuel bytes s).1 ≡ foldl do1 s bytes
unfolding loop16
foldl-loop16 zero bytes s = refl
foldl-loop16 (suc fuel) bytes s = elim (Bool-cases (ltb (length bytes) 16)) [
  | inl e ↦ ground (arith, e)
  | inr e ↦ ground (
    arith,
    e,
    foldl-loop16 fuel (drop 16 bytes) (do16s 1 bytes s),
    foldl-do1 16 bytes s,
    do16s_one bytes s,
  )
]
  where
    do16s_one : (bytes : List ℕ) (s : Sums) → do16s 1 bytes s ≡ foldl do1 s (take 16 bytes)
    do16s_one bytes s = unfold do16s in refl

do16s-take :
    (n : ℕ) (bytes : List ℕ) (s : Sums) → do16s n bytes s ≡ foldl do1 s (take (16 * n) bytes)
unfolding do16s
do16s-take zero bytes s = unfold take in refl
do16s-take (suc n) bytes s =
    let next : 16 + 16 * n ≡ 16 * suc n = omega arith in
    do16s-take n (drop 16 bytes) (foldl do1 s (take 16 bytes))
    ∙ sym (foldl-append do1 s (take 16 bytes) (take (16 * n) (drop 16 bytes)))
    ∙ ap (foldl do1 s) (sym (take-add 16 (16 * n) bytes))
    ∙ ap (λ k. foldl do1 s (take k bytes)) next

record IsReduced (s : Sums) : Type 0 where
  pub sum1 : s.sum1 < 65521
  pub sum2 : s.sum2 < 65521

mod_base-IsReduced : (s : Sums) → IsReduced (mod_base s)
unfolding mod_base
mod_base-IsReduced s = record { sum1 = omega arith; sum2 = omega arith }

mod_base-same : (s : Sums) → IsReduced s → mod_base s ≡ s
unfolding mod_base
mod_base-same s h = ground (arith, h.sum1, h.sum2)

-- a whole block is summed up without a wrap
reduced-Fits : (n : ℕ) (s : Sums) → n ≤ 5552 → IsReduced s → Fits n s
reduced-Fits n s h r =
    let r1 = r.sum1 in let r2 = r.sum2 in record { sum1 = omega arith; sum2 = omega arith }

block-mod :
    (bytes : List ℕ) (s : Sums)
    → 5552 ≤ length bytes
    → IsAscii bytes
    → IsReduced s
    → mod_base (do16s 347 bytes s) ≡ foldl add_byte s (take 5552 bytes)
block-mod bytes s long h r =
    ap mod_base (do16s-take 347 bytes s)
    ∙ mod-foldl (take 5552 bytes) s (All-take (λ c. c < 128) 5552 bytes h)
        (reduced-Fits _ s (omega (arith, length-take 5552 bytes long)) r)
    ∙ ap (λ (t : Sums). foldl add_byte t (take 5552 bytes)) (mod_base-same s r)

-- what the first loop leaves: fewer bytes than a block, for which the same sum is still to be made
record Ends (s : Sums) (bytes : List ℕ) (p : Sums × List ℕ) : Type 0 where
  pub few : length p.1 < 5552
  pub ascii : IsAscii p.1
  pub reduced : IsReduced p.0
  pub same_sum : foldl add_byte p.0 p.1 ≡ foldl add_byte s bytes

nmax_loop-few :
    (fuel : ℕ) (bytes : List ℕ) (s : Sums)
    → length bytes < 5552
    → nmax_loop (suc fuel) bytes s ≡ (s, bytes)
unfolding nmax_loop
nmax_loop-few fuel bytes s few = ground arith

nmax_loop-many :
    (fuel : ℕ) (bytes : List ℕ) (s : Sums)
    → 5552 ≤ length bytes
    → nmax_loop (suc fuel) bytes s ≡ nmax_loop fuel (drop 5552 bytes) (mod_base (do16s 347 bytes s))
unfolding nmax_loop
nmax_loop-many fuel bytes s many = ground arith

Ends-block :
    (bytes : List ℕ) (s : Sums) (p : Sums × List ℕ)
    → 5552 ≤ length bytes
    → IsAscii bytes
    → IsReduced s
    → Ends (mod_base (do16s 347 bytes s)) (drop 5552 bytes) p
    → Ends s bytes p
Ends-block bytes s p many h r e = record {
  few = e.few;
  ascii = e.ascii;
  reduced = e.reduced;
  same_sum =
      e.same_sum
      ∙ ap (λ (t : Sums). foldl add_byte t (drop 5552 bytes)) (block-mod bytes s many h r)
      ∙ sym (foldl-append add_byte s (take 5552 bytes) (drop 5552 bytes))
      ∙ ap (foldl add_byte s) (take-append-drop 5552 bytes);
}

nmax_loop-Ends :
    (fuel : ℕ) (bytes : List ℕ) (s : Sums)
    → length bytes ≤ fuel
    → IsAscii bytes
    → IsReduced s
    → Ends s bytes (nmax_loop fuel bytes s)
nmax_loop-Ends zero bytes s short h r =
    unfold nmax_loop in record { few = omega arith; ascii = h; reduced = r; same_sum = refl }
nmax_loop-Ends (suc fuel) bytes s short h r = elim (dec_lt (length bytes) 5552) [
  | yes few ↦
      subst (Ends s bytes) (sym (nmax_loop-few fuel bytes s few))
        (record { few = few; ascii = h; reduced = r; same_sum = refl })
  | no n ↦
      let many : 5552 ≤ length bytes = omega arith in
      let t = mod_base (do16s 347 bytes s) in
      subst (Ends s bytes) (sym (nmax_loop-many fuel bytes s many)) (
        Ends-block bytes s _ many h r (
          nmax_loop-Ends fuel (drop 5552 bytes) t (omega (arith, length-drop 5552 bytes))
            (All-drop (λ c. c < 128) 5552 bytes h) (mod_base-IsReduced _)))
]

-- The checksum of an ASCII text is its Adler-32 checksum: no sum wraps before it is reduced, and it
-- does not matter that the sums are reduced once in 5552 bytes.
pub bsc_adler32-adler32 : (bytes : List ℕ) → IsAscii bytes → bsc_adler32 bytes ≡ adler32 bytes
unfolding bsc_adler32 adler32
bsc_adler32-adler32 bytes h =
    let start : Sums = record { sum1 = 1; sum2 = 0 } in
    let p = nmax_loop (length bytes) bytes start in
    let e : Ends start bytes p =
      nmax_loop-Ends (length bytes) bytes start (omega arith) h
        (record { sum1 = omega arith; sum2 = omega arith }) in
    ap (λ (t : Sums). (mod_base t).sum1 + (mod_base t).sum2 * 65536)
      (foldl-loop16 (length p.1) p.1 p.0)
    ∙ ap (λ (t : Sums). t.sum1 + t.sum2 * 65536)
        (mod-foldl p.1 p.0 e.ascii (reduced-Fits (length p.1) p.0 (omega (arith, e.few)) e.reduced)
          ∙ ap (λ (t : Sums). foldl add_byte t p.1) (mod_base-same p.0 e.reduced)
          ∙ e.same_sum)
