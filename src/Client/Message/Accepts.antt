-- ===== src/Client/Message/Accepts.antt =====
-- Which bytes `MsgReceiver::getMessage` (Extensions/Client/client.cpp) accepts.
use buildpal.Prelude.{
  ℕ, zero, suc, ◌+◌, ◌-◌, ◌%◌, ◌^◌, ◌<◌, ◌≤◌, ◌≡◌, ◌≢◌, refl, sym, ap, ap₂, subst, ◌∙◌, List, [],
  ◌∷◌, ◌++◌, append_assoc, append-nil, length, take, drop, All, arith, length-drop, length-take,
  take-append-drop, All-take, All-drop, dec_lt,
}
use buildpal.Client.Bytes.{
  IsByte, to_byte_array, from_byte_array, to-from_byte_array_4, to-from_byte_array_2,
  from_byte_array_4-lt, from_byte_array_2-lt,
}
use buildpal.Client.Message.{
  Scanned, scan, scanned, past_end, wraps, unfinished, finish, get_body, get_message, ok, message,
}
use buildpal.Client.Message.Frames.{frames, FitsWord, message_lem}
use buildpal.Client.Message.Roundtrip.{scan-step, scan_end, get_message-long, get_body-long}
use buildpal.Client.Message.Malformed.{scan_short}

-- a list of at least four bytes
first_four :
    (r : List ℕ)
    → 4 ≤ length r
    → All IsByte r
    → (take 4 r ≡ to_byte_array 4 (from_byte_array 4 (take 4 r)))
      × (from_byte_array 4 (take 4 r) < 2 ^ 32)
unfolding take
first_four (a ∷ b ∷ c ∷ d ∷ r) h ha = (
  sym (to-from_byte_array_4 a b c d ha.0 ha.1.0 ha.1.1.0 ha.1.1.1.0),
  from_byte_array_4-lt a b c d,
)
first_four r h ha = absurd (omega arith)

pub data ScanOf (found : ℕ) (rest : List ℕ) (acc : List (List ℕ)) (n : ℕ) (parts : List (List ℕ))
    : Type 0 where
  scan_of :
      (ps : List (List ℕ))
      → parts ≡ acc ++ ps
      → rest ≡ frames ps
      → n ≡ found + length ps
      → All FitsWord ps
      → ScanOf found rest acc n parts

nil_of_length {ℓ} : {A : Type ℓ} (xs : List A) → length xs ≡ 0 → xs ≡ []
nil_of_length [] h = refl
nil_of_length (x ∷ xs) h = absurd (omega arith)

scan-zero :
    (word total offset found n : ℕ) (rest : List ℕ) (acc parts : List (List ℕ))
    → scan word zero total offset found rest acc ≢ scanned total n parts
unfolding scan
scan-zero word total offset found n rest acc parts e = cc

scan_beyond :
    (word f total offset found n : ℕ) (rest : List ℕ) (acc parts : List (List ℕ))
    → total < offset
    → scan word f total offset found rest acc ≢ scanned total n parts
unfolding scan
scan_beyond word zero total offset found n rest acc parts lt = λ e. cc
scan_beyond word (suc f) total offset found n rest acc parts lt = λ e. ground arith

ScanOf-cons :
    {found n : ℕ} {rest : List ℕ} {acc parts : List (List ℕ)}
    → 4 + from_byte_array 4 (take 4 rest) ≤ length rest
    → All IsByte rest
    → ScanOf
        (found + 1)
        (drop (from_byte_array 4 (take 4 rest)) (drop 4 rest))
        (acc ++ take (from_byte_array 4 (take 4 rest)) (drop 4 rest) ∷ [])
        n
        parts
    → ScanOf found rest acc n parts
ScanOf-cons {found} {n} {rest} {acc} {parts} fits b (scan_of ps e r c w) =
    let len = from_byte_array 4 (take 4 rest) in
    let p = take len (drop 4 rest) in
    let (header, small) = first_four rest (omega arith) b in
    let long : length p ≡ len = length-take len (drop 4 rest) (omega (arith, length-drop 4 rest)) in
    scan_of (p ∷ ps) (e ∙ append_assoc acc (p ∷ []) ps)
      (sym (take-append-drop 4 rest)
        ∙ ap₂ ◌++◌ (header ∙ ap (to_byte_array 4) (sym long))
            (sym (take-append-drop len (drop 4 rest)) ∙ ap (λ (t : List ℕ). p ++ t) r))
      (omega arith) (omega arith, w)

scan_wraps :
    (word f total offset found n : ℕ) (rest : List ℕ) (acc parts : List (List ℕ))
    → offset < total
    → 4 ≤ length rest
    → word ≤ offset + 4 + from_byte_array 4 (take 4 rest)
    → scan word (suc f) total offset found rest acc ≢ scanned total n parts
unfolding scan
scan_wraps word f total offset found n rest acc parts lt long over = λ e. ground arith

-- a loop that ends exactly at the end of the buffer has read frames
scan_sound :
    (word f total offset found : ℕ) (rest : List ℕ) (acc : List (List ℕ)) (n : ℕ)
    (parts : List (List ℕ))
    → scan word f total offset found rest acc ≡ scanned total n parts
    → offset + length rest ≡ total
    → All IsByte rest
    → total < word
    → ScanOf found rest acc n parts
scan_sound word zero total offset found rest acc n parts e s b small =
    absurd (scan-zero word _ _ _ _ _ _ _ e)
scan_sound word (suc f) total offset found [] acc n parts e s b small =
    let at_end : offset ≡ total = omega arith in
    let done : scan word (suc f) total offset found [] acc ≡ scanned offset found acc =
      rw at_end (scan_end word (suc f) total found [] acc (omega arith)) in
    scan_of [] (ground (arith, append-nil acc)) refl (ground arith) tt
scan_sound word (suc f) total offset found (x ∷ xs) acc n parts e s b small =
    elim (dec_lt (length (x ∷ xs)) 4) [
      | yes short ↦
          absurd
            (ground (arith, scan_short word f total offset found (x ∷ xs) acc (omega arith) short))
      | no long ↦ elim (dec_lt (offset + 4 + from_byte_array 4 (take 4 (x ∷ xs))) word) [
        | no over ↦ absurd (
            scan_wraps word f total offset found n (x ∷ xs) acc parts (omega arith) (omega arith)
              (omega arith) e)
        | yes inside ↦
            let step =
              scan-step word f total offset found (x ∷ xs) acc (omega arith) (omega arith) inside in
            elim (dec_lt (length (x ∷ xs)) (4 + from_byte_array 4 (take 4 (x ∷ xs)))) [
              | yes over ↦
                  absurd (scan_beyond word f total _ _ n _ _ parts (omega arith) (sym step ∙ e))
              | no within ↦ ScanOf-cons (omega arith) b (
                  scan_sound word f total _ (found + 1) _ _ n parts (sym step ∙ e)
                    (omega (
                      arith,
                      length-drop (from_byte_array 4 (take 4 (x ∷ xs))) (drop 4 (x ∷ xs)),
                      length-drop 4 (x ∷ xs),
                    ))
                    (All-drop IsByte _ _ (All-drop IsByte 4 (x ∷ xs) b)) small)
            ]
      ]
    ]

pub finish-ok :
    (total n : ℕ) (sock : List ℕ) (s : Scanned) (parts : List (List ℕ)) (rest : List ℕ)
    → finish total n sock s ≡ ok parts rest
    → (s ≡ scanned total n parts) × (sock ≡ rest)
unfolding finish
finish-ok total n sock (scanned offset found ps) parts rest e = ground arith
finish-ok total n sock past_end parts rest e = cc
finish-ok total n sock wraps parts rest e = cc
finish-ok total n sock unfinished parts rest e = cc

pub get_body-short :
    (word total n : ℕ) (sock : List ℕ) {parts : List (List ℕ)} {rest : List ℕ}
    → length sock < total
    → get_body word total n sock ≢ ok parts rest
unfolding get_body
get_body-short word total n sock h e = ground arith

get_body-ok :
    (word total n : ℕ) (sock : List ℕ) (parts : List (List ℕ)) (rest : List ℕ)
    → total < word
    → All IsByte sock
    → get_body word total n sock ≡ ok parts rest
    → (sock ≡ frames parts ++ rest)
      × (total ≡ length (frames parts))
      × (n ≡ length parts)
      × All FitsWord parts
get_body-ok word total n sock parts rest fits b e = elim (dec_lt (length sock) total) [
  | yes short ↦ absurd (get_body-short word total n sock short e)
  | no long ↦
      let (s, r) =
        finish-ok total n _ _ parts rest
          (sym (get_body-long word total n sock (omega arith)) ∙ e) in
      let len : length (take total sock) ≡ total = length-take total sock (omega arith) in
      go len r (
        scan_sound word (suc total) total 0 0 (take total sock) [] n parts s (omega arith)
          (All-take IsByte total sock b) fits)
]
  where
    go :
        length (take total sock) ≡ total
        → drop total sock ≡ rest
        → ScanOf 0 (take total sock) [] n parts
        → (sock ≡ frames parts ++ rest)
          × (total ≡ length (frames parts))
          × (n ≡ length parts)
          × All FitsWord parts
    go len r (scan_of ps e f c w) =
        let same : parts ≡ ps = e in
        let framed : take total sock ≡ frames parts = f ∙ ap frames (sym same) in
        (
          sym (take-append-drop total sock) ∙ ap₂ ◌++◌ framed r,
          omega (arith, len, ap length framed),
          omega (arith, ap length same),
          subst (All FitsWord) (sym same) w,
        )

-- the bytes of an accepted message, header and all
accepted :
    (word a b c d x y : ℕ) (r : List ℕ) (parts : List (List ℕ)) (rest : List ℕ)
    → 2 ^ 32 ≤ word
    → All IsByte (a ∷ b ∷ c ∷ d ∷ x ∷ y ∷ r)
    → get_body word
        ((from_byte_array 4 (a ∷ b ∷ c ∷ d ∷ []) + 2 ^ 32 - 2) % 2 ^ 32)
        (from_byte_array 2 (x ∷ y ∷ []))
        r
      ≡ ok parts rest
    → a ∷ b ∷ c ∷ d ∷ x ∷ y ∷ r ≡ message parts ++ rest
accepted word a b c d x y r parts rest wide h e =
    let v = from_byte_array 4 (a ∷ b ∷ c ∷ d ∷ []) in
    let small = from_byte_array_4-lt a b c d in
    let few = from_byte_array_2-lt x y in
    let (body, size, count, words) =
      get_body-ok word _ _ r parts rest (omega arith) h.1.1.1.1.1.1 e in
    let size_field : (2 + length (frames parts)) % 2 ^ 32 ≡ v = omega arith in
    let count_field : length parts % 2 ^ 16 ≡ from_byte_array 2 (x ∷ y ∷ []) = omega arith in
    rw
      (
        message_lem parts words,
        size_field,
        count_field,
        to-from_byte_array_4 a b c d h.0 h.1.0 h.1.1.0 h.1.1.1.0,
        to-from_byte_array_2 x y h.1.1.1.1.0 h.1.1.1.1.1.0,
      )
      (ap (λ (t : List ℕ). a ∷ b ∷ c ∷ d ∷ x ∷ y ∷ t) body)

pub get_message-short :
    (word : ℕ) (sock : List ℕ) {parts : List (List ℕ)} {rest : List ℕ}
    → length sock < 6
    → get_message word sock ≢ ok parts rest
unfolding get_message
get_message-short word sock h e = ground arith

-- `getMessage` accepts encodings only: a message that it accepts is, byte for byte, what `addPart`
-- and `send` write for the parts that it returns, and it leaves the rest of the stream. Where
-- `std::size_t` has 32 bits, this is so as long as no offset wraps around; a message whose offset
-- wraps is none of those that are accepted here.
pub get_message-ok :
    (word : ℕ) (sock : List ℕ) (parts : List (List ℕ)) (rest : List ℕ)
    → 2 ^ 32 ≤ word
    → All IsByte sock
    → get_message word sock ≡ ok parts rest
    → sock ≡ message parts ++ rest
unfolding take drop
get_message-ok word (a ∷ b ∷ c ∷ d ∷ x ∷ y ∷ r) parts rest wide h e =
    accepted word a b c d x y r parts rest wide h (sym (get_message-long word _ (omega arith)) ∙ e)
get_message-ok word sock parts rest wide h e = absurd (get_message-short word sock (omega arith) e)
