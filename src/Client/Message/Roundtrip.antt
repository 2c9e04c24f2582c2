-- ===== src/Client/Message/Roundtrip.antt =====
-- What `MsgReceiver::getMessage` (Extensions/Client/client.cpp) reads from what `MsgSender` writes.
use buildpal.Prelude.{
  ℕ, zero, suc, ◌+◌, ◌-◌, ◌%◌, ◌^◌, ◌<◌, ◌≤◌, ◌≡◌, refl, sym, ap, ◌∙◌, false, List, [], ◌∷◌, ◌++◌,
  append_assoc, append-nil, length, take, drop, All, arith, length-append, take-length, drop-length,
  ltb, lt→ltb,
}
use native.Mathlib.Nat.{add-zero, zero-add, suc-add}
use buildpal.Client.Bytes.{
  to_byte_array, from_byte_array, from-to_byte_array_2, from-to_byte_array_4, length-to_byte_array,
}
use buildpal.Client.Message.{scan, scanned, finish, get_body, get_message, ok, message}
use buildpal.Client.Message.Frames.{frames, FitsWord, length-frames, message_lem}

pub not-ltb : (a b : ℕ) → b ≤ a → ltb a b ≡ false
not-ltb a b h = ground arith

pub take-bytes : (n v : ℕ) (r : List ℕ) → take n (to_byte_array n v ++ r) ≡ to_byte_array n v
take-bytes n v r =
    ap (λ k. take k (to_byte_array n v ++ r)) (sym (length-to_byte_array n v))
    ∙ take-length (to_byte_array n v) r

pub drop-bytes : (n v : ℕ) (r : List ℕ) → drop n (to_byte_array n v ++ r) ≡ r
drop-bytes n v r =
    ap (λ k. drop k (to_byte_array n v ++ r)) (sym (length-to_byte_array n v))
    ∙ drop-length (to_byte_array n v) r

-- one round of the loop
pub scan-step :
    (word : ℕ) (f total offset found : ℕ) (rest : List ℕ) (acc : List (List ℕ))
    → offset < total
    → 4 ≤ length rest
    → offset + 4 + from_byte_array 4 (take 4 rest) < word
    → scan word (suc f) total offset found rest acc
      ≡ scan word f total
          (offset + 4 + from_byte_array 4 (take 4 rest))
          (found + 1)
          (drop (from_byte_array 4 (take 4 rest)) (drop 4 rest))
          (acc ++ take (from_byte_array 4 (take 4 rest)) (drop 4 rest) ∷ [])
unfolding scan
scan-step word f total offset found rest acc lt long small =
    rw (lt→ltb _ _ lt, scan) (rw (not-ltb _ _ long) (rw (lt→ltb _ _ small)))

-- one round of the loop, in front of a whole frame
scan-frame :
    (word : ℕ) (f total offset found : ℕ) (p r : List ℕ) (acc : List (List ℕ))
    → FitsWord p
    → offset < total
    → offset + 4 + length p < word
    → scan word (suc f) total offset found (to_byte_array 4 (length p) ++ (p ++ r)) acc
      ≡ scan word f total (offset + 4 + length p) (found + 1) r (acc ++ p ∷ [])
scan-frame word f total offset found p r acc h lt small =
    scan-step word f total offset found _ acc lt
      (omega (
        arith,
        length-append (to_byte_array 4 (length p)) (p ++ r),
        length-to_byte_array 4 (length p),
      ))
      (omega (arith, read))
    ∙ rw (take-bytes, drop-bytes, from-to_byte_array_4 (length p) h, take-length, drop-length)
  where
    read : from_byte_array 4 (take 4 (to_byte_array 4 (length p) ++ (p ++ r))) ≡ length p
    read = rw take-bytes (from-to_byte_array_4 (length p) h)

pub scan-frames :
    (word : ℕ) (ps : List (List ℕ)) (r : List ℕ) (f total offset found : ℕ) (acc : List (List ℕ))
    → All FitsWord ps
    → length ps ≤ f
    → offset + length (frames ps) ≤ total
    → total < word
    → scan word f total offset found (frames ps ++ r) acc
      ≡ scan word
          (f - length ps)
          total
          (offset + length (frames ps))
          (found + length ps)
          r
          (acc ++ ps)
scan-frames word [] r f total offset found acc h hf e small = simp (sub_zero, add-zero, append-nil)
  where
    sub_zero : f - 0 ≡ f
    sub_zero = omega arith
scan-frames word (p ∷ ps) r zero total offset found acc h hf e small = absurd (omega arith)
scan-frames word (p ∷ ps) r (suc f) total offset found acc h hf e small =
    let len = length-frames p ps in
    ap (λ (t : List ℕ). scan word (suc f) total offset found t acc)
      (append_assoc (to_byte_array 4 (length p)) _ r
        ∙ ap (λ (t : List ℕ). to_byte_array 4 (length p) ++ t) (append_assoc p _ r))
    ∙ scan-frame word f total offset found p (frames ps ++ r) acc h.0 (omega (arith, len))
        (omega (arith, len))
    ∙ scan-frames word ps r f total (offset + 4 + length p) (found + 1) (acc ++ p ∷ []) h.1
        (omega arith) (omega (arith, len)) small
    ∙ rw (append_assoc acc (p ∷ []) ps) (cc (sub-suc, moved len, counted))
  where
    sub-suc : suc f - suc (length ps) ≡ f - length ps
    sub-suc = omega arith

    moved :
        length (frames (p ∷ ps)) ≡ 4 + length p + length (frames ps)
        → offset + 4 + length p + length (frames ps) ≡ offset + length (frames (p ∷ ps))
    moved len = omega arith

    counted : found + 1 + length ps ≡ found + suc (length ps)
    counted = omega arith

-- the parts of a message fit its 32-bit length and its 16-bit count
pub record Fits (ps : List (List ℕ)) : Type 0 where
  pub words : All FitsWord ps
  pub count : length ps < 2 ^ 16
  pub size : 2 + length (frames ps) < 2 ^ 32

-- the first read succeeds
pub get_message-long :
    (word : ℕ) (sock : List ℕ)
    → 6 ≤ length sock
    → get_message word sock
      ≡ get_body word
          ((from_byte_array 4 (take 4 sock) + 2 ^ 32 - 2) % 2 ^ 32)
          (from_byte_array 2 (take 2 (drop 4 sock)))
          (drop 6 sock)
unfolding get_message
get_message-long word sock h = rw (not-ltb _ _ h, get_message)

-- the second read succeeds
pub get_body-long :
    (word : ℕ) (total n : ℕ) (sock : List ℕ)
    → total ≤ length sock
    → get_body word total n sock
      ≡ finish total n (drop total sock) (scan word (suc total) total 0 0 (take total sock) [])
unfolding get_body
get_body-long word total n sock h = rw (not-ltb _ _ h, get_body)

drop-drop : (b n v : ℕ) (r : List ℕ) → drop (n + b) (to_byte_array n v ++ r) ≡ drop b r
unfolding drop to_byte_array
drop-drop b zero v r = rw zero-add
drop-drop b (suc n) v r = rw suc-add (drop-drop b n v r)

-- what is read behind a header that tells the size of the body
pub get_message-header :
    (word : ℕ) (size n : ℕ) (r : List ℕ)
    → 2 + size < 2 ^ 32
    → n < 2 ^ 16
    → get_message word
        (to_byte_array 4 ((2 + size) % 2 ^ 32) ++ (to_byte_array 2 (n % 2 ^ 16) ++ r))
      ≡ get_body word size n r
get_message-header word size n r hs hn =
    get_message-long word _ (
      omega (
        arith,
        length-append (to_byte_array 4 ((2 + size) % 2 ^ 32)) (to_byte_array 2 (n % 2 ^ 16) ++ r),
        length-append (to_byte_array 2 (n % 2 ^ 16)) r,
        length-to_byte_array 4 ((2 + size) % 2 ^ 32),
        length-to_byte_array 2 (n % 2 ^ 16),
      ))
    ∙ rw (take-bytes, drop-bytes, take-bytes, drop-drop 2 4, drop-bytes)
        (rw
          (
            from-to_byte_array_4 ((2 + size) % 2 ^ 32) (omega arith),
            from-to_byte_array_2 (n % 2 ^ 16) (omega arith),
          )
          (cc (size_read, count_read)))
  where
    size_read : ((2 + size) % 2 ^ 32 + 2 ^ 32 - 2) % 2 ^ 32 ≡ size
    size_read = omega arith

    count_read : n % 2 ^ 16 ≡ n
    count_read = omega arith

finish-scanned :
    (total n : ℕ) (sock : List ℕ) (parts : List (List ℕ))
    → finish total n sock (scanned total n parts) ≡ ok parts sock
unfolding finish
finish-scanned total n sock parts = ground arith

pub length-le-frames : (ps : List (List ℕ)) → length ps ≤ length (frames ps)
length-le-frames [] = omega arith
length-le-frames (p ∷ ps) = omega (arith, length-frames p ps, length-le-frames ps)

pub scan_end :
    (word : ℕ) (f total found : ℕ) (rest : List ℕ) (acc : List (List ℕ))
    → 0 < f
    → scan word f total total found rest acc ≡ scanned total found acc
unfolding scan
scan_end word zero total found rest acc h = absurd (omega arith)
scan_end word (suc f) total found rest acc h = rw (not-ltb total total (omega arith), scan)

-- the loop ends behind the last frame
scan-frames_end :
    (word : ℕ) (ps : List (List ℕ)) (total : ℕ)
    → total ≡ length (frames ps)
    → total < word
    → All FitsWord ps
    → scan word (suc total) total 0 0 (frames ps) [] ≡ scanned total (length ps) ps
scan-frames_end word ps total e small h =
    ap (λ (t : List ℕ). scan word (suc total) total 0 0 t []) (sym (append-nil (frames ps)))
    ∙ scan-frames word ps [] (suc total) total 0 0 [] h (omega (arith, length-le-frames ps))
        (omega arith) small
    ∙ cc (
      at_end,
      counted,
      scan_end word (suc total - length ps) total (length ps) [] ps
          (omega (arith, length-le-frames ps)),
    )
  where
    at_end : 0 + length (frames ps) ≡ total
    at_end = omega arith

    counted : 0 + length ps ≡ length ps
    counted = omega arith

-- `getMessage` reads back the parts that `addPart` was called with, in order, and leaves in the
-- stream what follows the message, if the parts fit the length and the count of the format, and
-- `std::size_t` has 32 bits or more.
pub get_message-message :
    (word : ℕ) (ps : List (List ℕ)) (rest : List ℕ)
    → 2 ^ 32 ≤ word
    → Fits ps
    → get_message word (message ps ++ rest) ≡ ok ps rest
get_message-message word ps rest wide h =
    ap (get_message word) (
      ap (λ (t : List ℕ). t ++ rest) (message_lem ps h.words)
      ∙ append_assoc (to_byte_array 4 _) _ rest
      ∙ ap (λ (t : List ℕ). to_byte_array 4 ((2 + length (frames ps)) % 2 ^ 32) ++ t)
          (append_assoc (to_byte_array 2 _) (frames ps) rest))
    ∙ get_message-header word (length (frames ps)) (length ps) (frames ps ++ rest) h.size h.count
    ∙ get_body-long word _ _ _ (omega (arith, length-append (frames ps) rest))
    ∙ rw
        (
          take-length,
          drop-length,
          scan-frames_end word ps (length (frames ps)) refl (fits h.size) h.words,
        )
        (finish-scanned _ _ _ _)
  where
    fits : 2 + length (frames ps) < 2 ^ 32 → length (frames ps) < word
    fits small = omega arith
