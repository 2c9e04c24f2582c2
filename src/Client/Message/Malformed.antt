-- ===== src/Client/Message/Malformed.antt =====
-- What `MsgReceiver::getMessage` (Extensions/Client/client.cpp) makes of any bytes at all.
use buildpal.Prelude.{
  ℕ, zero, suc, ◌+◌, ◌-◌, ◌%◌, ◌^◌, ◌<◌, ◌≤◌, ◌≡◌, ◌≢◌, sym, ap, ◌∙◌, List, [], ◌∷◌, ◌++◌, length,
  take, drop, All, arith, length-append, take-length, drop-length, lt→ltb,
}
use buildpal.Client.Bytes.{to_byte_array, from_byte_array}
use buildpal.Client.Message.{scan, past_end, unfinished, finish, get_message, overrun, out_of_fuel}
use buildpal.Client.Message.Frames.{frames, FitsWord}
use buildpal.Client.Message.Roundtrip.{
  scan-frames, length-le-frames, get_message-header, get_body-long,
}

scan-ne-unfinished :
    (word f total offset found : ℕ) (rest : List ℕ) (acc : List (List ℕ))
    → total - offset < f
    → scan word f total offset found rest acc ≢ unfinished
unfolding scan
scan-ne-unfinished word zero total offset found rest acc h = elim h [ ]
scan-ne-unfinished word (suc f) total offset found rest acc h = ground (
  arith,
  scan-ne-unfinished word f total (offset + 4 + from_byte_array 4 (take 4 rest)) (found + 1)
      (drop (from_byte_array 4 (take 4 rest)) (drop 4 rest))
      (acc ++ take (from_byte_array 4 (take 4 rest)) (drop 4 rest) ∷ []),
)

-- The loop of `getMessage` ends on every input.
pub get_message_total : (word : ℕ) (sock : List ℕ) → get_message word sock ≢ out_of_fuel
unfolding get_message
get_message_total word sock =
    let size = (from_byte_array 4 (take 4 sock) + 2 ^ 32 - 2) % 2 ^ 32 in
    ground (arith, scan-ne-unfinished word (suc size) size 0 0 (take size (drop 6 sock)) [])

pub scan_short :
    (word f total offset found : ℕ) (rest : List ℕ) (acc : List (List ℕ))
    → offset < total
    → length rest < 4
    → scan word (suc f) total offset found rest acc ≡ past_end
unfolding scan
scan_short word f total offset found rest acc lt short =
    rw (lt→ltb _ _ lt, scan) (rw (lt→ltb _ _ short))

-- A body that ends in one to three bytes behind its last whole frame makes the loop read a length
-- behind the end of the buffer, whatever the number of parts that the header tells.
pub stray_bytes :
    (word : ℕ) (ps : List (List ℕ)) (tail rest : List ℕ) (n : ℕ)
    → 2 ^ 32 ≤ word
    → All FitsWord ps
    → 0 < length tail
    → length tail < 4
    → n < 2 ^ 16
    → 2 + (length (frames ps) + length tail) < 2 ^ 32
    → get_message word (
        to_byte_array 4 ((2 + (length (frames ps) + length tail)) % 2 ^ 32)
        ++ (to_byte_array 2 (n % 2 ^ 16) ++ ((frames ps ++ tail) ++ rest)))
      ≡ overrun
unfolding finish
stray_bytes word ps tail rest n wide words pos short hn hs =
    get_message-header word (length (frames ps) + length tail) n _ hs hn
    ∙ get_body-long word _ n _ (omega (arith, length-append (frames ps ++ tail) rest, len))
    ∙ ap (λ (t : ℕ). finish t n (drop t body) (scan word (suc t) t 0 0 (take t body) [])) (sym len)
    ∙ rw (take-length, drop-length) (ap (finish _ n rest) loop)
  where
    body : List ℕ
    body = (frames ps ++ tail) ++ rest

    len : length (frames ps ++ tail) ≡ length (frames ps) + length tail
    len = length-append (frames ps) tail

    fuel :
        suc (length (frames ps ++ tail)) - length ps ≡ suc (length (frames ps ++ tail) - length ps)
    fuel = omega (arith, len, length-le-frames ps)

    loop :
        scan word
          (suc (length (frames ps ++ tail)))
          (length (frames ps ++ tail))
          0
          0
          (frames ps ++ tail)
          []
        ≡ past_end
    loop =
        scan-frames word ps tail _ _ 0 0 [] words (omega (arith, len, length-le-frames ps))
          (omega (arith, len)) (omega (arith, len))
        ∙ rw fuel (scan_short word _ _ _ _ tail ps (omega (arith, len)) short)
