-- ===== src/Client/Message.antt =====
-- `MsgSender` and `MsgReceiver` of Extensions/Client/client.cpp: the framing of the messages that
-- the client and the manager exchange. A stream is the list of the bytes that arrive before it
-- ends; a read asks for a number of bytes and fails if the stream ends first. `word` is the number of
-- values of `std::size_t`: the client is built with 32 and with 64 bits.
pub mod Frames
pub mod Roundtrip
pub mod Malformed
pub mod Accepts
use buildpal.Prelude.{
  ℕ, zero, suc, ◌+◌, ◌-◌, ◌%◌, ◌^◌, Bool, true, false, ◌||◌, List, [], ◌∷◌, ◌++◌, foldl, length,
  take, drop, ltb, ◌==◌, not, if◌then◌else◌,
}
use buildpal.Client.Bytes.{to_byte_array, from_byte_array}

-- `lengths_` and `buffers_` hold what `buffers` holds, in order, behind the two header buffers
pub record MsgSender : Type 0 where
  pub total_length : ℕ
  pub part_count : ℕ
  pub buffers : List (List ℕ)

-- `totalLength_ = partCountBuffer_.size();`
abbrev pub init_message : MsgSender
init_message = record { total_length = 2; part_count = 0; buffers = [] }

-- `ptr` points at the bytes of `ptr`; the size is a `uint32_t`
unfoldable pub add_part : MsgSender → List ℕ → MsgSender
add_part s ptr =
    let size = length ptr % 2 ^ 32 in
    let lengths = to_byte_array 4 size in
    record s {
      total_length = (s.total_length + (length lengths + size)) % 2 ^ 32;
      part_count = (s.part_count + 1) % 2 ^ 16;
      buffers =
          if size == 0
          then s.buffers ++ lengths ∷ []
          else s.buffers ++ lengths ∷ take size ptr ∷ [];
    }

abbrev pub concat : List (List ℕ) → List ℕ
concat [] = []
concat (b ∷ bs) = b ++ concat bs

-- the bytes that are handed to `boost::asio::write`, and the sender for the next message
unfoldable pub send : MsgSender → List ℕ × MsgSender
send s = (
  concat (to_byte_array 4 s.total_length ∷ to_byte_array 2 s.part_count ∷ s.buffers),
  init_message,
)

-- `overrun` is a read behind the end of the receive buffer. `wrapped` is an offset that wraps
-- around, behind a part that reaches beyond the buffer: the loop goes on from a place before, and may
-- not end.
pub data Received : Type 0 where
  ok : List (List ℕ) → List ℕ → Received
  read_error protocol_error overrun wrapped out_of_fuel : Received

-- the state in which the loop of `getMessage` ends
pub data Scanned : Type 0 where
  scanned : ℕ → ℕ → List (List ℕ) → Scanned
  past_end wraps unfinished : Scanned

-- `while ( offset < totalSize )`; `rest` is what stands in the buffer from `offset` on
unfoldable pub scan : ℕ → ℕ → ℕ → ℕ → ℕ → List ℕ → List (List ℕ) → Scanned
scan word zero total offset found rest parts = unfinished
scan word (suc fuel) total offset found rest parts = elim (ltb offset total) [
  | false ↦ scanned offset found parts
  | true ↦ elim (ltb (length rest) 4) [
    | true ↦ past_end
    | false ↦
        let part_len = from_byte_array 4 (take 4 rest) in
        let rest = drop 4 rest in
        elim (ltb (offset + 4 + part_len) word) [
          | false ↦ wraps
          | true ↦
              scan word fuel total (offset + 4 + part_len) (found + 1) (drop part_len rest)
                (parts ++ take part_len rest ∷ [])
        ]
  ]
]

-- the check behind the loop
unfoldable pub finish : ℕ → ℕ → List ℕ → Scanned → Received
finish total part_count sock (scanned offset found parts) =
    if not (offset == total) || not (found == part_count) then protocol_error else ok parts sock
finish total part_count sock past_end = overrun
finish total part_count sock wraps = wrapped
finish total part_count sock unfinished = out_of_fuel

-- the second read, of `totalSize` bytes, and what follows it
unfoldable pub get_body : ℕ → ℕ → ℕ → List ℕ → Received
unfolding scan finish
get_body word total part_count sock = elim (ltb (length sock) total) [
  | true ↦ read_error
  | false ↦
      finish total part_count (drop total sock)
        (scan word (suc total) total 0 0 (take total sock) [])
]

-- `from_byte_array<4>( … ) - 2`, in `std::uint32_t`
unfoldable pub get_message : ℕ → List ℕ → Received
unfolding get_body
get_message word sock = elim (ltb (length sock) 6) [
  | true ↦ read_error
  | false ↦
      get_body word ((from_byte_array 4 (take 4 sock) + 2 ^ 32 - 2) % 2 ^ 32)
        (from_byte_array 2 (take 2 (drop 4 sock))) (drop 6 sock)
]

-- a message with the given parts
unfoldable pub message : List (List ℕ) → List ℕ
message parts = (send (foldl add_part init_message parts)).0
