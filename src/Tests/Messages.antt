-- ===== src/Tests/Messages.antt =====
-- Messages of Extensions/Client/client.cpp.
use buildpal.Prelude.{ℕ, ◌^◌, ◌≡◌, refl, List, [], ◌∷◌, ◌++◌, All, arith, take, drop}
use buildpal.Client.Bytes.{IsByte, to_byte_array, from_byte_array}
use buildpal.Client.Message.{message, get_message, ok}
use buildpal.Client.Message.Roundtrip.{Fits, get_message-message}
use buildpal.Client.Message.Accepts.{get_message-ok}

abbrev two_parts : List (List ℕ)
two_parts = (7 ∷ 8 ∷ []) ∷ [] ∷ []

two_parts-Fits : Fits two_parts
two_parts-Fits = record {
  words = (omega arith, (omega arith, tt));
  count = omega arith;
  size = unfold to_byte_array in omega arith;
}

get_message-message_example :
    get_message (2 ^ 32) (message two_parts ++ 9 ∷ []) ≡ ok two_parts (9 ∷ [])
get_message-message_example =
    get_message-message (2 ^ 32) two_parts (9 ∷ []) (omega arith) two_parts-Fits

-- one part of two bytes, and a byte that follows
abbrev one_part : List ℕ
one_part = 0 ∷ 0 ∷ 0 ∷ 8 ∷ 0 ∷ 1 ∷ 0 ∷ 0 ∷ 0 ∷ 2 ∷ 7 ∷ 8 ∷ 9 ∷ []

one_part-IsByte : All IsByte one_part
one_part-IsByte = ground arith

get_message-one_part : get_message (2 ^ 32) one_part ≡ ok ((7 ∷ 8 ∷ []) ∷ []) (9 ∷ [])
unfolding get_message take drop from_byte_array
get_message-one_part = refl

get_message-ok_example : one_part ≡ message ((7 ∷ 8 ∷ []) ∷ []) ++ 9 ∷ []
get_message-ok_example =
    get_message-ok (2 ^ 32) one_part ((7 ∷ 8 ∷ []) ∷ []) (9 ∷ []) (omega arith) one_part-IsByte
      get_message-one_part
