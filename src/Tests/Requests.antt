-- ===== src/Tests/Requests.antt =====
-- Environments and requests of Extensions/Client/client.cpp.
use buildpal.Prelude.{
  ℕ, Bool, true, ◌≡◌, refl, Option, none, some, List, [], ◌∷◌, ◌++◌, arith, units, map,
  text_discrete,
}
use buildpal.Prelude.Assoc.{lookup}
use buildpal.Client.Bytes.{to_byte_array}
use buildpal.Client.Message.Roundtrip.{Fits}
use buildpal.Client.Environment.{EnvMap, environment, create_env_block}
use buildpal.Client.Environment.Roundtrip.{FitsVariable, environment-create_env_block}
use buildpal.Client.Requests.{Ended}

abbrev variables : EnvMap
variables = (units "A", units "1=2") ∷ (units "B", []) ∷ []

variables-FitsVariable : FitsVariable (units "A", units "1=2")
variables-FitsVariable = record { named = omega arith; key = ground arith; value = ground arith }

empty-FitsVariable : FitsVariable (units "B", [])
empty-FitsVariable = record { named = omega arith; key = ground arith; value = tt }

abbrev block : List ℕ
block = units "A=1=2" ++ 0 ∷ units "B=" ++ 0 ∷ 0 ∷ []

environment-create_env_block_example :
    lookup text_discrete (units "A") (environment block)
    ≡ lookup text_discrete (units "A") variables
environment-create_env_block_example =
    environment-create_env_block variables block (units "A")
      (variables-FitsVariable, (empty-FitsVariable, tt)) (unfold create_env_block in refl)

abbrev no_process : List ℕ → Option Ended
no_process command = none

abbrev in_bin : List ℕ → List ℕ
in_bin file = units "bin\\" ++ file

abbrev writes : List ℕ → Bool
writes bytes = true

abbrev exit_parts : List (List ℕ)
exit_parts = units "EXIT" ∷ to_byte_array 4 2 ∷ units "out" ∷ [] ∷ []

exit_parts-Fits : Fits exit_parts
exit_parts-Fits = record {
  words = unfold to_byte_array in ground arith;
  count = omega arith;
  size = unfold to_byte_array in omega arith;
}

abbrev all_in_bin : List (List ℕ) → Option (List (List ℕ))
all_in_bin files = some (map in_bin files)
