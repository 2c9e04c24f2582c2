-- ===== src/Client/Requests/Serve.antt =====
-- How the manager's requests are served (Extensions/Client/client.cpp).
use buildpal.Prelude.{
  ℕ, suc, ◌^◌, ◌≤◌, ◌<◌, Bool, true, ◌≡◌, Option, some, List, [], ◌∷◌, ◌++◌, arith, units,
}
use buildpal.Client.Bytes.{to_byte_array, from-to_byte_array_4, length-to_byte_array}
use buildpal.Client.Message.{message}
use buildpal.Client.Message.Roundtrip.{Fits, get_message-message}
use buildpal.Client.Requests.{request_of, Ended, exited, serve, serve_request, reply}

module _ (word : ℕ) (command_line : List ℕ) (execute : List ℕ → Option Ended)
    (locate : List (List ℕ) → Option (List (List ℕ))) (write : List ℕ → Bool) where
  -- An EXIT message ends the loop with the exit code that it carries, and with the output and the
  -- errors in it.
  pub serve-exit :
      (fuel code : ℕ) (out err rest : List ℕ)
      → 2 ^ 32 ≤ word
      → code < 2 ^ 32
      → Fits (units "EXIT" ∷ to_byte_array 4 code ∷ out ∷ err ∷ [])
      → serve word command_line execute locate write
          (suc fuel)
          (message (units "EXIT" ∷ to_byte_array 4 code ∷ out ∷ err ∷ []) ++ rest)
        ≡ (exited code out err, [])
  unfolding serve serve_request request_of
  serve-exit fuel code out err rest wide h fits = ground (
    arith,
    get_message-message word (units "EXIT" ∷ to_byte_array 4 code ∷ out ∷ err ∷ []) rest wide fits,
    length-to_byte_array 4 code,
    from-to_byte_array_4 code h,
  )

  -- a LOCATE_FILES message with defined answers
  pub serve-answers :
      (fuel : ℕ) (file : List ℕ) (files answers : List (List ℕ)) (rest : List ℕ)
      → 2 ^ 32 ≤ word
      → Fits (units "LOCATE_FILES" ∷ file ∷ files)
      → locate (file ∷ files) ≡ some answers
      → write (message answers) ≡ true
      → serve word command_line execute locate write
          (suc fuel)
          (message (units "LOCATE_FILES" ∷ file ∷ files) ++ rest)
        ≡ (
          (serve word command_line execute locate write fuel rest).0,
          message answers ∷ (serve word command_line execute locate write fuel rest).1,
        )
  unfolding serve serve_request request_of reply message
  serve-answers fuel file files answers rest wide fits known written =
      ground (
        arith,
        known,
        get_message-message word (units "LOCATE_FILES" ∷ file ∷ files) rest wide fits,
      )
