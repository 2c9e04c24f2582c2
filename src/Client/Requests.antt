-- ===== src/Client/Requests.antt =====
-- The loop of `distributedCompile` of Extensions/Client/client.cpp that serves the manager's
-- requests. What it does to other processes and to the system is a parameter or a result; the
-- requests and the replies are the messages of `Client.Message`. The fallback's own result is what
-- the caller gave it.
pub mod Serve
use buildpal.Prelude.{
  ℕ, zero, suc, ◌+◌, ◌*◌, ◌%◌, ◌^◌, Bool, true, false, not, Option, none, some, List, [], ◌∷◌, ◌++◌,
  ◌==◌, leb, length, foldl, ite, if◌then◌else◌, text_discrete, units,
}
use buildpal.Client.Bytes.{from_byte_array}
use buildpal.Client.Message.{
  MsgSender, init_message, add_part, send, Received, ok, read_error, protocol_error, overrun,
  wrapped, out_of_fuel, get_message,
}

-- what a message asks for; `invalid` ends in a call of the fallback
pub data Request : Type 0 where
  run_locally : Request
  execute_and_exit : List ℕ → Request
  execute_get_output : List ℕ → Request
  exit : List ℕ → List ℕ → List ℕ → Request
  locate_files : List (List ℕ) → Request
  invalid : Request

unfoldable pub is_text : List ℕ → List ℕ → Bool
is_text a b = ite (text_discrete a b) true false

-- the requests with one argument
unfoldable pub with_command : (List ℕ → Request) → List (List ℕ) → Request
with_command request (command ∷ []) = request command
with_command request _ = invalid

unfoldable pub exit_request : List (List ℕ) → Request
exit_request (code ∷ out ∷ err ∷ []) = if length code == 4 then exit code out err else invalid
exit_request _ = invalid

unfoldable pub locate_request : List (List ℕ) → Request
locate_request [] = invalid
locate_request (file ∷ files) = locate_files (file ∷ files)

-- the parts of a message, by its first part
unfoldable pub request_of : List (List ℕ) → Request
unfolding is_text with_command exit_request locate_request
request_of [] = invalid
request_of (request ∷ parts) =
    if is_text request (units "RUN_LOCALLY")
    then run_locally
    else if is_text request (units "EXECUTE_AND_EXIT")
    then with_command execute_and_exit parts
    else if is_text request (units "EXECUTE_GET_OUTPUT")
    then with_command execute_get_output parts
    else if is_text request (units "EXIT")
    then exit_request parts
    else if is_text request (units "LOCATE_FILES")
    then locate_request parts
    else invalid

-- "compiler", a space and the command line
unfoldable pub compiler_command : List ℕ → List ℕ
compiler_command command = units "compiler" ++ (b' ' ∷ command)

-- how the loop ends: `exited` has the bits of the exit code, and the output and the errors that it
-- writes;
-- `no_fuel` is no end, or none within the fuel;
-- `ran` has the command that another process runs, whose exit code is returned
pub data Outcome : Type 0 where
  ran : List ℕ → Outcome
  exited : ℕ → List ℕ → List ℕ → Outcome
  fallback : Outcome
  undefined : Outcome
  no_fuel : Outcome

-- a process that has ended: its exit code as text, its output and its errors
pub record Ended : Type 0 where
  pub code : List ℕ
  pub out : List ℕ
  pub err : List ℕ

-- `execute` runs a command to its end, or fails to; `locate` has the texts that `LOCATE_FILES` hands
-- to `addPart`, unless these are undefined; `write` tells whether a reply was written; `word` is that
-- of `get_message`
module _ (word : ℕ) (command_line : List ℕ) (execute : List ℕ → Option Ended)
    (locate : List (List ℕ) → Option (List (List ℕ))) (write : List ℕ → Bool) where
  unfoldable pub reply : List (List ℕ) → List ℕ × MsgSender
  reply parts = send (foldl add_part init_message parts)

  -- the parts of the reply, or the outcome
  pub data Served : Type 0 where
    replied : List (List ℕ) → Served
    ended : Outcome → Served

  unfoldable pub serve_request : Request → Served
  unfolding compiler_command
  serve_request run_locally = ended (ran command_line)
  serve_request (execute_and_exit command) = ended (ran (compiler_command command))
  serve_request (execute_get_output command) = elim (execute (compiler_command command)) [
    | none ↦ ended fallback
    | some e ↦ replied (e.code ∷ e.out ∷ e.err ∷ [])
  ]
  serve_request (exit code out err) = ended (exited (from_byte_array 4 code) out err)
  serve_request (locate_files files) = elim (locate files) [
    | none ↦ ended undefined
    | some answers ↦ replied answers
  ]
  serve_request invalid = ended fallback

  -- the outcome, and the replies that were written before; a message whose offset wraps may keep
  -- `getMessage` in its loop
  unfoldable pub serve : ℕ → List ℕ → Outcome × List (List ℕ)
  unfolding serve_request request_of reply
  serve zero sock = (no_fuel, [])
  serve (suc fuel) sock = elim (get_message word sock) [
    | ok parts rest ↦
        let (later_outcome, later) = serve fuel rest in
        elim (serve_request (request_of parts)) [
          | ended outcome ↦ (outcome, [])
          | replied answer ↦
              let bytes = (reply answer).0 in
              if write bytes then (later_outcome, bytes ∷ later) else (fallback, [])
        ]
    | read_error ↦ (fallback, [])
    | protocol_error ↦ (fallback, [])
    | overrun ↦ (undefined, [])
    | wrapped ↦ (no_fuel, [])
    | out_of_fuel ↦ (no_fuel, [])
  ]
