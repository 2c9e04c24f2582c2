-- ===== src/Tests/Conversations.antt =====
-- A whole call of `distributedCompile` of Extensions/Client/client.cpp.
use buildpal.Prelude.{
  ℕ, ◌^◌, ◌≡◌, sym, subst, leb, length, drop, refl, Bool, true, false, none, some, List, [], ◌∷◌,
  ◌++◌, arith, units,
}
use buildpal.Prelude.Assoc.{lookup, erase}
use buildpal.Client.Bytes.{to_byte_array}
use buildpal.Client.Message.{message, get_message, ok}
use buildpal.Client.Message.Roundtrip.{Fits}
use buildpal.Client.Environment.{get, remove, get_path, find_on_path}
use buildpal.Client.Requests.{serve}
use buildpal.Client.Distributed.{
  System, Arguments, Attempt, opened, busy, failed, connect, first_parts, command_arguments,
  insert_arguments, compile_env, or_else, execute, locate, locate_all, converse, begin, pipe_name,
  distributed_compile,
}
use buildpal.Client.Distributed.First.{
  Expanded, told, distributed_compile-first, serve-locate_files,
}

-- a manager whose pipe is busy at first, and one whose pipe cannot be opened
abbrev answers : Bool → List ℕ → List Attempt
answers true name = busy ∷ opened ∷ []
answers false name = busy ∷ failed ∷ []

-- a system without variables, on which every text is one argument
abbrev system : Bool → System
system opens = record {
  open_pipe = answers opens;
  process_env = λ name. none;
  process_directory = units "c:\\b";
  tokenize = λ command. units "cl" ∷ command ∷ [];
  expand_response_files = λ argv. some argv;
  directory_of = λ path. path;
  path_combine = λ dir file. dir ++ file;
  file_exists = λ file. false;
  decimal = λ n. units "0";
  create_process = λ start. none;
  create_piped = λ start. none;
  write = λ bytes. true;
  word = 2 ^ 64;
  stays = λ texts. leb (length texts) 1;
}

abbrev call : Arguments
call = record {
  toolset = units "msvc";
  executable = units "c:\\cl.exe";
  env = [];
  command_line = units "a.cpp";
  current_path = none;
  port_name = units "default";
  fallback_function = some 9;
}

abbrev call_parts : List (List ℕ)
call_parts = units "msvc" ∷ units "c:\\cl.exe" ∷ [] ∷ units "c:\\b" ∷ units "a.cpp" ∷ []

abbrev argv : List (List ℕ)
argv = units "cl" ∷ units "a.cpp" ∷ []

known : command_arguments (system true) call ≡ some argv
unfolding command_arguments compile_env insert_arguments get remove lookup erase
known = refl

call-Fits : Fits call_parts
call-Fits = record {
  words = ground arith;
  count = omega arith;
  size = unfold to_byte_array in omega arith;
}

told-call : told (system true) call (units "a.cpp" ∷ []) ≡ call_parts
unfolding get remove lookup erase
told-call = refl

Expanded-Fits :
    (rest : List (List ℕ)) → Expanded (system true) call rest → Fits (told (system true) call rest)
Expanded-Fits rest (given, program, e, x) =
    let same : units "a.cpp" ∷ [] ≡ rest = ground (arith, known, e, x) in
    subst (λ (r : List (List ℕ)). Fits (told (system true) call r)) same
      (subst Fits (sym told-call) call-Fits)

writes_first : (distributed_compile (system true) call 3 []).1 ≡ message call_parts ∷ []
unfolding distributed_compile begin converse connect pipe_name first_parts command_arguments
    compile_env or_else insert_arguments serve get_message get remove lookup erase drop
writes_first = refl

distributed_compile-first_example :
    (rest : List (List ℕ)) × Expanded (system true) call rest
    × (get_message (2 ^ 64) (message call_parts ++ (7 ∷ []))
        ≡ ok (told (system true) call rest) (7 ∷ []))
distributed_compile-first_example =
    distributed_compile-first (system true) call [] 3 [] (message call_parts) (7 ∷ []) (omega arith)
      Expanded-Fits writes_first

abbrev locate_parts : List (List ℕ)
locate_parts = units "LOCATE_FILES" ∷ units "c1.dll" ∷ []

locate_parts-Fits : Fits locate_parts
locate_parts-Fits = record {
  words = ground arith;
  count = omega arith;
  size = unfold to_byte_array in omega arith;
}

abbrev answer : List (List ℕ)
answer = locate (system true) call (units "c1.dll") ∷ []

nowhere : answer ≡ [] ∷ []
unfolding locate or_else find_on_path get_path compile_env get remove lookup erase
nowhere = refl

answer-Fits : Fits answer
answer-Fits = subst Fits (sym nowhere) (record {
  words = ground arith;
  count = omega arith;
  size = unfold to_byte_array in omega arith;
})

serve-locate_files_example :
    (let later =
        serve
          (2 ^ 64)
          (units "a.cpp")
          (execute (system true) call)
          (locate_all (system true) call)
          (λ bytes. true)
          0
          [] in
      serve
        (2 ^ 64)
        (units "a.cpp")
        (execute (system true) call)
        (locate_all (system true) call)
        (λ bytes. true)
        1
        (message locate_parts ++ [])
      ≡ (later.0, message answer ∷ later.1))
    × (get_message (2 ^ 64) (message answer ++ []) ≡ ok answer [])
serve-locate_files_example =
    serve-locate_files (system true) call 0 (units "c1.dll") [] [] [] (omega arith)
      (λ e. ground (arith, e)) refl locate_parts-Fits answer-Fits refl
