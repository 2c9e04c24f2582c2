-- ===== src/Client/Distributed.antt =====
-- `distributedCompile` of Extensions/Client/client.cpp as a whole: the connection to the manager,
-- the first message, the requests that follow, and the result; with `Fallback`, `getPipeData` and
-- `createProcess`. The functions of Windows, of LLVM's command line library and of the standard
-- library are the fields of `System`; `stays` tells whether the characters of these strings stay where
-- they are while a `std::vector` grows by them. A text stands for the characters before the NUL.
pub mod First
use buildpal.Prelude.{
  ℕ, zero, suc, ◌-◌, ◌^◌, Bool, true, false, Option, none, some, List, [], ◌∷◌, ◌++◌, take, drop,
  map, if◌then◌else◌, units,
}
use buildpal.Client.Message.{message}
use buildpal.Client.Environment.{EnvMap, get, remove, create_env_block, get_path, find_on_path}
use buildpal.Client.Requests.{
  Outcome, ran, exited, fallback, undefined, no_fuel, Ended, compiler_command, serve,
}

-- a call of `CreateFile` for the manager's pipe; `WaitNamedPipe` follows `busy`
pub data Attempt : Type 0 where
  opened : Attempt
  busy : Attempt
  failed : Attempt

-- a process that has ended, with what is in its pipes: `none` where `PeekNamedPipe` fails, and else
-- the number of bytes that are available, and the bytes
pub record Piped : Type 0 where
  pub code : ℕ
  pub std_out : Option ℕ × List ℕ
  pub std_err : Option ℕ × List ℕ

-- what a process is started with
pub record Start : Type 0 where
  pub app_name : List ℕ
  pub command_line : List ℕ
  pub block : Option (List ℕ)
  pub directory : Option (List ℕ)

pub record System : Type 0 where
  pub open_pipe : List ℕ → List Attempt
  pub process_env : List ℕ → Option (List ℕ)
  pub process_directory : List ℕ
  pub tokenize : List ℕ → List (List ℕ)
  pub expand_response_files : List (List ℕ) → Option (List (List ℕ))
  pub directory_of : List ℕ → List ℕ
  pub path_combine : List ℕ → List ℕ → List ℕ
  pub file_exists : List ℕ → Bool
  pub decimal : ℕ → List ℕ
  pub create_process : Start → Option ℕ
  pub create_piped : Start → Option Piped
  pub write : List ℕ → Bool
  pub word : ℕ
  pub stays : List (List ℕ) → Bool

-- the arguments of `distributedCompile`
pub record Arguments : Type 0 where
  pub toolset : List ℕ
  pub executable : List ℕ
  pub env : EnvMap
  pub command_line : List ℕ
  pub current_path : Option (List ℕ)
  pub port_name : List ℕ
  pub fallback_function : Option ℕ

-- `getPipeData`
unfoldable pub get_pipe_data : Option ℕ × List ℕ → List ℕ
get_pipe_data (none, pipe) = []
get_pipe_data (some available, pipe) = take available pipe

-- `Fallback::complete`, for what the caller's function returns
unfoldable pub fallback_complete : Option ℕ → ℕ
fallback_complete none = 2 ^ 32 - 1
fallback_complete (some code) = code

-- the loop that opens the pipe: `none` if it waits for longer than the answers of the system go
unfoldable pub connect : List Attempt → Option Bool
connect [] = none
connect (opened ∷ attempts) = some true
connect (busy ∷ attempts) = connect attempts
connect (failed ∷ attempts) = some false

-- `argv.insert( argv.begin() + 1, … )`, which needs a first argument
unfoldable pub insert_arguments : List (List ℕ) → Option (List (List ℕ)) → Option (List (List ℕ))
insert_arguments argv none = some argv
insert_arguments [] (some env_argv) = none
insert_arguments (program ∷ argv) (some env_argv) = some (program ∷ (env_argv ++ argv))

module _ (sys : System) (args : Arguments) where
  unfoldable pub or_else {ℓ} : {A : Type ℓ} → A → Option A → A
  or_else a none = a
  or_else a (some b) = b

  -- `env.remove( "VS_UNICODE_OUTPUT" )`
  unfoldable pub compile_env : EnvMap
  compile_env = remove args.env (units "VS_UNICODE_OUTPUT")

  unfoldable pub pipe_name : List ℕ
  pipe_name = units "\\\\.\\pipe\\BuildPal_" ++ args.port_name

  unfoldable pub first_parts : List (List ℕ) → List (List ℕ)
  unfolding compile_env or_else
  first_parts arguments =
      args.toolset
      ∷ args.executable
      ∷ or_else [] (get sys.process_env compile_env (units "INCLUDE"))
      ∷ or_else sys.process_directory args.current_path
      ∷ arguments

  -- the arguments of the command line, behind those of the environment
  unfoldable pub command_arguments : Option (List (List ℕ))
  unfolding compile_env insert_arguments
  command_arguments =
      insert_arguments (sys.tokenize args.command_line)
        (elim (get sys.process_env compile_env (units "CL")) [
          | none ↦ none
          | some options ↦ some (sys.tokenize options)
        ])

  abbrev pub start_of : List ℕ → Start
  start_of command = record {
    app_name = args.executable;
    command_line = command;
    block = create_env_block compile_env;
    directory = args.current_path;
  }

  -- the part of `EXECUTE_GET_OUTPUT` that runs the command
  unfoldable pub execute : List ℕ → Option Ended
  unfolding get_pipe_data
  execute command = elim (sys.create_piped (start_of command)) [
    | none ↦ none
    | some p ↦ some (record {
      code = sys.decimal p.code;
      out = get_pipe_data p.std_out;
      err = get_pipe_data p.std_err;
    })
  ]

  -- the part of `LOCATE_FILES` for one file
  unfoldable pub locate : List ℕ → List ℕ
  unfolding or_else compile_env
  locate file = or_else [] (
      find_on_path sys.path_combine sys.file_exists
        (sys.directory_of args.executable
          ∷ get_path (get sys.process_env compile_env (units "PATH")))
        file)

  -- the assertion that the compiler has a directory; and the pointers to the answers, which are
  -- sent when all files have been looked for
  unfoldable pub locate_all : List (List ℕ) → Option (List (List ℕ))
  unfolding locate
  locate_all files = elim (sys.directory_of args.executable) [
    | [] ↦ none
    | c ∷ cs ↦ if sys.stays (map locate files) then some (map locate files) else none
  ]

  -- the messages are written, and the requests are served
  unfoldable pub converse : List (List ℕ) → ℕ → List ℕ → Outcome × List (List ℕ)
  unfolding first_parts execute locate_all
  converse argv fuel sock =
      let first = message (first_parts (drop 1 argv)) in
      let (outcome, replies) =
        serve sys.word args.command_line execute locate_all sys.write fuel sock in
      if sys.write first then (outcome, first ∷ replies) else (fallback, [])

  -- `argv.begin() + 1` needs a first argument also behind `ExpandResponseFiles`
  unfoldable pub begin : ℕ → List ℕ → Outcome × List (List ℕ)
  unfolding command_arguments converse
  begin fuel sock = elim command_arguments [
    | none ↦ (undefined, [])
    | some argv ↦ elim (sys.expand_response_files argv) [
      | none ↦ (fallback, [])
      | some [] ↦ (undefined, [])
      | some (program ∷ argv) ↦ converse (program ∷ argv) fuel sock
    ]
  ]

  -- the outcome, and the messages that were written
  unfoldable pub distributed_compile : ℕ → List ℕ → Outcome × List (List ℕ)
  unfolding begin connect pipe_name
  distributed_compile fuel sock = elim (connect (sys.open_pipe pipe_name)) [
    | none ↦ (no_fuel, [])
    | some false ↦ (fallback, [])
    | some true ↦ begin fuel sock
  ]

  -- the result, where there is one
  unfoldable pub result : Outcome → Option ℕ
  unfolding fallback_complete or_else
  result (ran command) = some (or_else (2 ^ 32 - 1) (sys.create_process (start_of command)))
  result (exited code out err) = some code
  result fallback = some (fallback_complete args.fallback_function)
  result undefined = none
  result no_fuel = none
