-- ===== src/HookProcess/Compilation.antt =====
-- `DistributedCompilation`, `shortCircuit` and the hooks of `GetExitCodeProcess`, `CloseHandle` and
-- `TerminateProcess` of Extensions/Client/hookProcess.cpp. An event stands for the process of a
-- compilation, and its handle for the handle of the process. The mutex makes a step of each part of
-- a function that holds it.
pub mod Steps
pub mod Progress
pub mod Calls
pub mod Order
use buildpal.Prelude.{
  ℕ, zero, suc, ◌+◌, ◌-◌, ◌/◌, ◌%◌, ◌^◌, Bool, true, false, Option, none, some, List, [], ◌∷◌,
  ℕ_discrete,
}
use buildpal.Prelude.Assoc.{Assoc, lookup, assign, insert_new, erase}
use buildpal.HookProcess.Params.{CreateProcessParams}

-- the worker's thread: not resumed yet; about to read the parameters; in the client's
-- `distributedCompile`, which may call `fallback`; about to set the event; at its end
pub data Worker : Type 0 where
  waiting : Worker
  starting : Worker
  compiling : Worker
  signalling : Worker
  ended : Worker

-- a `DistributedCompilation` with its event and its worker; `terminating` is the number of calls of
-- `TerminateProcess` that are about to set the event
pub record Compilation : Type 0 where
  pub compiler_executable : List ℕ
  pub cp_params : Option CreateProcessParams
  pub completed : Bool
  pub exit_code : ℕ
  pub worker : Worker
  pub terminating : ℕ
  pub signalled : Bool

-- `DistributedCompilation::complete`
unfoldable pub complete : ℕ → Compilation → Bool × Compilation
complete code c = elim c.completed [
  | true ↦ (false, c)
  | false ↦ (true, record c { cp_params = none; completed = true; exit_code = code })
]

-- `HookProcessAPIHookData`, of which `orphans` are the workers whose object is gone
pub record Hooks : Type 0 where
  pub active : Bool
  pub infos : Assoc ℕ Compilation
  pub orphans : List Worker

-- `startThread`: the thread starts suspended or not
unfoldable pub start_thread : Bool → Compilation → Compilation
start_thread true c = record c { worker = waiting }
start_thread false c = record c { worker = starting }

-- the faked number of the process
unfoldable pub process_id : ℕ → ℕ
process_id event_handle = 2 ^ 31 + event_handle % 2 ^ 32 / 2

unfoldable pub new_compilation : List ℕ → CreateProcessParams → Compilation
new_compilation compiler_path params = record {
  compiler_executable = compiler_path;
  cp_params = some params;
  completed = false;
  exit_code = 0;
  worker = waiting;
  terminating = 0;
  signalled = false;
}

-- `shortCircuit`, for the handle that `CreateEvent` has made
unfoldable pub short_circuit : ℕ → CreateProcessParams → List ℕ → Bool → Hooks → Hooks
unfolding new_compilation start_thread
short_circuit event_handle params compiler_path suspended s =
    let c = start_thread suspended (new_compilation compiler_path params) in
    record s { infos = insert_new ℕ_discrete event_handle c s.infos }

-- what the worker reads at its start, the command line and the directory: nothing, if the
-- parameters are gone or the command line is a null pointer
unfoldable pub request : Compilation → Option (List ℕ × Option (List ℕ))
request c = elim c.cp_params [
  | none ↦ none
  | some p ↦ elim p.command_line [ none ↦ none | some cmd ↦ some (cmd, p.current_directory) ]
]

-- `fallback`, for a system that creates a process, waits for it, and has its exit code: -1 if there
-- is no process, and nothing if the parameters are gone
unfoldable pub fallback : (CreateProcessParams → Option ℕ) → Compilation → Option ℕ
fallback run c = elim c.cp_params [
  | none ↦ none
  | some p ↦ elim (run p) [ none ↦ some (2 ^ 32 - 1) | some code ↦ some code ]
]

-- the end of `distributedCompile`, with the lock
unfoldable pub worker_complete : ℕ → Compilation → Compilation
unfolding complete
worker_complete result c =
    let (first, c) = complete result c in
    elim first [ true ↦ record c { worker = signalling } | false ↦ record c { worker = ended } ]

-- and after it
unfoldable pub worker_set_event : Compilation → Compilation
worker_set_event c = record c { worker = ended; signalled = true }

-- the part of `terminateProcess` that has the lock
unfoldable pub terminate : ℕ → Compilation → Compilation
unfolding complete
terminate code c = let c = (complete code c).1 in record c { terminating = suc c.terminating }

-- and the part that sets the event
unfoldable pub terminate_set_event : Compilation → Compilation
terminate_set_event c = record c { terminating = c.terminating - 1; signalled = true }

-- a hook calls the original function, or it returns a value and perhaps writes `*lpExitCode`
pub data Reply : Type 0 where
  passed : Reply
  answered : ℕ → Option ℕ → Reply

abbrev pub still_active : ℕ
still_active = 259

-- a compilation's answer
unfoldable pub exit_code_reply : Compilation → Reply
exit_code_reply c = elim c.completed [
  | false ↦ answered still_active none
  | true ↦ answered 1 (some c.exit_code)
]

unfoldable pub get_exit_code_process : ℕ → Hooks → Reply
unfolding exit_code_reply
get_exit_code_process handle s = elim s.active [
  | false ↦ passed
  | true ↦ elim (lookup ℕ_discrete handle s.infos) [ none ↦ passed | some c ↦ exit_code_reply c ]
]

-- the original function follows in any case
unfoldable pub close_handle : ℕ → Hooks → Hooks
close_handle handle s = elim s.active [
  | false ↦ s
  | true ↦ elim (lookup ℕ_discrete handle s.infos) [
    | none ↦ s
    | some c ↦ record s { infos = erase ℕ_discrete handle s.infos; orphans = c.worker ∷ s.orphans }
  ]
]

unfoldable pub terminate_process : ℕ → ℕ → Hooks → Reply × Hooks
unfolding terminate
terminate_process handle code s = elim s.active [
  | false ↦ (passed, s)
  | true ↦ elim (lookup ℕ_discrete handle s.infos) [
    | none ↦ (passed, s)
    | some c ↦
        (answered 1 none, record s { infos = assign ℕ_discrete handle (terminate code c) s.infos })
  ]
]
