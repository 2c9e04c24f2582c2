-- ===== src/Tests/Compilations.antt =====
-- Compilations of Extensions/Client/hookProcess.cpp that stand for processes.
use buildpal.Prelude.{
  ℕ, ◌≡◌, ◌↔◌, refl, true, false, Option, none, some, [], arith, units, ℕ_discrete,
}
use buildpal.Prelude.Assoc.{lookup, assign, insert_new, lookup-assign}
use buildpal.HookProcess.Params.{CreateProcessParams}
use buildpal.HookProcess.Compilation.{
  compiling, starting, Compilation, Hooks, new_compilation, start_thread, short_circuit, complete,
  terminate, worker_complete, fallback, passed, answered, exit_code_reply, get_exit_code_process,
  close_handle, terminate_process,
}
use buildpal.HookProcess.Compilation.Steps.{
  started, finished, created, moved, terminated, Reach, initially, next, IsConsistent,
  Reach-IsConsistent,
}
use buildpal.HookProcess.Compilation.Order.{Run, here, then, run-exit_code_reply}
use buildpal.HookProcess.Compilation.Calls.{get_exit_code_process-terminated, Reach-fallback}

abbrev params : CreateProcessParams
params = record {
  application_name = none;
  command_line = some (units "cl a.cpp");
  creation_flags = 0;
  current_directory = some (units "c:\\a");
  startup_flags = 0x100;
  std_output = 4;
  std_error = 8;
}

abbrev idle : Hooks
idle = record { active = true; infos = []; orphans = [] }

-- a compilation, of which the worker is in the client's `distributedCompile`
abbrev fresh : Compilation
unfolding start_thread new_compilation
fresh = start_thread false (new_compilation (units "cl") params)

abbrev busy : Compilation
unfolding fresh start_thread new_compilation
busy = record fresh { worker = compiling }

abbrev creating : Hooks
unfolding short_circuit
creating = short_circuit 64 params (units "cl") false idle

abbrev running : Hooks
unfolding creating busy
running = record creating { infos = assign ℕ_discrete 64 busy creating.infos }

-- the caller terminates it then
abbrev stopped : Hooks
unfolding terminate_process running
stopped = (terminate_process 64 3 running).1

abbrev stopped_one : Compilation
unfolding terminate busy
stopped_one = terminate 3 busy

found_fresh : lookup ℕ_discrete 64 creating.infos ≡ some fresh
unfolding lookup creating fresh short_circuit insert_new start_thread new_compilation ℕ_discrete
found_fresh = refl

found_busy : lookup ℕ_discrete 64 running.infos ≡ some busy
unfolding lookup running creating busy fresh assign short_circuit insert_new start_thread
    new_compilation ℕ_discrete
found_busy = refl

found_stopped : lookup ℕ_discrete 64 stopped.infos ≡ some stopped_one
unfolding lookup stopped stopped_one running creating busy fresh assign short_circuit insert_new
    start_thread new_compilation terminate_process terminate ℕ_discrete
found_stopped = refl

running-Reach : Reach running
unfolding running creating busy
running-Reach =
    next (next (initially true) (created 64 params (units "cl") false unknown))
      (moved 64 fresh busy found_fresh (started starts))
  where
    unknown : lookup {V = Compilation} ℕ_discrete 64 [] ≡ none
    unknown = unfold lookup in refl

    starts : fresh.worker ≡ starting
    starts = unfold fresh start_thread new_compilation in refl

stopped-Reach : Reach stopped
unfolding stopped
stopped-Reach = next running-Reach (terminated 64 3)

Reach-IsConsistent_example : IsConsistent stopped_one
Reach-IsConsistent_example = Reach-IsConsistent stopped 64 stopped_one stopped-Reach found_stopped

-- a process whose exit code is 0
abbrev runs_well : CreateProcessParams → Option ℕ
runs_well p = some 0

Reach-fallback_example : (fallback runs_well stopped_one ≡ none) ↔ (stopped_one.completed ≡ true)
Reach-fallback_example = Reach-fallback stopped 64 stopped_one runs_well stopped-Reach found_stopped

-- the worker finishes after all
finished_one : Compilation
finished_one = worker_complete 5 stopped_one

finished_late : Hooks
finished_late = record stopped { infos = assign ℕ_discrete 64 finished_one stopped.infos }

finishing-Run : Run 64 stopped stopped_one finished_late finished_one
unfolding finished_late finished_one
finishing-Run =
    then found_stopped
      (moved 64 stopped_one (worker_complete 5 stopped_one) found_stopped (finished 5 works))
      (here found)
  where
    works : stopped_one.worker ≡ compiling
    works = unfold stopped_one busy terminate complete fresh start_thread new_compilation in refl

    found : lookup ℕ_discrete 64 finished_late.infos ≡ some finished_one
    found =
        unfold finished_late in
        ground (arith, lookup-assign ℕ_discrete 64 64 finished_one stopped.infos)

run-exit_code_reply_example : exit_code_reply finished_one ≡ answered 1 (some 3)
run-exit_code_reply_example =
    run-exit_code_reply 64 3 stopped finished_late stopped_one finished_one finishing-Run (
      unfold exit_code_reply stopped_one busy terminate complete fresh start_thread
        new_compilation in
      refl)

get_exit_code_process-terminated_example :
    (get_exit_code_process 64 running ≡ answered 259 none)
    × ((terminate_process 64 3 running).0 ≡ answered 1 none)
    × (get_exit_code_process 64 finished_late ≡ answered 1 (some 3))
    × (get_exit_code_process 64 (close_handle 64 finished_late) ≡ passed)
unfolding finished_late stopped stopped_one lookup assign insert_new ℕ_discrete
get_exit_code_process-terminated_example =
    get_exit_code_process-terminated 64 3 running finished_late busy finished_one
      (unfold running creating short_circuit in refl) found_busy
      (unfold busy fresh start_thread new_compilation in refl) finishing-Run
      (unfold stopped running creating short_circuit terminate_process in refl)
