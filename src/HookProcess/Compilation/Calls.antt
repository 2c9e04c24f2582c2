-- ===== src/HookProcess/Compilation/Calls.antt =====
-- The calls of the hooks of Extensions/Client/hookProcess.cpp, one after the other, and the
-- parameters of a compilation.
use buildpal.Prelude.{
  ℕ, ◌<◌, ◌≤◌, ◌%◌, ◌^◌, true, false, ◌≡◌, ◌≢◌, ◌↔◌, inl, inr, ap, ◌∙◌, Option, none, some,
  ℕ_discrete, arith, Option-cases,
}
use buildpal.Prelude.Assoc.{lookup, assign, lookup-assign, lookup-erase}
use buildpal.HookProcess.Params.{CreateProcessParams}
use buildpal.HookProcess.Compilation.{
  Compilation, complete, Hooks, fallback, terminate, Reply, passed, answered, exit_code_reply,
  get_exit_code_process, close_handle, terminate_process, process_id,
}
use buildpal.HookProcess.Compilation.Order.{Run, Run-known, run-exit_code_reply}
use buildpal.HookProcess.Compilation.Steps.{
  Reach, is_consistent, IsConsistent, has_params, Reach-IsConsistent,
}

get_exit_code_process-known :
    (handle : ℕ) (s : Hooks) (c : Compilation)
    → s.active ≡ true
    → lookup ℕ_discrete handle s.infos ≡ some c
    → get_exit_code_process handle s ≡ exit_code_reply c
unfolding get_exit_code_process
get_exit_code_process-known handle s c e known = ground (arith, e, known)

terminate_process-known :
    (handle code : ℕ) (s : Hooks) (c : Compilation)
    → s.active ≡ true
    → lookup ℕ_discrete handle s.infos ≡ some c
    → terminate_process handle code s
      ≡ (answered 1 none, record s { infos = assign ℕ_discrete handle (terminate code c) s.infos })
unfolding terminate_process
terminate_process-known handle code s c e known = ground (arith, e, known)

get_exit_code_process-close_handle :
    (handle : ℕ) (s : Hooks) → get_exit_code_process handle (close_handle handle s) ≡ passed
unfolding get_exit_code_process close_handle
get_exit_code_process-close_handle handle s =
    ground (arith, lookup-erase ℕ_discrete handle handle s.infos)

terminated-reply :
    (code : ℕ) (c : Compilation)
    → c.completed ≡ false
    → exit_code_reply (terminate code c) ≡ answered 1 (some code)
unfolding exit_code_reply terminate complete
terminated-reply code c e = ground (arith, e)

-- While a compilation is not completed, `GetExitCodeProcess` answers with `STILL_ACTIVE`, which is
-- not zero, and writes nothing. A call of `TerminateProcess` returns `TRUE` then; and from there on,
-- whatever steps the threads make, its code is the exit code that is answered whenever the hooks
-- are active and the handle is known, and after `CloseHandle` the handle is not the hooks' any more.
pub get_exit_code_process-terminated :
    (handle code : ℕ) (s t : Hooks) (c d : Compilation)
    → s.active ≡ true
    → lookup ℕ_discrete handle s.infos ≡ some c
    → c.completed ≡ false
    → Run handle (terminate_process handle code s).1 (terminate code c) t d
    → t.active ≡ true
    → (get_exit_code_process handle s ≡ answered 259 none)
      × ((terminate_process handle code s).0 ≡ answered 1 none)
      × (get_exit_code_process handle t ≡ answered 1 (some code))
      × (get_exit_code_process handle (close_handle handle t) ≡ passed)
get_exit_code_process-terminated handle code s t c d active known going run still = (
  get_exit_code_process-known handle s c active known
      ∙ unfold exit_code_reply in ground (arith, going),
  ap (λ (p : Reply × Hooks). p.0) (terminate_process-known handle code s c active known),
  get_exit_code_process-known handle t d still (Run-known handle _ t _ d run)
      ∙ run-exit_code_reply handle code _ t (terminate code c) d run
          (terminated-reply code c going),
  get_exit_code_process-close_handle handle t,
)

-- A call of one handle's hooks changes no other handle's answers.
pub get_exit_code_process-other :
    (handle other code : ℕ) (s : Hooks)
    → other ≢ handle
    → (get_exit_code_process other (terminate_process handle code s).1
        ≡ get_exit_code_process other s)
      × (get_exit_code_process other (close_handle handle s) ≡ get_exit_code_process other s)
unfolding get_exit_code_process terminate_process close_handle
get_exit_code_process-other handle other code s n =
    elim (Option-cases (lookup ℕ_discrete handle s.infos)) [
      | inl absent ↦ (ground (arith, absent), ground (arith, absent))
      | inr (c, known) ↦ (
        ground (arith, known, n, lookup-assign ℕ_discrete handle other (terminate code c) s.infos),
        ground (arith, known, n, lookup-erase ℕ_discrete handle other s.infos),
      )
    ]

consistent-fallback :
    (c : Compilation) (run : CreateProcessParams → Option ℕ)
    → IsConsistent c
    → (fallback run c ≡ none) ↔ (c.completed ≡ true)
unfolding fallback is_consistent has_params
consistent-fallback c run h = (λ e. ground arith, λ e. ground arith)

-- In a reachable state, the fallback of a known compilation has its parameters exactly as long as
-- the compilation is not completed.
pub Reach-fallback :
    (s : Hooks) (handle : ℕ) (c : Compilation) (run : CreateProcessParams → Option ℕ)
    → Reach s
    → lookup ℕ_discrete handle s.infos ≡ some c
    → (fallback run c ≡ none) ↔ (c.completed ≡ true)
Reach-fallback s handle c run r e = consistent-fallback c run (Reach-IsConsistent s handle c r e)

-- The faked process ids of events are in the order of their handles, so those of two events differ,
-- and they are below 2^32 and not below 2^31; provided that the handles are 32-bit multiples of 4.
pub process_id-lt :
    (a b : ℕ)
    → a < b
    → b < 2 ^ 32
    → a % 4 ≡ 0
    → b % 4 ≡ 0
    → (2 ^ 31 ≤ process_id a) × ((process_id a < process_id b) × (process_id b < 2 ^ 32))
unfolding process_id
process_id-lt a b ab hb ma mb = (omega arith, (omega arith, omega arith))
