-- ===== src/HookProcess/Compilation/Order.antt =====
-- What the caller of the hooks of Extensions/Client/hookProcess.cpp relies on, in any order of the
-- threads' steps.
use buildpal.Prelude.{
  ℕ, true, ◌≡◌, inl, inr, sym, ap, subst, ◌∙◌, some, ℕ_discrete, arith, Bool-cases,
}
use buildpal.Prelude.Assoc.{lookup, assign, lookup-assign, lookup-insert_new, lookup-erase}
use buildpal.HookProcess.Compilation.{
  Compilation, complete, Hooks, start_thread, new_compilation, short_circuit, worker_complete,
  worker_set_event, terminate, terminate_set_event, answered, exit_code_reply,
}
use buildpal.HookProcess.Compilation.Steps.{
  Move, resumed, started, finished, set_event, terminator_set_event, Step, created, moved,
  terminated, closed, switched, terminate_process-infos, close_handle-infos,
}

-- steps through states in which the handle is known, from the one's compilation to the other's
pub data Run (handle : ℕ) : Hooks → Compilation → Hooks → Compilation → Type 0 where
  here :
      {s : Hooks} {c : Compilation} → lookup ℕ_discrete handle s.infos ≡ some c → Run handle s c s c
  then :
      {s t u : Hooks} {c d e : Compilation}
      → lookup ℕ_discrete handle s.infos ≡ some c
      → Step s t
      → Run handle t d u e
      → Run handle s c u e

-- the compilation is completed, with the exit code
record HasCode (code : ℕ) (c : Compilation) : Type 0 where
  pub completed : c.completed ≡ true
  pub exit_code : c.exit_code ≡ code

Move-HasCode : (code : ℕ) (c c' : Compilation) → Move c c' → HasCode code c → HasCode code c'
unfolding worker_complete worker_set_event terminate_set_event complete
Move-HasCode code c _ (resumed e) h = record { completed = h.completed; exit_code = h.exit_code }
Move-HasCode code c _ (started e) h = record { completed = h.completed; exit_code = h.exit_code }
Move-HasCode code c _ (finished result e) h = record {
  completed = ground (arith, h.completed);
  exit_code = ground (arith, h.completed, h.exit_code);
}
Move-HasCode code c _ (set_event e) h = record { completed = h.completed; exit_code = h.exit_code }
Move-HasCode code c _ (terminator_set_event p) h = record {
  completed = h.completed;
  exit_code = h.exit_code;
}

terminate-HasCode :
    (code new : ℕ) (c : Compilation) → HasCode code c → HasCode code (terminate new c)
unfolding terminate complete
terminate-HasCode code new c h = record {
  completed = ground (arith, h.completed);
  exit_code = ground (arith, h.completed, h.exit_code);
}

-- one step leaves the compilation at the handle, or makes a move of it, or terminates it
data Fate : Compilation → Compilation → Type 0 where
  same : {c : Compilation} → Fate c c
  move : {c d : Compilation} → Move c d → Fate c d
  stop : {c : Compilation} (code : ℕ) → Fate c (terminate code c)

Fate-assign :
    (s : Hooks) (handle k : ℕ) (c d x y : Compilation)
    → lookup ℕ_discrete handle s.infos ≡ some c
    → lookup ℕ_discrete k s.infos ≡ some x
    → Fate x y
    → lookup ℕ_discrete handle (assign ℕ_discrete k y s.infos) ≡ some d
    → Fate c d
Fate-assign s handle k c d x y e ex f g = elim (ℕ_discrete handle k) [
  | yes q ↦
      subst (λ p. Fate p d) (ground (arith, q, e, ex))
        (subst (Fate x) (ground (arith, q, g, lookup-assign ℕ_discrete k handle y s.infos)) f)
  | no n ↦
      subst (Fate c) (ground (arith, n, e, g, lookup-assign ℕ_discrete k handle y s.infos)) same
]

Step-Fate :
    (s t : Hooks) (handle : ℕ) (c d : Compilation)
    → Step s t
    → lookup ℕ_discrete handle s.infos ≡ some c
    → lookup ℕ_discrete handle t.infos ≡ some d
    → Fate c d
unfolding short_circuit
Step-Fate s _ handle c d (created k params path suspended new) e f =
    subst (Fate c)
      (ground (
        arith,
        e,
        f,
        lookup-insert_new ℕ_discrete k handle (start_thread suspended (new_compilation path params))
            s.infos,
      ))
      same
Step-Fate s _ handle c d (moved k x y ex m) e f = Fate-assign s handle k c d x y e ex (move m) f
Step-Fate s _ handle c d (terminated k code) e f = elim (terminate_process-infos k code s) [
  | inl q ↦ subst (Fate c) (ground (arith, q, e, f)) same
  | inr (x, (ex, q)) ↦
      Fate-assign s handle k c d x (terminate code x) e ex (stop code)
        (ap (lookup ℕ_discrete handle) (sym q) ∙ f)
]
Step-Fate s _ handle c d (closed k) e f = elim (close_handle-infos k s) [
  | inl q ↦ subst (Fate c) (ground (arith, q, e, f)) same
  | inr q ↦ subst (Fate c) (ground (arith, q, e, f, lookup-erase ℕ_discrete k handle s.infos)) same
]
Step-Fate s _ handle c d (switched active) e f = subst (Fate c) (ground (arith, e, f)) same

Fate-HasCode : (code : ℕ) (c d : Compilation) → Fate c d → HasCode code c → HasCode code d
Fate-HasCode code c _ same h = h
Fate-HasCode code c d (move m) h = Move-HasCode code c d m h
Fate-HasCode code c _ (stop new) h = terminate-HasCode code new c h

run-known :
    (handle : ℕ) (s t : Hooks) (c d : Compilation)
    → Run handle s c t d
    → lookup ℕ_discrete handle s.infos ≡ some c
run-known handle s _ c _ (here e) = e
run-known handle s u c _ (then e step run) = e

run-HasCode :
    (handle code : ℕ) (s t : Hooks) (c d : Compilation)
    → Run handle s c t d
    → HasCode code c
    → HasCode code d
run-HasCode handle code s _ c _ (here e) h = h
run-HasCode handle code s u c z (then {t = t} {d = d} e step run) h =
    run-HasCode handle code t u d z run
      (Fate-HasCode code c d (Step-Fate s t handle c d step e (run-known handle t u d z run)) h)

reply-HasCode :
    (code : ℕ) (c : Compilation) → exit_code_reply c ≡ answered 1 (some code) → HasCode code c
unfolding exit_code_reply
reply-HasCode code c e = elim (Bool-cases c.completed) [
  | inl q ↦ record { completed = q; exit_code = ground (arith, e, q) }
  | inr q ↦ absurd (ground (arith, e, q))
]

-- the handle is known at the end
pub Run-known :
    (handle : ℕ) (s t : Hooks) (c d : Compilation)
    → Run handle s c t d
    → lookup ℕ_discrete handle t.infos ≡ some d
Run-known handle s _ c _ (here e) = e
Run-known handle s u c z (then {t = t} {d = d} e step run) = Run-known handle t u d z run

-- Once `GetExitCodeProcess` has answered with an exit code, no step of any thread changes the
-- answer while the handle is known: neither the worker's own end nor a later `TerminateProcess`.
pub run-exit_code_reply :
    (handle code : ℕ) (s t : Hooks) (c d : Compilation)
    → Run handle s c t d
    → exit_code_reply c ≡ answered 1 (some code)
    → exit_code_reply d ≡ answered 1 (some code)
unfolding exit_code_reply
run-exit_code_reply handle code s t c d run e =
    let h = run-HasCode handle code s t c d run (reply-HasCode code c e) in
    ground (arith, h.completed, h.exit_code)
