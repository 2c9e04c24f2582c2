-- ===== src/HookProcess/Compilation/Steps.antt =====
-- The steps of the threads of a process that uses the hooks of
-- Extensions/Client/hookProcess.cpp.
use buildpal.Prelude.{
  ℕ, ◌<◌, Bool, true, false, not, ◌&&◌, ◌||◌, ◌⊎◌, ◌≡◌, refl, sym, subst, none, some, List, [],
  ◌==◌, ℕ_discrete, arith, Bool-cases, Option-cases, inl, inr,
}
use buildpal.Prelude.Assoc.{
  lookup, assign, erase, Values, assign-Values, insert_new-Values, erase-Values, lookup-Values,
}
use buildpal.HookProcess.Params.{CreateProcessParams}
use buildpal.HookProcess.Compilation.{
  Worker, waiting, starting, compiling, signalling, ended, Compilation, complete, Hooks,
  start_thread, new_compilation, short_circuit, worker_complete, worker_set_event, terminate,
  terminate_set_event, close_handle, terminate_process,
}

-- a step of a compilation that is known
pub data Move : Compilation → Compilation → Type 0 where
  resumed : {c : Compilation} → c.worker ≡ waiting → Move c (record c { worker = starting })
  started : {c : Compilation} → c.worker ≡ starting → Move c (record c { worker = compiling })
  finished :
      {c : Compilation} (result : ℕ) → c.worker ≡ compiling → Move c (worker_complete result c)
  set_event : {c : Compilation} → c.worker ≡ signalling → Move c (worker_set_event c)
  terminator_set_event : {c : Compilation} → 0 < c.terminating → Move c (terminate_set_event c)

-- a step of the process; `CreateEvent` makes a handle that is not in use
pub data Step : Hooks → Hooks → Type 0 where
  created :
      {s : Hooks} (handle : ℕ) (params : CreateProcessParams) (path : List ℕ) (suspended : Bool)
      → lookup ℕ_discrete handle s.infos ≡ none
      → Step s (short_circuit handle params path suspended s)
  moved :
      {s : Hooks} (handle : ℕ) (c c' : Compilation)
      → lookup ℕ_discrete handle s.infos ≡ some c
      → Move c c'
      → Step s (record s { infos = assign ℕ_discrete handle c' s.infos })
  terminated : {s : Hooks} (handle code : ℕ) → Step s (terminate_process handle code s).1
  closed : {s : Hooks} (handle : ℕ) → Step s (close_handle handle s)
  switched : {s : Hooks} (active : Bool) → Step s (record s { active = active })

pub data Reach : Hooks → Type 0 where
  initially : (active : Bool) → Reach (record { active = active; infos = []; orphans = [] })
  next : {s t : Hooks} → Reach s → Step s t → Reach t

unfoldable pub has_params : Compilation → Bool
has_params c = elim c.cp_params [ none ↦ false | some p ↦ true ]

-- the worker has not called `complete`
unfoldable pub runs : Worker → Bool
runs waiting = true
runs starting = true
runs compiling = true
runs signalling = false
runs ended = false

unfoldable pub sets_event : Worker → Bool
sets_event waiting = false
sets_event starting = false
sets_event compiling = false
sets_event signalling = true
sets_event ended = false

-- A compilation that runs has its parameters, and its event is not set; of one that is completed
-- the event is set, or a thread is about to set it.
unfoldable pub is_consistent : Compilation → Bool
unfolding has_params runs sets_event
is_consistent c = elim c.completed [
  | false ↦ has_params c && (runs c.worker && (not c.signalled && (c.terminating == 0)))
  | true ↦ not (has_params c) && (c.signalled || (sets_event c.worker || not (c.terminating == 0)))
]

abbrev pub IsConsistent : Compilation → Type 0
IsConsistent c = is_consistent c ≡ true

new_compilation-IsConsistent :
    (params : CreateProcessParams) (path : List ℕ) (suspended : Bool)
    → IsConsistent (start_thread suspended (new_compilation path params))
unfolding new_compilation start_thread is_consistent has_params runs sets_event
new_compilation-IsConsistent params path true = refl
new_compilation-IsConsistent params path false = refl

terminate-IsConsistent :
    (code : ℕ) (c : Compilation) → IsConsistent c → IsConsistent (terminate code c)
unfolding terminate complete is_consistent has_params runs sets_event
terminate-IsConsistent code c h = ground arith

Move-IsConsistent : (c c' : Compilation) → Move c c' → IsConsistent c → IsConsistent c'
unfolding terminate_set_event worker_complete worker_set_event complete is_consistent has_params
    runs sets_event
Move-IsConsistent c _ (resumed e) h = ground arith
Move-IsConsistent c _ (started e) h = ground arith
Move-IsConsistent c _ (finished result e) h = ground arith
Move-IsConsistent c _ (set_event e) h = ground arith
Move-IsConsistent c _ (terminator_set_event p) h = ground arith

-- what the hooks make of the known compilations
pub terminate_process-infos :
    (handle code : ℕ) (s : Hooks)
    → ((terminate_process handle code s).1.infos ≡ s.infos)
      ⊎ ((c : Compilation) × ((lookup ℕ_discrete handle s.infos ≡ some c)
            × ((terminate_process handle code s).1.infos
                ≡ assign ℕ_discrete handle (terminate code c) s.infos)))
unfolding terminate_process
terminate_process-infos handle code s = elim (Option-cases (lookup ℕ_discrete handle s.infos)) [
  | inl absent ↦ inl (ground (arith, absent))
  | inr (c, known) ↦ elim (Bool-cases s.active) [
    | inl e ↦ inr (c, (known, ground (arith, e, known)))
    | inr e ↦ inl (ground (arith, e))
  ]
]

pub close_handle-infos :
    (handle : ℕ) (s : Hooks)
    → ((close_handle handle s).infos ≡ s.infos)
      ⊎ ((close_handle handle s).infos ≡ erase ℕ_discrete handle s.infos)
unfolding close_handle
close_handle-infos handle s = elim (Option-cases (lookup ℕ_discrete handle s.infos)) [
  | inl absent ↦ inl (ground (arith, absent))
  | inr (c, known) ↦ elim (Bool-cases s.active) [
    | inl e ↦ inr (ground (arith, e, known))
    | inr e ↦ inl (ground (arith, e))
  ]
]

Step-Values :
    (s t : Hooks)
    → Step s t
    → Values ℕ_discrete IsConsistent s.infos
    → Values ℕ_discrete IsConsistent t.infos
unfolding short_circuit
Step-Values s _ (created handle params path suspended e) h =
    insert_new-Values ℕ_discrete IsConsistent handle _ s.infos
      (new_compilation-IsConsistent params path suspended) h
Step-Values s _ (moved handle c c' e m) h =
    assign-Values ℕ_discrete IsConsistent handle c' s.infos
      (Move-IsConsistent c c' m (lookup-Values ℕ_discrete IsConsistent handle c s.infos h e)) h
Step-Values s _ (terminated handle code) h = elim (terminate_process-infos handle code s) [
  | inl e ↦ subst (Values ℕ_discrete IsConsistent) (sym e) h
  | inr (c, (known, e)) ↦ subst (Values ℕ_discrete IsConsistent) (sym e) (
      assign-Values ℕ_discrete IsConsistent handle (terminate code c) s.infos
        (terminate-IsConsistent code c
          (lookup-Values ℕ_discrete IsConsistent handle c s.infos h known))
        h)
]
Step-Values s _ (closed handle) h = elim (close_handle-infos handle s) [
  | inl e ↦ subst (Values ℕ_discrete IsConsistent) (sym e) h
  | inr e ↦
      subst (Values ℕ_discrete IsConsistent) (sym e)
        (erase-Values ℕ_discrete IsConsistent handle s.infos h)
]
Step-Values s _ (switched active) h = h

-- In every state that the threads reach, each compilation that is known is consistent: its event is
-- set only after it is completed, and when it is completed the event is set or a thread is about to
-- set it.
pub Reach-IsConsistent :
    (s : Hooks) (handle : ℕ) (c : Compilation)
    → Reach s
    → lookup ℕ_discrete handle s.infos ≡ some c
    → IsConsistent c
Reach-IsConsistent s handle c r e =
    lookup-Values ℕ_discrete IsConsistent handle c s.infos (all_consistent s r) e
  where
    all_consistent : (s : Hooks) → Reach s → Values ℕ_discrete IsConsistent s.infos
    all_consistent _ (initially active) = tt
    all_consistent t (next {s} r step) = Step-Values s t step (all_consistent s r)
