-- ===== src/HookProcess/Compilation/Progress.antt =====
-- The steps to the end of a compilation of Extensions/Client/hookProcess.cpp.
use buildpal.Prelude.{true, ◌≡◌}
use buildpal.HookProcess.Compilation.{Compilation}
use buildpal.HookProcess.Compilation.Steps.{Move}

-- moves of one compilation: those of its worker, and those of calls of `TerminateProcess` that have
-- completed it and are about to set the event
pub data Moves : Compilation → Compilation → Type 0 where
  stay : {c : Compilation} → Moves c c
  go : {c d e : Compilation} → Move c d → Moves d e → Moves c e

-- moves to a compilation whose event is set
Settles : Compilation → Type 0
Settles c = (d : Compilation) × (Moves c d × (d.signalled ≡ true))
