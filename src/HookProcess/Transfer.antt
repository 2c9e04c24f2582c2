-- ===== src/HookProcess/Transfer.antt =====
-- `hookProcess` and `Initialize` of Extensions/Client/hookProcess.cpp: a process hands the known
-- compilers and the name of the manager's port over to a process that it has started, through a
-- pipe. `ReadFile` on the pipe takes up to 1024 of the bytes in it.
pub mod Loop
pub mod Rounds
use buildpal.Prelude.{
  ℕ, zero, suc, Bool, true, false, ◌||◌, ◌&&◌, not, Option, none, some, List, [], ◌∷◌, ◌++◌, take,
  drop, ◌==◌, if◌then◌else◌,
}
use buildpal.HookProcess.Compilers.{FileStatus, CompilerDescription, FileMap, register_file}

-- the bytes that `hookProcess` writes for the compilers
unfoldable pub file_bytes : FileMap → List ℕ
file_bytes [] = []
file_bytes ((status, desc) ∷ files) =
    desc.compiler_path ++ (0 ∷ (desc.replacement ++ (0 ∷ file_bytes files)))

-- everything that it writes
unfoldable pub hook_bytes : FileMap → List ℕ → List ℕ
unfolding file_bytes
hook_bytes files port_name = file_bytes files ++ (0 ∷ (port_name ++ 0 ∷ []))

-- what outlives a round of the loop of `Initialize`
pub record Reading : Type 0 where
  pub reading_port_name : Bool
  pub reading_replacement : Bool
  pub finished : Bool
  pub files : FileMap
  pub port_name : List ℕ

-- what a round has of its own; `segment` are the bytes from `last` on
pub record Round : Type 0 where
  pub remainder : List ℕ
  pub compiler_path : List ℕ
  pub segment : List ℕ

abbrev pub new_round : Round
new_round = record { remainder = []; compiler_path = []; segment = [] }

-- `Initialize` has read the port name, or reads on for ever: a read of an ended pipe is not noticed
pub data Outcome : Type 0 where
  initialized : FileMap → List ℕ → Outcome
  reads_on : Outcome

abbrev pub is_empty {ℓ} : {A : Type ℓ} → List A → Bool
is_empty [] = true
is_empty (x ∷ xs) = false

module _ (unique_id : List ℕ → Option FileStatus) where
  -- the text between two NULs
  unfoldable pub take_data : Reading → Round → List ℕ → Reading × Round
  take_data r l text =
      let l = record l { remainder = []; segment = [] } in
      if r.reading_port_name
      then (record r { finished = true; port_name = text }, l)
      else if r.reading_replacement
      then (
        record r {
          reading_replacement = false;
          files = register_file unique_id r.files l.compiler_path text;
        },
        l,
      )
      else (record r { reading_replacement = true }, record l { compiler_path = text })

  -- a NUL
  unfoldable pub at_nul : Reading → Round → Reading × Round
  unfolding take_data
  at_nul r l =
      if is_empty l.segment && (not r.reading_replacement && not r.reading_port_name)
      then (record r { reading_port_name = true }, l)
      else take_data r l (l.remainder ++ l.segment)

  -- the loop over the buffer
  unfoldable pub scan_buffer : List ℕ → Reading → Round → Reading
  unfolding at_nul
  scan_buffer [] r l = r
  scan_buffer (c ∷ cs) r l =
      let (r, l) = if c == 0 then at_nul r l else (r, record l { segment = l.segment ++ c ∷ [] }) in
      scan_buffer cs r l

  -- `while ( !done )`
  unfoldable pub initialize_loop : ℕ → List ℕ → Reading → Outcome
  unfolding scan_buffer
  initialize_loop zero pipe r = reads_on
  initialize_loop (suc fuel) pipe r = elim r.finished [
    | true ↦ initialized r.files r.port_name
    | false ↦ initialize_loop fuel (drop 1024 pipe) (scan_buffer (take 1024 pipe) r new_round)
  ]
