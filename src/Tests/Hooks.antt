-- ===== src/Tests/Hooks.antt =====
-- Processes that are hooked by Extensions/Client/hookProcess.cpp.
use buildpal.Prelude.{
  ℕ, zero, suc, ◌≡◌, refl, Option, none, some, List, [], ◌∷◌, ◌++◌, length, ite, arith, units,
  text_discrete,
}
use buildpal.Prelude.Assoc.{lookup}
use buildpal.HookProcess.Compilers.{
  FileStatus, status_discrete, FileMap, short_circuit, has_bit, create_suspended, register_file,
  create_process,
}
use buildpal.HookProcess.Launches.{create_process-register_file}
use buildpal.HookProcess.Transfer.{file_bytes, hook_bytes, initialized, initialize_loop}
use buildpal.HookProcess.Transfer.Loop.{IsText, FitsCompiler, start}
use buildpal.HookProcess.Transfer.Rounds.{IsRegistered, initialize-hook_bytes, initialize-cut}

-- a file system with one compiler, which has two paths
abbrev unique_ids : List ℕ → Option FileStatus
unique_ids path =
    ite (text_discrete path (units "cl")) (some (1, 7))
      (ite (text_discrete path (units "CL")) (some (1, 7)) none)

abbrev compilers : FileMap
compilers = ((1, 7), record { compiler_path = units "cl"; replacement = [] }) ∷ []

cl-FitsCompiler : FitsCompiler ((1, 7), record { compiler_path = units "cl"; replacement = [] })
cl-FitsCompiler = record { path = ground arith; named = omega arith; replacement = tt }

cl-IsRegistered :
    IsRegistered unique_ids ((1, 7), record { compiler_path = units "cl"; replacement = [] })
cl-IsRegistered = record { known = unfold text_discrete in refl }

initialize-hook_bytes_example :
    initialize_loop unique_ids 2 (hook_bytes compilers (units "port")) (start [] (units "default"))
    ≡ initialized compilers (units "port")
initialize-hook_bytes_example =
    initialize-hook_bytes unique_ids compilers (units "port") (units "default") 0
      (cl-FitsCompiler, tt) (cl-IsRegistered, tt) (unfold lookup in refl, tt) (ground arith)
      (unfold hook_bytes in omega arith)

-- a long name
unfoldable letters : ℕ → List ℕ
letters zero = []
letters (suc n) = 97 ∷ letters n

letters-IsText : (n : ℕ) → IsText (letters n)
unfolding letters
letters-IsText zero = tt
letters-IsText (suc n) = (ground arith, letters-IsText n)

length-letters : (n : ℕ) → length (letters n) ≡ n
unfolding letters
length-letters zero = refl
length-letters (suc n) = omega (arith, length-letters n)

initialize-cut_example :
    initialize_loop unique_ids 3
      (hook_bytes compilers (letters 1019 ++ units "port"))
      (start [] (units "default"))
    ≡ initialized compilers (units "port")
initialize-cut_example =
    initialize-cut unique_ids compilers (letters 1019) (units "port") (units "default") 0
      (cl-FitsCompiler, tt) (cl-IsRegistered, tt) (unfold lookup in refl, tt) (letters-IsText 1019)
      (ground arith) (unfold file_bytes in omega (arith, length-letters 1019)) (omega arith)

abbrev first_word : List ℕ → List ℕ
first_word cmd = cmd

abbrev in_path : List ℕ → Option (List ℕ)
in_path program = some program

create_process-register_file_example :
    create_process unique_ids first_word in_path
      (register_file unique_ids [] (units "cl") [])
      none
      (units "CL")
      4
    ≡ short_circuit (units "cl") (has_bit create_suspended 4)
unfolding text_discrete status_discrete
create_process-register_file_example =
    create_process-register_file unique_ids first_word in_path [] (units "cl") [] none (units "CL")
      4 (1, 7) refl (unfold lookup in refl)
