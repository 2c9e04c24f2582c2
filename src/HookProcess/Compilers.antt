-- ===== src/HookProcess/Compilers.antt =====
-- The compilers that are known, and what `createProcessA` and `createProcessW` of
-- Extensions/Client/hookProcess.cpp make of a command. The wide and the narrow variants differ in
-- the conversion of the texts.
use buildpal.Prelude.{
  ℕ, ◌+◌, ◌-◌, ◌/◌, ◌%◌, Bool, Option, none, some, List, [], ◌∷◌, ◌==◌, not, if◌then◌else◌,
  ℕ_discrete,
}
use buildpal.Prelude.Assoc.{Assoc, lookup, insert_new}

-- `llvm::sys::fs::UniqueID`
abbrev pub FileStatus : Type 0
FileStatus = ℕ × ℕ

unfoldable pub status_discrete : Discrete FileStatus
unfolding ℕ_discrete
status_discrete = hlevel ℕ_discrete

pub record CompilerDescription : Type 0 where
  pub compiler_path : List ℕ
  pub replacement : List ℕ

abbrev pub FileMap : Type 0
FileMap = Assoc FileStatus CompilerDescription

-- `flags | bit` and `flags & ~bit`, for a `bit` that is a power of two
unfoldable pub set_bit : ℕ → ℕ → ℕ
set_bit bit flags = if flags / bit % 2 == 1 then flags else flags + bit

unfoldable pub clear_bit : ℕ → ℕ → ℕ
clear_bit bit flags = if flags / bit % 2 == 1 then flags - bit else flags

unfoldable pub has_bit : ℕ → ℕ → Bool
has_bit bit flags = flags / bit % 2 == 1

abbrev pub create_suspended : ℕ
create_suspended = 0x4

abbrev pub create_unicode_environment : ℕ
create_unicode_environment = 0x400

abbrev pub extended_startupinfo_present : ℕ
extended_startupinfo_present = 0x80000

-- what becomes of a call: a distributed compilation, whose worker starts suspended or not; a call
-- of the original function for the replacement; or one for the program itself, which is hooked if
-- it starts, and resumed afterwards or not
pub data Launch : Type 0 where
  short_circuit : List ℕ → Bool → Launch
  replaced : List ℕ → ℕ → Launch
  original : ℕ → Bool → Launch

-- `unique_id` is `llvm::sys::fs::getUniqueID`
module _ (unique_id : List ℕ → Option FileStatus) where
  -- `CompilerExecutables::registerFile`: a file that is known keeps its description
  unfoldable pub register_file : FileMap → List ℕ → List ℕ → FileMap
  register_file files compiler_path replacement = elim (unique_id compiler_path) [
    | none ↦ files
    | some status ↦
        insert_new status_discrete status
          (record { compiler_path = compiler_path; replacement = replacement }) files
  ]

-- `first_argument` is that of `CommandLineToArgvW`; `search_path` is `SearchPathW` for a program with
-- the extension `.exe`
module _ (unique_id : List ℕ → Option FileStatus) (first_argument : List ℕ → List ℕ)
    (search_path : List ℕ → Option (List ℕ)) where
  -- the file that is about to run
  unfoldable pub file_status : Option (List ℕ) → List ℕ → Option FileStatus
  file_status (some app_name) cmd = unique_id app_name
  file_status none cmd = elim (search_path (first_argument cmd)) [
    | none ↦ none
    | some executable ↦ unique_id executable
  ]

  unfoldable pub is_compiler : FileMap → Option (List ℕ) → List ℕ → Option CompilerDescription
  unfolding file_status
  is_compiler files app_name cmd = elim (file_status app_name cmd) [
    | none ↦ none
    | some status ↦ lookup status_discrete status files
  ]

  -- `compilerDesc->replacement.empty()`
  unfoldable pub launch_compiler : CompilerDescription → ℕ → Launch
  unfolding has_bit
  launch_compiler desc flags = elim desc.replacement [
    | [] ↦ short_circuit desc.compiler_path (has_bit create_suspended flags)
    | c ∷ cs ↦ replaced (c ∷ cs) flags
  ]

  unfoldable pub create_process : FileMap → Option (List ℕ) → List ℕ → ℕ → Launch
  unfolding is_compiler launch_compiler set_bit has_bit
  create_process files app_name cmd flags = elim (is_compiler files app_name cmd) [
    | some desc ↦ launch_compiler desc flags
    | none ↦ original (set_bit create_suspended flags) (not (has_bit create_suspended flags))
  ]
