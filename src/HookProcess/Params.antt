-- ===== src/HookProcess/Params.antt =====
-- `CreateProcessParams` of Extensions/Client/hookProcess.cpp: the arguments of the call that started
-- a compiler, kept for the time at which the compilation falls back to the compiler itself.
use buildpal.Prelude.{
  ℕ, ◌^◌, ◌-◌, Bool, false, ◌||◌, not, ◌≡◌, Option, none, some, List, ◌==◌, if◌then◌else◌, arith,
}
use buildpal.HookProcess.Compilers.{
  set_bit, clear_bit, has_bit, create_suspended, create_unicode_environment,
  extended_startupinfo_present,
}

pub record CreateProcessParams : Type 0 where
  pub application_name : Option (List ℕ)
  pub command_line : Option (List ℕ)
  pub creation_flags : ℕ
  pub current_directory : Option (List ℕ)
  pub startup_flags : ℕ
  pub std_output : ℕ
  pub std_error : ℕ

abbrev pub startf_usestdhandles : ℕ
startf_usestdhandles = 0x100

abbrev pub invalid_handle_value : ℕ
invalid_handle_value = 2 ^ 64 - 1

abbrev pub std_output_handle : ℕ
std_output_handle = 2 ^ 32 - 11

abbrev pub std_error_handle : ℕ
std_error_handle = 2 ^ 32 - 12

-- `GetCurrentDirectoryW`, `GetStdHandle` and `DuplicateHandle`
module _ (process_directory : List ℕ) (get_std_handle duplicate : ℕ → ℕ) where
  -- one of the two handles of the output
  unfoldable pub keep_handle : Bool → ℕ → ℕ → ℕ
  keep_handle hook_handles std handle =
      if not hook_handles || (handle == invalid_handle_value)
      then duplicate (get_std_handle std)
      else duplicate handle

  unfoldable pub post_process_args : CreateProcessParams → CreateProcessParams
  unfolding keep_handle set_bit clear_bit has_bit
  post_process_args p =
      let hook_handles = has_bit startf_usestdhandles p.startup_flags in
      record p {
        creation_flags =
            clear_bit create_unicode_environment (
              clear_bit create_suspended (clear_bit extended_startupinfo_present p.creation_flags));
        current_directory = elim p.current_directory [
          | none ↦ some process_directory
          | some d ↦ some d
        ];
        startup_flags = set_bit startf_usestdhandles p.startup_flags;
        std_output = keep_handle hook_handles std_output_handle p.std_output;
        std_error = keep_handle hook_handles std_error_handle p.std_error;
      }

  -- The kept creation flags have none of the three flags that the fallback must not repeat.
  pub post_process_args-creation_flags :
      (p : CreateProcessParams)
      → (has_bit create_suspended (post_process_args p).creation_flags ≡ false)
        × ((has_bit create_unicode_environment (post_process_args p).creation_flags ≡ false)
            × (has_bit extended_startupinfo_present (post_process_args p).creation_flags ≡ false))
  unfolding post_process_args clear_bit has_bit
  post_process_args-creation_flags p = ground arith
