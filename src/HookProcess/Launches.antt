-- ===== src/HookProcess/Launches.antt =====
-- What `createProcessA` and `createProcessW` of Extensions/Client/hookProcess.cpp do with a program.
use buildpal.Prelude.{
  ℕ, Bool, true, not, ◌≡◌, Option, none, some, List, [], ◌∷◌, arith, ite, Option-cases, inl, inr,
}
use buildpal.Prelude.Assoc.{lookup, lookup-insert_new}
use buildpal.HookProcess.Compilers.{
  FileStatus, status_discrete, CompilerDescription, FileMap, set_bit, has_bit, create_suspended,
  short_circuit, replaced, original, register_file, file_status, is_compiler, launch_compiler,
  create_process,
}

set_bit-has_bit : (flags : ℕ) → has_bit create_suspended (set_bit create_suspended flags) ≡ true
unfolding has_bit set_bit
set_bit-has_bit flags = ground arith

module _ (unique_id : List ℕ → Option FileStatus) (first_argument : List ℕ → List ℕ)
    (search_path : List ℕ → Option (List ℕ)) where
  -- the file that Windows runs: that of the application name, or else what it finds for the first
  -- word of the command line
  abbrev pub program : Option (List ℕ) → List ℕ → Option (List ℕ)
  program (some app_name) cmd = some app_name
  program none cmd = search_path (first_argument cmd)

  -- A program that is the file of a registered compiler, under this or another path, whether the
  -- application name or the command line tells it, is short circuited if the compiler has no
  -- replacement, and else replaced; provided that no compiler with the same file was registered
  -- before. A program that is another file is launched as if the compiler had not been registered,
  -- and one that is not found is started itself, suspended, and resumed unless the caller wants it
  -- suspended.
  pub create_process-register_file :
      (files : FileMap) (path replacement : List ℕ) (app_name : Option (List ℕ)) (cmd : List ℕ)
      (flags : ℕ) (status : FileStatus)
      → unique_id path ≡ some status
      → lookup status_discrete status files ≡ none
      → create_process unique_id first_argument search_path
          (register_file unique_id files path replacement)
          app_name
          cmd
          flags
        ≡ elim (program app_name cmd) [
          | none ↦ original (set_bit create_suspended flags) (not (has_bit create_suspended flags))
          | some file ↦ elim (unique_id file) [
            | none ↦
                original (set_bit create_suspended flags) (not (has_bit create_suspended flags))
            | some id ↦
                ite
                  (status_discrete id status)
                  (elim replacement [
                    | [] ↦ short_circuit path (has_bit create_suspended flags)
                    | c ∷ cs ↦ replaced (c ∷ cs) flags
                  ])
                  (create_process unique_id first_argument search_path files app_name cmd flags)
          ]
        ]
  unfolding create_process register_file is_compiler file_status launch_compiler
  create_process-register_file files path replacement none cmd flags status e absent =
      let desc : CompilerDescription = record { compiler_path = path; replacement = replacement } in
      elim (Option-cases (search_path (first_argument cmd))) [
        | inl gone ↦ ground (arith, e, gone)
        | inr (file, found) ↦ elim (Option-cases (unique_id file)) [
          | inl gone ↦ ground (arith, e, found, gone)
          | inr (id, known) ↦ ground (
            arith,
            e,
            found,
            known,
            absent,
            lookup-insert_new status_discrete status id desc files,
          )
        ]
      ]
  create_process-register_file files path replacement (some file) cmd flags status e absent =
      let desc : CompilerDescription = record { compiler_path = path; replacement = replacement } in
      elim (Option-cases (unique_id file)) [
        | inl gone ↦ ground (arith, e, gone)
        | inr (id, known) ↦
            ground (arith, e, known, absent, lookup-insert_new status_discrete status id desc files)
      ]

  -- A program that is hooked starts suspended, and is resumed afterwards exactly if the caller did
  -- not ask for a suspended start.
  pub create_process-original :
      (files : FileMap) (app_name : Option (List ℕ)) (cmd : List ℕ) (flags started : ℕ)
      (resume : Bool)
      → create_process unique_id first_argument search_path files app_name cmd flags
        ≡ original started resume
      → (has_bit create_suspended started ≡ true) × (resume ≡ not (has_bit create_suspended flags))
  unfolding create_process launch_compiler
  create_process-original files app_name cmd flags started resume e =
      elim (Option-cases (is_compiler unique_id first_argument search_path files app_name cmd)) [
        | inr (desc, known) ↦ absurd (ground (arith, e, known))
        | inl absent ↦ (ground (arith, e, absent, set_bit-has_bit flags), ground (arith, e, absent))
      ]
