-- ===== src/Common/Injection/Failures.antt =====
-- `injectLibrary` (Extensions/Common/dllInject.cpp) where it gives up, and the file that it injects.
use buildpal.Prelude.{
  ℕ, ◌+◌, ◌-◌, ◌*◌, ◌%◌, ◌^◌, ◌≡◌, refl, ap, ◌∙◌, inl, inr, true, false, Option, none, some,
  Option-cases, List, [], ◌∷◌, ◌++◌, length, length-append, take, drop, take-length, take_short,
  drop_short, append_assoc, arith,
}
use buildpal.Common.Memory.{
  ProcessApi, M, ◌>>=◌, ◌>>◌, pure, AllocProcessMemory, alloc_process_memory, write, owned,
}
use buildpal.Common.Injection.{
  InjectArgs, Prepared, target_is_64_bit, strcpy, module_to_load, loader_code, ptr_size, init_done,
  write_pointers, write_code, write_init, write_texts, prepare, redirect, inject, inject_library,
}
use buildpal.Common.Injection.Keeps.{
  bind-none, bind-some, Keeps, bind-Keeps, alloc-Keeps, write-Keeps, owned-Keeps,
  write_pointers-Keeps,
}

abbrev prepared : ℕ → ℕ → ℕ → AllocProcessMemory → Prepared
prepared dll_name dll_init func_data params = record {
  dll_name = dll_name;
  dll_init = dll_init;
  func_data = func_data;
  params = params;
}

module _ (os : ProcessApi) (r : InjectArgs) where
  open os use {Process, registers}

  prepare-Keeps : (module_text : List ℕ) → Keeps os (prepare os r module_text)
  unfolding prepare write_texts write_init write_code
  prepare-Keeps module_text =
      bind-Keeps os
        (alloc_process_memory os
          ((length module_text + (length r.init_func + 1) + length (loader_code r)) % 2 ^ 32))
        (λ b. owned os b (write_texts os r module_text b)) (alloc-Keeps os _)
        (λ b. owned-Keeps os b (write_texts os r module_text b) (
          bind-Keeps os (write os b module_text) (λ s. write_init os r s.1 s.0)
            (write-Keeps os b module_text)
            (λ s.
              bind-Keeps os (write os s.0 (r.init_func ++ (0 ∷ [])))
                (λ u. write_code os r s.1 u.1 u.0) (write-Keeps os s.0 (r.init_func ++ (0 ∷ [])))
                (λ u.
                  bind-Keeps os (write os u.0 (loader_code r))
                    (λ v. alloc_process_memory os (6 * ptr_size r) >>= λ params.
                      pure (prepared s.1 u.1 v.1 params))
                    (write-Keeps os u.0 (loader_code r))
                    (λ v.
                      bind-Keeps os (alloc_process_memory os (6 * ptr_size r))
                        (λ params. pure (prepared s.1 u.1 v.1 params)) (alloc-Keeps os _)
                        (λ b p. refl))))))

  -- behind the choice of the file
  inject_text : List ℕ → M Process Prepared
  inject_text module_text = do t ← prepare os r module_text; redirect os r t; pure t

  inject-text :
      (p : Process) (module_text : List ℕ)
      → module_to_load r ≡ some module_text
      → inject os r p ≡ inject_text module_text p
  unfolding inject inject_text
  inject-text p module_text found = rw (found, inject)

  redirect-registers :
      (t : Prepared) (p : Process)
      → registers ((redirect os r t >> pure t) p).0 ≡ (t.func_data % 2 ^ 32, t.params.mem % 2 ^ 32)
  unfolding redirect
  redirect-registers t p =
      let q = os.set_thread_context p (t.func_data % 2 ^ 32) (t.params.mem % 2 ^ 32) in
      bind-Keeps os
        (write_pointers os (ptr_size r) t.params (
          t.dll_name
          ∷ t.dll_init
          ∷ r.init_args
          ∷ (registers p).0
          ∷ (registers p).1
          ∷ init_done r
          ∷ []))
        (λ _. pure t) (write_pointers-Keeps os (ptr_size r) t.params _) (λ a s. refl) q
      ∙ (os.set_context p (t.func_data % 2 ^ 32) (t.params.mem % 2 ^ 32) 0).0

  inject_text-registers :
      (p : Process) (module_text : List ℕ)
      → registers (inject_text module_text p).0 ≡ elim (prepare os r module_text p).1 [
        | none ↦ registers p
        | some t ↦ (t.func_data % 2 ^ 32, t.params.mem % 2 ^ 32)
      ]
  unfolding inject_text
  inject_text-registers p module_text = elim (Option-cases (prepare os r module_text p).1) [
    | inl e ↦ rw e (
        ap (λ (s : Process × Option Prepared). registers s.0)
          (bind-none (prepare os r module_text) (λ t. redirect os r t >> pure t) p e)
        ∙ prepare-Keeps module_text p)
    | inr (t, e) ↦ rw e (
        ap (λ (s : Process × Option Prepared). registers s.0)
          (bind-some (prepare os r module_text) (λ t. redirect os r t >> pure t) p e)
        ∙ redirect-registers t (prepare os r module_text p).0)
  ]

  -- Where `injectLibrary` has a library's file for the target and gives up, nothing is resumed and
  -- the result is false. The registers of the thread are those that there were if memory could not
  -- be had or the texts not be written; if it is the parameters that cannot be written, they lead
  -- to the loader all the same.
  pub inject_library-fails :
      (p : Process) (module_text : List ℕ)
      → module_to_load r ≡ some module_text
      → (inject os r p).1 ≡ none
      → (inject_library os r p ≡ ((inject os r p).0, [], false))
        × (registers (inject os r p).0 ≡ elim (prepare os r module_text p).1 [
          | none ↦ registers p
          | some t ↦ (t.func_data % 2 ^ 32, t.params.mem % 2 ^ 32)
        ])
  unfolding inject_library redirect
  inject_library-fails p module_text found failed =
      let start = inject-text p module_text found in
      (
        ground arith,
        ap (λ (s : Process × Option Prepared). registers s.0) start
            ∙ inject_text-registers p module_text,
      )

-- A 64-bit process injects into a 32-bit one the other library of the directory of its own, if the
-- two names are equally long.
pub module_to_load-dir :
    (r : InjectArgs) (dir : List ℕ)
    → r.win64 ≡ true
    → r.has_wow64 ≡ true
    → r.target_wow64 ≡ true
    → r.module_file ≡ some (dir ++ r.dll_name_64)
    → length r.dll_name_32 ≡ length r.dll_name_64
    → module_to_load r ≡ some (dir ++ (r.dll_name_32 ++ (0 ∷ [])))
unfolding module_to_load target_is_64_bit strcpy
module_to_load-dir r dir win wow target file same =
    let n : length (dir ++ r.dll_name_64) ≡ length dir + length r.dll_name_64 =
      length-append dir r.dll_name_64 in
    let at : length (dir ++ r.dll_name_64) - length r.dll_name_64 ≡ length dir = omega arith in
    let kept : take (length dir) ((dir ++ r.dll_name_64) ++ (0 ∷ [])) ≡ dir =
      ap (take (length dir)) (append_assoc dir r.dll_name_64 (0 ∷ []))
      ∙ take-length dir (r.dll_name_64 ++ (0 ∷ [])) in
    let rest : drop (length dir + length r.dll_name_32 + 1) ((dir ++ r.dll_name_64) ++ (0 ∷ []))
        ≡ [] =
      drop_short (length dir + length r.dll_name_32 + 1) ((dir ++ r.dll_name_64) ++ (0 ∷ []))
        (omega (arith, length-append (dir ++ r.dll_name_64) (0 ∷ []))) in
    let all : take (length (dir ++ r.dll_name_64) + 1) (dir ++ (r.dll_name_32 ++ (0 ∷ [])))
        ≡ dir ++ (r.dll_name_32 ++ (0 ∷ [])) =
      take_short (length (dir ++ r.dll_name_64) + 1) (dir ++ (r.dll_name_32 ++ (0 ∷ []))) (
        omega (
          arith,
          length-append dir (r.dll_name_32 ++ (0 ∷ [])),
          length-append r.dll_name_32 (0 ∷ []),
        )) in
    ground (arith, at, kept, rest, all)
