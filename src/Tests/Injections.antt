-- ===== src/Tests/Injections.antt =====
-- The theorems on the injection of a library, the loader and the table of hooks, at a process that
-- gives its memory away from one end, and tests of the definitions.
use buildpal.Prelude.{
  ℕ, ◌+◌, ◌%◌, ◌^◌, ◌≤◌, ◌<◌, ◌≡◌, refl, ap, sym, ◌∙◌, ◌==◌, if◌then◌else◌, Bool-cases, Bool, true,
  false, Option, none, some, List, [], ◌∷◌, ◌++◌, length, take, drop, All, arith, units, inl, inr,
}
use buildpal.Common.Memory.{
  ProcessApi, Apart, store, AllocProcessMemory, alloc_process_memory, owned, write, skip,
}
use buildpal.Common.Memory.Blocks.{IsWorking}
use buildpal.Common.Injection.{
  InjectArgs, Prepared, target_is_64_bit, module_to_load, loader_code, ptr_size, init_done,
  resume_main_thread, inject, inject_library, prepare, redirect, write_pointers, le_bytes,
}
use buildpal.Common.Injection.Redirected.{IsInjected}
use buildpal.Common.Injection.Runs.{Cooperates, inject_library-run_dll}
use buildpal.Common.Injection.Failures.{inject_library-fails}
use buildpal.Common.Loader.{Functions, Module, Call, run_dll_params, walk_modules, run_dll}

-- the sizes of the blocks, the last one first
record Process : Type 0 where
  memory : ℕ → ℕ
  sizes : List ℕ
  registers : ℕ × ℕ

abbrev top : List ℕ → ℕ
top [] = 4096
top (n ∷ ns) = n + top ns

abbrev blocks_of : List ℕ → List (ℕ × ℕ)
blocks_of [] = []
blocks_of (n ∷ ns) = (top ns, n) ∷ blocks_of ns

below_top : (ns : List ℕ) (a n : ℕ) → top ns ≤ a → All (Apart (a, n)) (blocks_of ns)
below_top [] a n h = tt
below_top (k ∷ ns) a n h = (inr (omega arith), below_top ns a n (omega arith))

abbrev given : Process → ℕ → Option (ℕ × Process)
given p n = some (top p.sizes, record p { sizes = n ∷ p.sizes })

given-at : (p : Process) (n a : ℕ) (q : Process) → given p n ≡ some (a, q) → top p.sizes ≡ a
given-at p n a q e = ground arith

given-left :
    (p : Process) (n a : ℕ) (q : Process)
    → given p n ≡ some (a, q)
    → record p { sizes = n ∷ p.sizes } ≡ q
given-left p n a q e = ground arith

fresh_block :
    (p : Process) (n a : ℕ) (q : Process)
    → given p n ≡ some (a, q)
    → All (Apart (a, n)) (blocks_of p.sizes)
      × (blocks_of q.sizes ≡ (a, n) ∷ blocks_of p.sizes)
      × (q.registers ≡ p.registers)
fresh_block p n a q e =
    let at = given-at p n a q e in
    let left = given-left p n a q e in
    (
      below_top p.sizes a n (omega arith),
      ap (λ (s : Process). blocks_of s.sizes) (sym left)
          ∙ ap (λ (b : ℕ). let block : ℕ × ℕ = (b, n) in block ∷ blocks_of p.sizes) at,
      ap (λ (s : Process). s.registers) (sym left),
    )

frame :
    (p : Process) (n a : ℕ) (q : Process) (x : ℕ)
    → given p n ≡ some (a, q)
    → q.memory x ≡ p.memory x
frame p n a q x e = ap (λ (s : Process). s.memory x) (sym (given-left p n a q e))

abbrev os : ProcessApi
os = record {
  Process = Process;
  memory = λ p. p.memory;
  blocks = λ p. blocks_of p.sizes;
  registers = λ p. p.registers;
  virtual_alloc_ex = given;
  virtual_free_ex = λ p a n. p;
  write_process_memory = λ p a bytes. (record p { memory = store p.memory a bytes }, true);
  set_thread_context = λ p f d. record p { registers = (f, d) };
  alloc_fresh = fresh_block;
  alloc_frame = λ p n a q x e out. frame p n a q x e;
  write_stores = λ p a bytes x e. refl;
  write_keeps = λ p a bytes. (refl, refl);
  set_context = λ p f d x. (refl, refl, refl);
  free_keeps = λ p a n. refl;
}

room_before : (t n m : ℕ) → t + (n + m) < 2 ^ 32 → t + n < 2 ^ 32
room_before t n m h = omega arith

room_behind : (t n m : ℕ) → t + (n + m) < 2 ^ 32 → n + t + m < 2 ^ 32
room_behind t n m h = omega arith

abbrev working : IsWorking os
working = record {
  Room = λ n p. top p.sizes + n < 2 ^ 32;
  gives = λ p n m room. (
    top p.sizes,
    record p { sizes = n ∷ p.sizes },
    refl,
    room_before (top p.sizes) n m room,
    room_behind (top p.sizes) n m room,
  );
  writes = λ p a bytes m room. (refl, room);
  redirects = λ p f d m room. room;
}

abbrev inject_args : InjectArgs
inject_args = record {
  win64 = true;
  has_wow64 = true;
  current_wow64 = false;
  target_wow64 = true;
  module_file = some (units "c:/bp/bp64.dll");
  dll_name_32 = units "bp32.dll";
  dll_name_64 = units "bp64.dll";
  load32 = 85 ∷ 139 ∷ 236 ∷ [];
  load64 = 72 ∷ [];
  init_func = units "Initialize";
  init_args = 64;
  init_done_event = 12;
  init_done_copy = 68;
  local_init = some 0;
  resume_after_initialization = false;
}

abbrev module_text : List ℕ
module_text = units "c:/bp/bp32.dll" ++ (0 ∷ [])

abbrev process : Process
process = record { memory = λ a. 0; sizes = []; registers = (4198400, 2088960) }

abbrev modules : List Module
modules =
    record { base_dll_name = units "ntdll.dll"; number_of_functions = 0; exports = [] }
    ∷ record {
      base_dll_name = units "KERNEL32.DLL";
      number_of_functions = 2;
      exports =
          record { name = units "GetProcAddress"; address = 700 }
          ∷ record { name = units "LoadLibraryA"; address = 800 }
          ∷ [];
    }
    ∷ []

abbrev functions : Functions
functions = record {
  load = λ f path. 5;
  find_proc = λ f m name. 6;
  init = λ f args done. 0;
  chain = λ f args. 3;
}

cooperates : Cooperates functions 800 700 modules
cooperates = record {
  walked = unfold walk_modules in refl;
  has_load = omega arith;
  has_get = omega arith;
  loads = λ path. omega arith;
  gets = λ m name. omega arith;
  inits = λ f args done. refl;
}

chosen : module_to_load inject_args ≡ some module_text
unfolding module_to_load take drop
chosen = refl

inject_library-run_dll_example :
    (t : Prepared) × (q : Process) × (inject_library os inject_args process
      ≡ (q, (resume_main_thread inject_args).0, (resume_main_thread inject_args).1))
    × IsInjected os inject_args module_text process t q
    × (run_dll functions modules (run_dll_params (ptr_size inject_args) q.memory q.registers.1) ≡ (
      Call.load_library 800 t.dll_name
          ∷ Call.get_proc_address 700 5 t.dll_init
          ∷ Call.init_func 6 64 (init_done inject_args)
          ∷ Call.chain_func 4198400 2088960
          ∷ [],
      3,
    ))
inject_library-run_dll_example =
    inject_library-run_dll os inject_args module_text process functions 800 700 modules working
      (unfold ptr_size target_is_64_bit loader_code in omega arith) chosen (omega arith)
      (unfold loader_code target_is_64_bit in omega arith) (omega arith)
      (unfold init_done in omega arith) (omega arith) (omega arith) (omega arith) cooperates

-- a process that takes no write of four bytes, such as a pointer
abbrev picky : Process → ℕ → List ℕ → Process × Bool
picky p a bytes =
    if length bytes == 4 then (p, false) else (record p { memory = store p.memory a bytes }, true)

picky-stores :
    (p : Process) (a : ℕ) (bytes : List ℕ) (x : ℕ)
    → (picky p a bytes).1 ≡ true
    → (picky p a bytes).0.memory x ≡ store p.memory a bytes x
picky-stores p a bytes x e = ground arith

picky-keeps :
    (p : Process) (a : ℕ) (bytes : List ℕ)
    → (blocks_of (picky p a bytes).0.sizes ≡ blocks_of p.sizes)
      × ((picky p a bytes).0.registers ≡ p.registers)
picky-keeps p a bytes = elim (Bool-cases (length bytes == 4)) [
  | inl e ↦ rw e (refl, refl)
  | inr e ↦ rw e (refl, refl)
]

abbrev picky_os : ProcessApi
picky_os = record {
  Process = Process;
  memory = λ p. p.memory;
  blocks = λ p. blocks_of p.sizes;
  registers = λ p. p.registers;
  virtual_alloc_ex = given;
  virtual_free_ex = λ p a n. p;
  write_process_memory = picky;
  set_thread_context = λ p f d. record p { registers = (f, d) };
  alloc_fresh = fresh_block;
  alloc_frame = λ p n a q x e out. frame p n a q x e;
  write_stores = picky-stores;
  write_keeps = picky-keeps;
  set_context = λ p f d x. (refl, refl, refl);
  free_keeps = λ p a n. refl;
}

unwritten : (inject picky_os inject_args process).1 ≡ none
unfolding inject module_to_load prepare redirect loader_code take drop write_pointers le_bytes
    alloc_process_memory owned write
unwritten = refl

inject_library-fails_example :
    (inject_library picky_os inject_args process
      ≡ ((inject picky_os inject_args process).0, [], false))
    × ((inject picky_os inject_args process).0.registers
        ≡ elim (prepare picky_os inject_args module_text process).1 [
          | none ↦ process.registers
          | some t ↦ (t.func_data % 2 ^ 32, t.params.mem % 2 ^ 32)
        ])
inject_library-fails_example =
    inject_library-fails picky_os inject_args process module_text chosen unwritten

abbrev block : AllocProcessMemory
block = record { mem = 4096; len = 8; offset = 6 }

-- what does not fit is neither skipped nor written
skip_full : skip os block 3 ≡ (block, false)
unfolding skip
skip_full = refl
