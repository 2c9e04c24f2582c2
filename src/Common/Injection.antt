-- ===== src/Common/Injection.antt =====
-- `injectLibrary` of Extensions/Common/dllInject.cpp: the choice of the library's file, the loader's
-- code and its parameters in the other process, and what follows behind them. The loaders
-- (loader32.inc and loader64.inc) are built from loader.cpp and stand in `InjectArgs`, as does what
-- Windows says of the two processes.
pub mod Pointers
pub mod Layout
pub mod Redirected
pub mod Runs
pub mod Keeps
pub mod Failures
use buildpal.Prelude.{
  ℕ, zero, suc, ◌+◌, ◌-◌, ◌*◌, ◌/◌, ◌%◌, ◌^◌, Bool, true, false, ◌||◌, not, Option, none, some,
  List, [], ◌∷◌, ◌++◌, length, take, drop, ◌==◌, if◌then◌else◌,
}
use buildpal.Common.Memory.{
  ProcessApi, M, ◌>>=◌, ◌>>◌, pure, AllocProcessMemory, alloc_process_memory, write, owned,
}

-- `win64` is `_WIN64`; `module_file` is the path that GetModuleFileName gives, if the library is
-- loaded here; `init_done_event` is zero if the event cannot be made; `local_init` is the result of
-- `localInitFunc`, if there is one.
pub record InjectArgs : Type 0 where
  pub win64 : Bool
  pub has_wow64 : Bool
  pub current_wow64 : Bool
  pub target_wow64 : Bool
  pub module_file : Option (List ℕ)
  pub dll_name_32 : List ℕ
  pub dll_name_64 : List ℕ
  pub load32 : List ℕ
  pub load64 : List ℕ
  pub init_func : List ℕ
  pub init_args : ℕ
  pub init_done_event : ℕ
  pub init_done_copy : ℕ
  pub local_init : Option ℕ
  pub resume_after_initialization : Bool

-- `targetProcessIs64Bit`
unfoldable pub target_is_64_bit : InjectArgs → Bool
target_is_64_bit r =
    if r.has_wow64
    then (if r.win64 || r.current_wow64 then not r.target_wow64 else false)
    else false

-- `std::strcpy( buffer + at, text )`
unfoldable pub strcpy : List ℕ → ℕ → List ℕ → List ℕ
strcpy buffer at text = take at buffer ++ (text ++ (0 ∷ drop (at + length text + 1) buffer))

-- the `moduleNameSize + 1` bytes that are written, or `return false`; `module_file` ends with the
-- library's name, so the subtraction does not stop at 0
unfoldable pub module_to_load : InjectArgs → Option (List ℕ)
unfolding target_is_64_bit strcpy
module_to_load r = elim r.module_file [
  | none ↦ none
  | some file ↦
      let text = file ++ (0 ∷ []) in
      if r.win64
      then (if target_is_64_bit r
          then some text
          else some (
              take (length file + 1)
                (strcpy text (length file - length r.dll_name_64) r.dll_name_32)))
      else (if target_is_64_bit r then none else some text)
]

unfoldable pub loader_code : InjectArgs → List ℕ
unfolding target_is_64_bit
loader_code r = if target_is_64_bit r then r.load64 else r.load32

unfoldable pub ptr_size : InjectArgs → ℕ
unfolding target_is_64_bit
ptr_size r = if target_is_64_bit r then 8 else 4

-- `initDoneCopy`, NULL without an event
unfoldable pub init_done : InjectArgs → ℕ
init_done r = if r.resume_after_initialization then 0 else r.init_done_copy

-- the first bytes of a pointer in memory
unfoldable pub le_bytes : ℕ → ℕ → List ℕ
le_bytes zero v = []
le_bytes (suc n) v = v % 256 ∷ le_bytes n (v / 256)

-- what is in the block with the code, and the block for the parameters
pub record Prepared : Type 0 where
  pub dll_name : ℕ
  pub dll_init : ℕ
  pub func_data : ℕ
  pub params : AllocProcessMemory

pub data Action : Type 0 where
  resume_thread : Action
  local_init_func : Action
  wait_for_event : Action
  suspend_thread : Action
  set_event : Action
  close_event : Action

-- behind the parameters: what is done, and the result
unfoldable pub resume_main_thread : InjectArgs → List Action × Bool
resume_main_thread r =
    let has_event = if r.resume_after_initialization then false else not (r.init_done_event == 0) in
    let first : List Action = elim r.local_init [ none ↦ [] | some _ ↦ local_init_func ∷ [] ] in
    let last : List Action =
      if has_event then wait_for_event ∷ suspend_thread ∷ set_event ∷ close_event ∷ [] else [] in
    (resume_thread ∷ (first ++ last), elim r.local_init [ none ↦ true | some status ↦ status == 0 ])

module _ (os : ProcessApi) where
  open os use {Process}

  -- `FAIL_IF_NOT( params.write( &pointer, size ) )` for each of them
  unfoldable pub write_pointers : ℕ → AllocProcessMemory → List ℕ → M Process (Unit {0})
  write_pointers size b [] = pure tt
  write_pointers size b (v ∷ vs) = do
    (b, at) ← write os b (le_bytes size v)
    write_pointers size b vs

module _ (os : ProcessApi) (r : InjectArgs) where
  open os use {Process, registers, set_thread_context}

  -- the last write to the block with the code, and the block for the parameters
  unfoldable pub write_code : ℕ → ℕ → AllocProcessMemory → M Process Prepared
  unfolding loader_code ptr_size
  write_code dll_name dll_init block = do
    (block, func_data) ← write os block (loader_code r)
    params ← alloc_process_memory os (6 * ptr_size r)
    pure (record {
      dll_name = dll_name;
      dll_init = dll_init;
      func_data = func_data;
      params = params;
    })

  unfoldable pub write_init : ℕ → AllocProcessMemory → M Process Prepared
  unfolding write_code
  write_init dll_name block = do
    (block, dll_init) ← write os block (r.init_func ++ (0 ∷ []))
    write_code dll_name dll_init block

  unfoldable pub write_texts : List ℕ → AllocProcessMemory → M Process Prepared
  unfolding write_init
  write_texts module_text block = do
    (block, dll_name) ← write os block module_text
    write_init dll_name block

  -- the block with the code is freed if its writes, or the second allocation, fail
  unfoldable pub prepare : List ℕ → M Process Prepared
  unfolding write_texts
  prepare module_text = do
    block ←
        alloc_process_memory os
          ((length module_text + (length r.init_func + 1) + length (loader_code r)) % 2 ^ 32)
    owned os block (write_texts module_text block)

  -- the registers first, then the parameters
  unfoldable pub redirect : Prepared → M Process (Unit {0})
  unfolding init_done ptr_size
  redirect t p =
      let (chain_func, chain_params) = registers p in
      write_pointers os (ptr_size r) t.params
        (t.dll_name ∷ t.dll_init ∷ r.init_args ∷ chain_func ∷ chain_params ∷ init_done r ∷ [])
        (set_thread_context p (t.func_data % 2 ^ 32) (t.params.mem % 2 ^ 32))

  -- up to the call of ResumeThread; `none` is `return false`
  unfoldable pub inject : M Process Prepared
  inject p = elim (module_to_load r) [
    | none ↦ (p, none)
    | some module_text ↦ (do t ← prepare module_text; redirect t; pure t) p
  ]

  -- the process as it is left, what is done to its thread, and the result
  unfoldable pub inject_library : Process → Process × List Action × Bool
  inject_library p =
      let (q, t) = inject p in
      elim t [
        | none ↦ (q, [], false)
        | some _ ↦ (q, (resume_main_thread r).0, (resume_main_thread r).1)
      ]
