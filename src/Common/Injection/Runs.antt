-- ===== src/Common/Injection/Runs.antt =====
-- What the loader (Extensions/Common/Loader/loader.cpp) does in a process behind `injectLibrary`
-- (Extensions/Common/dllInject.cpp).
use buildpal.Prelude.{
  ℕ, ◌+◌, ◌*◌, ◌^◌, ◌<◌, ◌≡◌, refl, ap, sym, subst, ◌∙◌, ◌⊎◌, inl, inr, true, some, List, [], ◌∷◌,
  length, arith,
}
use buildpal.Common.Memory.{ProcessApi}
use buildpal.Common.Memory.Blocks.{IsWorking, run}
use buildpal.Common.Injection.{
  InjectArgs, Prepared, module_to_load, ptr_size, init_done, resume_main_thread, inject,
  inject_library,
}
use buildpal.Common.Injection.Pointers.{Fits, Pointers, read-le_bytes}
use buildpal.Common.Injection.Layout.{total}
use buildpal.Common.Injection.Redirected.{IsInjected, inject-IsInjected}
use buildpal.Common.Loader.{
  RunDllParams, Functions, Module, Call, run_dll_params, walk_modules, run_dll,
}

ptr_size-options : (r : InjectArgs) → (ptr_size r ≡ 4) ⊎ (ptr_size r ≡ 8)
unfolding ptr_size
ptr_size-options r = ground arith

Fits-lt : (r : InjectArgs) (v : ℕ) → v < 2 ^ 32 → Fits (ptr_size r) v
Fits-lt r v h = elim (ptr_size-options r) [
  | inl e ↦ subst (λ n. Fits n v) (sym e) (omega arith)
  | inr e ↦ subst (λ n. Fits n v) (sym e) (omega arith)
]

-- the loader reads the pointers as its parameters
params-Pointers :
    (n : ℕ) (m : ℕ → ℕ) (a : ℕ) (v0 v1 v2 v3 v4 v5 : ℕ)
    → Fits n v0
    → Fits n v1
    → Fits n v2
    → Fits n v3
    → Fits n v4
    → Fits n v5
    → Pointers n m a (v0 ∷ v1 ∷ v2 ∷ v3 ∷ v4 ∷ v5 ∷ [])
    → run_dll_params n m a ≡ record {
      dll_path = v0;
      init_func = v1;
      init_args = v2;
      chain_func = v3;
      chain_args = v4;
      init_done = v5;
    }
unfolding run_dll_params
params-Pointers n m a v0 v1 v2 v3 v4 v5 f0 f1 f2 f3 f4 f5 (h0, (h1, (h2, (h3, (h4, (h5, _)))))) =
    let e0 = read-le_bytes n v0 m a f0 h0 in
    let e1 = read-le_bytes n v1 m (a + n) f1 h1 in
    let e2 = read-le_bytes n v2 m (a + n + n) f2 h2 in
    let e3 = read-le_bytes n v3 m (a + n + n + n) f3 h3 in
    let e4 = read-le_bytes n v4 m (a + n + n + n + n) f4 h4 in
    let e5 = read-le_bytes n v5 m (a + n + n + n + n + n) f5 h5 in ground arith

-- The functions that the loader finds and calls succeed: the library is loaded, has the function,
-- and the function returns 0.
pub record Cooperates (fs : Functions) (load get : ℕ) (modules : List Module) : Type 0 where
  pub walked : walk_modules true modules ≡ record { load_library = load; get_proc_address = get }
  pub has_load : 0 < load
  pub has_get : 0 < get
  pub loads : (path : ℕ) → 0 < fs.load load path
  pub gets : (m name : ℕ) → 0 < fs.find_proc get m name
  pub inits : (f args done : ℕ) → fs.init f args done ≡ 0

run_dll-Cooperates :
    (fs : Functions) (load get : ℕ) (modules : List Module) (p : RunDllParams)
    → Cooperates fs load get modules
    → 0 < p.init_func
    → 0 < p.chain_func
    → run_dll fs modules p ≡ (
      Call.load_library load p.dll_path
          ∷ Call.get_proc_address get (fs.load load p.dll_path) p.init_func
          ∷ Call.init_func
              (fs.find_proc get (fs.load load p.dll_path) p.init_func)
              p.init_args
              p.init_done
          ∷ Call.chain_func p.chain_func p.chain_args
          ∷ [],
      fs.chain p.chain_func p.chain_args,
    )
unfolding run_dll
run_dll-Cooperates fs load get modules p c hi hc =
    let mydll = fs.load load p.dll_path in
    let found = fs.find_proc get mydll p.init_func in
    ground (
      arith,
      c.walked,
      c.has_load,
      c.has_get,
      c.loads p.dll_path,
      c.gets mydll p.init_func,
      c.inits found p.init_args p.init_done,
    )

-- Where Windows has memory below 4 GB for the two blocks and writes what it is told, a target gets the library's
-- path, the function's name, the loader's code and its parameters, and the registers of its thread
-- lead to the code with the parameters; the thread is resumed, and the loader, as it reads those
-- parameters, loads the library, calls the function with the arguments and the event, and goes on
-- to what the registers said before. The loader is supposed to find its functions in the target,
-- and they to succeed; all pointers that are handed over are below 4 GB.
pub inject_library-run_dll :
    (os : ProcessApi) (r : InjectArgs) (module_text : List ℕ) (p : os.Process) (fs : Functions)
    (load get : ℕ) (modules : List Module) (w : IsWorking os)
    → w.Room (total r module_text + 6 * ptr_size r) p
    → module_to_load r ≡ some module_text
    → 0 < length module_text
    → total r module_text < 2 ^ 32
    → r.init_args < 2 ^ 32
    → init_done r < 2 ^ 32
    → (os.registers p).0 < 2 ^ 32
    → (os.registers p).1 < 2 ^ 32
    → 0 < (os.registers p).0
    → Cooperates fs load get modules
    → (t : Prepared) × (q : os.Process) × (inject_library os r p
        ≡ (q, (resume_main_thread r).0, (resume_main_thread r).1))
      × IsInjected os r module_text p t q
      × (run_dll fs modules (run_dll_params (ptr_size r) (os.memory q) (os.registers q).1) ≡ (
        Call.load_library load t.dll_name
            ∷ Call.get_proc_address get (fs.load load t.dll_name) t.dll_init
            ∷ Call.init_func
                (fs.find_proc get (fs.load load t.dll_name) t.dll_init)
                r.init_args
                (init_done r)
            ∷ Call.chain_func (os.registers p).0 (os.registers p).1
            ∷ [],
        fs.chain (os.registers p).0 (os.registers p).1,
      ))
unfolding inject_library
inject_library-run_dll os r module_text p fs load get modules w room found filled small ha hd h0 h1
      chained c =
    let (t, e, g) = run (inject os r p) (inject-IsInjected os r module_text w p found small room) in
    let q = (inject os r p).0 in
    let read =
      params-Pointers (ptr_size r) (os.memory q) t.params.mem t.dll_name t.dll_init r.init_args
        (os.registers p).0 (os.registers p).1 (init_done r)
        (Fits-lt r t.dll_name (omega (arith, g.low.0, g.init_at, g.code_at)))
        (Fits-lt r t.dll_init (omega (arith, g.low.0, g.code_at))) (Fits-lt r r.init_args ha)
        (Fits-lt r (os.registers p).0 h0) (Fits-lt r (os.registers p).1 h1)
        (Fits-lt r (init_done r) hd) g.pointers in
    let at : (os.registers q).1 ≡ t.params.mem = ap (λ (x : ℕ × ℕ). x.1) g.regs in
    (
      t,
      q,
      rw (e, inject_library) refl,
      g,
      ap (λ a. run_dll fs modules (run_dll_params (ptr_size r) (os.memory q) a)) at
          ∙ ap (run_dll fs modules) read
          ∙ run_dll-Cooperates fs load get modules _ c (omega (arith, g.init_at)) chained,
    )
