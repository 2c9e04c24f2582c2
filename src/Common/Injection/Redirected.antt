-- ===== src/Common/Injection/Redirected.antt =====
-- The parameters and the registers behind `injectLibrary` (Extensions/Common/dllInject.cpp).
use buildpal.Prelude.{
  ℕ, ◌+◌, ◌*◌, ◌%◌, ◌^◌, ◌≤◌, ◌<◌, ◌≡◌, ap₂, subst, ◌∙◌, inl, inr, some, List, [], ◌∷◌, ◌++◌,
  length, arith,
}
use buildpal.Common.Memory.{ProcessApi}
use buildpal.Common.Memory.Bytes.{Holds, Holds-same}
use buildpal.Common.Memory.Blocks.{IsWorking, Returns, returns, bind, mono}
use buildpal.Common.Injection.{
  InjectArgs, Prepared, module_to_load, loader_code, ptr_size, init_done, prepare, redirect, inject,
}
use buildpal.Common.Injection.Pointers.{Pointers, Filled, write_pointers-Filled}
use buildpal.Common.Injection.Layout.{Laid, total, prepare-Laid}

pub ptr_size-cases : (r : InjectArgs) → ptr_size r ≤ 8
unfolding ptr_size
ptr_size-cases r = ground arith

-- the six pointers of `RunDllParams`, with the registers that there were
abbrev pub parameters : InjectArgs → ℕ × ℕ → Prepared → List ℕ
parameters r regs t = t.dll_name ∷ t.dll_init ∷ r.init_args ∷ regs.0 ∷ regs.1 ∷ init_done r ∷ []

-- what is in the process `q` when its thread is resumed; `p` is the process before
pub record IsInjected (os : ProcessApi) (r : InjectArgs) (module_text : List ℕ) (p : os.Process)
    (t : Prepared) (q : os.Process) : Type 0 where
  pub name_held : Holds (os.memory q) t.dll_name module_text
  pub init_held : Holds (os.memory q) t.dll_init (r.init_func ++ (0 ∷ []))
  pub code_held : Holds (os.memory q) t.func_data (loader_code r)
  pub pointers : Pointers (ptr_size r) (os.memory q) t.params.mem (parameters r (os.registers p) t)
  pub init_at : t.dll_init ≡ t.dll_name + length module_text
  pub code_at : t.func_data ≡ t.dll_init + length (r.init_func ++ (0 ∷ []))
  pub regs : os.registers q ≡ (t.func_data, t.params.mem)
  pub low : (t.func_data < 2 ^ 32) × (t.params.mem < 2 ^ 32)

module _ (os : ProcessApi) (r : InjectArgs) (module_text : List ℕ) (w : IsWorking os) where
  open os use {Process, memory, blocks, registers, set_thread_context}

  redirect-IsInjected :
      (p0 p : Process) (t : Prepared)
      → Laid os w r module_text p0 t p
      → Returns (λ _ q. IsInjected os r module_text p0 t q) (redirect os r t p)
  unfolding redirect
  redirect-IsInjected p0 p t h =
      let f = t.func_data % 2 ^ 32 in
      let d = t.params.mem % 2 ^ 32 in
      let exact : ◌≡◌ {A = ℕ × ℕ} (f, d) (t.func_data, t.params.mem) =
        ap₂ (λ (x y : ℕ). let pair : ℕ × ℕ = (x, y) in pair) (omega (arith, h.low.0))
          (omega (arith, h.low.1)) in
      let size = ptr_size-cases r in
      let o = h.offset in
      let l = h.len in
      let (regs, known, same) = os.set_context p f d 0 in
      let keeps =
        λ (q : Process) (a : ℕ) (kept : List ℕ)
            (g : Filled os (ptr_size r) t.params (parameters r (os.registers p) t)
              (set_thread_context p f d) q)
            (lo : t.dll_name ≤ a)
            (hi : a + length kept
              ≤ t.dll_name
                + (length module_text + length (r.init_func ++ (0 ∷ [])) + length (loader_code r)))
            (held : Holds (memory p) a kept).
          Holds-same (memory p) (memory q) a kept
            (λ x from to. elim h.apart [
              | inl before ↦ g.above x (omega arith) ∙ (os.set_context p f d x).2
              | inr behind ↦ g.below x (omega arith) ∙ (os.set_context p f d x).2
            ])
            held in
      mono
        (write_pointers-Filled os w 0 (ptr_size r) t.params (parameters r (os.registers p) t)
          (set_thread_context p f d) (w.redirects p f d 0 h.room) (omega arith) (omega arith))
        (λ _ q g. record {
          name_held = keeps q t.dll_name module_text g (omega arith) (omega arith) h.name_held;
          init_held =
              keeps q t.dll_init (r.init_func ++ (0 ∷ [])) g (omega (arith, h.init_at))
                (omega (arith, h.init_at)) h.init_held;
          code_held =
              keeps q t.func_data (loader_code r) g (omega (arith, h.init_at, h.code_at))
                (omega (arith, h.init_at, h.code_at)) h.code_held;
          pointers =
              subst (λ regs. Pointers (ptr_size r) (memory q) t.params.mem (parameters r regs t))
                h.regs
                (subst (λ a. Pointers (ptr_size r) (memory q) a (parameters r (os.registers p) t))
                  (omega (arith, h.offset)) g.filled);
          init_at = h.init_at;
          code_at = h.code_at;
          regs = g.regs ∙ regs ∙ exact;
          low = h.low;
        })

  -- the whole of it, up to the call of ResumeThread
  pub inject-IsInjected :
      (p : Process)
      → module_to_load r ≡ some module_text
      → total r module_text < 2 ^ 32
      → w.Room (total r module_text + 6 * ptr_size r) p
      → Returns (λ t q. IsInjected os r module_text p t q) (inject os r p)
  unfolding inject
  inject-IsInjected p found small room =
      rw (found, inject)
        (bind (prepare os r module_text) _ p (prepare-Laid os r module_text w p small room)
          (λ t q h. bind (redirect os r t) _ q (redirect-IsInjected p q t h) (λ _ u g. returns g)))
