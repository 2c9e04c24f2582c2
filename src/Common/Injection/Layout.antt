-- ===== src/Common/Injection/Layout.antt =====
-- The block with the loader's code, and the registers, behind `injectLibrary`
-- (Extensions/Common/dllInject.cpp).
use buildpal.Prelude.{
  ℕ, ◌+◌, ◌*◌, ◌%◌, ◌^◌, ◌≤◌, ◌<◌, ◌≡◌, ap, sym, subst, ◌∙◌, inl, inr, List, [], ◌∷◌, ◌++◌, length,
  length-append, All, arith,
}
use buildpal.Common.Memory.{
  ProcessApi, Apart, AllocProcessMemory, alloc_process_memory, write, owned,
}
use buildpal.Common.Memory.Bytes.{Holds, Holds-same, Holds-store, Holds-store_apart}
use buildpal.Common.Memory.Blocks.{
  IsWorking, Returns, returns, bind, Given, alloc-Given, Written, write-Written, owned-Returns,
}
use buildpal.Common.Injection.{
  InjectArgs, Prepared, loader_code, ptr_size, write_code, write_init, write_texts, prepare,
}

-- the bytes of the block with the loader's code
abbrev pub total : InjectArgs → List ℕ → ℕ
total r module_text = length module_text + (length r.init_func + 1) + length (loader_code r)

-- the three texts stand one behind the other, and the block for the parameters is elsewhere
pub record Laid (os : ProcessApi) (w : IsWorking os) (r : InjectArgs) (module_text : List ℕ)
    (p : os.Process) (t : Prepared) (q : os.Process) : Type 0 where
  pub name_held : Holds (os.memory q) t.dll_name module_text
  pub init_held : Holds (os.memory q) t.dll_init (r.init_func ++ (0 ∷ []))
  pub code_held : Holds (os.memory q) t.func_data (loader_code r)
  pub init_at : t.dll_init ≡ t.dll_name + length module_text
  pub code_at : t.func_data ≡ t.dll_init + length (r.init_func ++ (0 ∷ []))
  pub apart :
      Apart
        (t.params.mem, 6 * ptr_size r)
        (t.dll_name, length module_text + length (r.init_func ++ (0 ∷ [])) + length (loader_code r))
  pub low : (t.func_data < 2 ^ 32) × (t.params.mem < 2 ^ 32)
  pub offset : t.params.offset ≡ 0
  pub len : t.params.len ≡ 6 * ptr_size r
  pub room : w.Room 0 q
  pub regs : os.registers q ≡ os.registers p

module _ (os : ProcessApi) (w : IsWorking os) (m : ℕ) where
  open os use {Process, memory}

  -- a write behind the bytes leaves them alone
  Holds-Written :
      (b : AllocProcessMemory) (bytes : List ℕ) (p q : Process) (r : AllocProcessMemory × ℕ) (a : ℕ)
      (kept : List ℕ)
      → Written os w m b bytes p r q
      → a + length kept ≤ b.mem + b.offset
      → Holds (memory p) a kept
      → Holds (memory q) a kept
  Holds-Written b bytes p q r a kept h before held =
      Holds-same _ (memory q) a kept (λ x lo hi. h.stored x)
        (Holds-store_apart (memory p) a kept (b.mem + b.offset) bytes (inl before) held)

  Written-Holds :
      (b : AllocProcessMemory) (bytes : List ℕ) (p q : Process) (r : AllocProcessMemory × ℕ)
      → Written os w m b bytes p r q
      → Holds (memory q) r.1 bytes
  Written-Holds b bytes p q r h =
      subst (λ a. Holds (memory q) a bytes) (sym h.at)
        (Holds-same _ (memory q) (b.mem + b.offset) bytes (λ x lo hi. h.stored x)
          (Holds-store (memory p) (b.mem + b.offset) bytes))

  -- a new block elsewhere leaves the bytes alone
  Holds-Given :
      (n : ℕ) (p q : Process) (b : AllocProcessMemory) (a : ℕ) (kept : List ℕ) (c k : ℕ)
      → Given os w m n p b q
      → Apart (b.mem, n) (c, k)
      → c ≤ a
      → a + length kept ≤ c + k
      → Holds (memory p) a kept
      → Holds (memory q) a kept
  Holds-Given n p q b a kept c k h apart lo hi held =
      Holds-same (memory p) (memory q) a kept
        (λ x from to. elim apart [
          | inl before ↦ h.frame x (inr (omega arith))
          | inr behind ↦ h.frame x (inl (omega arith))
        ])
        held

  -- the block `b` after a write to it
  moved :
      (b : AllocProcessMemory) (bytes : List ℕ) (p q : Process) (r : AllocProcessMemory × ℕ)
      → Written os w m b bytes p r q
      → (r.0.mem ≡ b.mem) × (r.0.len ≡ b.len) × (r.0.offset ≡ b.offset + length bytes)
  moved b bytes p q r h = (
    ap (λ (b : AllocProcessMemory). b.mem) h.block,
    ap (λ (b : AllocProcessMemory). b.len) h.block,
    ap (λ (b : AllocProcessMemory). b.offset) h.block,
  )

module _ (os : ProcessApi) (r : InjectArgs) (module_text : List ℕ) (w : IsWorking os) where
  open os use {Process, memory, blocks, registers}

  abbrev text : List ℕ
  text = r.init_func ++ (0 ∷ [])

  length-text : length text ≡ length r.init_func + 1
  length-text = omega (arith, length-append r.init_func (0 ∷ []))

  assemble :
      (p q0 q1 q2 q3 q4 : Process) (b b4 : AllocProcessMemory) (r1 r2 r3 : AllocProcessMemory × ℕ)
      → Given os w (6 * ptr_size r) (total r module_text % 2 ^ 32) p b q0
      → Written os w (6 * ptr_size r) b module_text q0 r1 q1
      → Written os w (6 * ptr_size r) r1.0 text q1 r2 q2
      → Written os w (6 * ptr_size r) r2.0 (loader_code r) q2 r3 q3
      → Given os w 0 (6 * ptr_size r) q3 b4 q4
      → total r module_text < 2 ^ 32
      → Laid os w r module_text p
          (record { dll_name = r1.1; dll_init = r2.1; func_data = r3.1; params = b4 })
          q4
  assemble p q0 q1 q2 q3 q4 b b4 r1 r2 r3 h0 h1 h2 h3 h4 small =
      let exact : total r module_text % 2 ^ 32 ≡ total r module_text = omega arith in
      let lt = length-text in
      let (m1, l1, o1) = moved os w (6 * ptr_size r) b module_text q0 q1 r1 h1 in
      let (m2, l2, o2) = moved os w (6 * ptr_size r) r1.0 text q1 q2 r2 h2 in
      let at1 : r1.1 ≡ b.mem = omega (arith, h1.at, h0.offset) in
      let at2 : r2.1 ≡ b.mem + length module_text = omega (arith, h2.at, h0.offset) in
      let at3 : r3.1 ≡ b.mem + length module_text + length text = omega (arith, h3.at, h0.offset) in
      let known : blocks q3 ≡ (b.mem, total r module_text % 2 ^ 32) ∷ blocks p =
        h3.known ∙ h2.known ∙ h1.known ∙ h0.known in
      let all : All (Apart (b4.mem, 6 * ptr_size r))
          ((b.mem, total r module_text % 2 ^ 32) ∷ blocks p) =
        subst (All (Apart (b4.mem, 6 * ptr_size r))) known h4.apart in
      let apart : Apart (b4.mem, 6 * ptr_size r) (b.mem, total r module_text % 2 ^ 32) = all.0 in
      let keep = Holds-Given os w 0 (6 * ptr_size r) q3 q4 b4 in
      record {
        name_held =
            keep r1.1 module_text b.mem (total r module_text % 2 ^ 32) h4 apart (omega arith)
              (omega arith)
              (Holds-Written os w (6 * ptr_size r) r2.0 (loader_code r) q2 q3 r3 r1.1 module_text h3
                (omega arith)
                (Holds-Written os w (6 * ptr_size r) r1.0 text q1 q2 r2 r1.1 module_text h2
                  (omega arith) (Written-Holds os w (6 * ptr_size r) b module_text q0 q1 r1 h1)));
        init_held =
            keep r2.1 text b.mem (total r module_text % 2 ^ 32) h4 apart (omega arith) (omega arith)
              (Holds-Written os w (6 * ptr_size r) r2.0 (loader_code r) q2 q3 r3 r2.1 text h3
                (omega arith) (Written-Holds os w (6 * ptr_size r) r1.0 text q1 q2 r2 h2));
        code_held =
            keep r3.1 (loader_code r) b.mem (total r module_text % 2 ^ 32) h4 apart (omega arith)
              (omega arith) (Written-Holds os w (6 * ptr_size r) r2.0 (loader_code r) q2 q3 r3 h3);
        init_at = omega arith;
        code_at = omega arith;
        apart = elim apart [ inl before ↦ inl (omega arith) | inr behind ↦ inr (omega arith) ];
        low = (omega (arith, h0.low), omega (arith, h4.low));
        offset = h4.offset;
        room = h4.room;
        len = h4.len;
        regs = h4.regs ∙ h3.regs ∙ h2.regs ∙ h1.regs ∙ h0.regs;
      }

  pub prepare-Laid :
      (p : Process)
      → total r module_text < 2 ^ 32
      → w.Room (total r module_text + 6 * ptr_size r) p
      → Returns (Laid os w r module_text p) (prepare os r module_text p)
  unfolding prepare write_texts write_init write_code
  prepare-Laid p small room =
      let exact : total r module_text % 2 ^ 32 ≡ total r module_text = omega arith in
      let lt = length-text in
      bind (alloc_process_memory os (total r module_text % 2 ^ 32))
        (λ b. owned os b (write_texts os r module_text b)) p
        (alloc-Given os w (6 * ptr_size r) (total r module_text % 2 ^ 32) p
          (subst (λ n. w.Room (n + 6 * ptr_size r) p) (sym exact) room))
        (λ b q0 h0.
          let l0 = h0.len in
          let o0 = h0.offset in
          owned-Returns os b (write_texts os r module_text b) q0 (
            bind (write os b module_text) (λ (b1, a1). write_init os r a1 b1) q0
              (write-Written os w (6 * ptr_size r) b module_text q0 h0.room (omega arith)
                (omega arith))
              (λ (b1, a1) q1 h1.
                let (m1, l1, o1) = moved os w (6 * ptr_size r) b module_text q0 q1 (b1, a1) h1 in
                bind (write os b1 text) (λ (b2, a2). write_code os r a1 a2 b2) q1
                  (write-Written os w (6 * ptr_size r) b1 text q1 h1.room (omega arith)
                    (omega arith))
                  (λ (b2, a2) q2 h2.
                    let (m2, l2, o2) = moved os w (6 * ptr_size r) b1 text q1 q2 (b2, a2) h2 in
                    bind (write os b2 (loader_code r)) _ q2
                      (write-Written os w (6 * ptr_size r) b2 (loader_code r) q2 h2.room
                        (omega arith) (omega arith))
                      (λ (b3, a3) q3 h3.
                        bind (alloc_process_memory os (6 * ptr_size r)) _ q3
                          (alloc-Given os w 0 (6 * ptr_size r) q3
                            (subst (λ n. w.Room n q3) (omega arith) h3.room))
                          (λ b4 q4 h4. returns (
                            assemble p q0 q1 q2 q3 q4 b b4 (b1, a1) (b2, a2) (b3, a3) h0 h1 h2 h3 h4
                              small)))))))
