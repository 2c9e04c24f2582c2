-- ===== src/Common/Memory/Blocks.antt =====
-- What the calls of Extensions/Common/dllInject.cpp on another process do to its memory when they
-- succeed: total correctness of code that may return early.
use buildpal.Prelude.{
  ℕ, ◌+◌, ◌%◌, ◌^◌, ◌≤◌, ◌<◌, ◌≡◌, refl, ◌⊎◌, true, false, Option, none, some, List, ◌∷◌, length,
  All, arith, ltb,
}
use buildpal.Common.Memory.{
  ProcessApi, Apart, store, M, ◌>>=◌, AllocProcessMemory, alloc_process_memory, write, owned,
}

-- the code comes to its end, with this postcondition
pub data Returns {S A : Type 0} (P : A → S → Type 0) : S × Option A → Type 0 where
  returns : {a : A} {s : S} → P a s → Returns P (s, some a)

module _ {S A : Type 0} {P : A → S → Type 0} where
  pub bind :
      {B : Type 0} {Q : B → S → Type 0} (m : M S A) (f : A → M S B) (s : S)
      → Returns P (m s)
      → ((a : A) (t : S) → P a t → Returns Q (f a t))
      → Returns Q ((m >>= f) s)
  bind {B} {Q} m f s h next = bound (m s) h
    where
      bound :
          (r : S × Option A)
          → Returns P r
          → Returns Q (let (t, o) = r in elim o [ none ↦ (t, none) | some a ↦ f a t ])
      bound r (returns p) = next _ _ p

  pub mono :
      {Q : A → S → Type 0} {r : S × Option A}
      → Returns P r
      → ((a : A) (t : S) → P a t → Q a t)
      → Returns Q r
  mono (returns p) weaken = returns (weaken _ _ p)

  pub run : (r : S × Option A) → Returns P r → (a : A) × (r ≡ (r.0, some a)) × P a r.0
  run r (returns {a} p) = (a, refl, p)

-- `Room n p` says that the process has `n` bytes below 4 GB to give: they are given, in one block or
-- in several, and the writes succeed.
pub record IsWorking (os : ProcessApi) : Type 1 where
  pub Room : ℕ → os.Process → Type 0
  pub gives :
      (p : os.Process) (n m : ℕ)
      → Room (n + m) p
      → (a : ℕ) × (q : os.Process) × (os.virtual_alloc_ex p n ≡ some (a, q))
        × (a + n < 2 ^ 32)
        × Room m q
  pub writes :
      (p : os.Process) (a : ℕ) (bytes : List ℕ) (m : ℕ)
      → Room m p
      → ((os.write_process_memory p a bytes).1 ≡ true)
        × Room m (os.write_process_memory p a bytes).0
  pub redirects : (p : os.Process) (f d m : ℕ) → Room m p → Room m (os.set_thread_context p f d)

module _ (os : ProcessApi) (w : IsWorking os) (m : ℕ) where
  open os use {Process, memory, blocks, registers, write_process_memory}

  pub record Given (n : ℕ) (p : Process) (b : AllocProcessMemory) (q : Process) : Type 0 where
    pub len : b.len ≡ n
    pub offset : b.offset ≡ 0
    pub low : b.mem + n < 2 ^ 32
    pub apart : All (Apart (b.mem, n)) (blocks p)
    pub known : blocks q ≡ (b.mem, n) ∷ blocks p
    pub regs : registers q ≡ registers p
    pub room : w.Room m q
    pub frame : (x : ℕ) → (x < b.mem) ⊎ (b.mem + n ≤ x) → memory q x ≡ memory p x

  pub alloc-Given :
      (n : ℕ) (p : Process) → w.Room (n + m) p → Returns (Given n p) (alloc_process_memory os n p)
  unfolding alloc_process_memory
  alloc-Given n p given =
      let (a, q, e, low, room) = w.gives p n m given in
      let (apart, known, regs) = os.alloc_fresh p n a q e in
      rw (e, alloc_process_memory)
        (returns (record {
          len = refl;
          offset = refl;
          low = low;
          apart = apart;
          known = known;
          regs = regs;
          room = room;
          frame = λ x out. os.alloc_frame p n a q x e out;
        }))

  pub record Written (b : AllocProcessMemory) (bytes : List ℕ) (p : Process)
      (r : AllocProcessMemory × ℕ) (q : Process) : Type 0 where
    pub block : r.0 ≡ record b { offset = b.offset + length bytes }
    pub at : r.1 ≡ b.mem + b.offset
    pub stored : (x : ℕ) → memory q x ≡ store (memory p) (b.mem + b.offset) bytes x
    pub known : blocks q ≡ blocks p
    pub regs : registers q ≡ registers p
    pub room : w.Room m q

  pub write-Written :
      (b : AllocProcessMemory) (bytes : List ℕ) (p : Process)
      → w.Room m p
      → b.offset + length bytes ≤ b.len
      → b.len < 2 ^ 32
      → Returns (Written b bytes p) (write os b bytes p)
  unfolding write
  write-Written b bytes p given fits small =
      let (ok, room) = w.writes p (b.mem + b.offset) bytes m given in
      let exact : (b.offset + length bytes) % 2 ^ 32 ≡ b.offset + length bytes = omega arith in
      let inside : ltb b.len (b.offset + length bytes) ≡ false = ground arith in
      let (known, regs) = os.write_keeps p (b.mem + b.offset) bytes in
      rw (exact, inside, ok)
        (returns (record {
          block = refl;
          at = omega arith;
          stored = λ x. os.write_stores p (b.mem + b.offset) bytes x ok;
          known = known;
          regs = regs;
          room = room;
        }))

module _ (os : ProcessApi) where
  open os use {Process}

  pub owned-Returns :
      {A : Type 0} {P : A → Process → Type 0} (b : AllocProcessMemory) (m : M Process A)
      (p : Process)
      → Returns P (m p)
      → Returns P (owned os b m p)
  unfolding owned
  owned-Returns {A} {P} b m p h = kept (m p) h
    where
      kept :
          (r : Process × Option A)
          → Returns P r
          → Returns P (
              let (q, o) = r in
              elim o [ none ↦ (os.virtual_free_ex q b.mem b.len, none) | some a ↦ (q, some a) ])
      kept r (returns h) = returns h
