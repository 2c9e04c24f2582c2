-- ===== src/Common/Memory.antt =====
-- What Extensions/Common/dllInject.cpp uses of another process: blocks of its memory, and the
-- registers of its main thread. `AllocProcessMemory` is a block with the number of bytes written.
pub mod Bytes
pub mod Blocks
use buildpal.Prelude.{
  ℕ, zero, suc, ◌+◌, ◌-◌, ◌*◌, ◌/◌, ◌%◌, ◌^◌, ◌≤◌, ◌<◌, ◌≡◌, refl, ap, sym, ◌∙◌, ◌⊎◌, inl, inr,
  Bool, true, false, Option, none, some, List, [], ◌∷◌, ◌++◌, length, All, arith, ltb, ◌==◌,
  if◌then◌else◌,
}

-- the memory behind `WriteProcessMemory`
unfoldable pub store : (ℕ → ℕ) → ℕ → List ℕ → ℕ → ℕ
store m a [] x = m x
store m a (b ∷ bytes) x = if x == a then b else store m (a + 1) bytes x

-- two blocks have no byte in common
abbrev pub Apart : ℕ × ℕ → ℕ × ℕ → Type 0
Apart (a, n) (b, k) = (a + n ≤ b) ⊎ (b + k ≤ a)

-- `VirtualAllocEx` gives a block that has nothing in common with those that there are, and leaves
-- the other memory alone; `WriteProcessMemory` says whether it has written all bytes.
pub record ProcessApi : Type 1 where
  pub Process : Type 0
  pub memory : Process → ℕ → ℕ
  pub blocks : Process → List (ℕ × ℕ)
  pub registers : Process → ℕ × ℕ
  pub virtual_alloc_ex : Process → ℕ → Option (ℕ × Process)
  pub virtual_free_ex : Process → ℕ → ℕ → Process
  pub write_process_memory : Process → ℕ → List ℕ → Process × Bool
  pub set_thread_context : Process → ℕ → ℕ → Process
  pub alloc_fresh :
      (p : Process) (n a : ℕ) (q : Process)
      → virtual_alloc_ex p n ≡ some (a, q)
      → All (Apart (a, n)) (blocks p) × (blocks q ≡ (a, n) ∷ blocks p) × (registers q ≡ registers p)
  pub alloc_frame :
      (p : Process) (n a : ℕ) (q : Process) (x : ℕ)
      → virtual_alloc_ex p n ≡ some (a, q)
      → (x < a) ⊎ (a + n ≤ x)
      → memory q x ≡ memory p x
  pub write_stores :
      (p : Process) (a : ℕ) (bytes : List ℕ) (x : ℕ)
      → (write_process_memory p a bytes).1 ≡ true
      → memory (write_process_memory p a bytes).0 x ≡ store (memory p) a bytes x
  pub write_keeps :
      (p : Process) (a : ℕ) (bytes : List ℕ)
      → (blocks (write_process_memory p a bytes).0 ≡ blocks p)
        × (registers (write_process_memory p a bytes).0 ≡ registers p)
  pub set_context :
      (p : Process) (f d x : ℕ)
      → (registers (set_thread_context p f d) ≡ (f, d))
        × (blocks (set_thread_context p f d) ≡ blocks p)
        × (memory (set_thread_context p f d) x ≡ memory p x)
  pub free_keeps : (p : Process) (a n : ℕ) → registers (virtual_free_ex p a n) ≡ registers p

-- code that may return early, or throw
abbrev pub M : Type 0 → Type 0 → Type 0
M S A = S → S × Option A

infixl 5 ◌>>=◌ ◌>>◌
abbrev pub ◌>>=◌ : {S A B : Type 0} → M S A → (A → M S B) → M S B
◌>>=◌ m f s = let (t, r) = m s in elim r [ none ↦ (t, none) | some a ↦ f a t ]

abbrev pub ◌>>◌ : {S B : Type 0} → M S (Unit {0}) → M S B → M S B
m >> k = m >>= λ _. k

abbrev pub pure : {S A : Type 0} → A → M S A
pure a s = (s, some a)

pub record AllocProcessMemory : Type 0 where
  pub mem : ℕ
  pub len : ℕ
  pub offset : ℕ

module _ (os : ProcessApi) where
  open os use {Process, virtual_alloc_ex, virtual_free_ex, write_process_memory}

  -- the constructor, which throws `std::bad_alloc`
  unfoldable pub alloc_process_memory : ℕ → M Process AllocProcessMemory
  alloc_process_memory len p = elim (virtual_alloc_ex p len) [
    | none ↦ (p, none)
    | some (a, q) ↦ (q, some (record { mem = a; len = len; offset = 0 }))
  ]

  -- `DWORD` sums; the result is the address of what is written
  unfoldable pub write : AllocProcessMemory → List ℕ → M Process (AllocProcessMemory × ℕ)
  write b bytes p =
      let offset = (b.offset + length bytes) % 2 ^ 32 in
      if ltb b.len offset
      then (p, none)
      else let (q, written) = write_process_memory p (b.mem + b.offset) bytes in
        if written
        then (q, some (record b { offset = offset }, b.mem + offset - length bytes))
        else (q, none)

  unfoldable pub skip : AllocProcessMemory → ℕ → AllocProcessMemory × Bool
  skip b len =
      let offset = (b.offset + len) % 2 ^ 32 in
      if ltb b.len offset then (b, false) else (record b { offset = offset }, true)

  -- the destructor of a block that has not been released runs where its scope is left early
  unfoldable pub owned : {A : Type 0} → AllocProcessMemory → M Process A → M Process A
  owned b m p =
      let (q, r) = m p in
      elim r [ none ↦ (virtual_free_ex q b.mem b.len, none) | some a ↦ (q, some a) ]
