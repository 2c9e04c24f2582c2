-- ===== src/Common/Injection/Pointers.antt =====
-- The parameters that `injectLibrary` (Extensions/Common/dllInject.cpp) writes and the loader
-- (Extensions/Common/Loader/loader.cpp) reads.
use buildpal.Prelude.{
  ℕ, zero, suc, ◌+◌, ◌*◌, ◌/◌, ◌^◌, ◌≤◌, ◌<◌, ◌≡◌, refl, ap, sym, subst, ◌∙◌, List, [], ◌∷◌, length,
  arith,
}
use buildpal.Common.Memory.{ProcessApi, AllocProcessMemory, store, write}
use buildpal.Common.Memory.Bytes.{Holds, Holds-same, Holds-store, store_below, store_above}
use buildpal.Common.Memory.Blocks.{IsWorking, Returns, returns, bind, mono, write-Written}
use buildpal.Common.Injection.{le_bytes, write_pointers}
use buildpal.Common.Loader.{read_le}

-- the number fits into `n` bytes
abbrev pub Fits : ℕ → ℕ → Type 0
Fits zero v = v ≡ 0
Fits (suc n) v = Fits n (v / 256)

pub length-le_bytes : (n v : ℕ) → length (le_bytes n v) ≡ n
unfolding le_bytes
length-le_bytes zero v = refl
length-le_bytes (suc n) v = ap suc (length-le_bytes n (v / 256))

pub read-le_bytes :
    (n v : ℕ) (m : ℕ → ℕ) (a : ℕ) → Fits n v → Holds m a (le_bytes n v) → read_le n m a ≡ v
unfolding le_bytes read_le
read-le_bytes zero v m a fits h = sym fits
read-le_bytes (suc n) v m a fits h =
    omega (arith, h.0, read-le_bytes n (v / 256) m (a + 1) fits h.1)

-- the pointers stand at the address one behind the other
abbrev pub Pointers : ℕ → (ℕ → ℕ) → ℕ → List ℕ → Type 0
Pointers size m a [] = Unit
Pointers size m a (v ∷ vs) = Holds m a (le_bytes size v) × Pointers size m (a + size) vs

module _ (os : ProcessApi) where
  open os use {Process, memory, blocks, registers}

  -- only the block changes, behind the offset, and it holds the pointers there
  pub record Filled (size : ℕ) (b : AllocProcessMemory) (vs : List ℕ) (p q : Process) : Type 0 where
    pub filled : Pointers size (memory q) (b.mem + b.offset) vs
    pub below : (x : ℕ) → x < b.mem + b.offset → memory q x ≡ memory p x
    pub above : (x : ℕ) → b.mem + b.len ≤ x → memory q x ≡ memory p x
    pub regs : registers q ≡ registers p

  pub write_pointers-Filled :
      (w : IsWorking os) (m size : ℕ) (b : AllocProcessMemory) (vs : List ℕ) (p : Process)
      → w.Room m p
      → b.offset + length vs * size ≤ b.len
      → b.len < 2 ^ 32
      → Returns (λ _ q. Filled size b vs p q) (write_pointers os size b vs p)
  unfolding write_pointers
  write_pointers-Filled w m size b [] p given fits small =
      returns (record { filled = tt; below = λ x h. refl; above = λ x h. refl; regs = refl })
  write_pointers-Filled w m size b (v ∷ vs) p given fits small =
      let n = length-le_bytes size v in
      let room : b.offset + size + length vs * size ≤ b.len = grind arith in
      bind (write os b (le_bytes size v)) _ p
        (write-Written os w m b (le_bytes size v) p given (omega (arith, n)) small)
        (λ (c, at) q h.
          let mem : c.mem ≡ b.mem = ap (λ (b : AllocProcessMemory). b.mem) h.block in
          let len : c.len ≡ b.len = ap (λ (b : AllocProcessMemory). b.len) h.block in
          let offset : c.offset ≡ b.offset + length (le_bytes size v) =
            ap (λ (b : AllocProcessMemory). b.offset) h.block in
          mono (write_pointers-Filled w m size c vs q h.room (omega (arith, n)) (omega arith))
            (λ _ t f. record {
              filled = (
                Holds-same (store (memory p) (b.mem + b.offset) (le_bytes size v)) (memory t)
                    (b.mem + b.offset) (le_bytes size v)
                    (λ x lo hi. f.below x (omega (arith, n)) ∙ h.stored x)
                    (Holds-store (memory p) (b.mem + b.offset) (le_bytes size v)),
                subst (λ a. Pointers size (memory t) a vs) (omega (arith, n)) f.filled,
              );
              below = λ x lt.
                  f.below x (omega (arith, n))
                  ∙ h.stored x
                  ∙ store_below (memory p) (b.mem + b.offset) (le_bytes size v) x lt;
              above = λ x ge.
                  f.above x (omega (arith, n))
                  ∙ h.stored x
                  ∙ store_above (memory p) (b.mem + b.offset) (le_bytes size v) x
                      (omega (arith, n));
              regs = f.regs ∙ h.regs;
            }))
