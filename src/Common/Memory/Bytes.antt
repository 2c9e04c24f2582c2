-- ===== src/Common/Memory/Bytes.antt =====
-- The bytes at an address, for Extensions/Common/dllInject.cpp.
use buildpal.Prelude.{ℕ, ◌+◌, ◌≤◌, ◌<◌, ◌≡◌, refl, ◌∙◌, ◌⊎◌, inl, inr, List, [], ◌∷◌, length, arith}
use buildpal.Common.Memory.{store}

-- the bytes stand at the address
abbrev pub Holds : (ℕ → ℕ) → ℕ → List ℕ → Type 0
Holds m a [] = Unit
Holds m a (b ∷ bytes) = (m a ≡ b) × Holds m (a + 1) bytes

pub store_below : (m : ℕ → ℕ) (a : ℕ) (bytes : List ℕ) (x : ℕ) → x < a → store m a bytes x ≡ m x
unfolding store
store_below m a [] x h = refl
store_below m a (b ∷ bytes) x h = ground (arith, store_below m (a + 1) bytes x)

pub store_above :
    (m : ℕ → ℕ) (a : ℕ) (bytes : List ℕ) (x : ℕ) → a + length bytes ≤ x → store m a bytes x ≡ m x
unfolding store
store_above m a [] x h = refl
store_above m a (b ∷ bytes) x h = ground (arith, store_above m (a + 1) bytes x)

-- memory that is the same there holds the same
pub Holds-same :
    (m n : ℕ → ℕ) (a : ℕ) (bytes : List ℕ)
    → ((x : ℕ) → a ≤ x → x < a + length bytes → n x ≡ m x)
    → Holds m a bytes
    → Holds n a bytes
Holds-same m n a [] same h = tt
Holds-same m n a (b ∷ bytes) same h = (
  same a (omega arith) (omega arith) ∙ h.0,
  Holds-same m n (a + 1) bytes (λ x lo hi. same x (omega arith) (omega arith)) h.1,
)

pub Holds-store : (m : ℕ → ℕ) (a : ℕ) (bytes : List ℕ) → Holds (store m a bytes) a bytes
unfolding store
Holds-store m a [] = tt
Holds-store m a (b ∷ bytes) = (
  ground arith,
  Holds-same (store m (a + 1) bytes) (store m a (b ∷ bytes)) (a + 1) bytes (λ x lo hi. ground arith)
      (Holds-store m (a + 1) bytes),
)

pub Holds-store_apart :
    (m : ℕ → ℕ) (c : ℕ) (kept : List ℕ) (a : ℕ) (bytes : List ℕ)
    → (c + length kept ≤ a) ⊎ (a + length bytes ≤ c)
    → Holds m c kept
    → Holds (store m a bytes) c kept
Holds-store_apart m c kept a bytes apart h =
    Holds-same m (store m a bytes) c kept
      (λ x lo hi. elim apart [
        | inl below ↦ store_below m a bytes x (omega arith)
        | inr above ↦ store_above m a bytes x (omega arith)
      ])
      h
