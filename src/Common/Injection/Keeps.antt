-- ===== src/Common/Injection/Keeps.antt =====
-- Which steps of `injectLibrary` (Extensions/Common/dllInject.cpp) leave the registers as they are.
use buildpal.Prelude.{
  ℕ, ◌+◌, ◌≡◌, refl, ◌∙◌, inl, inr, Option, none, some, Option-cases, List, [], ◌∷◌, arith,
}
use buildpal.Common.Memory.{
  ProcessApi, M, ◌>>=◌, AllocProcessMemory, alloc_process_memory, write, owned,
}
use buildpal.Common.Injection.{le_bytes, write_pointers}

pub bind-none :
    {S A B : Type 0} (m : M S A) (f : A → M S B) (p : S)
    → (m p).1 ≡ none
    → (m >>= f) p ≡ ((m p).0, none)
bind-none m f p e = ground arith

pub bind-some :
    {S A B : Type 0} (m : M S A) (f : A → M S B) (p : S) {a : A}
    → (m p).1 ≡ some a
    → (m >>= f) p ≡ f a (m p).0
bind-some m f p e = ground arith

module _ (os : ProcessApi) where
  open os use {Process, registers}

  -- the registers stay as they are, on every way through the code
  abbrev pub Keeps : {A : Type 0} → M Process A → Type 0
  Keeps m = (p : Process) → registers (m p).0 ≡ registers p

  pub bind-Keeps :
      {A B : Type 0} (m : M Process A) (f : A → M Process B)
      → Keeps m
      → ((a : A) → Keeps (f a))
      → Keeps (m >>= f)
  bind-Keeps {A} {B} m f hm hf p = bound (m p).1
    where
      bound :
          (o : Option A)
          → (let s : Process × Option B = elim o [
            | none ↦ ((m p).0, none)
            | some a ↦ f a (m p).0
          ] in
              registers s.0 ≡ registers p)
      bound none = hm p
      bound (some a) = hf a (m p).0 ∙ hm p

  pub alloc-Keeps : (n : ℕ) → Keeps (alloc_process_memory os n)
  unfolding alloc_process_memory
  alloc-Keeps n p = elim (Option-cases (os.virtual_alloc_ex p n)) [
    | inl e ↦ rw (e, alloc_process_memory) refl
    | inr (x, e) ↦ rw (e, alloc_process_memory) ((os.alloc_fresh p n x.0 x.1 e).2)
  ]

  pub write-Keeps : (b : AllocProcessMemory) (bytes : List ℕ) → Keeps (write os b bytes)
  unfolding write
  write-Keeps b bytes p =
      let kept = (os.write_keeps p (b.mem + b.offset) bytes).1 in ground (arith, kept)

  pub owned-Keeps :
      {A : Type 0} (b : AllocProcessMemory) (m : M Process A) → Keeps m → Keeps (owned os b m)
  unfolding owned
  owned-Keeps {A} b m h p = kept (m p).1
    where
      kept :
          (o : Option A)
          → (let s : Process × Option A = elim o [
            | none ↦ (os.virtual_free_ex (m p).0 b.mem b.len, none)
            | some a ↦ ((m p).0, some a)
          ] in
              registers s.0 ≡ registers p)
      kept none = os.free_keeps (m p).0 b.mem b.len ∙ h p
      kept (some a) = h p

  pub write_pointers-Keeps :
      (size : ℕ) (b : AllocProcessMemory) (vs : List ℕ) → Keeps (write_pointers os size b vs)
  unfolding write_pointers
  write_pointers-Keeps size b [] p = refl
  write_pointers-Keeps size b (v ∷ vs) p =
      bind-Keeps (write os b (le_bytes size v)) (λ r. write_pointers os size r.0 vs)
        (write-Keeps b (le_bytes size v)) (λ r. write_pointers-Keeps size r.0 vs) p
