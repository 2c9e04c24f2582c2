-- ===== src/Prelude/Assoc.antt =====
-- `std::map` and `std::unordered_map` as association lists. What is read back from a map never
-- depends on the order of the list, which stands for the map's order of iteration.
use mathlib.Core.Path.{◌≡◌, refl, subst}
use mathlib.Core.Logic.{ite, if_pos, if_neg}
use mathlib.Core.List.{List, [], ◌∷◌}
use mathlib.Core.Option.{Option, none, some}
use native.Mathlib.Omega.{arith}

abbrev pub Assoc {ℓ} : Type ℓ → Type ℓ → Type ℓ
Assoc K V = List (K × V)

module _ {ℓ} {K V : Type ℓ} (dec : Discrete K) where
  -- `m.find( k )`
  unfoldable pub lookup : K → Assoc K V → Option V
  lookup k [] = none
  lookup k ((j, v) ∷ m) = ite (dec k j) (some v) (lookup k m)

  -- `m[ k ] = v`
  unfoldable pub assign : K → V → Assoc K V → Assoc K V
  assign k v [] = (k, v) ∷ []
  assign k v ((j, w) ∷ m) = ite (dec k j) ((j, v) ∷ m) ((j, w) ∷ assign k v m)

  -- `m.erase( k )`
  unfoldable pub erase : K → Assoc K V → Assoc K V
  erase k [] = []
  erase k ((j, w) ∷ m) = ite (dec k j) (erase k m) ((j, w) ∷ erase k m)

  -- `m.insert( ( k, v ) )`: a key that is there keeps its value
  unfoldable pub insert_new : K → V → Assoc K V → Assoc K V
  insert_new k v [] = (k, v) ∷ []
  insert_new k v ((j, w) ∷ m) = ite (dec k j) ((j, w) ∷ m) ((j, w) ∷ insert_new k v m)

  pub lookup-assign :
      (k j : K) (v : V) (m : Assoc K V)
      → lookup j (assign k v m) ≡ ite (dec j k) (some v) (lookup j m)
  unfolding lookup assign
  lookup-assign k j v [] = refl
  lookup-assign k j v ((i, w) ∷ m) = ground (arith, lookup-assign k j v m)

  pub lookup-erase :
      (k j : K) (m : Assoc K V) → lookup j (erase k m) ≡ ite (dec j k) none (lookup j m)
  unfolding lookup erase
  lookup-erase k j [] = ground arith
  lookup-erase k j ((i, w) ∷ m) = ground (arith, lookup-erase k j m)

  pub lookup-insert_new :
      (k j : K) (v : V) (m : Assoc K V)
      → lookup j (insert_new k v m)
        ≡ elim (lookup j m) [ none ↦ ite (dec j k) (some v) none | some w ↦ some w ]
  unfolding lookup insert_new
  lookup-insert_new k j v [] = refl
  lookup-insert_new k j v ((i, w) ∷ m) = ground (arith, lookup-insert_new k j v m)

  -- no key stands twice, as in every `std::map`
  abbrev pub Distinct : Assoc K V → Type ℓ
  Distinct [] = Unit
  Distinct ((k, v) ∷ m) = (lookup k m ≡ none) × Distinct m

  pub assign-Distinct : (k : K) (v : V) (m : Assoc K V) → Distinct m → Distinct (assign k v m)
  unfolding assign
  assign-Distinct k v [] d = (none_left k, tt)
    where
      none_left : (j : K) → lookup j [] ≡ none
      none_left j = unfold lookup in refl
  assign-Distinct k v ((j, w) ∷ m) d = ground (arith, assign-Distinct k v m, lookup-assign k j v m)

  pub erase-Distinct : (k : K) (m : Assoc K V) → Distinct m → Distinct (erase k m)
  unfolding erase
  erase-Distinct k [] d = tt
  erase-Distinct k ((j, w) ∷ m) d = ground (arith, erase-Distinct k m, lookup-erase k j m)

  pub insert_new-Distinct :
      (k : K) (v : V) (m : Assoc K V) → Distinct m → Distinct (insert_new k v m)
  unfolding insert_new lookup
  insert_new-Distinct k v [] d = (refl, tt)
  insert_new-Distinct k v ((j, w) ∷ m) d =
      ground (arith, insert_new-Distinct k v m, lookup-insert_new k j v m)

  -- every value has the property
  abbrev pub Values {κ} : (V → Type κ) → Assoc K V → Type κ
  Values P [] = Unit
  Values P ((k, v) ∷ m) = P v × Values P m

  module _ {κ} (P : V → Type κ) where
    pub assign-Values : (k : K) (v : V) (m : Assoc K V) → P v → Values P m → Values P (assign k v m)
    unfolding assign
    assign-Values k v [] p h = (p, tt)
    assign-Values k v ((j, w) ∷ m) p h = elim (dec k j) [
      | yes e ↦ rw (if_pos _ e) (p, h.1)
      | no n ↦ rw (if_neg _ n) (h.0, assign-Values k v m p h.1)
    ]

    pub insert_new-Values :
        (k : K) (v : V) (m : Assoc K V) → P v → Values P m → Values P (insert_new k v m)
    unfolding insert_new
    insert_new-Values k v [] p h = (p, tt)
    insert_new-Values k v ((j, w) ∷ m) p h = elim (dec k j) [
      | yes e ↦ rw (if_pos _ e) h
      | no n ↦ rw (if_neg _ n) (h.0, insert_new-Values k v m p h.1)
    ]

    pub erase-Values : (k : K) (m : Assoc K V) → Values P m → Values P (erase k m)
    unfolding erase
    erase-Values k [] h = tt
    erase-Values k ((j, w) ∷ m) h = elim (dec k j) [
      | yes e ↦ rw (if_pos _ e) (erase-Values k m h.1)
      | no n ↦ rw (if_neg _ n) (h.0, erase-Values k m h.1)
    ]

    pub lookup-Values : (k : K) (v : V) (m : Assoc K V) → Values P m → lookup k m ≡ some v → P v
    unfolding lookup
    lookup-Values k v [] h e = cc
    lookup-Values k v ((j, w) ∷ m) h e = elim (dec k j) [
      | yes q ↦ subst P (ground arith) h.0
      | no n ↦ lookup-Values k v m h.1 (ground arith)
    ]
