-- ===== src/MapFiles/Bindings/Owned.antt =====
-- The objects of Extensions/MapFiles/pydll.cpp and the numbered maps that they own, over any sequence
-- of calls. Python makes an object at an address that is free, and deallocates one that nothing
-- refers to: no tuple of a composition, above all.
use buildpal.Prelude.{
  ℕ, ◌+◌, ◌^◌, ◌≤◌, ◌<◌, ◌≡◌, refl, subst, ◌≢◌, ◌⊎◌, inl, inr, Option, none, some, Option-cases,
  List, [], ◌∷◌, All, arith, ite, ℕ_discrete,
}
use buildpal.Prelude.Assoc.{lookup-erase}
use buildpal.MapFiles.Mapping.{DirMap}
use buildpal.MapFiles.Maps.{HookData, create_file_map, destroy_file_map}
use buildpal.MapFiles.Maps.Ids.{map_of, IsCounted, create_file_map-fresh}
use buildpal.MapFiles.Bindings.{
  Session, put, PyObject, all_file_maps, file_map_new, file_map_init, file_map_dealloc,
  composition_init,
}

-- Every object that has been initialised has a map, no two the same one, and the tuples refer to
-- objects that live.
pub record IsOwned (s : Session) : Type 0 where
  pub live :
      (a n : ℕ)
      → s.file_maps a ≡ some n
      → (n ≡ 0) ⊎ ((dirs : DirMap) × (map_of s.hooks n ≡ some dirs))
  pub apart : (a b n : ℕ) → s.file_maps a ≡ some n → s.file_maps b ≡ some n → (n ≡ 0) ⊎ (a ≡ b)
  pub held :
      (c : ℕ) (maps : List ℕ)
      → s.compositions c ≡ some (some maps)
      → All (λ a. (n : ℕ) × (s.file_maps a ≡ some n)) maps
  pub referenced :
      (c : ℕ) (maps : List ℕ)
      → s.compositions c ≡ some (some maps)
      → (rest : List (List ℕ)) × (s.tuple_refs c ≡ maps ∷ rest)
  pub counted : IsCounted s.hooks

-- the object is among the arguments
abbrev pub Given : ℕ → List PyObject → Type 0
Given a [] = ⊥
Given a (PyObject.file_map b ∷ args) = (b ≡ a) ⊎ Given a args
Given a (PyObject.unicode t ∷ args) = Given a args
Given a (PyObject.other ∷ args) = Given a args

destroy-IsCounted : (s : HookData) (n : ℕ) → IsCounted s → IsCounted (destroy_file_map s n)
unfolding destroy_file_map
destroy-IsCounted s n h = record {
  known =
      λ id dirs e. ground (arith, lookup-erase ℕ_discrete n id s.custom_mappings, h.known id dirs);
}

destroy-map_of :
    (s : HookData) (n j : ℕ)
    → map_of (destroy_file_map s n) j ≡ ite (ℕ_discrete j n) none (map_of s j)
unfolding destroy_file_map
destroy-map_of s n j = lookup-erase ℕ_discrete n j s.custom_mappings

create_file_map-id : (s : HookData) → s.counter + 1 < 2 ^ 32 → (create_file_map s).1 ≡ s.counter + 1
unfolding create_file_map
create_file_map-id s h = omega arith

destroy-counter : (s : HookData) (n : ℕ) → (destroy_file_map s n).counter ≡ s.counter
unfolding destroy_file_map
destroy-counter s n = refl

Held-put :
    (f : ℕ → Option ℕ) (a n : ℕ) (maps : List ℕ)
    → All (λ b. (m : ℕ) × (f b ≡ some m)) maps
    → All (λ b. (m : ℕ) × (put f a (some n) b ≡ some m)) maps
Held-put f a n [] h = tt
Held-put f a n (b ∷ maps) h = (
  elim (ℕ_discrete b a) [ yes e ↦ (n, ground arith) | no e ↦ (h.0.0, ground (arith, h.0.1)) ],
  Held-put f a n maps h.1,
)

Held-drop :
    (f : ℕ → Option ℕ) (a : ℕ) (maps : List ℕ)
    → All (λ b. b ≢ a) maps
    → All (λ b. (m : ℕ) × (f b ≡ some m)) maps
    → All (λ b. (m : ℕ) × (put f a none b ≡ some m)) maps
Held-drop f a [] out h = tt
Held-drop f a (b ∷ maps) out h =
    ((h.0.0, ground (arith, h.0.1, out.0)), Held-drop f a maps out.1 h.1)

pub new-IsOwned :
    (s : Session) (a : ℕ) → s.file_maps a ≡ none → IsOwned s → IsOwned (file_map_new s a)
unfolding file_map_new
new-IsOwned s a free h = record {
  live = λ b n e. ground (arith, h.live b n);
  apart = λ b c n e f. ground (arith, h.apart b c n);
  held = λ c maps e. Held-put s.file_maps a 0 maps (h.held c maps e);
  referenced = h.referenced;
  counted = h.counted;
}

pub dealloc-IsOwned :
    (s : Session) (a : ℕ)
    → ((c : ℕ) → All (All (λ b. b ≢ a)) (s.tuple_refs c))
    → IsOwned s
    → IsOwned (file_map_dealloc s a)
unfolding file_map_dealloc
dealloc-IsOwned s a unused h = elim (Option-cases (s.file_maps a)) [
  | inl e ↦ rw (e, file_map_dealloc) h
  | inr (k, e) ↦
      rw (e, file_map_dealloc)
        (record {
          live = λ b n f. ground (arith, h.live b n, h.apart a b n, destroy-map_of s.hooks k n);
          apart = λ b c n f g. ground (arith, h.apart b c n);
          held = λ c maps f.
              let (rest, q) = h.referenced c maps f in
              Held-drop s.file_maps a maps (subst (All (All (λ b. b ≢ a))) q (unused c)).0
                (h.held c maps f);
          referenced = h.referenced;
          counted = destroy-IsCounted s.hooks k h.counted;
        })
]

number-le : (s : Session) → IsOwned s → (b n : ℕ) → s.file_maps b ≡ some n → n ≤ s.hooks.counter
number-le s h b n e = elim (h.live b n e) [
  | inl z ↦ omega arith
  | inr (dirs, m) ↦ h.counted.known n dirs m
]

pub init-IsOwned :
    (s : Session) (a : ℕ) → s.hooks.counter + 1 < 2 ^ 32 → IsOwned s → IsOwned (file_map_init s a)
unfolding file_map_init
init-IsOwned s a small h = elim (Option-cases (s.file_maps a)) [
  | inl e ↦ rw (e, file_map_init) h
  | inr (k, e) ↦
      let hooks = destroy_file_map s.hooks k in
      let counted = destroy-IsCounted s.hooks k h.counted in
      let counter = destroy-counter s.hooks k in
      let room : hooks.counter + 1 < 2 ^ 32 = omega arith in
      let id = create_file_map-id hooks room in
      let fresh = λ (j : ℕ). create_file_map-fresh hooks j counted room in
      rw (e, file_map_init)
        (record {
          live = λ b n f.
              ground (arith, h.live b n, h.apart a b n, destroy-map_of s.hooks k n, (fresh n).1);
          apart = λ b c n f g.
              ground (arith, h.apart b c n, number-le s h b n, number-le s h c n, id, counter);
          held =
              λ c maps f. Held-put s.file_maps a (create_file_map hooks).1 maps (h.held c maps f);
          referenced = h.referenced;
          counted = (fresh 0).2;
        })
]

all_file_maps-Live :
    (s : Session) (args : List PyObject) (maps : List ℕ)
    → ((a : ℕ) → Given a args → (n : ℕ) × (s.file_maps a ≡ some n))
    → all_file_maps args ≡ some maps
    → All (λ a. (n : ℕ) × (s.file_maps a ≡ some n)) maps
unfolding all_file_maps
all_file_maps-Live s [] maps live e =
    let same : [] ≡ maps = ground arith in
    subst (All (λ a. (n : ℕ) × (s.file_maps a ≡ some n))) same tt
all_file_maps-Live s (PyObject.unicode t ∷ args) maps live e = absurd (ground arith)
all_file_maps-Live s (PyObject.other ∷ args) maps live e = absurd (ground arith)
all_file_maps-Live s (PyObject.file_map a ∷ args) maps live e =
    elim (Option-cases (all_file_maps args)) [
      | inl none_left ↦ absurd (ground arith)
      | inr (rest, more) ↦
          let same : a ∷ rest ≡ maps = ground arith in
          subst (All (λ a. (n : ℕ) × (s.file_maps a ≡ some n))) same
            (live a (inl refl), all_file_maps-Live s args rest (λ b g. live b (inr g)) more)
    ]

pub composition_init-IsOwned :
    (s : Session) (c : ℕ) (args : List PyObject)
    → ((a : ℕ) → Given a args → (n : ℕ) × (s.file_maps a ≡ some n))
    → IsOwned s
    → IsOwned (composition_init s c args).0
unfolding composition_init
composition_init-IsOwned s c args live h = elim (Option-cases (all_file_maps args)) [
  | inl e ↦ rw (e, composition_init) h
  | inr (maps, e) ↦
      rw (e, composition_init)
        (record {
          live = h.live;
          apart = h.apart;
          held = λ d held f. elim (ℕ_discrete d c) [
            | yes same ↦
                let it : maps ≡ held = ground arith in
                subst (All (λ a. (n : ℕ) × (s.file_maps a ≡ some n))) it
                  (all_file_maps-Live s args maps live e)
            | no other ↦ h.held d held (ground arith)
          ];
          referenced = λ d held f. elim (ℕ_discrete d c) [
            | yes same ↦ let it : maps ≡ held = ground arith in (s.tuple_refs c, ground (arith, it))
            | no other ↦
                let (rest, q) = h.referenced d held (ground arith) in (rest, ground (arith, q))
          ];
          counted = h.counted;
        })
]
