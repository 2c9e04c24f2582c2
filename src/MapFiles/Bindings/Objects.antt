-- ===== src/MapFiles/Bindings/Objects.antt =====
-- What the objects of Extensions/MapFiles/pydll.cpp do with their maps.
use buildpal.Prelude.{
  ℕ, ◌≡◌, refl, ◌≢◌, inl, inr, Bool, true, not, none, some, List, [], ◌∷◌, All, arith, ◌==◌,
  if◌then◌else◌,
}
use buildpal.MapFiles.Paths.{PathApi}
use buildpal.MapFiles.Mapping.{DirMap, add_file}
use buildpal.MapFiles.Maps.{collect_mappings, create_process_with_mapping, created}
use buildpal.MapFiles.Maps.Ids.{map_of, map_file-maps}
use buildpal.MapFiles.Bindings.{
  Session, fault, value, PyObject, all_file_maps, composition_init, composition_dealloc,
  composition_create_process, map_numbers, add_mapping, c_str,
}
use buildpal.MapFiles.Bindings.Owned.{IsOwned}
use buildpal.MapFiles.Bindings.Steps.{no_objects, Reach, Reach-IsOwned}

-- the maps are those of the objects, in their order
abbrev pub MapsOf : Session → List ℕ → List DirMap → Type 0
MapsOf s [] [] = Unit
MapsOf s [] (m ∷ ms) = ⊥
MapsOf s (a ∷ objects) [] = ⊥
MapsOf s (a ∷ objects) (m ∷ ms) =
    ((n : ℕ) × (s.file_maps a ≡ some n) × (map_of s.hooks n ≡ some m)) × MapsOf s objects ms

-- `__init__` has run for the object
abbrev pub IsInitialised : Session → ℕ → Type 0
IsInitialised s a = s.file_maps a ≢ some 0

collect-MapsOf :
    (s : Session) (objects : List ℕ)
    → IsOwned s
    → All (λ a. (n : ℕ) × (s.file_maps a ≡ some n)) objects
    → All (IsInitialised s) objects
    → (ns : List ℕ) × (ms : List DirMap) × (map_numbers s objects ≡ some ns)
      × (collect_mappings s.hooks ns ≡ some ms)
      × MapsOf s objects ms
unfolding map_numbers collect_mappings
collect-MapsOf s [] h live init = ([], [], refl, refl, tt)
collect-MapsOf s (a ∷ objects) h live init =
    let (n, e) = live.0 in
    let (ns, ms, numbers, collected, of) = collect-MapsOf s objects h live.1 init.1 in
    elim (h.live a n e) [
      | inl z ↦ absurd (init.0 (ground arith))
      | inr (m, found) ↦ (n ∷ ns, m ∷ ms, ground arith, ground arith, ((n, e, found), of))
    ]

-- In every state that calls lead to, a composition of objects that are initialised starts its
-- process with the maps of those objects, in their order, if Windows creates it, and resumes it
-- unless it was to be suspended.
pub composition_create_process-created :
    (api : PathApi) (s : Session) (c : ℕ) (objects : List ℕ) (suspended : Bool)
    → Reach api no_objects s
    → s.compositions c ≡ some (some objects)
    → All (IsInitialised s) objects
    → (ms : List DirMap) × MapsOf s objects ms
      × (composition_create_process s c suspended true ≡ value (created ms (not suspended)))
unfolding composition_create_process create_process_with_mapping
composition_create_process-created api s c objects suspended r e init =
    let h = Reach-IsOwned api s r in
    let (ns, ms, numbers, collected, of) = collect-MapsOf s objects h (h.held c objects e) init in
    (ms, of, ground (arith, numbers, collected))

-- `__init__` of a composition reports success for an argument that is no FileMap, and leaves the
-- object without a tuple: both its methods then read through a null pointer.
pub composition_init-rejects :
    (s : Session) (c : ℕ) (args : List PyObject) (suspended create : Bool)
    → s.compositions c ≡ some none
    → all_file_maps args ≡ none
    → ((composition_init s c args).1 ≡ 0)
      × (composition_create_process (composition_init s c args).0 c suspended create ≡ fault)
      × (composition_dealloc (composition_init s c args).0 c ≡ fault)
unfolding composition_init composition_create_process composition_dealloc
composition_init-rejects s c args suspended create e rejected =
    (ground arith, ground arith, ground arith)

module _ (api : PathApi) where
  -- In every state that calls lead to, a file that is mapped in an initialised object goes to the
  -- map of that object, and no other object notices.
  pub add_mapping-own :
      (s : Session) (a b n m : ℕ) (v r : List ℕ) (dirs : DirMap)
      → Reach api no_objects s
      → s.file_maps a ≡ some n
      → n ≢ 0
      → s.file_maps b ≡ some m
      → m ≢ 0
      → map_of s.hooks m ≡ some dirs
      → map_of (add_mapping api s a v r).0.hooks m
        ≡ some (if a == b then add_file api dirs (c_str v) (c_str r) else dirs)
  unfolding add_mapping
  add_mapping-own s a b n m v r dirs reach ea pn eb pm found =
      let h = Reach-IsOwned api s reach in
      let maps = map_file-maps api s.hooks n (c_str v) (c_str r) m in
      ground (arith, maps.0, h.apart a b n, add_mapping)
