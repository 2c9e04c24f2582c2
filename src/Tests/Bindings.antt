-- ===== src/Tests/Bindings.antt =====
-- The theorems on the Python module of the file maps, at a session with two objects and a composition.
use buildpal.Prelude.{
  ℕ, ◌≡◌, refl, ap, sym, inl, inr, true, false, not, some, List, [], ◌∷◌, All, arith, units, ◌==◌,
  if◌then◌else◌, ℕ_discrete,
}
use buildpal.Prelude.Assoc.{lookup, erase, insert_new}
use buildpal.MapFiles.Mapping.{DirMap, add_file}
use buildpal.MapFiles.Maps.{created, create_file_map, destroy_file_map}
use buildpal.MapFiles.Maps.Ids.{map_of}
use buildpal.MapFiles.Bindings.{
  Session, value, PyObject, file_map_new, file_map_init, composition_new, composition_init,
  composition_create_process, all_file_maps, add_mapping, c_str,
}
use buildpal.MapFiles.Bindings.Owned.{IsOwned, Given}
use buildpal.MapFiles.Bindings.Steps.{
  no_objects, Reach, here, next, new, init, compose_new, compose_init, Reach-IsOwned,
}
use buildpal.MapFiles.Bindings.Objects.{
  MapsOf, IsInitialised, composition_create_process-created, add_mapping-own,
}
use buildpal.Tests.Systems.{paths}

abbrev made : Session
made = file_map_new no_objects 16

abbrev first : Session
first = file_map_init made 16

abbrev second : Session
second = file_map_new first 32

abbrev both : Session
both = file_map_init second 32

abbrev composed : Session
composed = composition_new both 48

abbrev args : List PyObject
args = PyObject.file_map 32 ∷ PyObject.file_map 16 ∷ []

abbrev ready : Session
ready = (composition_init composed 48 args).0

-- the arguments live
lives : (a : ℕ) → Given a args → (n : ℕ) × (both.file_maps a ≡ some n)
unfolding file_map_new file_map_init create_file_map destroy_file_map
lives a g = elim g [
  | inl e ↦ (2, ap both.file_maps (sym e))
  | inr h ↦ elim h [ inl e ↦ (1, ap both.file_maps (sym e)) | inr none_left ↦ absurd none_left ]
]

reached : Reach paths no_objects ready
unfolding file_map_new file_map_init create_file_map destroy_file_map composition_new
reached =
    next
      (next
        (next
          (next (next (next here (new no_objects 16 refl)) (init made 16 (omega arith)))
            (new first 32 refl))
          (init second 32 (omega arith)))
        (compose_new both 48 refl))
      (compose_init composed 48 args lives)

tuple : ready.compositions 48 ≡ some (some (32 ∷ 16 ∷ []))
unfolding composition_init composition_new all_file_maps
tuple = refl

initialised : All (IsInitialised ready) (32 ∷ 16 ∷ [])
unfolding composition_init composition_new all_file_maps file_map_new file_map_init create_file_map
    destroy_file_map
initialised = (λ e. ground arith, (λ e. ground arith, tt))

Reach-IsOwned_example : IsOwned ready
Reach-IsOwned_example = Reach-IsOwned paths ready reached

composition_create_process-created_example :
    (ms : List DirMap) × MapsOf ready (32 ∷ 16 ∷ []) ms
    × (composition_create_process ready 48 false true ≡ value (created ms (not false)))
composition_create_process-created_example =
    composition_create_process-created paths ready 48 (32 ∷ 16 ∷ []) false reached tuple initialised

number_16 : ready.file_maps 16 ≡ some 1
unfolding composition_init composition_new all_file_maps file_map_new file_map_init create_file_map
    destroy_file_map
number_16 = refl

number_32 : ready.file_maps 32 ≡ some 2
unfolding composition_init composition_new all_file_maps file_map_new file_map_init create_file_map
    destroy_file_map
number_32 = refl

empty_32 : map_of ready.hooks 2 ≡ some []
unfolding composition_init composition_new all_file_maps file_map_new file_map_init create_file_map
    destroy_file_map lookup insert_new erase ℕ_discrete
empty_32 = refl

add_mapping-own_example :
    map_of (add_mapping paths ready 16 (units "c:/a.h") (units "d:/b.h")).0.hooks 2
    ≡ some (
        if 16 == 32
        then add_file paths [] (c_str (units "c:/a.h")) (c_str (units "d:/b.h"))
        else [])
add_mapping-own_example =
    add_mapping-own paths ready 16 32 1 2 (units "c:/a.h") (units "d:/b.h") [] reached number_16
      (omega arith) number_32 (omega arith) empty_32
