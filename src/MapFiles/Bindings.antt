-- ===== src/MapFiles/Bindings.antt =====
-- The Python module of Extensions/MapFiles/pydll.cpp: FileMap and FileMapComposition objects over the
-- exported functions of mapFiles.cpp. An object is its address; Python decides when objects are made
-- and deallocated. A text is a list of code units; `wchar_t *` ends at the first zero. The parsing
-- of the arguments, and `pythonCreateProcess` with the original CreateProcess, are parameters.
pub mod Owned
pub mod Steps
pub mod Objects
use buildpal.Prelude.{
  ℕ, zero, suc, ◌≡◌, Bool, true, false, Option, none, some, List, [], ◌∷◌, drop, ◌==◌,
  if◌then◌else◌,
}
use buildpal.Common.ApiHooks.{ApiHookHelper, install_hooks, remove_hooks}
use buildpal.MapFiles.Paths.{PathApi}
use buildpal.MapFiles.Maps.{
  HookData, Started, map_file_global, unmap_file_global, create_file_map, destroy_file_map,
  map_file, create_process_with_mapping,
}

-- a `wchar_t *` as a text
unfoldable pub c_str : List ℕ → List ℕ
c_str [] = []
c_str (x ∷ xs) = if x == 0 then [] else x ∷ c_str xs

-- `hooks` and `api_hooks` are the hook object of mapFiles.cpp. A `PyFileMap` has the number of its
-- map, and a `PyFileMapComposition` a tuple of objects, or NULL. `tuple_refs` has the references to
-- tuples that each composition has taken and not given back, the newest first.
pub record Session : Type 0 where
  pub hooks : HookData
  pub api_hooks : ApiHookHelper
  pub file_maps : ℕ → Option ℕ
  pub compositions : ℕ → Option (Option (List ℕ))
  pub tuple_refs : ℕ → List (List ℕ)

abbrev pub put {ℓ} : {A : Type ℓ} → (ℕ → A) → ℕ → A → ℕ → A
put f a v x = if x == a then v else f x

-- `NULL` with and without an exception, and a read through a null or dangling pointer
pub data Answer (A : Type 0) : Type 0 where
  exception : Answer A
  null : Answer A
  fault : Answer A
  value : A → Answer A

pub data PyObject : Type 0 where
  unicode : List ℕ → PyObject
  file_map : ℕ → PyObject
  other : PyObject

-- `hookWinAPIs` and `unhookWinAPIs`
unfoldable pub enable : Session → Session
enable s = record s { api_hooks = (install_hooks s.api_hooks).0 }

unfoldable pub disable : Session → Session
disable s = record s { api_hooks = (remove_hooks s.api_hooks).0 }

-- `PyFileMap_new`: `tp_alloc` gives an object full of zeros
unfoldable pub file_map_new : Session → ℕ → Session
file_map_new s a = record s { file_maps = put s.file_maps a (some 0) }

unfoldable pub file_map_init : Session → ℕ → Session
file_map_init s a = elim (s.file_maps a) [
  | none ↦ s
  | some n ↦
      let (hooks, id) = create_file_map (destroy_file_map s.hooks n) in
      record s { hooks = hooks; file_maps = put s.file_maps a (some id) }
]

unfoldable pub file_map_dealloc : Session → ℕ → Session
file_map_dealloc s a = elim (s.file_maps a) [
  | none ↦ s
  | some n ↦ record s { hooks = destroy_file_map s.hooks n; file_maps = put s.file_maps a none }
]

unfoldable pub composition_new : Session → ℕ → Session
composition_new s c = record s { compositions = put s.compositions c (some none) }

-- the addresses, if every argument is a `PyFileMap`
unfoldable pub all_file_maps : List PyObject → Option (List ℕ)
all_file_maps [] = some []
all_file_maps (unicode t ∷ args) = none
all_file_maps (other ∷ args) = none
all_file_maps (file_map a ∷ args) = elim (all_file_maps args) [
  | none ↦ none
  | some maps ↦ some (a ∷ maps)
]

-- the result is that of `tp_init`; `return NULL` is 0, too. `Py_XINCREF( args )` keeps the tuple, and
-- with it the objects in it; the tuple that was there before is not given back.
unfoldable pub composition_init : Session → ℕ → List PyObject → Session × ℕ
composition_init s c args = elim (all_file_maps args) [
  | none ↦ (s, 0)
  | some maps ↦ (
    record s {
      compositions = put s.compositions c (some (some maps));
      tuple_refs = put s.tuple_refs c (maps ∷ s.tuple_refs c);
    },
    0,
  )
]

-- `Py_DECREF` of the tuple, then `tp_free`
unfoldable pub composition_dealloc : Session → ℕ → Answer Session
composition_dealloc s c = elim (s.compositions c) [
  | none ↦ fault
  | some tuple ↦ elim tuple [
    | none ↦ fault
    | some maps ↦ value (record s {
      compositions = put s.compositions c none;
      tuple_refs = put s.tuple_refs c (drop 1 (s.tuple_refs c));
    })
  ]
]

-- `ptr[ index ] = fileMap->fileMap`
unfoldable pub map_numbers : Session → List ℕ → Option (List ℕ)
map_numbers s [] = some []
map_numbers s (a ∷ maps) = elim (s.file_maps a) [
  | none ↦ none
  | some n ↦ elim (map_numbers s maps) [ none ↦ none | some ns ↦ some (n ∷ ns) ]
]

unfoldable pub file_map_create_process : Session → ℕ → Bool → Bool → Answer Started
file_map_create_process s a suspended create = elim (s.file_maps a) [
  | none ↦ fault
  | some n ↦ value (create_process_with_mapping s.hooks (n ∷ []) suspended create)
]

unfoldable pub composition_create_process : Session → ℕ → Bool → Bool → Answer Started
unfolding map_numbers
composition_create_process s c suspended create = elim (s.compositions c) [
  | none ↦ fault
  | some tuple ↦ elim tuple [
    | none ↦ fault
    | some maps ↦ elim (map_numbers s maps) [
      | none ↦ fault
      | some ns ↦ value (create_process_with_mapping s.hooks ns suspended create)
    ]
  ]
]

module _ (api : PathApi) where
  unfoldable pub map_global_file : Session → PyObject → PyObject → Session × Answer Bool
  unfolding c_str
  map_global_file s (unicode virtual_file) (unicode file) =
      let (hooks, done) = map_file_global api s.hooks (c_str virtual_file) (c_str file) in
      (record s { hooks = hooks }, value done)
  map_global_file s _ _ = (s, exception)

  unfoldable pub unmap_global_file : Session → PyObject → Session × Answer Bool
  unfolding c_str
  unmap_global_file s (unicode virtual_file) =
      let (hooks, done) = unmap_file_global api s.hooks (c_str virtual_file) in
      (record s { hooks = hooks }, value done)
  unmap_global_file s _ = (s, exception)

  unfoldable pub add_mapping : Session → ℕ → List ℕ → List ℕ → Session × Answer Bool
  unfolding c_str
  add_mapping s a virtual_file real_file = elim (s.file_maps a) [
    | none ↦ (s, fault)
    | some n ↦
        if n == 0
        then (s, null)
        else (let (hooks, done) = map_file api s.hooks n (c_str virtual_file) (c_str real_file) in
            (record s { hooks = hooks }, value done))
  ]
