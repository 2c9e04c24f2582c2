-- ===== src/MapFiles/Maps/Ids.antt =====
-- The numbers of file maps (Extensions/MapFiles/mapFiles.cpp).
use buildpal.Prelude.{
  ℕ, ◌+◌, ◌%◌, ◌^◌, ◌≤◌, ◌<◌, ◌≡◌, refl, Option-cases, inl, inr, true, false, Option, none, some,
  List, [], ◌∷◌, arith, ite, ℕ_discrete,
}
use buildpal.Prelude.Assoc.{lookup, erase, lookup-assign, lookup-erase, lookup-insert_new}
use buildpal.MapFiles.Paths.{PathApi}
use buildpal.MapFiles.Mapping.{DirMap, add_file}
use buildpal.MapFiles.Maps.{HookData, create_file_map, destroy_file_map, map_file, collect_mappings}

abbrev pub map_of : HookData → ℕ → Option DirMap
map_of s id = lookup ℕ_discrete id s.custom_mappings

-- the maps that are there have numbers up to the counter
pub record IsCounted (s : HookData) : Type 0 where
  pub known : (id : ℕ) (dirs : DirMap) → map_of s id ≡ some dirs → id ≤ s.counter

-- `createFileMap` gives a new number to an empty map and leaves every other map alone, while the
-- counter has not wrapped around.
pub create_file_map-fresh :
    (s : HookData) (j : ℕ)
    → IsCounted s
    → s.counter + 1 < 2 ^ 32
    → (map_of s (create_file_map s).1 ≡ none)
      × (map_of (create_file_map s).0 j
          ≡ ite (ℕ_discrete j (create_file_map s).1) (some []) (map_of s j))
      × IsCounted (create_file_map s).0
unfolding create_file_map
create_file_map-fresh s j h small =
    let id = (s.counter + 1) % 2 ^ 32 in
    let fresh : map_of s id ≡ none = elim (Option-cases (map_of s id)) [
      | inl e ↦ e
      | inr (dirs, e) ↦ absurd (omega (arith, h.known id dirs e))
    ] in
    (
      fresh,
      ground (arith, fresh, lookup-insert_new ℕ_discrete id j [] s.custom_mappings),
      record {
        known = λ k dirs e.
            ground (arith, h.known k dirs, lookup-insert_new ℕ_discrete id k [] s.custom_mappings);
      },
    )

-- When the counter comes to the number of a map that is still there, `createFileMap` returns that
-- number again, and the map with what is in it.
pub create_file_map-reuse :
    (s : HookData) (dirs : DirMap)
    → map_of s ((s.counter + 1) % 2 ^ 32) ≡ some dirs
    → ((create_file_map s).1 ≡ (s.counter + 1) % 2 ^ 32)
      × (map_of (create_file_map s).0 (create_file_map s).1 ≡ some dirs)
unfolding create_file_map
create_file_map-reuse s dirs e =
    let id = (s.counter + 1) % 2 ^ 32 in
    (refl, ground (arith, lookup-insert_new ℕ_discrete id id [] s.custom_mappings))

module _ (api : PathApi) where
  -- `mapFile` adds the file to the map with that number and to no other, and returns FALSE and
  -- changes nothing exactly if there is none.
  pub map_file-maps :
      (s : HookData) (id : ℕ) (path real : List ℕ) (j : ℕ)
      → (map_of (map_file api s id path real).0 j
          ≡ ite
              (ℕ_discrete j id)
              (elim (map_of s id) [ none ↦ none | some dirs ↦ some (add_file api dirs path real) ])
              (map_of s j))
        × ((map_file api s id path real).1 ≡ elim (map_of s id) [ none ↦ false | some _ ↦ true ])
        × ((map_file api s id path real).0.global_mapping ≡ s.global_mapping)
  unfolding map_file
  map_file-maps s id path real j = elim (Option-cases (map_of s id)) [
    | inl e ↦ rw (e, map_file) (ground arith, refl, refl)
    | inr (dirs, e) ↦
        rw (e, map_file)
          (
            lookup-assign ℕ_discrete id j (add_file api dirs path real) s.custom_mappings,
            refl,
            refl,
          )
  ]

  -- A map that has been destroyed takes no files and starts no process.
  pub destroyed :
      (s : HookData) (id : ℕ) (path real : List ℕ) (ids : List ℕ)
      → (map_file api (destroy_file_map s id) id path real ≡ (destroy_file_map s id, false))
        × (collect_mappings (destroy_file_map s id) (id ∷ ids) ≡ none)
  unfolding map_file destroy_file_map collect_mappings
  destroyed s id path real ids =
      let gone : lookup ℕ_discrete id (erase ℕ_discrete id s.custom_mappings) ≡ none =
        ground (arith, lookup-erase ℕ_discrete id id s.custom_mappings) in
      (ground arith, ground arith)
