-- ===== src/MapFiles/Maps/Calls.antt =====
-- Sequences of calls of the exported functions of Extensions/MapFiles/mapFiles.cpp, and the process
-- that is started with their maps.
use buildpal.Prelude.{
  ℕ, ◌<◌, ◌≡◌, refl, subst, ◌∙◌, Option, none, some, List, [], ◌∷◌, All, arith, Option-cases, inl,
  inr, ℕ_discrete, text_discrete,
}
use buildpal.Prelude.Assoc.{
  lookup, assign, Distinct, assign-Distinct, erase-Distinct, Values, assign-Values, erase-Values,
  insert_new-Values, lookup-Values,
}
use buildpal.MapFiles.Paths.{PathApi, decompose_path}
use buildpal.MapFiles.Pipe.{PipeApi}
use buildpal.MapFiles.Mapping.{FileList, DirMap, or_empty, find_file, add_file, remove_file}
use buildpal.MapFiles.Wire.{returned, initialize, write_mappings}
use buildpal.MapFiles.Wire.Roundtrip.{FitsDir, add_maps, rounds, initialize-write_mappings}
use buildpal.MapFiles.Wire.Rebuilt.{IsMap, find_in, override, find_file-add_maps}
use buildpal.MapFiles.Maps.{
  HookData, initial, create_file_map, destroy_file_map, collect_mappings, map_file_global,
  unmap_file_global, map_file,
}

pub data Call : Type 0 where
  map_global : List ℕ → List ℕ → Call
  unmap_global : List ℕ → Call
  create : Call
  destroy : ℕ → Call
  map_in : ℕ → List ℕ → List ℕ → Call

-- no map has an entry twice
pub record IsWell (s : HookData) : Type 0 where
  pub global : IsMap s.global_mapping
  pub custom : Values ℕ_discrete IsMap s.custom_mappings

or_empty-Distinct :
    (dirs : DirMap) (dir : List ℕ)
    → IsMap dirs
    → Distinct text_discrete (or_empty (lookup text_discrete dir dirs))
or_empty-Distinct dirs dir h = elim (Option-cases (lookup text_discrete dir dirs)) [
  | inl e ↦ rw e tt
  | inr (files, e) ↦
      rw e (lookup-Values text_discrete (Distinct text_discrete) dir files dirs h.1 e)
]

assign-IsMap :
    (dirs : DirMap) (dir : List ℕ) (files : FileList)
    → Distinct text_discrete files
    → IsMap dirs
    → IsMap (assign text_discrete dir files dirs)
assign-IsMap dirs dir files d h = (
  assign-Distinct text_discrete dir files dirs h.0,
  assign-Values text_discrete (Distinct text_discrete) dir files dirs d h.1,
)

override-none : (o : Option (List ℕ)) → override o none ≡ o
override-none none = refl
override-none (some r) = refl

module _ (api : PathApi) where
  add_file-IsMap :
      (dirs : DirMap) (path real : List ℕ) → IsMap dirs → IsMap (add_file api dirs path real)
  unfolding add_file
  add_file-IsMap dirs path real h =
      let (dir, file) = decompose_path api path in
      assign-IsMap dirs dir _
        (assign-Distinct text_discrete file _ _ (or_empty-Distinct dirs dir h)) h

  remove_file-IsMap :
      (dirs : DirMap) (path : List ℕ) → IsMap dirs → IsMap (remove_file api dirs path)
  unfolding remove_file
  remove_file-IsMap dirs path h =
      let (dir, file) = decompose_path api path in
      assign-IsMap dirs dir _ (erase-Distinct text_discrete file _ (or_empty-Distinct dirs dir h)) h

  unfoldable pub step : HookData → Call → HookData
  step s (map_global path real) = (map_file_global api s path real).0
  step s (unmap_global path) = (unmap_file_global api s path).0
  step s create = (create_file_map s).0
  step s (destroy id) = destroy_file_map s id
  step s (map_in id path real) = (map_file api s id path real).0

  unfoldable pub run : HookData → List Call → HookData
  run s [] = s
  run s (c ∷ cs) = run (step s c) cs

  map_file-IsWell :
      (s : HookData) (id : ℕ) (path real : List ℕ)
      → IsWell s
      → IsWell (map_file api s id path real).0
  unfolding map_file
  map_file-IsWell s id path real h = elim (Option-cases (lookup ℕ_discrete id s.custom_mappings)) [
    | inl e ↦ rw (e, map_file) h
    | inr (dirs, e) ↦
        rw (e, map_file)
          (record {
            global = h.global;
            custom =
                assign-Values ℕ_discrete IsMap id _ s.custom_mappings
                  (add_file-IsMap dirs path real
                    (lookup-Values ℕ_discrete IsMap id dirs s.custom_mappings h.custom e))
                  h.custom;
          })
  ]

  step-IsWell : (s : HookData) (c : Call) → IsWell s → IsWell (step s c)
  unfolding step map_file_global unmap_file_global create_file_map destroy_file_map
  step-IsWell s (map_global path real) h = record {
    global = add_file-IsMap _ path real h.global;
    custom = h.custom;
  }
  step-IsWell s (unmap_global path) h = record {
    global = remove_file-IsMap _ path h.global;
    custom = h.custom;
  }
  step-IsWell s create h = record {
    global = h.global;
    custom = insert_new-Values ℕ_discrete IsMap _ [] s.custom_mappings (tt, tt) h.custom;
  }
  step-IsWell s (destroy id) h = record {
    global = h.global;
    custom = erase-Values ℕ_discrete IsMap id s.custom_mappings h.custom;
  }
  step-IsWell s (map_in id path real) h = map_file-IsWell s id path real h

  -- No sequence of calls makes an entry stand twice in a map.
  pub run-IsWell : (s : HookData) (cs : List Call) → IsWell s → IsWell (run s cs)
  unfolding run
  run-IsWell s [] h = h
  run-IsWell s (c ∷ cs) h = run-IsWell (step s c) cs (step-IsWell s c h)

  collect-IsMap :
      (s : HookData) (ids : List ℕ) (maps : List DirMap)
      → IsWell s
      → collect_mappings s ids ≡ some maps
      → All IsMap maps
  unfolding collect_mappings
  collect-IsMap s [] maps h e = let same : [] ≡ maps = ground arith in subst (All IsMap) same tt
  collect-IsMap s (id ∷ ids) maps h e =
      elim (Option-cases (lookup ℕ_discrete id s.custom_mappings)) [
        | inl gone ↦ absurd (ground arith)
        | inr (dirs, found) ↦ elim (Option-cases (collect_mappings s ids)) [
          | inl fails ↦ absurd (ground arith)
          | inr (rest, more) ↦
              let same : dirs ∷ rest ≡ maps = ground arith in
              subst (All IsMap) same (
                lookup-Values ℕ_discrete IsMap id dirs s.custom_mappings h.custom found,
                collect-IsMap s ids rest h more,
              )
        ]
      ]

  -- A process that is started with maps that any calls have built finds a file where the last of
  -- the maps that knows it puts it, if the write succeeds and every map can be transferred: no
  -- directory is without files or without a name and none has 2 ^ 31 files, and every text has
  -- fewer than 0xFFFF characters, as the assertions of the code want it.
  pub started_process-find_file :
      (os : PipeApi) (cs : List Call) (ids : List ℕ) (maps : List DirMap) (fuel : ℕ) (p q : os.Pipe)
      (d f : List ℕ)
      → collect_mappings (run initial cs) ids ≡ some maps
      → All (All FitsDir) maps
      → os.contents p ≡ []
      → write_mappings os p maps ≡ some q
      → rounds maps < fuel
      → (m : DirMap) × (initialize os fuel q [] [] ≡ returned 0 m)
        × (find_file m d f ≡ find_in maps d f)
  unfolding find_file lookup
  started_process-find_file os cs ids maps fuel p q d f collected fits empty written enough =
      let maps_well =
        collect-IsMap _ ids maps (run-IsWell initial cs (record { global = (tt, tt); custom = tt }))
          collected in
      (
        add_maps maps [],
        initialize-write_mappings os maps fuel p q [] [] fits empty written enough,
        find_file-add_maps maps [] d f maps_well ∙ override-none (find_in maps d f),
      )
