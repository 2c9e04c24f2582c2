-- ===== src/MapFiles/Maps.antt =====
-- The exported functions of Extensions/MapFiles/mapFiles.cpp: the global mapping, and the numbered
-- mappings for the processes that are started. The narrow variants convert their texts and then do
-- the same. `BOOL` results are Booleans.
pub mod Ids
pub mod Calls
use buildpal.Prelude.{
  ℕ, ◌+◌, ◌%◌, ◌^◌, Bool, true, false, Option, none, some, List, [], ◌∷◌, ℕ_discrete,
}
use buildpal.Prelude.Assoc.{Assoc, lookup, assign, insert_new, erase}
use buildpal.MapFiles.Paths.{PathApi}
use buildpal.MapFiles.Mapping.{DirMap, add_file, remove_file}

-- `MapFilesAPIHookData`
pub record HookData : Type 0 where
  pub global_mapping : DirMap
  pub custom_mappings : Assoc ℕ DirMap
  pub counter : ℕ

-- as a static object: zero before it is constructed
abbrev pub initial : HookData
initial = record { global_mapping = []; custom_mappings = []; counter = 0 }

-- `data.customMappings[ data.counter ];` makes an empty mapping where there is none
unfoldable pub create_file_map : HookData → HookData × ℕ
create_file_map s =
    let id = (s.counter + 1) % 2 ^ 32 in
    (record s { custom_mappings = insert_new ℕ_discrete id [] s.custom_mappings; counter = id }, id)

unfoldable pub destroy_file_map : HookData → ℕ → HookData
destroy_file_map s id = record s { custom_mappings = erase ℕ_discrete id s.custom_mappings }

-- the mappings of a process that is started, unless a number is unknown
unfoldable pub collect_mappings : HookData → List ℕ → Option (List DirMap)
collect_mappings s [] = some []
collect_mappings s (id ∷ ids) = elim (lookup ℕ_discrete id s.custom_mappings) [
  | none ↦ none
  | some dirs ↦ elim (collect_mappings s ids) [ none ↦ none | some maps ↦ some (dirs ∷ maps) ]
]

module _ (api : PathApi) where
  unfoldable pub map_file_global : HookData → List ℕ → List ℕ → HookData × Bool
  map_file_global s virtual_file file =
      (record s { global_mapping = add_file api s.global_mapping virtual_file file }, true)

  unfoldable pub unmap_file_global : HookData → List ℕ → HookData × Bool
  unmap_file_global s virtual_file =
      (record s { global_mapping = remove_file api s.global_mapping virtual_file }, true)

  unfoldable pub map_file : HookData → ℕ → List ℕ → List ℕ → HookData × Bool
  map_file s map virtual_file file = elim (lookup ℕ_discrete map s.custom_mappings) [
    | none ↦ (s, false)
    | some dirs ↦ (
      record s {
        custom_mappings =
            assign ℕ_discrete map (add_file api dirs virtual_file file) s.custom_mappings;
      },
      true,
    )
  ]

-- `originalProc` of the original CreateProcess, and `hookProcess`, which hands the mappings over to
-- the new process
pub data Started : Type 0 where
  refused : Started
  not_created : Started
  created : List DirMap → Bool → Started

abbrev pub create_suspended : ℕ
create_suspended = 4

-- `createProcessWithMapping`: `create` is the result of the original CreateProcess, which is called
-- with CREATE_SUSPENDED; the new process is resumed if the caller's flags lack it
unfoldable pub create_process_with_mapping : HookData → List ℕ → Bool → Bool → Started
create_process_with_mapping s ids suspended create = elim (collect_mappings s ids) [
  | none ↦ refused
  | some maps ↦ elim create [
    | false ↦ not_created
    | true ↦ created maps (elim suspended [ true ↦ false | false ↦ true ])
  ]
]
