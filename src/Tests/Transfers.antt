-- ===== src/Tests/Transfers.antt =====
-- Numbered mappings of Extensions/MapFiles/mapFiles.cpp, and their transfer.
use buildpal.Prelude.{
  ℕ, take, drop, ◌≡◌, refl, some, List, [], ◌∷◌, ◌++◌, arith, units, text_discrete,
}
use buildpal.Prelude.Assoc.{lookup, assign, insert_new}
use buildpal.MapFiles.Paths.{decompose_path, normalize_path}
use buildpal.MapFiles.Pipe.{count_bytes, size_bytes, wide_bytes}
use buildpal.MapFiles.Mapping.{DirMap, FileList, add_file, find_file}
use buildpal.MapFiles.Wire.{returned, initialize, write_mappings}
use buildpal.MapFiles.Wire.Frames.{maps_bytes}
use buildpal.MapFiles.Wire.Roundtrip.{FitsDir, add_maps, initialize-write_mappings}
use buildpal.MapFiles.Wire.Rebuilt.{find_in}
use buildpal.MapFiles.Maps.{HookData, initial, create_file_map, map_file, collect_mappings}
use buildpal.MapFiles.Maps.Ids.{IsCounted}
use buildpal.MapFiles.Maps.Calls.{
  IsWell, Call, create, map_in, step, run, run-IsWell, started_process-find_file,
}
use buildpal.Tests.Systems.{paths, pipe}

abbrev inc : List ℕ × FileList
inc = (units "c:\\inc\\", (units "a.h", units "\\??\\D:\\1") ∷ [])

inc-FitsDir : FitsDir inc
inc-FitsDir = record {
  name = record { wide = ground arith; short = omega arith };
  files = (
    (
      record { wide = ground arith; short = omega arith },
      record { wide = ground arith; short = omega arith },
    ),
    tt,
  );
  named = omega arith;
  nonempty = omega arith;
  few = omega arith;
}

abbrev inc_map : DirMap
inc_map = inc ∷ []

abbrev written : List DirMap → List ℕ
written maps = maps_bytes maps ++ 0 ∷ 0 ∷ 0 ∷ 0 ∷ []

written_inc : write_mappings pipe [] (inc_map ∷ []) ≡ some (written (inc_map ∷ []))
unfolding write_mappings count_bytes size_bytes wide_bytes
written_inc = refl

initialize-write_mappings_example :
    initialize pipe 2 (written (inc_map ∷ [])) [] [] ≡ returned 0 (add_maps (inc_map ∷ []) [])
initialize-write_mappings_example =
    initialize-write_mappings pipe (inc_map ∷ []) 2 [] (written (inc_map ∷ [])) [] []
      ((inc-FitsDir, tt), tt) refl written_inc (omega arith)

-- an empty directory between two directories
abbrev with_gap : DirMap
with_gap = inc ∷ (units "c:\\gone\\", []) ∷ (units "d:\\", inc.1) ∷ []

written_gap : write_mappings pipe [] (with_gap ∷ []) ≡ some (written (with_gap ∷ []))
unfolding write_mappings count_bytes size_bytes wide_bytes
written_gap = refl

abbrev calls : List Call
calls = create ∷ map_in 1 (units "C:/Inc/a.h") (units "D:\\1") ∷ []

collected : collect_mappings (run paths initial calls) (1 ∷ []) ≡ some (inc_map ∷ [])
unfolding run step collect_mappings create_file_map map_file add_file decompose_path normalize_path
    assign lookup insert_new take drop text_discrete
collected = refl

started_process-find_file_example :
    (m : DirMap) × (initialize pipe 2 (written (inc_map ∷ [])) [] [] ≡ returned 0 m)
    × (find_file m (units "c:\\inc\\") (units "a.h")
        ≡ find_in (inc_map ∷ []) (units "c:\\inc\\") (units "a.h"))
started_process-find_file_example =
    started_process-find_file paths pipe calls (1 ∷ []) (inc_map ∷ []) 2 [] (written (inc_map ∷ []))
      (units "c:\\inc\\") (units "a.h") collected ((inc-FitsDir, tt), tt) refl written_inc
      (omega arith)

run-IsWell_example : IsWell (run paths initial calls)
run-IsWell_example = run-IsWell paths initial calls (record { global = (tt, tt); custom = tt })

initial-IsCounted : IsCounted initial
initial-IsCounted = record { known = λ id dirs e. unfold lookup in cc }

-- map 0 is there, and the counter is about to wrap around
abbrev about_to_wrap : HookData
about_to_wrap = record {
  global_mapping = [];
  custom_mappings = (0, inc_map) ∷ [];
  counter = 0xFFFFFFFF;
}
