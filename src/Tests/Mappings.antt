-- ===== src/Tests/Mappings.antt =====
-- File mappings of Extensions/MapFiles/mapFiles.cpp.
use buildpal.Prelude.{
  ℕ, ◌≡◌, refl, false, some, List, [], ◌∷◌, take, drop, arith, units, ite, text_discrete,
}
use buildpal.Prelude.Assoc.{lookup, assign}
use buildpal.MapFiles.Paths.{decompose_path, normalize_path}
use buildpal.MapFiles.Mapping.{DirMap, add_file, real_file, get_dir, dir_key}
use buildpal.MapFiles.Mapping.Lookup.{as_unicode, real_file-add_file}
use buildpal.MapFiles.Hooks.{
  Created, Queried, fake_handle, fake, is_device_path, file_name, nt_create_file,
  nt_query_full_attributes_file,
}
use buildpal.MapFiles.Hooks.Redirect.{device_path, open_mapped, nt_create_file-restores}
use buildpal.Tests.Systems.{paths}

-- the mapping with one file
abbrev one_file : DirMap
one_file = (units "c:\\inc\\", (units "a.h", units "\\??\\D:\\1") ∷ []) ∷ []

add_file_test : add_file paths [] (units "C:/Inc/a.h") (units "D:\\1") ≡ one_file
unfolding add_file decompose_path normalize_path assign lookup take drop
add_file_test = refl

real_file-add_file_example :
    real_file paths (add_file paths [] (units "C:/Inc/a.h") (units "D:\\1")) (units "c:\\INC\\a.h")
    ≡ ite
        (text_discrete
          (decompose_path paths (units "c:\\INC\\a.h")).0
          (decompose_path paths (units "C:/Inc/a.h")).0)
        (ite
          (text_discrete
            (decompose_path paths (units "c:\\INC\\a.h")).1
            (decompose_path paths (units "C:/Inc/a.h")).1)
          (as_unicode (some (units "\\??\\D:\\1")))
          (real_file paths [] (units "c:\\INC\\a.h")))
        (real_file paths [] (units "c:\\INC\\a.h"))
real_file-add_file_example =
    real_file-add_file paths [] (units "C:/Inc/a.h") (units "D:\\1") (units "c:\\INC\\a.h")

inc_key : dir_key paths (units "C:/Inc") ≡ some (decompose_path paths (units "C:/Inc/a.h")).0
unfolding dir_key decompose_path normalize_path take
inc_key = refl

not_a_dir :
    get_dir paths (add_file paths [] (units "C:/Inc/a.h") (units "D:\\1")) (units "C:/Inc/a.h")
    ≡ some false
unfolding get_dir add_file decompose_path normalize_path assign lookup take drop text_discrete
not_a_dir = refl

open_mapped_example :
    (nt_create_file paths
        (add_file paths [] (units "C:/Inc/a.h") (units "D:\\1"))
        (some (device_path (units "C:/Inc/a.h")))
      ≡ Created.forwarded
          (as_unicode (some (units "\\??\\D:\\1")))
          (some (device_path (units "C:/Inc/a.h"))))
    × (nt_query_full_attributes_file paths
          (add_file paths [] (units "C:/Inc/a.h") (units "D:\\1"))
          (some (device_path (units "C:/Inc/a.h")))
        ≡ Queried.forwarded
            (as_unicode (some (units "\\??\\D:\\1")))
            (some (device_path (units "C:/Inc/a.h"))))
open_mapped_example =
    open_mapped paths [] (units "C:/Inc/a.h") (units "D:\\1") (omega arith) not_a_dir

forwarded_elsewhere :
    nt_create_file paths one_file (some (device_path (units "C:/x")))
    ≡ Created.forwarded (some (device_path (units "C:/x"))) (some (device_path (units "C:/x")))
unfolding nt_create_file is_device_path file_name get_dir real_file decompose_path normalize_path
    lookup take drop text_discrete
forwarded_elsewhere = refl

nt_create_file-restores_example :
    some (device_path (units "C:/x")) ≡ some (device_path (units "C:/x"))
nt_create_file-restores_example =
    nt_create_file-restores paths one_file (some (device_path (units "C:/x")))
      (some (device_path (units "C:/x"))) (some (device_path (units "C:/x"))) forwarded_elsewhere

open_inc : nt_create_file paths one_file (some (device_path (units "C:/Inc"))) ≡ fake_handle fake 4
unfolding nt_create_file is_device_path file_name get_dir normalize_path lookup take drop
    text_discrete
open_inc = refl

abbrev plain : List ℕ
plain = units "C:\\Inc"
