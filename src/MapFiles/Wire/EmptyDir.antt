-- ===== src/MapFiles/Wire/EmptyDir.antt =====
-- What an empty directory does to the transfer of mappings of Extensions/MapFiles/mapFiles.cpp.
use buildpal.Prelude.{
  ℕ, suc, ◌+◌, ◌-◌, ◌<◌, ◌≡◌, refl, ◌∙◌, some, List, [], ◌∷◌, ◌++◌, append_assoc, length, All,
  arith,
}
use buildpal.MapFiles.Pipe.{PipeApi, count_bytes, size_bytes, wide_bytes}
use buildpal.MapFiles.Mapping.{DirMap}
use buildpal.MapFiles.Wire.{returned, initialize, write_mappings}
use buildpal.MapFiles.Wire.Frames.{dirs_bytes, maps_bytes, write_mappings-bytes}
use buildpal.MapFiles.Wire.Read.{read_dir-end}
use buildpal.MapFiles.Wire.Roundtrip.{FitsDir, add_dirs, initialize-dirs, initialize-end}

dirs_bytes-append : (a b : DirMap) → dirs_bytes (a ++ b) ≡ dirs_bytes a ++ dirs_bytes b
dirs_bytes-append [] b = refl
dirs_bytes-append ((dir, files) ∷ a) b = simp (dirs_bytes-append a b, append_assoc)

module _ (os : PipeApi) where
  open os use {Pipe, contents}

  -- A directory without files ends the transfer: what stands behind it, in its own mapping and in
  -- the others, never reaches the child, which returns 0 all the same.
  pub initialize-empty_dir :
      (before after : DirMap) (dir : List ℕ) (maps : List DirMap) (fuel : ℕ) (p q : Pipe)
      (old : List ℕ) (m : DirMap)
      → All FitsDir before
      → contents p ≡ []
      → write_mappings os p ((before ++ (dir, []) ∷ after) ∷ maps) ≡ some q
      → length before < fuel
      → initialize os fuel q old m ≡ returned 0 (add_dirs before m)
  initialize-empty_dir before after dir maps fuel p q old m h empty written enough =
      let behind =
        (size_bytes (length dir) ++ wide_bytes dir)
        ++ (dirs_bytes after ++ (maps_bytes maps ++ 0 ∷ 0 ∷ 0 ∷ 0 ∷ [])) in
      let (a, n, ra, ca) =
        initialize-dirs os before (suc (fuel - length before - 1)) q old (count_bytes 0 ++ behind) m
          h
          (write_mappings-bytes os _ p q written ∙ simp (empty, dirs_bytes-append, append_assoc)) in
      let (b, rb, cb) = read_dir-end os a behind n ca in
      let split : fuel ≡ length before + suc (fuel - length before - 1) = omega arith in
      rw split (ra ∙ initialize-end os _ a b n _ rb)
