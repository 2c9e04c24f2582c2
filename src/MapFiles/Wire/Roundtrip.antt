-- ===== src/MapFiles/Wire/Roundtrip.antt =====
-- The mapping that `Initialize` (Extensions/MapFiles/mapFiles.cpp) builds in the child process from
-- what `writeMappings` wrote in its parent.
use native.Mathlib.Nat.{suc-add, zero-add, add_assoc}
use buildpal.Prelude.{
  ℕ, suc, ◌+◌, ◌-◌, ◌^◌, ◌<◌, ◌≡◌, refl, sym, ap, ◌∙◌, some, List, [], ◌∷◌, ◌++◌, append-nil,
  append_assoc, length, All, arith,
}
use buildpal.MapFiles.Pipe.{PipeApi, count_bytes}
use buildpal.MapFiles.Mapping.{FileList, DirMap, add_file_in}
use buildpal.MapFiles.Wire.{
  returned, read_mapping, read_dir, read_files, initialize, write_mappings,
}
use buildpal.MapFiles.Wire.Frames.{
  dir_bytes, files_bytes, dirs_bytes, maps_bytes, write_mappings-bytes,
}
use buildpal.MapFiles.Wire.Read.{FitsText, read_mapping-bytes, read_dir-bytes, read_dir-end}

abbrev pub FitsFiles : FileList → Type 0
FitsFiles = All (λ e. FitsText e.0 × FitsText e.1)

-- a directory that the format can carry: with a name, not empty, and not too long
pub record FitsDir (e : List ℕ × FileList) : Type 0 where
  pub name : FitsText e.0
  pub named : 0 < length e.0
  pub files : FitsFiles e.1
  pub nonempty : 0 < length e.1
  pub few : length e.1 < 2 ^ 31

abbrev pub add_files : List ℕ → FileList → DirMap → DirMap
add_files dir [] m = m
add_files dir ((file, real) ∷ files) m = add_files dir files (add_file_in m dir file real)

abbrev pub add_dirs : DirMap → DirMap → DirMap
add_dirs [] m = m
add_dirs ((dir, files) ∷ dirs) m = add_dirs dirs (add_files dir files m)

abbrev pub add_maps : List DirMap → DirMap → DirMap
add_maps [] m = m
add_maps (dirs ∷ maps) m = add_maps maps (add_dirs dirs m)

-- the number of directories, which is the number of rounds
abbrev pub rounds : List DirMap → ℕ
rounds [] = 0
rounds (dirs ∷ maps) = length dirs + rounds maps

pub zero_count : 0 ∷ 0 ∷ 0 ∷ 0 ∷ [] ≡ count_bytes 0
unfolding count_bytes
zero_count = refl

module _ (os : PipeApi) where
  open os use {Pipe, contents}

  read_files-step :
      (n : ℕ) (p q : Pipe) (dir file real : List ℕ) (m : DirMap)
      → read_mapping os p ≡ some (file, real, q)
      → read_files os (suc n) p dir m ≡ read_files os n q dir (add_file_in m dir file real)
  unfolding read_files
  read_files-step n p q dir file real m e = ground arith

  initialize-step :
      (fuel n : ℕ) (p q r : Pipe) (old dir : List ℕ) (m m' : DirMap)
      → read_dir os p old ≡ some (record { dir_name = dir; entries = n; pipe = q })
      → 0 < n
      → read_files os n q dir m ≡ (m', some r)
      → initialize os (suc fuel) p old m ≡ initialize os fuel r dir m'
  unfolding initialize
  initialize-step fuel n p q r old dir m m' d pos f = ground arith

  pub initialize-end :
      (fuel : ℕ) (p q : Pipe) (old : List ℕ) (m : DirMap)
      → read_dir os p old ≡ some (record { dir_name = old; entries = 0; pipe = q })
      → initialize os (suc fuel) p old m ≡ returned 0 m
  unfolding initialize
  initialize-end fuel p q old m d = ground arith

  read_files-bytes :
      (files : FileList) (p : Pipe) (dir rest : List ℕ) (m : DirMap)
      → FitsFiles files
      → contents p ≡ files_bytes files ++ rest
      → (q : Pipe) × (read_files os (length files) p dir m ≡ (add_files dir files m, some q))
        × (contents q ≡ rest)
  read_files-bytes [] p dir rest m h e = (p, unfold read_files in refl, e)
  read_files-bytes ((file, real) ∷ files) p dir rest m h e =
      let (a, ra, ca) =
        read_mapping-bytes os p file real (files_bytes files ++ rest) h.0.0 h.0.1
          (e ∙ append_assoc _ (files_bytes files) rest) in
      let (q, rq, cq) = read_files-bytes files a dir rest (add_file_in m dir file real) h.1 ca in
      (q, read_files-step (length files) p a dir file real m ra ∙ rq, cq)

  pub initialize-dirs :
      (dirs : DirMap) (fuel : ℕ) (p : Pipe) (old rest : List ℕ) (m : DirMap)
      → All FitsDir dirs
      → contents p ≡ dirs_bytes dirs ++ rest
      → (q : Pipe) × (name : List ℕ) × (initialize os (length dirs + fuel) p old m
          ≡ initialize os fuel q name (add_dirs dirs m))
        × (contents q ≡ rest)
  initialize-dirs [] fuel p old rest m h e = (p, old, rw zero-add, e)
  initialize-dirs ((dir, files) ∷ dirs) fuel p old rest m h e =
      let (a, ra, ca) =
        read_dir-bytes os p dir (files_bytes files ++ (dirs_bytes dirs ++ rest)) old (length files)
          h.0.name h.0.named h.0.nonempty h.0.few
          (e
            ∙ append_assoc _ (files_bytes files ++ dirs_bytes dirs) rest
            ∙ ap (λ (t : List ℕ). dir_bytes dir (length files) ++ t)
                (append_assoc (files_bytes files) _ rest)) in
      let (b, rb, cb) = read_files-bytes files a dir (dirs_bytes dirs ++ rest) m h.0.files ca in
      let (q, name, rq, cq) = initialize-dirs dirs fuel b dir rest (add_files dir files m) h.1 cb in
      (
        q,
        name,
        rw suc-add (
            initialize-step (length dirs + fuel) (length files) p a b old dir m _ ra h.0.nonempty rb
            ∙ rq),
        cq,
      )

  initialize-maps :
      (maps : List DirMap) (fuel : ℕ) (p : Pipe) (old rest : List ℕ) (m : DirMap)
      → All (All FitsDir) maps
      → contents p ≡ maps_bytes maps ++ rest
      → (q : Pipe) × (name : List ℕ) × (initialize os (rounds maps + fuel) p old m
          ≡ initialize os fuel q name (add_maps maps m))
        × (contents q ≡ rest)
  initialize-maps [] fuel p old rest m h e = (p, old, rw zero-add, e)
  initialize-maps (dirs ∷ maps) fuel p old rest m h e =
      let (a, n, ra, ca) =
        initialize-dirs dirs (rounds maps + fuel) p old (maps_bytes maps ++ rest) m h.0
          (e ∙ append_assoc _ (maps_bytes maps) rest) in
      let (q, name, rq, cq) = initialize-maps maps fuel a n rest (add_dirs dirs m) h.1 ca in
      (q, name, rw add_assoc (ra ∙ rq), cq)

  -- The child returns 0 and adds to its mapping, in order, every file of every directory of every
  -- mapping that its parent wrote, if no directory is without files or without a name and none
  -- has 2 ^ 31 files, and every text has fewer than 0xFFFF characters, as the assertions of the code
  -- want it. One round more than there are directories is enough.
  pub initialize-write_mappings :
      (maps : List DirMap) (fuel : ℕ) (p q : Pipe) (old : List ℕ) (m : DirMap)
      → All (All FitsDir) maps
      → contents p ≡ []
      → write_mappings os p maps ≡ some q
      → rounds maps < fuel
      → initialize os fuel q old m ≡ returned 0 (add_maps maps m)
  initialize-write_mappings maps fuel p q old m h empty written enough =
      let bytes = write_mappings-bytes os maps p q written in
      let (a, n, ra, ca) =
        initialize-maps maps (suc (fuel - rounds maps - 1)) q old (count_bytes 0) m h
          (bytes ∙ rw empty (ap (λ (t : List ℕ). maps_bytes maps ++ t) zero_count)) in
      let (b, rb, cb) = read_dir-end os a [] n (ca ∙ sym (append-nil (count_bytes 0))) in
      let split : fuel ≡ rounds maps + suc (fuel - rounds maps - 1) = omega arith in
      rw split (ra ∙ initialize-end _ a b n _ rb)
