-- ===== src/MapFiles/Wire/Frames.antt =====
-- The bytes that `writeMappings` (Extensions/MapFiles/mapFiles.cpp) puts into the pipe.
use buildpal.Prelude.{
  ℕ, ◌≡◌, refl, ap, ◌∙◌, Bool, true, false, Option, none, some, List, [], ◌∷◌, ◌++◌, append-nil,
  append_assoc, length, arith,
}
use buildpal.MapFiles.Pipe.{PipeApi, ◌>>=◌, count_bytes, size_bytes, wide_bytes}
use buildpal.MapFiles.Mapping.{FileList, DirMap}
use buildpal.MapFiles.Wire.{
  assert, write_dir, write_mapping, write_files, write_dirs, write_maps, write_mappings,
}

abbrev pub dir_bytes : List ℕ → ℕ → List ℕ
dir_bytes dir entries = count_bytes entries ++ (size_bytes (length dir) ++ wide_bytes dir)

abbrev pub mapping_bytes : List ℕ → List ℕ → List ℕ
mapping_bytes first second =
    (size_bytes (length first) ++ size_bytes (length second))
    ++ (wide_bytes first ++ wide_bytes second)

abbrev pub files_bytes : FileList → List ℕ
files_bytes [] = []
files_bytes ((file, real) ∷ files) = mapping_bytes file real ++ files_bytes files

abbrev pub dirs_bytes : DirMap → List ℕ
dirs_bytes [] = []
dirs_bytes ((dir, files) ∷ dirs) =
    dir_bytes dir (length files) ++ (files_bytes files ++ dirs_bytes dirs)

abbrev pub maps_bytes : List DirMap → List ℕ
maps_bytes [] = []
maps_bytes (dirs ∷ maps) = dirs_bytes dirs ++ maps_bytes maps

>>=-some {ℓ κ} :
    {A : Type ℓ} {B : Type κ} (m : Option A) (f : A → Option B) {b : B}
    → (m >>= f) ≡ some b
    → (a : A) × (m ≡ some a) × (f a ≡ some b)
>>=-some none f e = cc
>>=-some (some a) f e = (a, refl, e)

module _ (os : PipeApi) where
  open os use {Pipe, contents, write_file, write_appends}

  -- `m` appends the bytes, if it does not fail
  abbrev Appends : Pipe → Option Pipe → List ℕ → Type 0
  Appends p m bytes = (q : Pipe) → m ≡ some q → contents q ≡ contents p ++ bytes

  then :
      (p : Pipe) (m : Option Pipe) (f : Pipe → Option Pipe) (xs ys : List ℕ)
      → Appends p m xs
      → ((q : Pipe) → Appends q (f q) ys)
      → Appends p (m >>= f) (xs ++ ys)
  then p m f xs ys first second q e =
      let (a, ea, eb) = >>=-some m f e in
      second a q eb ∙ ap (λ (t : List ℕ). t ++ ys) (first a ea) ∙ append_assoc (contents p) xs ys

  write : (bytes : List ℕ) (p : Pipe) → Appends p (write_file p bytes) bytes
  write bytes p q e = write_appends p bytes q e

  asserted :
      (p : Pipe) (b : Bool) (m : Option Pipe) (xs : List ℕ)
      → Appends p m xs
      → Appends p (assert b m) xs
  unfolding assert
  asserted p true m xs h = h
  asserted p false m xs h = λ q e. cc

  write_dir-bytes :
      (dir : List ℕ) (n : ℕ) (p : Pipe) → Appends p (write_dir os p dir n) (dir_bytes dir n)
  unfolding write_dir
  write_dir-bytes dir n p = then p _ _ _ _ (write (count_bytes n) p) (λ a.
      asserted a _ _ _
        (then a _ _ _ _ (write (size_bytes (length dir)) a) (write (wide_bytes dir))))

  write_mapping-bytes :
      (f r : List ℕ) (p : Pipe) → Appends p (write_mapping os p f r) (mapping_bytes f r)
  unfolding write_mapping
  write_mapping-bytes f r p = asserted p _ _ _ (
      then p _ _ _ _ (write (size_bytes (length f) ++ size_bytes (length r)) p)
        (λ a. then a _ _ _ _ (write (wide_bytes f) a) (write (wide_bytes r))))

  write_nothing : (p : Pipe) → Appends p (some p) []
  write_nothing p q e = ground (arith, append-nil (contents p))

  write_files-bytes :
      (files : FileList) (p : Pipe) → Appends p (write_files os p files) (files_bytes files)
  unfolding write_files
  write_files-bytes [] p = write_nothing p
  write_files-bytes ((f, r) ∷ files) p =
      then p _ _ _ _ (write_mapping-bytes f r p) (write_files-bytes files)

  write_dirs-bytes : (dirs : DirMap) (p : Pipe) → Appends p (write_dirs os p dirs) (dirs_bytes dirs)
  unfolding write_dirs
  write_dirs-bytes [] p = write_nothing p
  write_dirs-bytes ((dir, files) ∷ dirs) p =
      then p _ _ _ _ (write_dir-bytes dir (length files) p)
        (λ a. then a _ _ _ _ (write_files-bytes files a) (write_dirs-bytes dirs))

  write_maps-bytes :
      (maps : List DirMap) (p : Pipe) → Appends p (write_maps os p maps) (maps_bytes maps)
  unfolding write_maps
  write_maps-bytes [] p = write_nothing p
  write_maps-bytes (dirs ∷ maps) p =
      then p _ _ _ _ (write_dirs-bytes dirs p) (write_maps-bytes maps)

  pub write_mappings-bytes :
      (maps : List DirMap) (p q : Pipe)
      → write_mappings os p maps ≡ some q
      → contents q ≡ contents p ++ (maps_bytes maps ++ 0 ∷ 0 ∷ 0 ∷ 0 ∷ [])
  unfolding write_mappings
  write_mappings-bytes maps p =
      then p _ _ _ _ (write_maps-bytes maps p) (write (0 ∷ 0 ∷ 0 ∷ 0 ∷ []))
