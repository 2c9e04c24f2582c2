-- ===== src/MapFiles/Wire/Read.antt =====
-- What `readDir` and `readMapping` (Extensions/MapFiles/mapFiles.cpp) read from the bytes that
-- `writeDir` and `writeMapping` write.
use buildpal.Prelude.{
  ℕ, ◌+◌, ◌*◌, ◌^◌, ◌<◌, ◌≡◌, refl, ap, ◌∙◌, some, List, ◌++◌, append_assoc, length, All, arith,
}
use buildpal.MapFiles.Pipe.{
  PipeApi, count_bytes, size_bytes, wide_bytes, byte, IsUnit, from-wide_bytes, length-wide_bytes,
  read-count_bytes, read-size_bytes,
}
use buildpal.MapFiles.Wire.{read_dir, read_mapping}
use buildpal.MapFiles.Wire.Frames.{dir_bytes, mapping_bytes}

-- a text that the assertions let through
pub record FitsText (cs : List ℕ) : Type 0 where
  pub wide : All IsUnit cs
  pub short : length cs < 0xFFFF

wider : {n : ℕ} → n < 0xFFFF → n < 2 ^ 16
wider h = omega arith

module _ (os : PipeApi) where
  open os use {Pipe, contents, read_file, read_takes}

  -- a text behind its length, `size` characters that are read as `size * 2` bytes
  read_text :
      (p : Pipe) (cs rest : List ℕ) (size : ℕ)
      → size ≡ length cs
      → contents p ≡ wide_bytes cs ++ rest
      → (q : Pipe) × (read_file p (size * 2) ≡ some (wide_bytes cs, q)) × (contents q ≡ rest)
  read_text p cs rest size e h =
      let bytes : size * 2 ≡ length (wide_bytes cs) = omega (arith, length-wide_bytes cs) in
      rw bytes (read_takes p (wide_bytes cs) rest h)

  first_size :
      (m n : ℕ)
      → m < 2 ^ 16
      → byte 1 (size_bytes m ++ size_bytes n) * 256 + byte 0 (size_bytes m ++ size_bytes n) ≡ m
  unfolding size_bytes
  first_size m n h = omega arith

  second_size :
      (m n : ℕ)
      → n < 2 ^ 16
      → byte 3 (size_bytes m ++ size_bytes n) * 256 + byte 2 (size_bytes m ++ size_bytes n) ≡ n
  unfolding size_bytes
  second_size m n h = omega arith

  length-both : (m n : ℕ) → length (size_bytes m ++ size_bytes n) ≡ 4
  unfolding size_bytes
  length-both m n = refl

  pub read_mapping-bytes :
      (p : Pipe) (first second rest : List ℕ)
      → FitsText first
      → FitsText second
      → contents p ≡ mapping_bytes first second ++ rest
      → (q : Pipe) × (read_mapping os p ≡ some (first, second, q)) × (contents q ≡ rest)
  unfolding read_mapping
  read_mapping-bytes p first second rest hf hs e =
      let sizes = size_bytes (length first) ++ size_bytes (length second) in
      let (a, ra, ca) = read_takes p sizes (wide_bytes first ++ (wide_bytes second ++ rest)) (
        e
        ∙ append_assoc sizes _ rest
        ∙ ap (λ (t : List ℕ). sizes ++ t) (append_assoc (wide_bytes first) _ rest)) in
      let (b, rb, cb) =
        read_text a first (wide_bytes second ++ rest) _
          (first_size (length first) (length second) (wider hf.short)) ca in
      let (c, rc, last) =
        read_text b second rest _ (second_size (length first) (length second) (wider hs.short))
          cb in
      let header : read_file p 4 ≡ some (sizes, a) =
        rw (← length-both (length first) (length second)) ra in
      (
        c,
        rw (header, rb, rc) (rw (from-wide_bytes first hf.wide, from-wide_bytes second hs.wide)),
        last,
      )

  length-count : (n : ℕ) → length (count_bytes n) ≡ 4
  unfolding count_bytes
  length-count n = refl

  length-size : (n : ℕ) → length (size_bytes n) ≡ 2
  unfolding size_bytes
  length-size n = refl

  pub read_dir-bytes :
      (p : Pipe) (dir rest old : List ℕ) (n : ℕ)
      → FitsText dir
      → 0 < length dir
      → 0 < n
      → n < 2 ^ 31
      → contents p ≡ dir_bytes dir n ++ rest
      → (q : Pipe) × (read_dir os p old ≡ some (record { dir_name = dir; entries = n; pipe = q }))
        × (contents q ≡ rest)
  unfolding read_dir
  read_dir-bytes p dir rest old n hd named pos small e =
      let (a, ra, ca) =
        read_takes p (count_bytes n) (size_bytes (length dir) ++ (wide_bytes dir ++ rest)) (
          e
          ∙ append_assoc (count_bytes n) _ rest
          ∙ ap (λ (t : List ℕ). count_bytes n ++ t)
              (append_assoc (size_bytes (length dir)) _ rest)) in
      let (b, rb, cb) = read_takes a (size_bytes (length dir)) (wide_bytes dir ++ rest) ca in
      let size = read-size_bytes (length dir) (wider hd.short) in
      let (c, rc, last) = read_text b dir rest _ size cb in
      let header : read_file p 4 ≡ some (count_bytes n, a) = rw (← length-count n) ra in
      let header2 : read_file a 2 ≡ some (size_bytes (length dir), b) =
        rw (← length-size (length dir)) rb in
      (
        c,
        ground (
          arith,
          header,
          read-count_bytes n small,
          header2,
          size,
          named,
          rc,
          from-wide_bytes dir hd.wide,
        ),
        last,
      )

  -- no entries: nothing but the count is read
  pub read_dir-end :
      (p : Pipe) (rest old : List ℕ)
      → contents p ≡ count_bytes 0 ++ rest
      → (q : Pipe) × (read_dir os p old ≡ some (record { dir_name = old; entries = 0; pipe = q }))
        × (contents q ≡ rest)
  unfolding read_dir
  read_dir-end p rest old e =
      let (a, ra, ca) = read_takes p (count_bytes 0) rest e in
      let header : read_file p 4 ≡ some (count_bytes 0, a) = rw (← length-count 0) ra in
      (a, ground (arith, header, read-count_bytes 0 (omega arith)), ca)
