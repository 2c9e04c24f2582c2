-- ===== src/HeaderScanner/Entry/Create.antt =====
-- What `ContentEntry::create` of Extensions/HeaderScanner/contentEntry_.cpp makes of a file.
use buildpal.Prelude.{ℕ, ◌≡◌, refl, none, List, [], ◌∷◌, length, arith, text_discrete, take, drop}
use buildpal.HeaderScanner.Entry.{
  value, FileInfo, FileSystem, created, new_entry, convert, open_status, create,
}
use buildpal.HeaderScanner.Entry.Checksum.Adler.{adler32, IsAscii, bsc_adler32-adler32}
use buildpal.HeaderScanner.Entry.Encoding.{unchanged, starts_with, convert_encoding}

ascii-unchanged :
    (to_bytes : List ℕ → List ℕ) (bytes : List ℕ)
    → IsAscii bytes
    → convert_encoding to_bytes bytes ≡ unchanged
unfolding convert_encoding starts_with text_discrete take drop
ascii-unchanged to_bytes [] h = refl
ascii-unchanged to_bytes (a ∷ []) h = ground (arith, h.0)
ascii-unchanged to_bytes (a ∷ b ∷ bytes) h = ground (arith, h.0, h.1)

module _ (sys : FileSystem) where
  convert-ascii :
      (path : List ℕ) (info : FileInfo) (bytes : List ℕ)
      → IsAscii bytes
      → convert sys path info bytes
        ≡ created (record {
          name = path;
          buffer = bytes;
          checksum = adler32 bytes;
          status_size = length bytes;
          info = info;
        })
  unfolding convert new_entry
  convert-ascii path info bytes h =
      ground (arith, ascii-unchanged sys.to_bytes bytes h, bsc_adler32-adler32 bytes h)

  -- An ASCII file that is opened, read and closed without an error has an entry with its bytes,
  -- their Adler-32 checksum and their number; and its descriptor is closed once.
  pub create-ascii :
      (path : List ℕ) (fd : ℕ) (info : FileInfo) (bytes : List ℕ)
      → sys.open_for_read path ≡ value fd
      → sys.status fd ≡ value info
      → sys.read fd info.file_size ≡ value bytes
      → sys.close fd ≡ none
      → IsAscii bytes
      → create sys path ≡ (
        created (record {
          name = path;
          buffer = bytes;
          checksum = adler32 bytes;
          status_size = length bytes;
          info = info;
        }),
        fd ∷ [],
      )
  unfolding create open_status
  create-ascii path fd info bytes opens knows reads closes h =
      ground (arith, opens, knows, reads, closes, convert-ascii path info bytes h)
