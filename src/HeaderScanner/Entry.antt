-- ===== src/HeaderScanner/Entry.antt =====
-- `ContentEntry::create` of Extensions/HeaderScanner/contentEntry_.hpp and contentEntry_.cpp: a file
-- is read, and its text converted and summed up.
pub mod Checksum
pub mod Encoding
pub mod Create
use buildpal.Prelude.{ℕ, Option, none, some, List, [], ◌∷◌, length}
use buildpal.HeaderScanner.Entry.Checksum.{bsc_adler32}
use buildpal.HeaderScanner.Entry.Encoding.{
  Converted, unchanged, converted, undefined, convert_encoding,
}

-- `llvm::ErrorOr`
pub data ErrorOr {ℓ} (A : Type ℓ) : Type ℓ where
  value : A → ErrorOr A
  error : ℕ → ErrorOr A

-- what is used of `llvm::sys::fs::file_status`
pub record FileInfo : Type 0 where
  pub file_size : ℕ
  pub unique_id : ℕ
  pub modified : ℕ

-- the functions of LLVM and of the run time; `close` returns the error, if there is one
pub record FileSystem : Type 0 where
  pub open_for_read : List ℕ → ErrorOr ℕ
  pub status : ℕ → ErrorOr FileInfo
  pub read : ℕ → ℕ → ErrorOr (List ℕ)
  pub close : ℕ → Option ℕ
  pub to_bytes : List ℕ → List ℕ

pub record ContentEntry : Type 0 where
  pub name : List ℕ
  pub buffer : List ℕ
  pub checksum : ℕ
  pub status_size : ℕ
  pub info : FileInfo

-- `broken` is a conversion without defined behaviour
pub data Created : Type 0 where
  created : ContentEntry → Created
  failed : ℕ → Created
  broken : Created

module _ (sys : FileSystem) where
  -- the entry for a buffer
  unfoldable pub new_entry : List ℕ → FileInfo → List ℕ → Created
  new_entry path info buffer = created (record {
    name = path;
    buffer = buffer;
    checksum = bsc_adler32 buffer;
    status_size = length buffer;
    info = info;
  })

  unfoldable pub convert : List ℕ → FileInfo → List ℕ → Created
  unfolding new_entry
  convert path info buffer = elim (convert_encoding sys.to_bytes buffer) [
    | unchanged ↦ new_entry path info buffer
    | converted utf8 ↦ new_entry path info utf8
    | undefined ↦ broken
  ]

  -- the file is open: the result, and the descriptors for which `_close` is called, by the function
  -- and then by its guard
  unfoldable pub open_status : List ℕ → ℕ → FileInfo → Created × List ℕ
  unfolding convert
  open_status path fd info = elim (sys.read fd info.file_size) [
    | error code ↦ (failed code, fd ∷ [])
    | value buffer ↦ elim (sys.close fd) [
      | some code ↦ (failed code, fd ∷ fd ∷ [])
      | none ↦ (convert path info buffer, fd ∷ [])
    ]
  ]

  unfoldable pub create : List ℕ → Created × List ℕ
  unfolding open_status
  create path = elim (sys.open_for_read path) [
    | error code ↦ (failed code, [])
    | value fd ↦ elim (sys.status fd) [
      | error code ↦ (failed code, fd ∷ [])
      | value info ↦ open_status path fd info
    ]
  ]
