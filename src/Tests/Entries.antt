-- ===== src/Tests/Entries.antt =====
-- Entries of Extensions/HeaderScanner/contentEntry_.cpp.
use buildpal.Prelude.{◌≡◌, refl, none, [], ◌∷◌, arith, units}
use buildpal.HeaderScanner.Entry.{value, FileInfo, FileSystem, created, create}
use buildpal.HeaderScanner.Entry.Create.{create-ascii}
use buildpal.HeaderScanner.Entry.Checksum.{bsc_adler32}
use buildpal.HeaderScanner.Entry.Checksum.Adler.{adler32, add_byte, bsc_adler32-adler32}
use buildpal.HeaderScanner.Entry.Encoding.Units.{sign_extended}

bsc_adler32-adler32_example : bsc_adler32 (units "Wikipedia") ≡ adler32 (units "Wikipedia")
bsc_adler32-adler32_example = bsc_adler32-adler32 (units "Wikipedia") (ground arith)

-- the checksum that is known of this text
adler32_wikipedia : adler32 (units "Wikipedia") ≡ 0x11E60398
unfolding adler32 add_byte
adler32_wikipedia = refl

sign_extended_umlaut : sign_extended 0xE4 ≡ 0xFFE4
unfolding sign_extended
sign_extended_umlaut = refl

abbrev info : FileInfo
info = record { file_size = 2; unique_id = 5; modified = 6 }

-- files that hold "ab"
abbrev files : FileSystem
files = record {
  open_for_read = λ path. value 3;
  status = λ fd. value info;
  read = λ fd size. value (units "ab");
  close = λ fd. none;
  to_bytes = λ us. us;
}

create-ascii_example : create files (units "a.h") ≡ (
  created (record {
    name = units "a.h";
    buffer = units "ab";
    checksum = adler32 (units "ab");
    status_size = 2;
    info = info;
  }),
  3 ∷ [],
)
create-ascii_example =
    create-ascii files (units "a.h") 3 info (units "ab") refl refl refl refl (ground arith)
