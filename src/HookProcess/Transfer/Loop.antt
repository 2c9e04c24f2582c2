-- ===== src/HookProcess/Transfer/Loop.antt =====
-- What `Initialize` of Extensions/Client/hookProcess.cpp reads of what `hookProcess` wrote.
use buildpal.Prelude.{
  ℕ, ◌<◌, true, false, ◌≡◌, ◌≢◌, refl, sym, ap, ◌∙◌, Option, List, [], ◌∷◌, ◌++◌, append_assoc,
  append-nil, length, All, arith,
}
use buildpal.HookProcess.Compilers.{FileStatus, CompilerDescription, FileMap, register_file}
use buildpal.HookProcess.Transfer.{file_bytes, Reading, Round, take_data, at_nul, scan_buffer}

abbrev pub IsText : List ℕ → Type 0
IsText = All (λ c. c ≢ 0)

-- a compiler that the format can carry
pub record FitsCompiler (e : FileStatus × CompilerDescription) : Type 0 where
  pub path : IsText e.1.compiler_path
  pub named : 0 < length e.1.compiler_path
  pub replacement : IsText e.1.replacement

abbrev pub start : FileMap → List ℕ → Reading
start files port_name = record {
  reading_port_name = false;
  reading_replacement = false;
  finished = false;
  files = files;
  port_name = port_name;
}

module _ (unique_id : List ℕ → Option FileStatus) where
  scan-text :
      (t rest : List ℕ) (r : Reading) (l : Round)
      → IsText t
      → scan_buffer unique_id (t ++ rest) r l
        ≡ scan_buffer unique_id rest r (record l { segment = l.segment ++ t })
  unfolding scan_buffer
  scan-text [] rest r l h =
      ap (λ (s : List ℕ). scan_buffer unique_id rest r (record l { segment = s }))
        (sym (append-nil l.segment))
  scan-text (c ∷ t) rest r l h = ground (
    arith,
    h.0,
    scan-text t rest r (record l { segment = l.segment ++ c ∷ [] }) h.1,
    append_assoc l.segment (c ∷ []) t,
  )

  -- the compilers that the process knows when it has read all of them
  unfoldable pub register_all : FileMap → FileMap → FileMap
  register_all known [] = known
  register_all known ((status, desc) ∷ files) =
      register_all (register_file unique_id known desc.compiler_path desc.replacement) files

  replacement-nul :
      (replacement rest path port : List ℕ) (known : FileMap)
      → scan_buffer unique_id
          (0 ∷ rest)
          (record (start known port) { reading_replacement = true })
          (record { remainder = []; compiler_path = path; segment = replacement })
        ≡ scan_buffer unique_id rest
            (start (register_file unique_id known path replacement) port)
            (record { remainder = []; compiler_path = path; segment = [] })
  unfolding scan_buffer at_nul take_data
  replacement-nul [] rest path port known = refl
  replacement-nul (c ∷ cs) rest path port known = refl

  scan-file :
      (path replacement rest : List ℕ) (known : FileMap) (port old : List ℕ)
      → IsText path
      → 0 < length path
      → IsText replacement
      → scan_buffer unique_id
          (path ++ (0 ∷ (replacement ++ (0 ∷ rest))))
          (start known port)
          (record { remainder = []; compiler_path = old; segment = [] })
        ≡ scan_buffer unique_id rest
            (start (register_file unique_id known path replacement) port)
            (record { remainder = []; compiler_path = path; segment = [] })
  unfolding scan_buffer at_nul take_data
  scan-file [] replacement rest known port old hp named hr = absurd (omega arith)
  scan-file (p ∷ ps) replacement rest known port old hp named hr =
      scan-text (p ∷ ps) _ (start known port)
        (record { remainder = []; compiler_path = old; segment = [] }) hp
      ∙ scan-text replacement (0 ∷ rest) (record (start known port) { reading_replacement = true })
          (record { remainder = []; compiler_path = p ∷ ps; segment = [] }) hr
      ∙ replacement-nul replacement rest (p ∷ ps) port known

  pub scan-files :
      (files known : FileMap) (rest port old : List ℕ)
      → All FitsCompiler files
      → (path : List ℕ) × (scan_buffer unique_id
            (file_bytes files ++ rest)
            (start known port)
            (record { remainder = []; compiler_path = old; segment = [] })
          ≡ scan_buffer unique_id rest
              (start (register_all known files) port)
              (record { remainder = []; compiler_path = path; segment = [] }))
  unfolding file_bytes register_all
  scan-files [] known rest port old h = (old, refl)
  scan-files ((status, desc) ∷ files) known rest port old h =
      let (path, e) =
        scan-files files (register_file unique_id known desc.compiler_path desc.replacement) rest
          port desc.compiler_path h.1 in
      (
        path,
        ap
              (λ (t : List ℕ).
                scan_buffer unique_id t (start known port)
                  (record { remainder = []; compiler_path = old; segment = [] }))
              (append_assoc desc.compiler_path _ rest
                ∙ ap (λ (t : List ℕ). desc.compiler_path ++ (0 ∷ t))
                    (append_assoc desc.replacement (0 ∷ file_bytes files) rest))
            ∙ scan-file desc.compiler_path desc.replacement (file_bytes files ++ rest) known port
                old h.0.path h.0.named h.0.replacement
            ∙ e,
      )

  -- the port name, or what is left of it
  pub scan-port_name :
      (port : List ℕ) (r : Reading)
      → IsText port
      → r.reading_port_name ≡ true
      → (l : Round) → l.remainder ≡ []
      → l.segment ≡ []
      → scan_buffer unique_id (port ++ 0 ∷ []) r l ≡ record r { finished = true; port_name = port }
  unfolding scan_buffer at_nul take_data
  scan-port_name port r h reading l e f =
      scan-text port (0 ∷ []) r l h ∙ rw (e, f) (ground (arith, reading))
