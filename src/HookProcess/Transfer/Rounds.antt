-- ===== src/HookProcess/Transfer/Rounds.antt =====
-- The rounds of the loop of `Initialize` of Extensions/Client/hookProcess.cpp, which reads 1024
-- bytes in each.
use buildpal.Prelude.{
  ℕ, zero, suc, ◌<◌, ◌≤◌, true, false, ◌≡◌, refl, sym, subst, ap, ap₂, ◌∙◌, Option, none, some,
  List, [], ◌∷◌, ◌++◌, append_assoc, append-nil, take, drop, length, All, arith, take-length,
  take_short, drop_short, drop-length, length-append,
}
use buildpal.Prelude.Assoc.{lookup, insert_new, Distinct}
use buildpal.HookProcess.Compilers.{
  FileStatus, CompilerDescription, FileMap, status_discrete, register_file,
}
use buildpal.HookProcess.Transfer.{
  file_bytes, hook_bytes, Reading, Round, new_round, initialized, reads_on, at_nul, scan_buffer,
  initialize_loop,
}
use buildpal.HookProcess.Transfer.Loop.{
  IsText, FitsCompiler, start, register_all, scan-files, scan-port_name,
}

insert_new_absent :
    (s : FileStatus) (d : CompilerDescription) (m : FileMap)
    → lookup status_discrete s m ≡ none
    → insert_new status_discrete s d m ≡ m ++ (s, d) ∷ []
unfolding insert_new lookup
insert_new_absent s d [] h = refl
insert_new_absent s d ((t, e) ∷ m) h = ground (arith, insert_new_absent s d m)

lookup-append :
    (k : FileStatus) (m n : FileMap)
    → lookup status_discrete k (m ++ n)
      ≡ elim (lookup status_discrete k m) [ none ↦ lookup status_discrete k n | some v ↦ some v ]
unfolding lookup
lookup-append k [] n = refl
lookup-append k ((t, e) ∷ m) n = ground (arith, lookup-append k m n)

absent-before :
    (m : FileMap) (s : FileStatus) (d : CompilerDescription) (rest : FileMap)
    → Distinct status_discrete (m ++ (s, d) ∷ rest)
    → lookup status_discrete s m ≡ none
unfolding lookup
absent-before [] s d rest h = refl
absent-before ((t, e) ∷ m) s d rest h =
    ground (arith, h.0, lookup-append t m ((s, d) ∷ rest), absent-before m s d rest h.1)

-- the compilers of a process, each under the unique id of its file
pub record IsRegistered (unique_id : List ℕ → Option FileStatus)
    (e : FileStatus × CompilerDescription) : Type 0 where
  pub known : unique_id e.1.compiler_path ≡ some e.0

module _ (unique_id : List ℕ → Option FileStatus) where
  register_all-append :
      (files known : FileMap)
      → All (IsRegistered unique_id) files
      → Distinct status_discrete (known ++ files)
      → register_all unique_id known files ≡ known ++ files
  unfolding register_all register_file
  register_all-append [] known h d = sym (append-nil known)
  register_all-append ((s, desc) ∷ files) known h d =
      let register : register_file unique_id known desc.compiler_path desc.replacement
          ≡ known ++ (s, desc) ∷ [] =
        ground
          (arith, h.0.known, insert_new_absent s desc known (absent-before known s desc files d)) in
      ap (λ (m : FileMap). register_all unique_id m files) register
      ∙ register_all-append files (known ++ (s, desc) ∷ []) h.1
          (rw (append_assoc known ((s, desc) ∷ []) files) d)
      ∙ append_assoc known ((s, desc) ∷ []) files

  -- everything that the parent wrote, in one buffer
  scan-hook_bytes :
      (files known : FileMap) (port old : List ℕ)
      → All FitsCompiler files
      → IsText port
      → scan_buffer unique_id (hook_bytes files port) (start known old) new_round
        ≡ record (start (register_all unique_id known files) old) {
          reading_port_name = true;
          finished = true;
          port_name = port;
        }
  unfolding hook_bytes scan_buffer at_nul
  scan-hook_bytes files known port old h hp =
      let (path, e) = scan-files unique_id files known (0 ∷ (port ++ 0 ∷ [])) old [] h in
      e
      ∙ scan-port_name unique_id port
          (record (start (register_all unique_id known files) old) { reading_port_name = true }) hp
          refl (record { remainder = []; compiler_path = path; segment = [] }) refl refl

  initialize_loop-round :
      (fuel : ℕ) (pipe : List ℕ) (r : Reading)
      → r.finished ≡ false
      → initialize_loop unique_id (suc fuel) pipe r
        ≡ initialize_loop unique_id fuel
            (drop 1024 pipe)
            (scan_buffer unique_id (take 1024 pipe) r new_round)
  unfolding initialize_loop
  initialize_loop-round fuel pipe r e = ground arith

  initialize_loop-finished :
      (fuel : ℕ) (pipe : List ℕ) (r : Reading)
      → r.finished ≡ true
      → initialize_loop unique_id (suc fuel) pipe r ≡ initialized r.files r.port_name
  unfolding initialize_loop
  initialize_loop-finished fuel pipe r e = ground arith

  -- If all that the parent writes fits in one buffer, the child knows the same compilers, with
  -- their replacements, and the same port name, and has read them in one round; provided that no
  -- path is empty, that no text has a NUL, and that each file still has its unique id.
  pub initialize-hook_bytes :
      (files : FileMap) (port old : List ℕ) (fuel : ℕ)
      → All FitsCompiler files
      → All (IsRegistered unique_id) files
      → Distinct status_discrete files
      → IsText port
      → length (hook_bytes files port) ≤ 1024
      → initialize_loop unique_id (suc (suc fuel)) (hook_bytes files port) (start [] old)
        ≡ initialized files port
  initialize-hook_bytes files port old fuel h hr d hp short =
      initialize_loop-round (suc fuel) (hook_bytes files port) (start [] old) refl
      ∙ ap (initialize_loop unique_id (suc fuel) (drop 1024 (hook_bytes files port))) (
          ap (λ (t : List ℕ). scan_buffer unique_id t (start [] old) new_round)
            (take_short 1024 (hook_bytes files port) short)
          ∙ scan-hook_bytes files [] port old h hp)
      ∙ initialize_loop-finished fuel (drop 1024 (hook_bytes files port)) _ refl
      ∙ ap (λ (m : FileMap). initialized m port) (register_all-append files [] hr d)

  split-hook_bytes :
      (files : FileMap) (a b : List ℕ)
      → hook_bytes files (a ++ b) ≡ (file_bytes files ++ 0 ∷ a) ++ (b ++ 0 ∷ [])
  unfolding hook_bytes
  split-hook_bytes files a b =
      ap (λ (t : List ℕ). file_bytes files ++ 0 ∷ t) (append_assoc a b (0 ∷ []))
      ∙ sym (append_assoc (file_bytes files) (0 ∷ a) (b ++ 0 ∷ []))

  scan-text_end :
      (a : List ℕ) (r : Reading) (l : Round) → IsText a → scan_buffer unique_id a r l ≡ r
  unfolding scan_buffer
  scan-text_end [] r l h = refl
  scan-text_end (c ∷ a) r l h =
      ground (arith, h.0, scan-text_end a r (record l { segment = l.segment ++ c ∷ [] }) h.1)

  -- the compilers, and a part of the port name
  scan-cut :
      (files known : FileMap) (a old : List ℕ)
      → All FitsCompiler files
      → IsText a
      → scan_buffer unique_id (file_bytes files ++ 0 ∷ a) (start known old) new_round
        ≡ record (start (register_all unique_id known files) old) { reading_port_name = true }
  unfolding scan_buffer at_nul
  scan-cut files known a old h ha =
      let (path, e) = scan-files unique_id files known (0 ∷ a) old [] h in
      e
      ∙ scan-text_end a
          (record (start (register_all unique_id known files) old) { reading_port_name = true })
          (record { remainder = []; compiler_path = path; segment = [] }) ha

  -- If the port name straddles the end of a buffer, the child takes only the part of it that is in
  -- the next buffer as the name.
  pub initialize-cut :
      (files : FileMap) (a b old : List ℕ) (fuel : ℕ)
      → All FitsCompiler files
      → All (IsRegistered unique_id) files
      → Distinct status_discrete files
      → IsText a
      → IsText b
      → length (file_bytes files ++ 0 ∷ a) ≡ 1024
      → length b < 1024
      → initialize_loop unique_id (suc (suc (suc fuel))) (hook_bytes files (a ++ b)) (start [] old)
        ≡ initialized files b
  initialize-cut files a b old fuel h hr d ha hb full short =
      let r : Reading = record (start (register_all unique_id [] files) old) {
        reading_port_name = true;
      } in
      let first = file_bytes files ++ 0 ∷ a in
      ap (λ (p : List ℕ). initialize_loop unique_id (suc (suc (suc fuel))) p (start [] old))
        (split-hook_bytes files a b)
      ∙ initialize_loop-round (suc (suc fuel)) (first ++ (b ++ 0 ∷ [])) (start [] old) refl
      ∙ ap₂ (initialize_loop unique_id (suc (suc fuel)))
          (subst (λ n. drop n (first ++ (b ++ 0 ∷ [])) ≡ b ++ 0 ∷ []) full
            (drop-length first (b ++ 0 ∷ [])))
          (ap (λ (t : List ℕ). scan_buffer unique_id t (start [] old) new_round)
              (subst (λ n. take n (first ++ (b ++ 0 ∷ [])) ≡ first) full
                (take-length first (b ++ 0 ∷ [])))
            ∙ scan-cut files [] a old h ha)
      ∙ initialize_loop-round (suc fuel) (b ++ 0 ∷ []) r refl
      ∙ ap (initialize_loop unique_id (suc fuel) (drop 1024 (b ++ 0 ∷ []))) (
          ap (λ (t : List ℕ). scan_buffer unique_id t r new_round)
            (take_short 1024 (b ++ 0 ∷ [])
              (subst (λ n. n ≤ 1024) (sym (length-append b (0 ∷ []))) (omega arith)))
          ∙ scan-port_name unique_id b r hb refl new_round refl refl)
      ∙ initialize_loop-finished fuel (drop 1024 (b ++ 0 ∷ [])) _ refl
      ∙ ap (λ (m : FileMap). initialized m b) (register_all-append files [] hr d)

  ended :
      (fuel : ℕ) (r : Reading) → r.finished ≡ false → initialize_loop unique_id fuel [] r ≡ reads_on
  unfolding initialize_loop take drop scan_buffer
  ended zero r e = refl
  ended (suc fuel) r e = ground (arith, ended fuel r e)

  -- If the pipe ends after the compilers, which are in one buffer, `Initialize` reads on for ever:
  -- no number of rounds is enough.
  pub initialize-ended :
      (files : FileMap) (old : List ℕ) (fuel : ℕ)
      → All FitsCompiler files
      → length (file_bytes files) ≤ 1024
      → initialize_loop unique_id fuel (file_bytes files) (start [] old) ≡ reads_on
  unfolding scan_buffer
  initialize-ended files old zero h short = unfold initialize_loop in refl
  initialize-ended files old (suc fuel) h short =
      let (path, e) = scan-files unique_id files [] [] old [] h in
      initialize_loop-round fuel (file_bytes files) (start [] old) refl
      ∙ ap₂ (initialize_loop unique_id fuel) (drop_short 1024 (file_bytes files) short) (
          ap (λ (t : List ℕ). scan_buffer unique_id t (start [] old) new_round)
            (take_short 1024 (file_bytes files) short ∙ sym (append-nil (file_bytes files)))
          ∙ e)
      ∙ ended fuel (start (register_all unique_id [] files) old) refl
