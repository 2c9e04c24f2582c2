-- ===== src/HeaderScanner/Callbacks.antt =====
-- `PreprocessorCallbacks` and `DiagnosticConsumer` of Extensions/HeaderScanner/headerScanner_.cpp: what
-- a scan does with each call of the preprocessor of Clang.
use buildpal.Prelude.{
  ℕ, Bool, true, false, not, Option, none, some, List, ◌∷◌, foldl, units, text_discrete, ite,
}
use buildpal.Prelude.Assoc.{Assoc, insert_new}
use buildpal.HeaderScanner.Macros.{MacroName, MacroValue}
use buildpal.HeaderScanner.Cache.{Headers}
use buildpal.HeaderScanner.Conditions.{Token}
use buildpal.HeaderScanner.Tracker.{
  FileEntry, HeaderTracker, if_directive, elif_directive, else_directive, endif_directive,
  tracker_macro_used, tracker_macro_defined, tracker_macro_undefined, pragma_once,
}
use buildpal.HeaderScanner.Tracker.Files.{
  HeaderFileInfo, Replacement, inclusion_directive, enter_header, enter_source_file, replace_file,
  header_skipped, leave_header, exit_source_file,
}

-- The calls, with what is looked at of their arguments. A macro comes with whether it is built in
-- and its text; `loc` is a source location; a file may be none, for what is no file.
pub data Callback : Type 0 where
  undefined_identifier : Option MacroName → Callback
  found_header :
      (search_path relative_path : List ℕ) (is_angled : Bool) (file : FileEntry) → Callback
  missing_header : (file_name : List ℕ) → Callback
  replaces_file : (file : FileEntry) → Callback
  enters : (file : Option FileEntry) (main_file : Bool) → Callback
  exits : (file : Option FileEntry) → Callback
  end_of_main_file : Callback
  file_skipped : (info : HeaderFileInfo) → Callback
  macro_expands : MacroName → Callback
  macro_defined : MacroName → Bool → MacroValue → Callback
  macro_undefined : MacroName → Callback
  tests_defined : MacroName → Callback
  ifdef : (loc : ℕ) (name : MacroName) (defined : Bool) → Callback
  ifndef : (loc : ℕ) (name : MacroName) (defined : Bool) → Callback
  pragma_directive : (token : Option (List ℕ)) → Callback
  if_condition : (loc : ℕ) (value : Bool) → Callback
  elif_condition : (loc : ℕ) (value : Bool) → Callback
  else_branch : (loc : ℕ) → Callback
  endif : (loc : ℕ) → Callback

-- `missing_headers` is a set; `replacements` is what `ReplaceFile` gave back, the last one first
pub record Scan : Type 0 where
  pub tracker : HeaderTracker
  pub headers : Headers
  pub missing_headers : Assoc (List ℕ) Unit
  pub replacements : List Replacement

module _ (ulong : ℕ → List ℕ) (raw_tokens : ℕ → ℕ → List Token) (search_path_id : ℕ)
    (filename : List ℕ) where
  -- the name of a macro that is looked at
  abbrev use_name : Scan → MacroName → Scan
  use_name s name = record s {
    tracker = tracker_macro_used ulong raw_tokens search_path_id s.tracker name;
  }

  abbrev test_name : Scan → MacroName → ℕ → Bool → Scan
  test_name s name loc taken =
      let t = tracker_macro_used ulong raw_tokens search_path_id s.tracker name in
      record s { tracker = if_directive ulong raw_tokens search_path_id t loc taken }

  unfoldable pub callback : Scan → Callback → Scan
  callback s (undefined_identifier none) = s
  callback s (undefined_identifier (some name)) = use_name s name
  callback s (found_header search_path relative_path is_angled file) = record s {
    tracker =
        inclusion_directive ulong raw_tokens search_path_id s.tracker search_path relative_path
          is_angled file;
  }
  callback s (missing_header file_name) = record s {
    missing_headers = insert_new text_discrete file_name tt s.missing_headers;
  }
  callback s (replaces_file file) =
      let (tracker, replacement) = replace_file ulong raw_tokens search_path_id s.tracker file in
      record s { tracker = tracker; replacements = replacement ∷ s.replacements }
  callback s (enters none main_file) = s
  callback s (enters (some file) true) = record s {
    tracker = enter_source_file ulong raw_tokens search_path_id s.tracker file filename;
  }
  callback s (enters (some file) false) = record s {
    tracker = enter_header ulong raw_tokens search_path_id s.tracker;
  }
  callback s (exits none) = s
  callback s (exits (some file)) = record s {
    tracker = leave_header ulong raw_tokens search_path_id s.tracker;
  }
  callback s end_of_main_file =
      let (headers, tracker) = exit_source_file ulong raw_tokens search_path_id s.tracker in
      record s { headers = headers; tracker = tracker }
  callback s (file_skipped info) = record s {
    tracker = header_skipped ulong raw_tokens search_path_id s.tracker info;
  }
  callback s (macro_expands name) = use_name s name
  callback s (macro_defined name builtin value) = record s {
    tracker = tracker_macro_defined ulong raw_tokens search_path_id s.tracker name builtin value;
  }
  callback s (macro_undefined name) = record s {
    tracker = tracker_macro_undefined ulong raw_tokens search_path_id s.tracker name;
  }
  callback s (tests_defined name) = use_name s name
  callback s (ifdef loc name defined) = test_name s name loc defined
  callback s (ifndef loc name defined) = test_name s name loc (not defined)
  callback s (pragma_directive none) = s
  callback s (pragma_directive (some word)) =
      ite (text_discrete word (units "once"))
        (record s { tracker = pragma_once ulong raw_tokens search_path_id s.tracker }) s
  callback s (if_condition loc value) = record s {
    tracker = if_directive ulong raw_tokens search_path_id s.tracker loc value;
  }
  callback s (elif_condition loc value) = record s {
    tracker = elif_directive ulong raw_tokens search_path_id s.tracker loc value;
  }
  callback s (else_branch loc) = record s {
    tracker = else_directive ulong raw_tokens search_path_id s.tracker loc;
  }
  callback s (endif loc) = record s {
    tracker = endif_directive ulong raw_tokens search_path_id s.tracker loc;
  }

  -- a scan by the real preprocessor
  unfoldable pub scan_callbacks : Scan → List Callback → Scan
  unfolding callback
  scan_callbacks = foldl callback
