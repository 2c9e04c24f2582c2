-- ===== src/HeaderScanner/Tracker.antt =====
-- `HeaderTracker` of Extensions/HeaderScanner/headerTracker_.hpp and headerTracker_.cpp: the
-- callbacks of the preprocessor. `contexts` is the chain that starts with `pCurrentCtx_`, and
-- `file_stack` has the back first. What an operation does where the code asserts that a stack is
-- not empty is to change nothing.
pub mod Files
pub mod Cached
use buildpal.Prelude.{
  ℕ, Bool, true, ◌||◌, not, Option, List, [], ◌∷◌, ◌++◌, foldl, if◌then◌else◌, units,
}
use buildpal.HeaderScanner.Macros.{MacroName, MacroValue, Macros}
use buildpal.HeaderScanner.Cache.{Cache, CacheEntry, is_some}
use buildpal.HeaderScanner.Context.{HeaderCtx, macro_used, macro_defined, macro_undefined}
use buildpal.HeaderScanner.Conditions as Cond
use buildpal.HeaderScanner.Conditions.{ConditionStack, Token, add_macro_name, commit}

-- `clang::FileEntry`; the content entry that the content cache has for it is a number
pub record FileEntry : Type 0 where
  pub device : ℕ
  pub file : ℕ
  pub dir_name : List ℕ
  pub content_entry : ℕ

pub record IncludedHeader : Type 0 where
  pub dir : List ℕ
  pub name : List ℕ
  pub relative : Bool
  pub entry : FileEntry

pub record HeaderTracker : Type 0 where
  pub contexts : List HeaderCtx
  pub replaced : Bool
  pub cache : Option Cache
  pub cache_hit : Option CacheEntry
  pub file_stack : List IncludedHeader
  pub macro_state : Macros
  pub used_cache_entries : List ℕ
  pub condition_stack : ConditionStack

-- `fromCache` of the current context, or no context, or no cache
unfoldable pub ignores_macros : HeaderTracker → Bool
ignores_macros t = elim t.contexts [
  | [] ↦ true
  | c ∷ cs ↦ not (is_some t.cache) || is_some c.cache_hit
]

-- `ulong` prints a number; `raw_tokens` are the tokens between two source locations
module _ (ulong : ℕ → List ℕ) (raw_tokens : ℕ → ℕ → List Token) (search_path_id : ℕ) where
  unfoldable pub macro_for_pragma_once : FileEntry → MacroName
  macro_for_pragma_once e = units "____pragma_once__" ++ ulong e.device ++ units "_" ++ ulong e.file

  -- `currentHeaderCtx().macroUsed( … )`
  unfoldable pub use_macros : HeaderTracker → List MacroName → HeaderTracker
  use_macros t names = elim t.contexts [
    | [] ↦ t
    | c ∷ cs ↦ record t { contexts = foldl (macro_used t.macro_state) c names ∷ cs }
  ]

  unfoldable pub with_conditions : HeaderTracker → ConditionStack × List MacroName → HeaderTracker
  unfolding use_macros
  with_conditions t (s, names) = use_macros (record t { condition_stack = s }) names

  unfoldable pub commit_macros : HeaderTracker → HeaderTracker
  unfolding with_conditions
  commit_macros t = with_conditions t (commit t.condition_stack)

  unfoldable pub if_directive : HeaderTracker → ℕ → Bool → HeaderTracker
  if_directive t loc taken = record t {
    condition_stack = Cond.if_directive raw_tokens t.condition_stack loc taken;
  }

  unfoldable pub elif_directive : HeaderTracker → ℕ → Bool → HeaderTracker
  unfolding with_conditions
  elif_directive t loc taken =
      with_conditions t (Cond.elif_directive raw_tokens t.condition_stack loc taken)

  unfoldable pub else_directive : HeaderTracker → ℕ → HeaderTracker
  unfolding with_conditions
  else_directive t loc = with_conditions t (Cond.else_directive raw_tokens t.condition_stack loc)

  unfoldable pub endif_directive : HeaderTracker → ℕ → HeaderTracker
  unfolding with_conditions
  endif_directive t loc = with_conditions t (Cond.endif_directive raw_tokens t.condition_stack loc)

  unfoldable pub tracker_macro_used : HeaderTracker → MacroName → HeaderTracker
  unfolding ignores_macros
  tracker_macro_used t name =
      if ignores_macros t
      then t
      else record t { condition_stack = add_macro_name t.condition_stack name }

  -- `currentHeaderCtx().macroDefined( … )`
  unfoldable pub define_here : HeaderTracker → MacroName → MacroValue → HeaderTracker
  define_here t name value = elim t.contexts [
    | [] ↦ t
    | c ∷ cs ↦
        let (c, state) = macro_defined t.macro_state c name value in
        record t { contexts = c ∷ cs; macro_state = state }
  ]

  unfoldable pub undefine_here : HeaderTracker → MacroName → HeaderTracker
  undefine_here t name = elim t.contexts [
    | [] ↦ t
    | c ∷ cs ↦
        let (c, state) = macro_undefined t.macro_state c name in
        record t { contexts = c ∷ cs; macro_state = state }
  ]

  -- `value` is the text of the definition, from the macro's name to its last token
  unfoldable pub tracker_macro_defined :
      HeaderTracker → MacroName → Bool → MacroValue → HeaderTracker
  unfolding ignores_macros commit_macros define_here
  tracker_macro_defined t name builtin value =
      if builtin || ignores_macros t then t else define_here (commit_macros t) name value

  unfoldable pub tracker_macro_undefined : HeaderTracker → MacroName → HeaderTracker
  unfolding ignores_macros commit_macros undefine_here
  tracker_macro_undefined t name =
      if ignores_macros t then t else undefine_here (commit_macros t) name

  unfoldable pub pragma_once : HeaderTracker → HeaderTracker
  unfolding ignores_macros define_here macro_for_pragma_once
  pragma_once t = elim t.file_stack [
    | [] ↦ t
    | h ∷ hs ↦
        if ignores_macros t then t else define_here t (macro_for_pragma_once h.entry) (units " 1")
  ]
