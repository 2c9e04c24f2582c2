-- ===== src/Tests/Headers.antt =====
-- The cache of headers and the tracker of Extensions/HeaderScanner.
use buildpal.Prelude.{
  if◌then◌else◌, ◌-◌, ◌/◌, ℕ, ◌+◌, ◌%◌, ◌^◌, true, false, not, ◌≡◌, refl, none, some, List, [], ◌∷◌,
  ◌++◌, ltb, units, text_discrete, ℕ_discrete,
}
use buildpal.Prelude.Assoc.{lookup}
use buildpal.HeaderScanner.Macros.{Macros, add_macro}
use buildpal.HeaderScanner.CacheTree.{
  empty_tree, child, put_child, at_child, get_entry, add_at, entry_at, find,
}
use buildpal.HeaderScanner.CacheTree.Runs.{
  Reader, ask, done, used_macros, record_runs, first_run, find-record_runs,
}
use buildpal.HeaderScanner.Cache.{
  Cache, CacheEntry, Key, empty_cache, contains, maintenance, tree_of,
}
use buildpal.HeaderScanner.Cache.Cutoff.{last_hit, maintenance-entries}
use buildpal.HeaderScanner.Context.{
  HeaderCtx, member, macro_used, macro_defined, macro_undefined, propagate_to_parent, add_to_cache,
}
use buildpal.HeaderScanner.Context.Transparent.{SameParent}
use buildpal.HeaderScanner.Context.Records.{IsRecorded, enter}
use buildpal.HeaderScanner.Context.Recorded.{Run, Run-IsRecorded}
use buildpal.HeaderScanner.Conditions as Cond
use buildpal.HeaderScanner.Conditions.{
  Condition, ConditionStack, Token, hash_at_start, raw_identifier, take_macros, skippable, waiting,
}
use buildpal.HeaderScanner.Conditions.Pending.{pending, pending-directives}
use buildpal.HeaderScanner.Tracker.{HeaderTracker, FileEntry, IncludedHeader}
use buildpal.HeaderScanner.Tracker.Files.{leave_header}
use buildpal.HeaderScanner.Tracker.Cached.{leave_header-cache, top}

abbrev name_a : List ℕ
name_a = units "A"

abbrev defines_a : Macros
defines_a = (name_a, units " 1") ∷ []

-- a header that tests A
abbrev tests_a : Reader
tests_a = ask name_a (λ value. done)

find-record_runs_example :
    find defines_a (record_runs tests_a (([], 0) ∷ (defines_a, 1) ∷ []) empty_tree)
    ≡ first_run tests_a (([], 0) ∷ (defines_a, 1) ∷ []) (used_macros tests_a defines_a)
find-record_runs_example = find-record_runs tests_a (([], 0) ∷ (defines_a, 1) ∷ []) defines_a

one_entry : entry_at defines_a (add_at defines_a 7 empty_tree) ≡ some 7
unfolding entry_at add_at at_child get_entry child put_child text_discrete
one_entry = refl

abbrev header : Key
header = ((1, 2), 0)

abbrev old_entry : CacheEntry
old_entry = record {
  key = header;
  used = defines_a;
  macro_state = [];
  headers = [];
  last_time_hit = 100;
}

-- two entries after 40960 requests; entry 1 was hit since the last maintenance
abbrev busy : Cache
busy = record {
  container = [];
  objects = (0, old_entry) ∷ (1, old_entry) ∷ [];
  entries = 1 ∷ 0 ∷ [];
  temp_last_time_hit = (1, 40000) ∷ [];
  counter = 2;
  hits = 40000;
  misses = 960;
}

maintenance-entries_example :
    contains 1 (maintenance [] busy).entries
    ≡ not (
        ltb
          (last_hit busy 1 old_entry)
          (if ltb 16384 (40960 % 2 ^ 32) then 40960 % 2 ^ 32 - 16384 else 40960 % 2 ^ 32 / 5))
unfolding ℕ_discrete
maintenance-entries_example =
    maintenance-entries [] busy 1 old_entry refl (unfold lookup in refl, tt) refl
      (unfold lookup in refl)

abbrev child_ctx : HeaderCtx
child_ctx = record {
  replaced = false;
  cache_hit = none;
  used_here = defines_a;
  changed_here = units "B" ∷ [];
  headers_here = [];
}

-- a header that uses A, defines it, and includes one that uses and undefines it, and goes into the
-- cache
abbrev before : HeaderCtx × Macros
before = macro_defined defines_a (macro_used defines_a enter name_a) name_a (units " 2")

abbrev inside : HeaderCtx × Macros
inside = macro_undefined before.1 (macro_used before.1 enter name_a) name_a

not_there : get_entry inside.0.used_here (tree_of empty_cache ((1, 2), 0)) ≡ none
unfolding tree_of lookup get_entry child macro_used macro_defined macro_undefined member add_macro
not_there = refl

abbrev header_run :
    Run
      (enter, defines_a)
      (propagate_to_parent
        (add_to_cache empty_cache ((1, 2), 0) inside.1 inside.0).1
        before.0
        inside.1)
header_run =
    Run.cached {ctx = inside.0} empty_cache ((1, 2), 0) not_there
      (Run.defined name_a (units " 2") (Run.used name_a Run.begin))
      (Run.undefined name_a (Run.used name_a Run.begin))

Run-IsRecorded_example : IsRecorded defines_a (
    propagate_to_parent
      (add_to_cache empty_cache ((1, 2), 0) inside.1 inside.0).1
      before.0
      inside.1)
Run-IsRecorded_example =
    Run-IsRecorded defines_a (enter, defines_a) _ header_run
      (record { uncached = refl; used = tt; unchanged = λ n e. refl })

abbrev pub no_content : ℕ → ℕ → List Token
no_content start end = []

abbrev in_block : ConditionStack
in_block = record {
  macros = units "C" ∷ [];
  conditions =
      record {
        macros = name_a ∷ [];
        last_location = 3;
        last_branch_taken = false;
        any_branch_taken = false;
      }
      ∷ [];
}

pending-directives_example :
    (pending (Cond.if_directive no_content in_block 5 true) ≡ pending in_block)
    × ((Cond.elif_directive no_content in_block 5 true).1
          ++ pending (Cond.elif_directive no_content in_block 5 true).0
        ≡ pending in_block)
    × ((Cond.else_directive no_content in_block 5).1
          ++ pending (Cond.else_directive no_content in_block 5).0
        ≡ pending in_block)
pending-directives_example = pending-directives no_content in_block 5 true

abbrev open_block : Condition
open_block = record {
  macros = name_a ∷ [];
  last_location = 3;
  last_branch_taken = false;
  any_branch_taken = false;
}

abbrev file : FileEntry
file = record { device = 1; file = 2; dir_name = units "inc"; content_entry = 0 }

abbrev included : IncludedHeader
included = record { dir = units "inc"; name = units "a.h"; relative = false; entry = file }

abbrev pub tracker : HeaderTracker
tracker = record {
  contexts = child_ctx ∷ enter ∷ [];
  replaced = false;
  cache = some empty_cache;
  cache_hit = none;
  file_stack = included ∷ [];
  macro_state = defines_a;
  used_cache_entries = [];
  condition_stack = record { macros = []; conditions = [] };
}

-- numbers as single digits
abbrev pub digit : ℕ → List ℕ
digit n = (b'0' + n) ∷ []

leave_header-cache_example :
    SameParent
      (top digit no_content 0
        (leave_header digit no_content 0 (record tracker { cache = some empty_cache }))
        enter)
      (top digit no_content 0
        (leave_header digit no_content 0 (record tracker { cache = none }))
        enter)
leave_header-cache_example =
    leave_header-cache digit no_content 0 tracker included [] child_ctx enter [] empty_cache refl
      refl refl (unfold tree_of lookup get_entry child in refl)
