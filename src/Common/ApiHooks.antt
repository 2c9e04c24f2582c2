-- ===== src/Common/ApiHooks.antt =====
-- `APIHookHelper` of Extensions/Common/apiHooks.hpp: the table of the functions that are hooked. A
-- function is its address. GetModuleHandle, GetProcAddress and MinHook are parameters.
use buildpal.Prelude.{
  ℕ, ◌≡◌, refl, Bool, true, false, ◌||◌, Option, none, some, List, [], ◌∷◌, ◌++◌, arith, ◌==◌,
  if◌then◌else◌,
}

pub record ApiHookItem : Type 0 where
  pub name : List ℕ
  pub replacement : ℕ

pub record HookEntry : Type 0 where
  pub replacement : ℕ
  pub new_original : ℕ

-- `enabled` is what MH_EnableHook and MH_DisableHook were told last, for MH_ALL_HOOKS
pub record ApiHookHelper : Type 0 where
  pub hook_list : List HookEntry
  pub active : Bool
  pub enabled : Bool

-- the constructor, behind MH_Initialize
abbrev pub new_helper : ApiHookHelper
new_helper = record { hook_list = []; active = false; enabled = false }

-- `get_proc_address` looks the name up in the description's module; `create_hook` yields the new
-- original, or fails and leaves the variable as it is, which is then `uninitialised`
pub record HookApi : Type 0 where
  pub get_proc_address : List ℕ → ℕ
  pub create_hook : ℕ → ℕ → Option ℕ
  pub uninitialised : ℕ

abbrev pub or_uninitialised : ℕ → Option ℕ → ℕ
or_uninitialised junk none = junk
or_uninitialised junk (some f) = f

module _ (mh : HookApi) where
  -- the new original of one item
  unfoldable pub hook_item : ApiHookItem → HookEntry
  hook_item item = record {
    replacement = item.replacement;
    new_original =
        or_uninitialised mh.uninitialised
          (mh.create_hook (mh.get_proc_address item.name) item.replacement);
  }

  -- the loop of `addAPIHook`, with `push_back`
  unfoldable pub add_items : List HookEntry → List ApiHookItem → List HookEntry
  unfolding hook_item
  add_items hooks [] = hooks
  add_items hooks (item ∷ items) = add_items (hooks ++ (hook_item item ∷ [])) items

  unfoldable pub add_api_hook : ApiHookHelper → List ApiHookItem → ApiHookHelper
  unfolding add_items
  add_api_hook s items = record s { hook_list = add_items s.hook_list items }

unfoldable pub install_hooks : ApiHookHelper → ApiHookHelper × ℕ
install_hooks s = (record s { active = true; enabled = true }, 0)

unfoldable pub remove_hooks : ApiHookHelper → ApiHookHelper × ℕ
remove_hooks s = (record s { active = false; enabled = false }, 0)

unfoldable pub find_original : List HookEntry → ℕ → ℕ
find_original [] proc = proc
find_original (h ∷ hooks) proc =
    if proc == h.replacement then h.new_original else find_original hooks proc

unfoldable pub original_proc : ApiHookHelper → ℕ → ℕ
unfolding find_original
original_proc s proc = find_original s.hook_list proc

-- is there an entry for the function?
abbrev pub is_hooked : List HookEntry → ℕ → Bool
is_hooked [] proc = false
is_hooked (h ∷ hooks) proc = (proc == h.replacement) || is_hooked hooks proc

-- the first item with that replacement
abbrev pub first_item : List ApiHookItem → ℕ → Option ApiHookItem
first_item [] proc = none
first_item (item ∷ items) proc =
    if proc == item.replacement then some item else first_item items proc

find_original-append :
    (hooks more : List HookEntry) (proc : ℕ)
    → find_original (hooks ++ more) proc
      ≡ (if is_hooked hooks proc then find_original hooks proc else find_original more proc)
unfolding find_original
find_original-append [] more proc = refl
find_original-append (h ∷ hooks) more proc = ground (arith, find_original-append hooks more proc)

is_hooked-append :
    (hooks : List HookEntry) (h : HookEntry) (proc : ℕ)
    → is_hooked (hooks ++ (h ∷ [])) proc ≡ (is_hooked hooks proc || proc == h.replacement)
is_hooked-append [] h proc = ground arith
is_hooked-append (g ∷ hooks) h proc = ground (arith, is_hooked-append hooks h proc)

find_original-unhooked :
    (hooks : List HookEntry) (proc : ℕ)
    → is_hooked hooks proc ≡ false
    → find_original hooks proc ≡ proc
unfolding find_original
find_original-unhooked [] proc h = refl
find_original-unhooked (g ∷ hooks) proc h = ground (arith, find_original-unhooked hooks proc)

module _ (mh : HookApi) where
  add_items-lookup :
      (hooks : List HookEntry) (items : List ApiHookItem) (proc : ℕ)
      → find_original (add_items mh hooks items) proc ≡ (
          if is_hooked hooks proc then find_original hooks proc else elim (first_item items proc) [
            | none ↦ proc
            | some item ↦ (hook_item mh item).new_original
          ])
  unfolding add_items find_original
  add_items-lookup hooks [] proc = ground (arith, find_original-unhooked hooks proc)
  add_items-lookup hooks (item ∷ items) proc = ground (
    arith,
    add_items-lookup (hooks ++ (hook_item mh item ∷ [])) items proc,
    find_original-append hooks (hook_item mh item ∷ []) proc,
    is_hooked-append hooks (hook_item mh item) proc,
  )

  -- `originalProc` leads from a replacement to what MinHook gave for it: for the entry that was
  -- there first, or else for the first of the items that are added with that replacement. Any other
  -- function is its own original. Whether the hooks are installed or removed does not matter.
  pub original_proc-add_api_hook :
      (s : ApiHookHelper) (items : List ApiHookItem) (proc : ℕ)
      → (original_proc (add_api_hook mh s items) proc ≡ (
          if is_hooked s.hook_list proc
          then original_proc s proc
          else elim (first_item items proc) [
            | none ↦ proc
            | some item ↦
                or_uninitialised mh.uninitialised
                  (mh.create_hook (mh.get_proc_address item.name) item.replacement)
          ]))
        × (original_proc (install_hooks s).0 proc ≡ original_proc s proc)
        × (original_proc (remove_hooks s).0 proc ≡ original_proc s proc)
  unfolding original_proc add_api_hook install_hooks remove_hooks hook_item
  original_proc-add_api_hook s items proc = (add_items-lookup s.hook_list items proc, refl, refl)
