-- ===== src/Tests/Loaders.antt =====
-- The theorems on the search of the loader for its functions, and on the table of hooks.
use buildpal.Prelude.{
  ◌+◌, ◌≡◌, refl, if◌then◌else◌, true, none, some, List, [], ◌∷◌, length, take, arith, units,
}
use buildpal.Common.ApiHooks.{
  HookApi, ApiHookItem, new_helper, or_uninitialised, is_hooked, first_item, add_api_hook,
  original_proc, install_hooks, remove_hooks, original_proc-add_api_hook,
}
use buildpal.Common.Loader.{Export, walk_exports}
use buildpal.Common.Loader.Walk.{Locates, walk_exports-finds}

abbrev exports : List Export
exports =
    record { name = units "GetProcAddress"; address = 700 }
    ∷ record { name = units "LoadLibraryA"; address = 800 }
    ∷ []

walk_exports-finds_example :
    (let f = walk_exports true 2 exports (record { load_library = 0; get_proc_address = 0 }) in
      Locates (units "loadlibrarya") f.load_library exports
      × Locates (units "getprocaddress") f.get_proc_address exports)
unfolding take
walk_exports-finds_example = walk_exports-finds 2 exports (omega arith, (omega arith, tt))

-- two functions of a module, and MinHook with trampolines behind the originals
abbrev minhook : HookApi
minhook = record {
  get_proc_address = λ name. length name;
  create_hook = λ original replacement. some (original + 1000);
  uninitialised = 0;
}

abbrev items : List ApiHookItem
items =
    record { name = units "CreateProcessA"; replacement = 51 }
    ∷ record { name = units "CloseHandle"; replacement = 52 }
    ∷ []

original_proc-add_api_hook_example :
    (original_proc (add_api_hook minhook new_helper items) 52 ≡ (
      if is_hooked [] 52 then original_proc new_helper 52 else elim (first_item items 52) [
        | none ↦ 52
        | some item ↦
            or_uninitialised 0
              (minhook.create_hook (minhook.get_proc_address item.name) item.replacement)
      ]))
    × (original_proc (install_hooks new_helper).0 52 ≡ original_proc new_helper 52)
    × (original_proc (remove_hooks new_helper).0 52 ≡ original_proc new_helper 52)
original_proc-add_api_hook_example = original_proc-add_api_hook minhook new_helper items 52

hooked : original_proc (add_api_hook minhook new_helper items) 52 ≡ 1011
unfolding original_proc add_api_hook
hooked = refl
