-- ===== src/Common/Loader.antt =====
-- `runDLL` of Extensions/Common/Loader/loader.cpp, the code that runs in the other process. A module
-- is its name in 16-bit units and its exports with their addresses; the exports are what the arrays
-- `AddressOfNames` and `AddressOfNameOrdinals` hold, as far as the walk reads them.
pub mod Walk
use buildpal.Prelude.{
  ℕ, zero, suc, ◌+◌, ◌-◌, ◌*◌, ◌^◌, Bool, true, false, ◌&&◌, ◌||◌, not, Option, none, some, List,
  [], ◌∷◌, length, units, leb, ◌==◌, if◌then◌else◌,
}

-- `lower` and `wlower`
unfoldable pub lower : ℕ → ℕ
lower x = if leb b'A' x && leb x b'Z' then x - b'A' + b'a' else x

unfoldable pub lower_starts_with : List ℕ → List ℕ → Bool
unfolding lower
lower_starts_with [] x = true
lower_starts_with (c ∷ cs) [] = false
lower_starts_with (c ∷ cs) (b ∷ x) = (lower b == c) && lower_starts_with cs x

-- the digits and the dot are compared as they are, which `wlower` leaves alone
unfoldable pub is_kernel32 : List ℕ → Bool
unfolding lower_starts_with
is_kernel32 str = (length str * 2 == 24) && lower_starts_with (units "kernel32.dll") str

unfoldable pub is_load_library : List ℕ → Bool
unfolding lower_starts_with
is_load_library x = lower_starts_with (units "loadlibrarya") x

unfoldable pub is_get_proc_address : List ℕ → Bool
unfolding lower_starts_with
is_get_proc_address x = lower_starts_with (units "getprocaddress") x

pub record Export : Type 0 where
  pub name : List ℕ
  pub address : ℕ

pub record Module : Type 0 where
  pub base_dll_name : List ℕ
  pub number_of_functions : ℕ
  pub exports : List Export

-- zero is the null pointer
pub record RunDllParams : Type 0 where
  pub dll_path : ℕ
  pub init_func : ℕ
  pub init_args : ℕ
  pub chain_func : ℕ
  pub chain_args : ℕ
  pub init_done : ℕ

-- the first bytes of memory as a pointer
unfoldable pub read_le : ℕ → (ℕ → ℕ) → ℕ → ℕ
read_le zero m a = 0
read_le (suc n) m a = m a + 256 * read_le n m (a + 1)

-- `(RunDllParams *)vpparams`, in a process with pointers of `size` bytes
unfoldable pub run_dll_params : ℕ → (ℕ → ℕ) → ℕ → RunDllParams
unfolding read_le
run_dll_params size m a = record {
  dll_path = read_le size m a;
  init_func = read_le size m (a + size);
  init_args = read_le size m (a + 2 * size);
  chain_func = read_le size m (a + 3 * size);
  chain_args = read_le size m (a + 4 * size);
  init_done = read_le size m (a + 5 * size);
}

pub record Procs : Type 0 where
  pub load_library : ℕ
  pub get_proc_address : ℕ

-- is there something left to look for?
unfoldable pub unfinished : Bool → Procs → Bool
unfinished need_get_proc_address f =
    (f.load_library == 0) || (need_get_proc_address && (f.get_proc_address == 0))

unfoldable pub take_export : Bool → Procs → Export → Procs
unfolding is_load_library is_get_proc_address
take_export need_get_proc_address f e =
    if is_load_library e.name
    then record f { load_library = e.address }
    else (if need_get_proc_address && is_get_proc_address e.name
        then record f { get_proc_address = e.address }
        else f)

-- the loop over the exports of kernel32, for at most `NumberOfFunctions` of them
unfoldable pub walk_exports : Bool → ℕ → List Export → Procs → Procs
unfolding unfinished take_export
walk_exports need zero es f = f
walk_exports need (suc n) [] f = f
walk_exports need (suc n) (e ∷ es) f =
    let rest = walk_exports need n es (take_export need f e) in
    if unfinished need f then rest else f

-- the loop over the modules ends at the first kernel32, or behind the last module
unfoldable pub walk_modules : Bool → List Module → Procs
unfolding is_kernel32 walk_exports
walk_modules need [] = record { load_library = 0; get_proc_address = 0 }
walk_modules need (d ∷ ds) =
    if is_kernel32 d.base_dll_name
    then walk_exports need d.number_of_functions d.exports
        (record { load_library = 0; get_proc_address = 0 })
    else walk_modules need ds

-- the functions that are called through a pointer, with their arguments
pub data Call : Type 0 where
  load_library : ℕ → ℕ → Call
  get_proc_address : ℕ → ℕ → ℕ → Call
  init_func : ℕ → ℕ → ℕ → Call
  chain_func : ℕ → ℕ → Call

-- what such calls return
pub record Functions : Type 0 where
  pub load : ℕ → ℕ → ℕ
  pub find_proc : ℕ → ℕ → ℕ → ℕ
  pub init : ℕ → ℕ → ℕ → ℕ
  pub chain : ℕ → ℕ → ℕ

-- a negative number as a DWORD
abbrev pub minus : ℕ → ℕ
minus n = 2 ^ 32 - n

-- the calls and the result
unfoldable pub run_chain : Functions → RunDllParams → List Call × ℕ
run_chain fs p =
    if p.chain_func == 0
    then ([], 0)
    else (chain_func p.chain_func p.chain_args ∷ [], fs.chain p.chain_func p.chain_args)

-- from the call of `getProcAddress` on
unfoldable pub run_init : Functions → Procs → RunDllParams → ℕ → List Call × ℕ
unfolding run_chain
run_init fs f p mydll =
    let found = fs.find_proc f.get_proc_address mydll p.init_func in
    let got = get_proc_address f.get_proc_address mydll p.init_func in
    if found == 0
    then (got ∷ [], minus 5)
    else (if fs.init found p.init_args p.init_done == 0
        then (
          got ∷ init_func found p.init_args p.init_done ∷ (run_chain fs p).0,
          (run_chain fs p).1,
        )
        else (got ∷ init_func found p.init_args p.init_done ∷ [], minus 6))

-- `runDLL`
unfoldable pub run_dll : Functions → List Module → RunDllParams → List Call × ℕ
unfolding walk_modules run_init run_chain
run_dll fs modules p =
    let need_get_proc_address = not (p.init_func == 0) in
    let f = walk_modules need_get_proc_address modules in
    if f.load_library == 0
    then ([], minus 2)
    else (if need_get_proc_address && (f.get_proc_address == 0)
        then ([], minus 3)
        else (let mydll = fs.load f.load_library p.dll_path in
            let loaded = load_library f.load_library p.dll_path in
            if mydll == 0
            then (loaded ∷ [], minus 4)
            else (if need_get_proc_address
                then (loaded ∷ (run_init fs f p mydll).0, (run_init fs f p mydll).1)
                else (loaded ∷ (run_chain fs p).0, (run_chain fs p).1))))
