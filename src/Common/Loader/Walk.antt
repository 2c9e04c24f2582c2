-- ===== src/Common/Loader/Walk.antt =====
-- The search for LoadLibraryA and GetProcAddress in Extensions/Common/Loader/loader.cpp.
use buildpal.Prelude.{
  ℕ, ◌<◌, ◌≡◌, refl, ◌⊎◌, inl, inr, Bool, true, false, List, [], ◌∷◌, ◌++◌, All, units, arith, take,
  map, length, ite, text_discrete, zero, suc, sym, ◌∙◌,
}
use buildpal.Common.Loader.{
  Export, Procs, lower, lower_starts_with, is_load_library, is_get_proc_address, unfinished,
  take_export, walk_exports,
}

-- an export with such a name has the address
abbrev pub HasExport : (List ℕ → Bool) → ℕ → List Export → Type 0
HasExport test a [] = ⊥
HasExport test a (e ∷ es) = ((test e.name ≡ true) × (e.address ≡ a)) ⊎ HasExport test a es

abbrev pub HasAddress : Export → Type 0
HasAddress e = 0 < e.address

-- no name is taken for both
names_apart : (x : List ℕ) → is_load_library x ≡ true → is_get_proc_address x ≡ false
unfolding is_load_library is_get_proc_address lower_starts_with
names_apart [] h = ground arith
names_apart (b ∷ x) h = ground arith

-- what is found is an export with such a name
load_sound :
    (n : ℕ) (es : List Export) (f : Procs)
    → ((walk_exports true n es f).load_library ≡ f.load_library)
      ⊎ HasExport is_load_library (walk_exports true n es f).load_library (take n es)
unfolding walk_exports take_export unfinished take
load_sound zero es f = inl refl
load_sound (suc n) [] f = inl refl
load_sound (suc n) (e ∷ es) f = ground (arith, load_sound n es (take_export true f e))

get_sound :
    (n : ℕ) (es : List Export) (f : Procs)
    → ((walk_exports true n es f).get_proc_address ≡ f.get_proc_address)
      ⊎ HasExport is_get_proc_address (walk_exports true n es f).get_proc_address (take n es)
unfolding walk_exports take_export unfinished take
get_sound zero es f = inl refl
get_sound (suc n) [] f = inl refl
get_sound (suc n) (e ∷ es) f = ground (arith, get_sound n es (take_export true f e))

-- what has been found is never lost, and a name that is there is found
load_complete :
    (n : ℕ) (es : List Export) (f : Procs)
    → All HasAddress (take n es)
    → (walk_exports true n es f).load_library ≡ 0
    → (f.load_library ≡ 0) × All (λ e. is_load_library e.name ≡ false) (take n es)
unfolding walk_exports take_export unfinished take
load_complete zero es f h e = (e, tt)
load_complete (suc n) [] f h e = (e, tt)
load_complete (suc n) (e ∷ es) f h none =
    ground (arith, load_complete n es (take_export true f e) h.1)

get_complete :
    (n : ℕ) (es : List Export) (f : Procs)
    → All HasAddress (take n es)
    → (walk_exports true n es f).get_proc_address ≡ 0
    → (f.get_proc_address ≡ 0) × All (λ e. is_get_proc_address e.name ≡ false) (take n es)
unfolding walk_exports take_export unfinished take
get_complete zero es f h e = (e, tt)
get_complete (suc n) [] f h e = (e, tt)
get_complete (suc n) (e ∷ es) f h none =
    ground (arith, get_complete n es (take_export true f e) h.1, names_apart e.name)

-- the first characters are the word, in any case of their letters
pub starts : List ℕ → List ℕ → Bool
starts w x = ite (text_discrete (map lower (take (length w) x)) w) true false

lower_starts_with-starts : (w x : List ℕ) → lower_starts_with w x ≡ starts w x
unfolding lower_starts_with starts take
lower_starts_with-starts [] x = ground arith
lower_starts_with-starts (c ∷ w) [] = ground arith
lower_starts_with-starts (c ∷ w) (b ∷ x) = ground (arith, lower_starts_with-starts w x)

HasExport-test :
    (p q : List ℕ → Bool) (a : ℕ) (es : List Export)
    → ((x : List ℕ) → p x ≡ q x)
    → HasExport p a es
    → HasExport q a es
HasExport-test p q a [] same h = h
HasExport-test p q a (e ∷ es) same (inl (t, at)) = inl (sym (same e.name) ∙ t, at)
HasExport-test p q a (e ∷ es) same (inr h) = inr (HasExport-test p q a es same h)

none-test :
    (p q : List ℕ → Bool) (es : List Export)
    → ((x : List ℕ) → p x ≡ q x)
    → All (λ e. p e.name ≡ false) es
    → All (λ e. q e.name ≡ false) es
none-test p q [] same h = tt
none-test p q (e ∷ es) same h = (sym (same e.name) ∙ h.0, none-test p q es same h.1)

-- the walk has found an export with such a name, or there is none
abbrev pub Locates : List ℕ → ℕ → List Export → Type 0
Locates w a es = ((a ≡ 0) × All (λ e. starts w e.name ≡ false) es) ⊎ HasExport (starts w) a es

-- Among the first exports of kernel32, as many as `NumberOfFunctions` says, the walk finds
-- LoadLibraryA and GetProcAddress, wherever they are, if all of these have addresses: what it finds
-- is the address of one whose name begins with "loadlibrarya" or "getprocaddress", in any case of
-- its letters, and it finds nothing only if no name among them begins so.
pub walk_exports-finds :
    (n : ℕ) (es : List Export)
    → All HasAddress (take n es)
    → (let f = walk_exports true n es (record { load_library = 0; get_proc_address = 0 }) in
        Locates (units "loadlibrarya") f.load_library (take n es)
        × Locates (units "getprocaddress") f.get_proc_address (take n es))
unfolding is_load_library is_get_proc_address
walk_exports-finds n es h =
    let zero : Procs = record { load_library = 0; get_proc_address = 0 } in
    let load = lower_starts_with-starts (units "loadlibrarya") in
    let get = lower_starts_with-starts (units "getprocaddress") in
    (
      elim (load_sound n es zero) [
        | inl e ↦ inl (e, none-test is_load_library _ _ load (load_complete n es zero h e).1)
        | inr x ↦ inr (HasExport-test is_load_library _ _ _ load x)
      ],
      elim (get_sound n es zero) [
        | inl e ↦ inl (e, none-test is_get_proc_address _ _ get (get_complete n es zero h e).1)
        | inr x ↦ inr (HasExport-test is_get_proc_address _ _ _ get x)
      ],
    )

-- While LoadLibraryA is still to be found, a later name that only begins with GetProcAddress takes
-- its place.
pub walk_exports-longer :
    (address longer load : ℕ) (tail : List ℕ)
    → 0 < longer
    → 0 < load
    → walk_exports true 3
        (record { name = units "GetProcAddress"; address = address }
          ∷ record { name = units "GetProcAddress" ++ tail; address = longer }
          ∷ record { name = units "LoadLibraryA"; address = load }
          ∷ [])
        (record { load_library = 0; get_proc_address = 0 })
      ≡ record { load_library = load; get_proc_address = longer }
unfolding walk_exports take_export unfinished is_load_library is_get_proc_address lower_starts_with
    lower
walk_exports-longer address longer load tail h k = ground arith
