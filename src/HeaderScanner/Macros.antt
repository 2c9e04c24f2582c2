-- ===== src/HeaderScanner/Macros.antt =====
-- `MacroState` (Extensions/HeaderScanner/macroState_.hpp) and `IndexedUsedMacros`
-- (Extensions/HeaderScanner/headerCache_.hpp). Flyweights stand for the texts that they intern.
use buildpal.Prelude.{
  ℕ, Bool, true, false, none, some, List, [], ◌∷◌, ◌++◌, ◌≡◌, All, text_discrete,
}
use buildpal.Prelude.Assoc.{Assoc, lookup, assign}

abbrev pub MacroName : Type 0
MacroName = List ℕ

abbrev pub MacroValue : Type 0
MacroValue = List ℕ

-- the names and values of macros, in an order
abbrev pub Macros : Type 0
Macros = Assoc MacroName MacroValue

-- the text of one NUL
abbrev pub undefined_macro_value : MacroValue
undefined_macro_value = 0 ∷ []

unfoldable pub define_macro : Macros → MacroName → MacroValue → Macros
define_macro state name value = assign text_discrete name value state

unfoldable pub undefine_macro : Macros → MacroName → Macros
unfolding define_macro
undefine_macro state name = define_macro state name undefined_macro_value

unfoldable pub get_macro_value : Macros → MacroName → MacroValue
get_macro_value state name = elim (lookup text_discrete name state) [
  | none ↦ undefined_macro_value
  | some value ↦ value
]

-- `IndexedUsedMacros::addMacro`: a macro that is there keeps its value
unfoldable pub add_macro : Macros → MacroName → (MacroName → MacroValue) → Macros × Bool
add_macro used name getter = elim (lookup text_discrete name used) [
  | some value ↦ (used, false)
  | none ↦ (used ++ (name, getter name) ∷ [], true)
]

-- every macro has in the state the value with which it is listed
abbrev pub Agrees : Macros → Macros → Type 0
Agrees state = All (λ m. get_macro_value state m.0 ≡ m.1)
