-- ===== src/Prelude/Texts.antt =====
-- Texts as lists of code units (bytes, or the 16-bit units of a `std::wstring`).
use Prim.Native.Nat.{ℕ}
use Prim.Native.Char.{code}
use Prim.Native.String.{String}
use mathlib.Core.List.{List, [], ◌∷◌}
use native.Mathlib.Decide.{ℕ_discrete}

unfoldable pub text_discrete : Discrete (List ℕ)
unfolding ℕ_discrete
text_discrete = hlevel ℕ_discrete

-- the code units of an ASCII literal
abbrev pub units : String → List ℕ
units String.[] = []
units (String.◌∷◌ c s) = code c ∷ units s
