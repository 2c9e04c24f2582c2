-- ===== src/Client/Environment/Path.antt =====
-- The directories that `getPath` (Extensions/Client/client.cpp) finds.
use buildpal.Prelude.{ℕ, ◌≡◌, ◌≢◌, refl, some, List, [], ◌∷◌, ◌++◌, All, arith}
use buildpal.Client.Environment.{path_loop, get_path}

rest_dropped : (segment s : List ℕ) → All (λ c. c ≢ b';') s → path_loop segment s ≡ []
unfolding path_loop
rest_dropped segment [] h = refl
rest_dropped segment (c ∷ s) h = ground (arith, h.0, rest_dropped (segment ++ c ∷ []) s h.1)

loop_drops :
    (p segment s : List ℕ)
    → All (λ c. c ≢ b';') s
    → path_loop segment (p ++ s) ≡ path_loop segment p
unfolding path_loop
loop_drops [] segment s h = rest_dropped segment s h
loop_drops (c ∷ p) segment s h =
    ground (arith, loop_drops p [] s h, loop_drops p (segment ++ c ∷ []) s h)

-- What stands behind the last semicolon of PATH is never searched: a last directory without a
-- semicolon behind it is not in the list.
pub get_path-append :
    (p s : List ℕ) → All (λ c. c ≢ b';') s → get_path (some (p ++ s)) ≡ get_path (some p)
unfolding get_path
get_path-append p s h = loop_drops p [] s h
