-- ===== src/Client/Environment/Roundtrip.antt =====
-- An environment that is written as a block and read again (Extensions/Client/client.cpp).
use buildpal.Prelude.{
  ℕ, ◌<◌, ◌≡◌, ◌≢◌, refl, sym, ap, ◌∙◌, none, some, List, [], ◌∷◌, ◌++◌, length, All, arith,
  text_discrete, append_assoc,
}
use buildpal.Prelude.Assoc.{lookup, lookup-insert_new}
use buildpal.Client.Environment.{
  EnvMap, split_lines, split_equal, add_line, parse_lines, environment, env_strings,
  create_env_block,
}

-- a variable that a block can hold
pub record FitsVariable (m : List ℕ × List ℕ) : Type 0 where
  pub named : 0 < length m.0
  pub key : All (λ c. (c ≢ 0) × (c ≢ b'=')) m.0
  pub value : All (λ c. c ≢ 0) m.1

split_lines-value :
    (v rest : List ℕ) → All (λ c. c ≢ 0) v → split_lines (v ++ 0 ∷ rest) ≡ v ∷ split_lines rest
unfolding split_lines
split_lines-value [] rest h = refl
split_lines-value (c ∷ v) rest h = ground (arith, split_lines-value v rest h.1, h.0)

split_lines-variable :
    (k v rest : List ℕ)
    → All (λ c. (c ≢ 0) × (c ≢ b'=')) k
    → All (λ c. c ≢ 0) v
    → split_lines (k ++ (b'=' ∷ (v ++ 0 ∷ rest))) ≡ (k ++ b'=' ∷ v) ∷ split_lines rest
unfolding split_lines
split_lines-variable [] v rest hk hv = rw (split_lines-value v rest hv) refl
split_lines-variable (c ∷ k) v rest hk hv =
    ground (arith, split_lines-variable k v rest hk.1 hv, hk.0.0)

split_equal-variable :
    (k v : List ℕ) → All (λ c. (c ≢ 0) × (c ≢ b'=')) k → split_equal (k ++ b'=' ∷ v) ≡ some (k, v)
unfolding split_equal
split_equal-variable [] v hk = refl
split_equal-variable (c ∷ k) v hk = ground (arith, split_equal-variable k v hk.1, hk.0.1)

parse_lines-variable :
    (k v : List ℕ) (lines : List (List ℕ)) (env : EnvMap)
    → 0 < length k
    → All (λ c. (c ≢ 0) × (c ≢ b'=')) k
    → parse_lines ((k ++ b'=' ∷ v) ∷ lines) env ≡ parse_lines lines (add_line env (some (k, v)))
unfolding parse_lines
parse_lines-variable [] v lines env named hk = absurd (omega arith)
parse_lines-variable (c ∷ k) v lines env named hk =
    ap (λ o. parse_lines lines (add_line env o)) (split_equal-variable (c ∷ k) v hk)

lookup-parse :
    (m env : EnvMap) (q : List ℕ)
    → All FitsVariable m
    → lookup text_discrete q (parse_lines (split_lines (env_strings m ++ 0 ∷ [])) env)
      ≡ elim (lookup text_discrete q env) [
        | none ↦ lookup text_discrete q m
        | some value ↦ some value
      ]
unfolding env_strings lookup parse_lines split_lines
lookup-parse [] env q h = ground arith
lookup-parse (([], v) ∷ m) env q h = absurd (omega (arith, h.0.named))
lookup-parse ((c ∷ k, v) ∷ m) env q h =
    ap (λ (t : List ℕ). lookup text_discrete q (parse_lines (split_lines t) env))
      (append_assoc (c ∷ k) _ (0 ∷ [])
        ∙ ap (λ (t : List ℕ). (c ∷ k) ++ b'=' ∷ t) (append_assoc v (0 ∷ env_strings m) (0 ∷ [])))
    ∙ ap (λ (t : List (List ℕ)). lookup text_discrete q (parse_lines t env))
        (split_lines-variable (c ∷ k) v (env_strings m ++ 0 ∷ []) h.0.key h.0.value)
    ∙ ap (λ (t : EnvMap). lookup text_discrete q t)
        (parse_lines-variable (c ∷ k) v (split_lines (env_strings m ++ 0 ∷ [])) env h.0.named
          h.0.key)
    ∙ lookup-parse m (add_line env (some (c ∷ k, v))) q h.1
    ∙ unfold add_line in ground (arith, lookup-insert_new text_discrete (c ∷ k) q v env)

-- An environment that is not empty is read back from its block: every variable has its value, and
-- no other variable is there, if no name is empty or has a '=', and no text has a NUL.
pub environment-create_env_block :
    (env : EnvMap) (block q : List ℕ)
    → All FitsVariable env
    → create_env_block env ≡ some block
    → lookup text_discrete q (environment block) ≡ lookup text_discrete q env
unfolding create_env_block environment lookup
environment-create_env_block [] block q h e = absurd cc
environment-create_env_block (m ∷ env) block q h e =
    let same : env_strings (m ∷ env) ++ 0 ∷ [] ≡ block = ground arith in
    ap (λ (t : List ℕ). lookup text_discrete q (parse_lines (split_lines t) [])) (sym same)
    ∙ lookup-parse (m ∷ env) [] q h
