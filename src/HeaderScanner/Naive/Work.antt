-- ===== src/HeaderScanner/Naive/Work.antt =====
-- How much is left to do for the naive preprocessor of
-- Extensions/HeaderScanner/naivePreprocessor_.cpp.
use buildpal.Prelude.{
  ℕ, suc, ◌+◌, ◌<◌, ◌≤◌, true, false, ◌==◌, ◌≡◌, Option, none, some, List, [], ◌∷◌, length,
  if◌then◌else◌, arith, Bool-cases, inl, inr,
}
use buildpal.HeaderScanner.IncludeFinder.{
  IncludeDirective, RawToken, hash, raw_identifier, angle_string_literal, string_literal, other,
  Mode, in_text, after_hash, in_include, NextInclude, include_found, header_done, header_complex,
  next_include, IncludeFinder, fixed, lexing,
}
use buildpal.HeaderScanner.Naive.{NaiveState, HeaderCtx, visited, Found, found, ask}
use buildpal.HeaderScanner.Naive.Includes.{prefix, includes_of}

-- the tokens that a directive leaves, and one more
unfoldable after : NextInclude → ℕ
after (include_found d rest) = suc (length rest)
after header_done = 0
after header_complex = 0

after-next_include : (m : Mode) (ts : List RawToken) → after (next_include m ts) ≤ length ts
unfolding after next_include
after-next_include in_text [] = omega arith
after-next_include in_text (hash ∷ ts) = omega (arith, after-next_include after_hash ts)
after-next_include in_text (raw_identifier n ∷ ts) = omega (arith, after-next_include in_text ts)
after-next_include in_text (angle_string_literal t ∷ ts) =
    omega (arith, after-next_include in_text ts)
after-next_include in_text (string_literal t ∷ ts) = omega (arith, after-next_include in_text ts)
after-next_include in_text (other ∷ ts) = omega (arith, after-next_include in_text ts)
after-next_include after_hash [] = omega arith
after-next_include after_hash (hash ∷ ts) = omega (arith, after-next_include after_hash ts)
after-next_include after_hash (raw_identifier n ∷ ts) =
    ground (arith, after-next_include in_text ts, after-next_include in_include ts)
after-next_include after_hash (angle_string_literal t ∷ ts) =
    omega (arith, after-next_include in_text ts)
after-next_include after_hash (string_literal t ∷ ts) = omega (arith, after-next_include in_text ts)
after-next_include after_hash (other ∷ ts) = omega (arith, after-next_include in_text ts)
after-next_include in_include [] = omega arith
after-next_include in_include (hash ∷ ts) = omega arith
after-next_include in_include (raw_identifier n ∷ ts) = omega arith
after-next_include in_include (angle_string_literal t ∷ ts) = omega arith
after-next_include in_include (string_literal t ∷ ts) = omega arith
after-next_include in_include (other ∷ ts) = omega arith

unfoldable pub count : Option (List IncludeDirective) → ℕ
count none = 0
count (some ds) = length ds

count-prefix :
    (d : IncludeDirective) (o : Option (List IncludeDirective))
    → count (prefix (d ∷ []) o) ≤ suc (count o)
unfolding count prefix
count-prefix d none = omega arith
count-prefix d (some ds) = omega arith

pub count-includes_of : (m : Mode) (ts : List RawToken) → count (includes_of m ts) ≤ length ts
unfolding count includes_of
count-includes_of in_text [] = omega arith
count-includes_of in_text (hash ∷ ts) = omega (arith, count-includes_of after_hash ts)
count-includes_of in_text (raw_identifier n ∷ ts) = omega (arith, count-includes_of in_text ts)
count-includes_of in_text (angle_string_literal t ∷ ts) =
    omega (arith, count-includes_of in_text ts)
count-includes_of in_text (string_literal t ∷ ts) = omega (arith, count-includes_of in_text ts)
count-includes_of in_text (other ∷ ts) = omega (arith, count-includes_of in_text ts)
count-includes_of after_hash [] = omega arith
count-includes_of after_hash (hash ∷ ts) = omega (arith, count-includes_of after_hash ts)
count-includes_of after_hash (raw_identifier n ∷ ts) =
    ground (arith, count-includes_of in_text ts, count-includes_of in_include ts)
count-includes_of after_hash (angle_string_literal t ∷ ts) =
    omega (arith, count-includes_of in_text ts)
count-includes_of after_hash (string_literal t ∷ ts) = omega (arith, count-includes_of in_text ts)
count-includes_of after_hash (other ∷ ts) = omega (arith, count-includes_of in_text ts)
count-includes_of in_include [] = omega arith
count-includes_of in_include (hash ∷ ts) = omega arith
count-includes_of in_include (raw_identifier n ∷ ts) = omega arith
count-includes_of in_include (angle_string_literal t ∷ ts) =
    omega (arith, count-prefix (_) (includes_of in_text ts), count-includes_of in_text ts)
count-includes_of in_include (string_literal t ∷ ts) =
    omega (arith, count-prefix (_) (includes_of in_text ts), count-includes_of in_text ts)
count-includes_of in_include (other ∷ ts) = omega arith

-- a bound of the directives that a finder has still to find
unfoldable pub left : IncludeFinder → ℕ
left (fixed ds) = length ds
left (lexing ts includes) = length ts

unfoldable pub stack_work : List HeaderCtx → ℕ
stack_work [] = 0
stack_work (c ∷ cs) = suc (left c.include_finder) + stack_work cs

module _ (look_up : ℕ → IncludeDirective → Option Found) (tokens : ℕ → List RawToken)
    (dir_name : ℕ → List ℕ) where
  -- the work of the files that are not visited
  unfoldable pub fresh_work : List ℕ → List ℕ → ℕ
  unfolding visited
  fresh_work seen [] = 0
  fresh_work seen (f ∷ fs) =
      let rest = fresh_work seen fs in
      if visited f seen then rest else suc (length (tokens f)) + rest

  pub ask-left :
      (finder next : IncludeFinder) (file : ℕ) (s : NaiveState) (d : IncludeDirective)
      → ask look_up tokens dir_name finder file s.cache ≡ found d next
      → left next < left finder
  unfolding ask left after
  ask-left (fixed []) next file s d e = absurd (ground (arith, e))
  ask-left (fixed (x ∷ ds)) next file s d e = ground (arith, e)
  ask-left (lexing ts includes) next file s d e = ground (arith, e, after-next_include in_text ts)

  fresh_work-less : (seen fs : List ℕ) (g : ℕ) → fresh_work (g ∷ seen) fs ≤ fresh_work seen fs
  unfolding fresh_work visited
  fresh_work-less seen [] g = omega arith
  fresh_work-less seen (f ∷ fs) g = ground (arith, fresh_work-less seen fs g)

  pub fresh_work-visited :
      (seen fs : List ℕ) (g : ℕ)
      → visited g fs ≡ true
      → visited g seen ≡ false
      → fresh_work (g ∷ seen) fs + suc (length (tokens g)) ≤ fresh_work seen fs
  unfolding fresh_work visited
  fresh_work-visited seen [] g e n = absurd (ground (arith, e))
  fresh_work-visited seen (f ∷ fs) g e n = elim (Bool-cases (g == f)) [
    | inl q ↦ ground (arith, q, n, fresh_work-less seen fs g)
    | inr q ↦ ground (arith, q, e, n, fresh_work-visited seen fs g)
  ]
