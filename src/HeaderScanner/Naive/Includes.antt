-- ===== src/HeaderScanner/Naive/Includes.antt =====
-- The directives that Extensions/HeaderScanner/naivePreprocessor_.cpp finds in a file, one after the
-- other, against all of them.
use buildpal.Prelude.{
  true, false, ◌≡◌, refl, sym, ap, Option, none, some, List, [], ◌∷◌, ◌++◌, append_assoc, ite,
  text_discrete, units, arith,
}
use buildpal.HeaderScanner.IncludeFinder.{
  IncludeDirective, RawToken, hash, raw_identifier, angle_string_literal, string_literal, other,
  Mode, in_text, after_hash, in_include, NextInclude, include_found, header_done, header_complex,
  directive, next_include,
}

-- in front of the directives of a file, if it is not complex
unfoldable pub prefix :
    List IncludeDirective → Option (List IncludeDirective) → Option (List IncludeDirective)
prefix ds none = none
prefix ds (some es) = some (ds ++ es)

-- all directives of a text, or `none` where a file's name is not written out
unfoldable pub includes_of : Mode → List RawToken → Option (List IncludeDirective)
unfolding prefix directive
includes_of in_text [] = some []
includes_of in_text (hash ∷ ts) = includes_of after_hash ts
includes_of in_text (raw_identifier n ∷ ts) = includes_of in_text ts
includes_of in_text (angle_string_literal t ∷ ts) = includes_of in_text ts
includes_of in_text (string_literal t ∷ ts) = includes_of in_text ts
includes_of in_text (other ∷ ts) = includes_of in_text ts
includes_of after_hash [] = some []
includes_of after_hash (hash ∷ ts) = includes_of after_hash ts
includes_of after_hash (raw_identifier n ∷ ts) =
    let include = includes_of in_include ts in
    let text = includes_of in_text ts in ite (text_discrete n (units "include")) include text
includes_of after_hash (angle_string_literal t ∷ ts) = includes_of in_text ts
includes_of after_hash (string_literal t ∷ ts) = includes_of in_text ts
includes_of after_hash (other ∷ ts) = includes_of in_text ts
includes_of in_include (angle_string_literal t ∷ ts) =
    prefix (directive t true ∷ []) (includes_of in_text ts)
includes_of in_include (string_literal t ∷ ts) =
    prefix (directive t false ∷ []) (includes_of in_text ts)
includes_of in_include _ = none

-- what is still to be found after a step
unfoldable pub rest_of : NextInclude → Option (List IncludeDirective)
unfolding prefix includes_of
rest_of (include_found d ts) = prefix (d ∷ []) (includes_of in_text ts)
rest_of header_done = some []
rest_of header_complex = none

pub includes_of-next_include :
    (m : Mode) (ts : List RawToken) → includes_of m ts ≡ rest_of (next_include m ts)
unfolding includes_of next_include rest_of
includes_of-next_include in_text [] = refl
includes_of-next_include in_text (hash ∷ ts) = includes_of-next_include after_hash ts
includes_of-next_include in_text (raw_identifier n ∷ ts) = includes_of-next_include in_text ts
includes_of-next_include in_text (angle_string_literal t ∷ ts) = includes_of-next_include in_text ts
includes_of-next_include in_text (string_literal t ∷ ts) = includes_of-next_include in_text ts
includes_of-next_include in_text (other ∷ ts) = includes_of-next_include in_text ts
includes_of-next_include after_hash [] = refl
includes_of-next_include after_hash (hash ∷ ts) = includes_of-next_include after_hash ts
includes_of-next_include after_hash (raw_identifier n ∷ ts) =
    ground (arith, includes_of-next_include in_include ts, includes_of-next_include in_text ts)
includes_of-next_include after_hash (angle_string_literal t ∷ ts) =
    includes_of-next_include in_text ts
includes_of-next_include after_hash (string_literal t ∷ ts) = includes_of-next_include in_text ts
includes_of-next_include after_hash (other ∷ ts) = includes_of-next_include in_text ts
includes_of-next_include in_include [] = refl
includes_of-next_include in_include (hash ∷ ts) = refl
includes_of-next_include in_include (raw_identifier n ∷ ts) = refl
includes_of-next_include in_include (angle_string_literal t ∷ ts) = refl
includes_of-next_include in_include (string_literal t ∷ ts) = refl
includes_of-next_include in_include (other ∷ ts) = refl

pub prefix-prefix :
    (ds : List IncludeDirective) (d : IncludeDirective) (o : Option (List IncludeDirective))
    → prefix ds (prefix (d ∷ []) o) ≡ prefix (ds ++ d ∷ []) o
unfolding prefix
prefix-prefix ds d none = refl
prefix-prefix ds d (some es) = ap some (sym (append_assoc ds (d ∷ []) es))
