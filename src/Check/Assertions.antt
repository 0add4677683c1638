-- ===== src/Check/Assertions.antt =====
-- The assertions of engine/src/check.rs and how their lines are parsed. The warnings on lines that are
-- not understood are left out.
pub mod Shown
pub mod Parsed
pub mod Files
use rtmap.Base.{
  ℕ, zero, suc, ◌+◌, ◌-◌, List, [], ◌∷◌, ◌++◌, Option, none, some, ◌==◌, ◌||◌, if◌then◌else◌, ◌>>=◌,
}
use rtmap.Base.Texts.{
  Text, codes, same_text, is_empty, trim, lines, split_once, strip_prefix, parse_u64, first_is,
}

pub data Assertion : Type 0 where
  no_hazards alloc_before_stamp no_use_after_free monotonic_seq stamp_before_link : Assertion
  live_allocs_lt stm_projections_gt : ℕ → Assertion
  max_chain : Text → Text → ℕ → Assertion
  type_stable no_false_sharing : Text → Text → Assertion

-- `find('"')`, twice: what stands between the first two quotes.
unfoldable pub extract_plain_quoted : Text → Option Text
extract_plain_quoted s =
    split_once b'"' s >>= λ opened. split_once b'"' opened.1 >>= λ closed. some closed.0

unfoldable pub extract_quoted_after : Text → Text → Option Text
extract_quoted_after s prefix = strip_prefix prefix s >>= extract_plain_quoted

abbrev pub put_before : ℕ → Option (Text × Text) → Option (Text × Text)
put_before c none = none
put_before c (some (s, rest)) = some (c ∷ s, rest)

-- The loop over the characters: what stands before the parenthesis that brings the depth to 0, and
-- what behind it.
unfoldable pub close_paren : ℕ → Text → Option (Text × Text)
close_paren depth [] = none
close_paren depth (c ∷ s) =
    let deeper = close_paren (depth + 1) s in
    let outer = close_paren (depth - 1) s in
    let same = close_paren depth s in
    if c == b'('
    then put_before c deeper
    else if c == b')'
    then if depth == 1 then some ([], s) else put_before c outer
    else put_before c same

-- `strip_suffix(')')`
abbrev pub without_paren : Text → Option Text
without_paren [] = none
without_paren (c ∷ []) = if c == b')' then some [] else none
without_paren (c ∷ d ∷ s) = without_paren (d ∷ s) >>= λ r. some (c ∷ r)

-- `split(c)`
abbrev pub split : ℕ → Text → List Text
split c [] = [] ∷ []
split c (d ∷ s) =
    if d == c
    then [] ∷ split c s
    else elim (split c s) [ [] ↦ (d ∷ []) ∷ [] | p ∷ ps ↦ (d ∷ p) ∷ ps ]

-- `trim().strip_prefix(c)?.trim().parse()`
unfoldable pub limit_after : ℕ → Text → Option ℕ
limit_after c s = strip_prefix (c ∷ []) (trim s) >>= λ n. parse_u64 (trim n)

unfoldable pub parse_max_chain : Text → Option Assertion
parse_max_chain after = close_paren 1 after >>= λ args. limit_after b'<' args.1 >>= λ limit.
    extract_quoted_after args.0 (codes "type(") >>= λ type_arg. split_once b',' args.0 >>= λ parts.
    extract_plain_quoted (trim parts.1) >>= λ field. some (max_chain type_arg field limit)

unfoldable pub parse_type_stable : Text → Option Assertion
parse_type_stable after = without_paren after >>= λ inner.
    extract_quoted_after inner (codes "global(") >>= λ source. split_once b',' inner >>= λ parts.
    extract_plain_quoted (trim parts.1) >>= λ expected. some (type_stable source expected)

abbrev pub of_two : List Text → Option Assertion
of_two (a ∷ b ∷ []) = extract_plain_quoted (trim a) >>= λ name_a.
    extract_plain_quoted (trim b) >>= λ name_b. some (no_false_sharing name_a name_b)
of_two parts = none

unfoldable pub parse_no_false_sharing : Text → Option Assertion
parse_no_false_sharing after = without_paren after >>= λ inner. of_two (split b',' inner)

-- `if let Some(after) = s.strip_prefix(p)`, and `starts_with` with `strip_prefix` behind it.
abbrev pub on_prefix : Text → Text → (Text → Option Assertion) → Option Assertion → Option Assertion
on_prefix p s then_parse otherwise = elim (strip_prefix p s) [
  | none ↦ otherwise
  | some rest ↦ then_parse rest
]

unfoldable pub parse_one : Text → Option Assertion
parse_one s =
    if same_text s (codes "no_hazards")
    then some no_hazards
    else on_prefix (codes "live_allocs") s
        (λ r. limit_after b'<' r >>= λ n. some (live_allocs_lt n))
        (on_prefix (codes "stm_projections") s
          (λ r. limit_after b'>' r >>= λ n. some (stm_projections_gt n))
          (on_prefix (codes "max_chain(") s parse_max_chain (
            on_prefix (codes "type_stable(") s parse_type_stable (
              if same_text s (codes "alloc_before_stamp")
              then some alloc_before_stamp
              else if same_text s (codes "no_use_after_free")
              then some no_use_after_free
              else if same_text s (codes "monotonic_seq")
              then some monotonic_seq
              else if same_text s (codes "stamp_before_link")
              then some stamp_before_link
              else on_prefix (codes "no_false_sharing(") s parse_no_false_sharing none))))

abbrev pub push_parsed : ℕ → Option Assertion → List (ℕ × Assertion) → List (ℕ × Assertion)
push_parsed lineno none rest = rest
push_parsed lineno (some a) rest = (lineno, a) ∷ rest

-- A line that is empty or a comment gives nothing, and so does one that is not understood.
abbrev pub assertion_of : Text → Option Assertion
assertion_of l =
    if is_empty l || first_is b'#' l
    then none
    else strip_prefix (codes "assert ") l >>= λ body. parse_one (trim body)

unfoldable pub parse_numbered : ℕ → List Text → List (ℕ × Assertion)
parse_numbered lineno [] = []
parse_numbered lineno (l ∷ ls) =
    push_parsed lineno (assertion_of (trim l)) (parse_numbered (lineno + 1) ls)

pub parse_assertions : Text → List (ℕ × Assertion)
parse_assertions content = parse_numbered 1 (lines content)
