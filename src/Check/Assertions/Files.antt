-- ===== src/Check/Assertions/Files.antt =====
-- A file of assertions, and what `parse_assertions` of engine/src/check.rs takes from it.
use mathlib.Core.List.{append_assoc}
use rtmap.Base.{
  ℕ, ◌+◌, ◌≡◌, refl, sym, ◌∙◌, ap, true, false, List, [], ◌∷◌, ◌++◌, some, ◌==◌, arith, All,
}
use rtmap.Base.Texts.{Text, codes, is_whitespace, trim, trim_start, trim_end, lines}
use rtmap.Base.Numerals.{decimal, decimal-All, decimal-is_empty, is_digit}
use rtmap.Base.Lines.{Unbroken, Clean, prepend, no_break, no_newline, first_line}
use rtmap.Check.Assertions.{
  Assertion, no_hazards, alloc_before_stamp, no_use_after_free, monotonic_seq, stamp_before_link,
  live_allocs_lt, stm_projections_gt, max_chain, type_stable, no_false_sharing, parse_one,
  push_parsed, assertion_of, parse_numbered, parse_assertions,
}
use rtmap.Check.Assertions.Shown.{show, is_name_char, IsName, Named, trim_end-Solid, decimal-Solid}
use rtmap.Check.Assertions.Parsed.{parse_one-show}

name-Unbroken : (s : Text) → IsName s → Unbroken s
name-Unbroken = no_break is_name_char (λ c h. apart c h)
  where
    apart : (c : ℕ) → is_name_char c ≡ true → (c == b'\n') ≡ false
    apart c h = ground arith

decimal-Clean : (n : ℕ) → Clean (decimal n)
decimal-Clean n = record {
  unbroken = no_break is_digit (λ c h. apart c h) (decimal n) (decimal-All n);
  trimmed = trim_end-Solid (decimal n) (decimal-Solid n);
  more = decimal-is_empty n;
}
  where
    apart : (c : ℕ) → is_digit c ≡ true → (c == b'\n') ≡ false
    apart c h = ground arith

closing-Clean : Clean (codes "\")")
unfolding trim_end is_whitespace
closing-Clean = record { unbroken = no_newline (codes "\")") refl; trimmed = refl; more = refl }

show-Clean : (x : Assertion) → Named x → Clean (show x)
unfolding show trim_end is_whitespace
show-Clean no_hazards h = record {
  unbroken = no_newline (codes "no_hazards") refl;
  trimmed = refl;
  more = refl;
}
show-Clean alloc_before_stamp h = record {
  unbroken = no_newline (codes "alloc_before_stamp") refl;
  trimmed = refl;
  more = refl;
}
show-Clean no_use_after_free h = record {
  unbroken = no_newline (codes "no_use_after_free") refl;
  trimmed = refl;
  more = refl;
}
show-Clean monotonic_seq h = record {
  unbroken = no_newline (codes "monotonic_seq") refl;
  trimmed = refl;
  more = refl;
}
show-Clean stamp_before_link h = record {
  unbroken = no_newline (codes "stamp_before_link") refl;
  trimmed = refl;
  more = refl;
}
show-Clean (live_allocs_lt n) h =
    let word = codes "live_allocs < " in
    prepend word (decimal n) (no_newline word refl) (decimal-Clean n)
show-Clean (stm_projections_gt n) h =
    let word = codes "stm_projections > " in
    prepend word (decimal n) (no_newline word refl) (decimal-Clean n)
show-Clean (max_chain t f n) h =
    let word = codes "max_chain(type(\"" in
    let between = codes "\"), \"" in
    let behind = codes "\") < " in
    prepend word _ (no_newline word refl) (
      prepend t _ (name-Unbroken t h.0) (
        prepend between _ (no_newline between refl) (
          prepend f _ (name-Unbroken f h.1)
            (prepend behind (decimal n) (no_newline behind refl) (decimal-Clean n)))))
show-Clean (type_stable t f) h =
    let word = codes "type_stable(global(\"" in
    let between = codes "\"), \"" in
    prepend word _ (no_newline word refl) (
      prepend t _ (name-Unbroken t h.0) (
        prepend between _ (no_newline between refl)
          (prepend f _ (name-Unbroken f h.1) closing-Clean)))
show-Clean (no_false_sharing a b) h =
    let word = codes "no_false_sharing(\"" in
    let between = codes "\", \"" in
    prepend word _ (no_newline word refl) (
      prepend a _ (name-Unbroken a h.0) (
        prepend between _ (no_newline between refl)
          (prepend b _ (name-Unbroken b h.1) closing-Clean)))

trim_start-show : (x : Assertion) → trim_start (show x) ≡ show x
unfolding show trim_start is_whitespace
trim_start-show no_hazards = refl
trim_start-show alloc_before_stamp = refl
trim_start-show no_use_after_free = refl
trim_start-show monotonic_seq = refl
trim_start-show stamp_before_link = refl
trim_start-show (live_allocs_lt n) = refl
trim_start-show (stm_projections_gt n) = refl
trim_start-show (max_chain t f n) = refl
trim_start-show (type_stable t f) = refl
trim_start-show (no_false_sharing a b) = refl

abbrev assert_line : Assertion → Text
assert_line x = codes "assert " ++ show x

line-Clean : (x : Assertion) → Named x → Clean (assert_line x)
line-Clean x h =
    prepend (codes "assert ") (show x) (no_newline (codes "assert ") refl) (show-Clean x h)

trim-assert_line : (x : Assertion) → Named x → trim (assert_line x) ≡ assert_line x
unfolding trim_start is_whitespace
trim-assert_line x h = (line-Clean x h).trimmed

assertion_of-assert_line : (x : Assertion) → Named x → assertion_of (trim (assert_line x)) ≡ some x
assertion_of-assert_line x h =
    ap assertion_of (trim-assert_line x h)
    ∙ ap parse_one (ap trim_end (trim_start-show x) ∙ (show-Clean x h).trimmed)
    ∙ parse_one-show x h

-- A line for each assertion.
abbrev pub assertion_file : List Assertion → Text
assertion_file [] = []
assertion_file (x ∷ xs) = codes "assert " ++ (show x ++ b'\n' ∷ assertion_file xs)

-- With the numbers of their lines.
abbrev pub numbered : ℕ → List Assertion → List (ℕ × Assertion)
numbered n [] = []
numbered n (x ∷ xs) = (n, x) ∷ numbered (n + 1) xs

parse_numbered-assertion_file :
    (n : ℕ) (xs : List Assertion)
    → All Named xs
    → parse_numbered n (lines (assertion_file xs)) ≡ numbered n xs
unfolding parse_numbered
parse_numbered-assertion_file n [] h = refl
parse_numbered-assertion_file n (x ∷ xs) h =
    ap (parse_numbered n) (
      ap lines (sym (append_assoc (codes "assert ") (show x) (b'\n' ∷ assertion_file xs)))
      ∙ first_line (assert_line x) (assertion_file xs) (line-Clean x h.0).unbroken)
    ∙ ap (λ o. push_parsed n o (parse_numbered (n + 1) (lines (assertion_file xs))))
        (assertion_of-assert_line x h.0)
    ∙ ap (λ rest. (n, x) ∷ rest) (parse_numbered-assertion_file (n + 1) xs h.1)

-- A file that has a line for each of some assertions, written as in the usage text, with names that
-- hold no quote, comma, parenthesis or newline and limits of 64 bits, is parsed to exactly these
-- assertions, with the numbers of their lines.
pub parse_assertions-assertion_file :
    (xs : List Assertion) → All Named xs → parse_assertions (assertion_file xs) ≡ numbered 1 xs
unfolding parse_assertions
parse_assertions-assertion_file xs h = parse_numbered-assertion_file 1 xs h
