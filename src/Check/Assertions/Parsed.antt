-- ===== src/Check/Assertions/Parsed.antt =====
-- `parse_one` of engine/src/check.rs on every kind of assertion.
use mathlib.Core.List.{append_assoc}
use rtmap.Base.{
  ℕ, ◌≡◌, refl, sym, ◌∙◌, ap, true, false, [], ◌∷◌, ◌++◌, Option, none, some, ◌==◌, ◌^◌, ◌<◌, arith,
  ==_refl, All-append, ◌>>=◌,
}
use rtmap.Base.Texts.{Text, codes, is_whitespace, trim, trim_start, split_once}
use rtmap.Base.Numerals.{decimal}
use rtmap.Check.Assertions.{
  Assertion, no_hazards, alloc_before_stamp, no_use_after_free, monotonic_seq, stamp_before_link,
  live_allocs_lt, stm_projections_gt, max_chain, type_stable, no_false_sharing,
  extract_plain_quoted, extract_quoted_after, put_before, close_paren, without_paren, split,
  parse_max_chain, parse_type_stable, parse_no_false_sharing, parse_one,
}
use rtmap.Check.Assertions.Shown.{
  show, is_name_char, IsName, Named, Without, no_commas, split_once-Without, extract_quoted,
  limit_read, quoted_read,
}

abbrev before_pair : Text → Option (Text × Text) → Option (Text × Text)
before_pair s none = none
before_pair s (some (a, b)) = some (s ++ a, b)

-- A name has no parenthesis.
close_name :
    (depth : ℕ) (s rest : Text)
    → IsName s
    → close_paren depth (s ++ rest) ≡ before_pair s (close_paren depth rest)
unfolding close_paren
close_name depth [] rest a = unchanged (close_paren depth rest)
  where
    unchanged : (o : Option (Text × Text)) → o ≡ before_pair [] o
    unchanged none = refl
    unchanged (some r) = refl
close_name depth (c ∷ s) rest a =
    let opens : (c == b'(') ≡ false = no_open c a.0 in
    let closes : (c == b')') ≡ false = no_close c a.0 in
    rw (opens, closes)
      (ap (put_before c) (close_name depth s rest a.1) ∙ joined (close_paren depth rest))
  where
    no_open : (c : ℕ) → is_name_char c ≡ true → (c == b'(') ≡ false
    no_open c h = ground arith

    no_close : (c : ℕ) → is_name_char c ≡ true → (c == b')') ≡ false
    no_close c h = ground arith

    joined : (o : Option (Text × Text)) → put_before c (before_pair s o) ≡ before_pair (c ∷ s) o
    joined none = refl
    joined (some (x, y)) = refl

max_chain_args :
    (t f rest : Text)
    → IsName t
    → IsName f
    → close_paren 1 (codes "type(\"" ++ (t ++ (codes "\"), \"" ++ (f ++ (codes "\")" ++ rest)))))
      ≡ some (codes "type(\"" ++ (t ++ (codes "\"), \"" ++ (f ++ codes "\""))), rest)
unfolding close_paren
max_chain_args t f rest a b =
    rw
      (
        close_name 2 t (codes "\"), \"" ++ (f ++ (codes "\")" ++ rest))) a,
        close_name 1 f (codes "\")" ++ rest) b,
      )
      refl

-- The arguments of the two kinds that hold a word in parentheses: the comma stands behind the first.
at_comma :
    (p t f : Text)
    → Without b',' p
    → IsName t
    → split_once b',' (p ++ (t ++ (codes "\"), \"" ++ (f ++ codes "\""))))
      ≡ some (p ++ (t ++ codes "\")"), b' ' ∷ b'"' ∷ (f ++ codes "\""))
at_comma p t f u a =
    let rest = b' ' ∷ b'"' ∷ (f ++ codes "\"") in
    ap (split_once b',') (
      ap (λ s. p ++ s) (sym (append_assoc t (codes "\")") (b',' ∷ rest)))
      ∙ sym (append_assoc p (t ++ codes "\")") (b',' ∷ rest)))
    ∙ split_once-Without b',' (p ++ (t ++ codes "\")")) rest (
        All-append (λ d. (d == b',') ≡ false) p (t ++ codes "\")") u
          (All-append (λ d. (d == b',') ≡ false) t (codes "\")") (no_commas t a)
            (refl, (refl, tt))))

lt_solid : is_whitespace b'<' ≡ false
unfolding is_whitespace
lt_solid = refl

gt_solid : is_whitespace b'>' ≡ false
unfolding is_whitespace
gt_solid = refl

parse_max_chain-show :
    (t f : Text) (n : ℕ)
    → IsName t
    → IsName f
    → n < 2 ^ 64
    → parse_max_chain
        (codes "type(\"" ++ (t ++ (codes "\"), \"" ++ (f ++ (codes "\") < " ++ decimal n)))))
      ≡ some (max_chain t f n)
unfolding parse_max_chain extract_quoted_after
parse_max_chain-show t f n a b small =
    let word = codes "type(\"" in
    rw
      (
        max_chain_args t f (codes " < " ++ decimal n) a b,
        limit_read b'<' n lt_solid small,
        extract_quoted t (b')' ∷ b',' ∷ b' ' ∷ b'"' ∷ (f ++ codes "\"")) a,
      )
      (ap
          (λ o. o >>= λ parts.
            extract_plain_quoted (trim parts.1) >>= λ field. some (max_chain t field n))
          (at_comma word t f (refl, (refl, (refl, (refl, (refl, (refl, tt)))))) a)
        ∙ ap (λ o. o >>= λ field. some (max_chain t field n)) (quoted_read f b))

without_paren_of : (s : Text) → without_paren (s ++ b')' ∷ []) ≡ some s
without_paren_of [] = refl
without_paren_of (c ∷ []) = refl
without_paren_of (c ∷ d ∷ s) = rw (without_paren_of (d ∷ s)) refl

parse_type_stable-show :
    (t f : Text)
    → IsName t
    → IsName f
    → parse_type_stable (codes "global(\"" ++ (t ++ (codes "\"), \"" ++ (f ++ codes "\")"))))
      ≡ some (type_stable t f)
unfolding parse_type_stable extract_quoted_after
parse_type_stable-show t f a b =
    let word = codes "global(\"" in
    let inner = word ++ (t ++ (codes "\"), \"" ++ (f ++ codes "\""))) in
    let whole : inner ++ b')' ∷ [] ≡ word ++ (t ++ (codes "\"), \"" ++ (f ++ codes "\")"))) =
      ap (λ s. word ++ s)
        (append_assoc t (codes "\"), \"" ++ (f ++ codes "\"")) (b')' ∷ [])
          ∙ ap (λ s. t ++ (codes "\"), \"" ++ s)) (append_assoc f (codes "\"") (b')' ∷ []))) in
    ap parse_type_stable (sym whole)
    ∙ rw
        (without_paren_of inner, extract_quoted t (b')' ∷ b',' ∷ b' ' ∷ b'"' ∷ (f ++ codes "\"")) a)
        (ap
            (λ o. o >>= λ parts.
              extract_plain_quoted (trim parts.1) >>= λ field. some (type_stable t field))
            (at_comma word t f (refl, (refl, (refl, (refl, (refl, (refl, (refl, (refl, tt)))))))) a)
          ∙ ap (λ o. o >>= λ field. some (type_stable t field)) (quoted_read f b))

unspaced : (s : Text) → IsName s → extract_plain_quoted (trim (b'"' ∷ (s ++ b'"' ∷ []))) ≡ some s
unfolding trim_start is_whitespace
unspaced s a = quoted_read s a

split-Without : (c : ℕ) (s : Text) → Without c s → split c s ≡ s ∷ []
split-Without c [] u = refl
split-Without c (d ∷ s) u = rw (u.0, split-Without c s u.1) refl

split_at : (c : ℕ) (s rest : Text) → Without c s → split c (s ++ c ∷ rest) ≡ s ∷ split c rest
split_at c [] rest u = rw (==_refl c) refl
split_at c (d ∷ s) rest u = rw (u.0, split_at c s rest u.1) refl

parse_no_false_sharing-show :
    (a b : Text)
    → IsName a
    → IsName b
    → parse_no_false_sharing (b'"' ∷ (a ++ (codes "\", \"" ++ (b ++ codes "\")"))))
      ≡ some (no_false_sharing a b)
unfolding parse_no_false_sharing
parse_no_false_sharing-show a b u v =
    let left = b'"' ∷ (a ++ codes "\"") in
    let right = b' ' ∷ b'"' ∷ (b ++ codes "\"") in
    let inner = left ++ b',' ∷ right in
    let no_comma : (s : Text) → IsName s → Without b',' (s ++ codes "\"") =
      λ s h. All-append (λ d. (d == b',') ≡ false) s (codes "\"") (no_commas s h) (refl, tt) in
    let whole : inner ++ b')' ∷ [] ≡ b'"' ∷ (a ++ (codes "\", \"" ++ (b ++ codes "\")"))) =
      append_assoc left (b',' ∷ right) (b')' ∷ [])
      ∙ ap (λ s. b'"' ∷ s)
          (append_assoc a (codes "\"") (b',' ∷ (right ++ b')' ∷ []))
            ∙ ap (λ s. a ++ (codes "\", \"" ++ s)) (append_assoc b (codes "\"") (b')' ∷ []))) in
    ap parse_no_false_sharing (sym whole)
    ∙ rw
        (
          without_paren_of inner,
          split_at b',' left right (refl, no_comma a u),
          split-Without b',' right (refl, (refl, no_comma b v)),
        )
        (ap (λ o. o >>= λ x. extract_plain_quoted (trim right) >>= λ y. some (no_false_sharing x y))
            (unspaced a u)
          ∙ ap (λ o. o >>= λ y. some (no_false_sharing a y)) (quoted_read b v))

-- `parse_one` takes every assertion from the line that shows it.
pub parse_one-show : (x : Assertion) → Named x → parse_one (show x) ≡ some x
unfolding parse_one show
parse_one-show no_hazards h = refl
parse_one-show alloc_before_stamp h = refl
parse_one-show no_use_after_free h = refl
parse_one-show monotonic_seq h = refl
parse_one-show stamp_before_link h = refl
parse_one-show (live_allocs_lt n) h =
    ap (λ o. o >>= λ m. some (live_allocs_lt m)) (limit_read b'<' n lt_solid h)
parse_one-show (stm_projections_gt n) h =
    ap (λ o. o >>= λ m. some (stm_projections_gt m)) (limit_read b'>' n gt_solid h)
parse_one-show (max_chain t f n) h = parse_max_chain-show t f n h.0 h.1 h.2
parse_one-show (type_stable t f) h = parse_type_stable-show t f h.0 h.1
parse_one-show (no_false_sharing a b) h = parse_no_false_sharing-show a b h.0 h.1
