-- ===== src/Check/Assertions/Shown.antt =====
-- The assertions written as the usage text of engine/src/check.rs has them, and parsed again.
use rtmap.Base.{
  ℕ, ◌^◌, ◌<◌, ◌≡◌, refl, ◌∙◌, ap, Bool, true, false, not, ◌&&◌, ◌||◌, [], ◌∷◌, ◌++◌, some, ◌==◌,
  arith, ==_refl, All, All-map, if◌then◌else◌, ◌>>=◌,
}
use rtmap.Base.Texts.{
  Text, codes, is_empty, is_whitespace, trim, trim_start, trim_end, split_once, strip_prefix,
  parse_u64,
}
use rtmap.Base.Numerals.{decimal, decimal-All, decimal-is_empty, is_digit, parse_u64-decimal}
use rtmap.Check.Assertions.{
  Assertion, no_hazards, alloc_before_stamp, no_use_after_free, monotonic_seq, stamp_before_link,
  live_allocs_lt, stm_projections_gt, max_chain, type_stable, no_false_sharing,
  extract_plain_quoted, limit_after,
}

unfoldable pub show : Assertion → Text
show no_hazards = codes "no_hazards"
show alloc_before_stamp = codes "alloc_before_stamp"
show no_use_after_free = codes "no_use_after_free"
show monotonic_seq = codes "monotonic_seq"
show stamp_before_link = codes "stamp_before_link"
show (live_allocs_lt n) = codes "live_allocs < " ++ decimal n
show (stm_projections_gt n) = codes "stm_projections > " ++ decimal n
show (max_chain t f n) =
    codes "max_chain(type(\"" ++ (t ++ (codes "\"), \"" ++ (f ++ (codes "\") < " ++ decimal n))))
show (type_stable s e) =
    codes "type_stable(global(\"" ++ (s ++ (codes "\"), \"" ++ (e ++ codes "\")")))
show (no_false_sharing a b) =
    codes "no_false_sharing(\"" ++ (a ++ (codes "\", \"" ++ (b ++ codes "\")")))

-- What the grammar gives no meaning to: no quote, comma, parenthesis or newline.
abbrev pub is_name_char : ℕ → Bool
is_name_char c = not ((c == b'"') || (c == b',') || (c == b'(') || (c == b')') || (c == b'\n'))

abbrev pub IsName : Text → Type 0
IsName s = All (λ c. is_name_char c ≡ true) s

abbrev pub Without : ℕ → Text → Type 0
Without c s = All (λ d. (d == c) ≡ false) s

abbrev pub Named : Assertion → Type 0
Named (live_allocs_lt n) = n < 2 ^ 64
Named (stm_projections_gt n) = n < 2 ^ 64
Named (max_chain t f n) = IsName t × IsName f × (n < 2 ^ 64)
Named (type_stable s e) = IsName s × IsName e
Named (no_false_sharing a b) = IsName a × IsName b
Named no_hazards = Unit
Named alloc_before_stamp = Unit
Named no_use_after_free = Unit
Named monotonic_seq = Unit
Named stamp_before_link = Unit

pub split_once-Without :
    (c : ℕ) (s rest : Text) → Without c s → split_once c (s ++ c ∷ rest) ≡ some (s, rest)
split_once-Without c [] rest u = rw (==_refl c) refl
split_once-Without c (d ∷ s) rest u = rw (u.0, split_once-Without c s rest u.1) refl

pub no_mark :
    (c : ℕ)
    → ((d : ℕ) → is_name_char d ≡ true → (d == c) ≡ false)
    → (s : Text) → IsName s
    → Without c s
no_mark c f s a = All-map f s a

pub no_quotes : (s : Text) → IsName s → Without b'"' s
no_quotes = no_mark b'"' (λ d h. apart d h)
  where
    apart : (d : ℕ) → is_name_char d ≡ true → (d == b'"') ≡ false
    apart d h = ground arith

pub no_commas : (s : Text) → IsName s → Without b',' s
no_commas = no_mark b',' (λ d h. apart d h)
  where
    apart : (d : ℕ) → is_name_char d ≡ true → (d == b',') ≡ false
    apart d h = ground arith

pub extract_quoted :
    (s rest : Text) → IsName s → extract_plain_quoted (b'"' ∷ (s ++ b'"' ∷ rest)) ≡ some s
unfolding extract_plain_quoted
extract_quoted s rest a = rw (split_once-Without b'"' s rest (no_quotes s a)) refl

pub trim_end_kept : (s t : Text) → trim_end t ≡ t → is_empty t ≡ false → trim_end (s ++ t) ≡ s ++ t
unfolding trim_end
trim_end_kept [] t h k = h
trim_end_kept (c ∷ s) t h k = rw (trim_end_kept s t h k, more s t k) refl
  where
    more : (s t : Text) → is_empty t ≡ false → is_empty (s ++ t) ≡ false
    more [] t k = k
    more (c ∷ s) t k = refl

abbrev pub Solid : Text → Type 0
Solid s = All (λ c. is_whitespace c ≡ false) s

pub trim_end-Solid : (s : Text) → Solid s → trim_end s ≡ s
unfolding trim_end
trim_end-Solid [] a = refl
trim_end-Solid (c ∷ s) a = rw (trim_end-Solid s a.1, a.0) (kept (is_empty s))
  where
    kept : (b : Bool) → (if b && false then [] else c ∷ s) ≡ c ∷ s
    kept true = refl
    kept false = refl

digit_solid : (c : ℕ) → is_digit c ≡ true → is_whitespace c ≡ false
unfolding is_whitespace
digit_solid c h = ground arith

pub decimal-Solid : (n : ℕ) → Solid (decimal n)
decimal-Solid n = All-map (λ c h. digit_solid c h) (decimal n) (decimal-All n)

trim_start-Solid : (s : Text) → Solid s → trim_start s ≡ s
unfolding trim_start
trim_start-Solid [] a = refl
trim_start-Solid (c ∷ s) a = rw a.0 refl

spaced : (s : Text) → Solid s → trim (b' ' ∷ s) ≡ s
unfolding trim_start is_whitespace
spaced s a = ap trim_end (trim_start-Solid s a) ∙ trim_end-Solid s a

trim_left : (c : ℕ) (s : Text) → is_whitespace c ≡ false → trim (b' ' ∷ c ∷ s) ≡ trim_end (c ∷ s)
unfolding trim_start is_whitespace
trim_left c s h = ap trim_end (rw h refl)

quote_solid : is_whitespace b'"' ≡ false
unfolding is_whitespace
quote_solid = refl

-- A limit as the assertions print it.
pub limit_read :
    (c n : ℕ)
    → is_whitespace c ≡ false
    → n < 2 ^ 64
    → limit_after c (b' ' ∷ c ∷ b' ' ∷ decimal n) ≡ some n
unfolding limit_after
limit_read c n solid small =
    let outer : trim (b' ' ∷ c ∷ b' ' ∷ decimal n) ≡ c ∷ b' ' ∷ decimal n =
      trim_left c (b' ' ∷ decimal n) solid
      ∙ trim_end_kept (c ∷ b' ' ∷ []) (decimal n) (trim_end-Solid (decimal n) (decimal-Solid n))
          (decimal-is_empty n) in
    ap (λ s. strip_prefix (c ∷ []) s >>= λ m. parse_u64 (trim m)) outer
    ∙ rw (==_refl c) (ap parse_u64 (spaced (decimal n) (decimal-Solid n)))
    ∙ parse_u64-decimal n small

-- Text in quotes behind a space.
pub quoted_read :
    (s : Text) → IsName s → extract_plain_quoted (trim (b' ' ∷ b'"' ∷ (s ++ b'"' ∷ []))) ≡ some s
quoted_read s a =
    ap extract_plain_quoted (
      trim_left b'"' (s ++ b'"' ∷ []) quote_solid
      ∙ trim_end_kept (b'"' ∷ s) (b'"' ∷ []) (trim_end-Solid (b'"' ∷ []) (quote_solid, tt)) refl)
    ∙ extract_quoted s [] a
