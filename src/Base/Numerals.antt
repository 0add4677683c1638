-- ===== src/Base/Numerals.antt =====
-- `{}` and `{:x}` of an unsigned integer of at most 64 bits, and what reads them back.
use Prim.Native.Nat.{ℕ, zero, suc, ◌+◌, ◌-◌, ◌*◌, ◌/◌, ◌%◌, ◌^◌, ◌<◌}
use mathlib.Core.Path.{◌≡◌, refl, sym, ◌∙◌, ap}
use mathlib.Core.Bool.{Bool, true, false, ◌&&◌, ◌||◌}
use mathlib.Core.List.{[], ◌∷◌, ◌++◌, append-nil, append_assoc}
use mathlib.Core.Option.{none, some}
use native.Mathlib.Omega.{arith}
use rtmap.Base.Tests.{if◌then◌else◌, ltb, leb, ◌==◌, ◌>>=◌, Bool-cases, if_rule, if_cases}
use mathlib.Core.Logic.{inl, inr}
use rtmap.Base.Lists.{All, All-append}
use rtmap.Base.Texts.{Text, is_empty, digits, parse_u64, hex_digit, hex_digits, parse_hex}

unfoldable pub decimal_from : ℕ → ℕ → Text
decimal_from zero n = []
decimal_from (suc fuel) n =
    let rest = decimal_from fuel (n / 10) in
    if ltb n 10 then (b'0' + n) ∷ [] else rest ++ (b'0' + n % 10) ∷ []

-- A number of 64 bits has fewer than 64 digits.
unfoldable pub decimal : ℕ → Text
unfolding decimal_from
decimal n = decimal_from 64 n

abbrev pub hex_code : ℕ → ℕ
hex_code d = if ltb d 10 then b'0' + d else b'a' + (d - 10)

unfoldable pub hex_from : ℕ → ℕ → Text
hex_from zero n = []
hex_from (suc fuel) n =
    let rest = hex_from fuel (n / 16) in
    if ltb n 16 then hex_code n ∷ [] else rest ++ hex_code (n % 16) ∷ []

unfoldable pub hex : ℕ → Text
unfolding hex_from
hex n = hex_from 64 n

power_step : (f : ℕ) → 2 ^ suc f ≡ 2 * 2 ^ f
power_step f = omega arith

digit_step :
    (a d n : ℕ) (rest : Text)
    → d < 10
    → a * 10 + d ≡ n
    → n < 2 ^ 64
    → digits a ((b'0' + d) ∷ rest) ≡ digits n rest
digit_step a d n rest low sum small =
    let value : a * 10 + (b'0' + d - b'0') ≡ n = omega (arith, sum) in
    let below : ltb n 0x10000000000000000 ≡ true = ground (arith, small) in
    let digit : (leb b'0' (b'0' + d) && leb (b'0' + d) b'9') ≡ true = ground (arith, low) in
    rw (digit, value, below) refl

pub digits-decimal_from :
    (f n : ℕ) (rest : Text)
    → n < 2 ^ f
    → n < 2 ^ 64
    → digits 0 (decimal_from f n ++ rest) ≡ digits n rest
unfolding decimal_from
digits-decimal_from zero n rest h small = ground arith
digits-decimal_from (suc f) n rest h small = elim (Bool-cases (ltb n 10)) [
  | inl one ↦ rw one (digit_step 0 n n rest (ground arith) (omega arith) small)
  | inr more ↦
      rw (more, append_assoc (decimal_from f (n / 10)) ((b'0' + n % 10) ∷ []) rest)
        (digits-decimal_from f (n / 10) ((b'0' + n % 10) ∷ rest) (omega (arith, h, power_step f))
            (omega (arith, small))
          ∙ digit_step (n / 10) (n % 10) n rest (omega arith) (omega arith) small)
]

hex_digit-hex_code : (d : ℕ) → d < 16 → hex_digit (hex_code d) ≡ some d
hex_digit-hex_code d h = ground arith

hex_step :
    (a d n : ℕ) (rest : Text)
    → d < 16
    → a * 16 + d ≡ n
    → n < 2 ^ 64
    → hex_digits 64 a (hex_code d ∷ rest) ≡ hex_digits 64 n rest
hex_step a d n rest low sum small =
    let below : ltb (a * 16 + d) (2 ^ 64) ≡ true = ground (arith, small, sum) in
    ap (λ o. o >>= λ e. if ltb (a * 16 + e) (2 ^ 64) then hex_digits 64 (a * 16 + e) rest else none)
      (hex_digit-hex_code d low)
    ∙ rw below (ap (λ m. hex_digits 64 m rest) sum)

pub hex_digits-hex_from :
    (f n : ℕ) (rest : Text)
    → n < 2 ^ f
    → n < 2 ^ 64
    → hex_digits 64 0 (hex_from f n ++ rest) ≡ hex_digits 64 n rest
unfolding hex_from
hex_digits-hex_from zero n rest h small = ap (λ m. hex_digits 64 m rest) (omega arith)
hex_digits-hex_from (suc f) n rest h small = elim (Bool-cases (ltb n 16)) [
  | inl one ↦ rw one (hex_step 0 n n rest (ground arith) (omega arith) small)
  | inr more ↦
      rw (more, append_assoc (hex_from f (n / 16)) (hex_code (n % 16) ∷ []) rest)
        (hex_digits-hex_from f (n / 16) (hex_code (n % 16) ∷ rest) (omega (arith, h, power_step f))
            (omega (arith, small))
          ∙ hex_step (n / 16) (n % 16) n rest (omega arith) (omega arith) small)
]

-- `is_ascii_digit`
abbrev pub is_digit : ℕ → Bool
is_digit c = leb b'0' c && leb c b'9'

-- A digit, or a lower-case letter of a hexadecimal number.
abbrev pub is_numeral : ℕ → Bool
is_numeral c = is_digit c || (leb b'a' c && leb c b'f')

pub decimal_from-All : (f n : ℕ) → All (λ c. is_digit c ≡ true) (decimal_from f n)
unfolding decimal_from
decimal_from-All zero n = tt
decimal_from-All (suc f) n =
    if_cases (All (λ c. is_digit c ≡ true)) (ltb n 10) (λ one. (ground arith, tt))
      (λ _.
        All-append (λ c. is_digit c ≡ true) (decimal_from f (n / 10)) ((b'0' + n % 10) ∷ [])
          (decimal_from-All f (n / 10)) (ground (arith, last_digit n), tt))
  where
    last_digit : (n : ℕ) → n % 10 < 10
    last_digit n = omega arith

pub hex_from-All : (f n : ℕ) → All (λ c. is_numeral c ≡ true) (hex_from f n)
unfolding hex_from
hex_from-All zero n = tt
hex_from-All (suc f) n =
    if_cases (All (λ c. is_numeral c ≡ true)) (ltb n 16) (λ one. (numeral n (ground arith), tt))
      (λ _.
        All-append (λ c. is_numeral c ≡ true) (hex_from f (n / 16)) (hex_code (n % 16) ∷ [])
          (hex_from-All f (n / 16)) (numeral (n % 16) (omega arith), tt))
  where
    numeral : (d : ℕ) → d < 16 → is_numeral (hex_code d) ≡ true
    numeral d h = ground arith

append_more : (s : Text) (c : ℕ) → is_empty (s ++ c ∷ []) ≡ false
append_more [] c = refl
append_more (d ∷ s) c = refl

decimal_more : (f n : ℕ) → is_empty (decimal_from (suc f) n) ≡ false
unfolding decimal_from
decimal_more f n =
    if_rule (λ s. is_empty s ≡ false) (ltb n 10) refl (append_more (decimal_from f (n / 10)) _)

hex_more : (f n : ℕ) → is_empty (hex_from (suc f) n) ≡ false
unfolding hex_from
hex_more f n =
    if_rule (λ s. is_empty s ≡ false) (ltb n 16) refl (append_more (hex_from f (n / 16)) _)

parse_digits :
    (s : Text) → All (λ c. is_digit c ≡ true) s → is_empty s ≡ false → parse_u64 s ≡ digits 0 s
parse_digits [] a m = cc
parse_digits (c ∷ s) a m = rw (no_sign c a.0) refl
  where
    no_sign : (c : ℕ) → is_digit c ≡ true → (c == b'+') ≡ false
    no_sign c h = ground arith

parse_numerals :
    (s : Text)
    → All (λ c. is_numeral c ≡ true) s
    → is_empty s ≡ false
    → parse_hex 64 s ≡ hex_digits 64 0 s
parse_numerals [] a m = cc
parse_numerals (c ∷ []) a m = refl
parse_numerals (c ∷ d ∷ s) a m = rw (no_sign c a.0) refl
  where
    no_sign : (c : ℕ) → is_numeral c ≡ true → (c == b'+') ≡ false
    no_sign c h = ground arith

pub decimal-All : (n : ℕ) → All (λ c. is_digit c ≡ true) (decimal n)
unfolding decimal
decimal-All n = decimal_from-All 64 n

pub hex-All : (n : ℕ) → All (λ c. is_numeral c ≡ true) (hex n)
unfolding hex
hex-All n = hex_from-All 64 n

pub decimal-is_empty : (n : ℕ) → is_empty (decimal n) ≡ false
unfolding decimal
decimal-is_empty n = decimal_more 63 n

pub parse_u64-decimal : (n : ℕ) → n < 2 ^ 64 → parse_u64 (decimal n) ≡ some n
unfolding decimal
parse_u64-decimal n small =
    parse_digits (decimal_from 64 n) (decimal_from-All 64 n) (decimal_more 63 n)
    ∙ ap (digits 0) (sym (append-nil (decimal_from 64 n)))
    ∙ digits-decimal_from 64 n [] small small

pub parse_hex-hex : (n : ℕ) → n < 2 ^ 64 → parse_hex 64 (hex n) ≡ some n
unfolding hex
parse_hex-hex n small =
    parse_numerals (hex_from 64 n) (hex_from-All 64 n) (hex_more 63 n)
    ∙ ap (hex_digits 64 0) (sym (append-nil (hex_from 64 n)))
    ∙ hex_digits-hex_from 64 n [] small small
