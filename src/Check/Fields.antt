-- ===== src/Check/Fields.antt =====
-- The functions of engine/src/check.rs that read a line, on the fields that engine/src/topology.rs
-- wrote it from.
use rtmap.Base.{
  ℕ, ◌^◌, ◌<◌, ◌≡◌, refl, ◌∙◌, ap, Bool, true, false, List, [], ◌∷◌, ◌++◌, Option, none, some, ◌==◌,
  arith, not, ◌&&◌, all, All, All-map, if◌then◌else◌,
}
use rtmap.Base.Texts.{Text, is_empty, same_text, strip_prefix, split_once, parse_u64, parse_hex}
use rtmap.Base.Numerals.{
  decimal, hex, decimal-All, hex-All, is_digit, is_numeral, parse_u64-decimal, parse_hex-hex,
}
use rtmap.Topology.{
  Field, Value, number, address, text, word, texts, value, member, more_members, line,
}
use rtmap.Check.Json.{
  after, text_needle, number_needle, json_str, json_u64, json_hex, up_to_quote, replace_pair,
  take_while, or_zero, without_0x,
}
use rtmap.Check.Read.{
  IsKey, IsPlain, Unquoted, PlainValue, PlainField, Ends, after-member, esc_plain, is_plain,
  IsPlain-Unquoted, hex-Unquoted, decimal-Unquoted, is_end, is_key_char,
}

-- A value in quotes.
abbrev pub as_text : Value → Option Text
as_text (number n) = none
as_text (address a) = some (b'0' ∷ b'x' ∷ hex a)
as_text (text s) = some s
as_text (word s) = some s
as_text (texts ns) = none

abbrev pub or_no_text : Option Text → Text → Text
or_no_text none s = s
or_no_text (some t) s = t

-- The first value in quotes that the key has.
abbrev pub field_str : Text → List Field → Text
field_str k [] = []
field_str k ((j, v) ∷ fields) =
    if same_text k j then or_no_text (as_text v) (field_str k fields) else field_str k fields

abbrev pub as_number : Value → ℕ
as_number (number n) = n
as_number v = 0

-- The value that the key has first, 0 if it is no number.
abbrev pub field_u64 : Text → List Field → ℕ
field_u64 k [] = 0
field_u64 k ((j, v) ∷ fields) = if same_text k j then as_number v else field_u64 k fields

abbrev pub PlainFields : List Field → Type 0
PlainFields fields = All PlainField fields

members_end : (fields : List Field) → Ends (more_members fields)
unfolding more_members
members_end [] = refl
members_end ((j, v) ∷ fields) = refl

split_quote : (s rest : Text) → Unquoted s → split_once b'"' (s ++ b'"' ∷ rest) ≡ some (s, rest)
split_quote [] rest u = refl
split_quote (c ∷ s) rest u = rw (u.0, split_quote s rest u.1) refl

replace_pair_same :
    (b by : ℕ) (s : Text) → All (λ c. (c == b'\\') ≡ false) s → replace_pair b'\\' b by s ≡ s
unfolding replace_pair
replace_pair_same b by [] a = refl
replace_pair_same b by (c ∷ []) a = refl
replace_pair_same b by (c ∷ d ∷ s) a = rw a.0 (ap (λ t. c ∷ t) (replace_pair_same b by (d ∷ s) a.1))

up_to_quote_of :
    (s rest : Text)
    → Unquoted s
    → All (λ c. (c == b'\\') ≡ false) s
    → up_to_quote (s ++ b'"' ∷ rest) ≡ s
unfolding replace_pair
up_to_quote_of s rest u a =
    rw (up_to_quote, split_quote s rest u)
      (ap (replace_pair b'\\' b'n' b'\n') (replace_pair_same b'"' b'"' s a)
        ∙ replace_pair_same b'n' b'\n' s a)

no_quote : (s tail : Text) → Unquoted s → Ends tail → strip_prefix (b'"' ∷ []) (s ++ tail) ≡ none
no_quote [] [] u e = absurd e
no_quote [] (d ∷ tail) e e' = rw (other d e') refl
  where
    other : (d : ℕ) → is_end d ≡ true → (d == b'"') ≡ false
    other d h = ground arith
no_quote (c ∷ s) tail u e = rw u.0 refl

take_digits :
    (s tail : Text)
    → All (λ c. is_digit c ≡ true) s
    → Ends tail
    → take_while is_digit (s ++ tail) ≡ s
take_digits [] [] a e = absurd e
take_digits [] (d ∷ tail) a e = rw (other d e) refl
  where
    other : (d : ℕ) → is_end d ≡ true → is_digit d ≡ false
    other d h = ground arith
take_digits (c ∷ s) tail a e = rw a.0 (ap (λ t. c ∷ t) (take_digits s tail a.1 e))

hex_plain : (a : ℕ) → All (λ c. (c == b'\\') ≡ false) (hex a)
hex_plain a = All-map (λ c h. other c h) (hex a) (hex-All a)
  where
    other : (c : ℕ) → is_numeral c ≡ true → (c == b'\\') ≡ false
    other c h = ground arith

plain_read : (s rest : Text) → IsPlain s → up_to_quote (s ++ b'"' ∷ rest) ≡ s
plain_read s rest p = up_to_quote_of s rest (IsPlain-Unquoted s p) (All-map (λ c h. other c h) s p)
  where
    other : (c : ℕ) → is_plain c ≡ true → (c == b'\\') ≡ false
    other c h = ground arith

abbrev picked : Option Text → Text
picked o = elim o [ none ↦ [] | some rest ↦ up_to_quote rest ]

abbrev number_behind : Option Text → ℕ
number_behind o = elim o [ none ↦ 0 | some rest ↦ or_zero (parse_u64 (take_while is_digit rest)) ]

-- What the value of the key gives.
picked_value :
    (v : Value) (tail : Text) (o : Option Text)
    → PlainValue v
    → Ends tail
    → picked (elim (strip_prefix (b'"' ∷ []) (value v tail)) [ none ↦ o | some rest ↦ some rest ])
      ≡ or_no_text (as_text v) (picked o)
unfolding value
picked_value (number n) tail o p e = rw (no_quote (decimal n) tail (decimal-Unquoted n) e) refl
picked_value (address a) tail o p e =
    up_to_quote_of (b'0' ∷ b'x' ∷ hex a) tail (refl, (refl, hex-Unquoted a))
      (refl, (refl, hex_plain a))
picked_value (text s) tail o p e = rw (esc_plain s p) (plain_read s tail p)
picked_value (word s) tail o p e = plain_read s tail p
picked_value (texts ns) tail o p e = refl

counted_value :
    (v : Value) (tail : Text)
    → PlainValue v
    → Ends tail
    → or_zero (parse_u64 (take_while is_digit (value v tail))) ≡ as_number v
unfolding value
counted_value (number n) tail p e =
    rw (take_digits (decimal n) tail (decimal-All n) e, parse_u64-decimal n p) refl
counted_value (address a) tail p e = refl
counted_value (text s) tail p e = refl
counted_value (word s) tail p e = refl
counted_value (texts ns) tail p e = refl

module _ (c : ℕ) (cs : Text) (key : IsKey (c ∷ cs)) where
  str_member :
      (j : Text) (v : Value) (tail : Text)
      → PlainField (j, v)
      → Ends tail
      → picked (after (text_needle (c ∷ cs)) (member j v tail)) ≡ (
          if same_text (c ∷ cs) j
          then or_no_text (as_text v) (picked (after (text_needle (c ∷ cs)) tail))
          else picked (after (text_needle (c ∷ cs)) tail))
  str_member j v tail p e =
      ap picked (after-member c cs key (b'"' ∷ []) j v tail p e) ∙ by_key (same_text (c ∷ cs) j)
    where
      by_key :
          (b : Bool)
          → picked (elim (if b then strip_prefix (b'"' ∷ []) (value v tail) else none) [
            | none ↦ after (text_needle (c ∷ cs)) tail
            | some rest ↦ some rest
          ])
            ≡ (if b
                then or_no_text (as_text v) (picked (after (text_needle (c ∷ cs)) tail))
                else picked (after (text_needle (c ∷ cs)) tail))
      by_key true = picked_value v tail (after (text_needle (c ∷ cs)) tail) p.1 e
      by_key false = refl

  u64_member :
      (j : Text) (v : Value) (tail : Text)
      → PlainField (j, v)
      → Ends tail
      → number_behind (after (number_needle (c ∷ cs)) (member j v tail)) ≡ (
          if same_text (c ∷ cs) j
          then as_number v
          else number_behind (after (number_needle (c ∷ cs)) tail))
  u64_member j v tail p e =
      ap number_behind (after-member c cs key [] j v tail p e) ∙ by_key (same_text (c ∷ cs) j)
    where
      by_key :
          (b : Bool)
          → number_behind (elim (if b then strip_prefix [] (value v tail) else none) [
            | none ↦ after (number_needle (c ∷ cs)) tail
            | some rest ↦ some rest
          ])
            ≡ (if b then as_number v else number_behind (after (number_needle (c ∷ cs)) tail))
      by_key true = counted_value v tail p.1 e
      by_key false = refl

  picked_members :
      (fields : List Field)
      → PlainFields fields
      → picked (after (text_needle (c ∷ cs)) (more_members fields)) ≡ field_str (c ∷ cs) fields
  unfolding more_members after
  picked_members [] p = refl
  picked_members ((j, v) ∷ fields) p =
      str_member j v (more_members fields) p.0 (members_end fields)
      ∙ ap (λ t. if same_text (c ∷ cs) j then or_no_text (as_text v) t else t)
          (picked_members fields p.1)

  counted_members :
      (fields : List Field)
      → PlainFields fields
      → number_behind (after (number_needle (c ∷ cs)) (more_members fields))
        ≡ field_u64 (c ∷ cs) fields
  unfolding more_members after
  counted_members [] p = refl
  counted_members ((j, v) ∷ fields) p =
      u64_member j v (more_members fields) p.0 (members_end fields)
      ∙ ap (λ t. if same_text (c ∷ cs) j then as_number v else t) (counted_members fields p.1)

  -- `json_str` and `json_u64` find in a line what it was written from.
  json_str-line :
      (fields : List Field)
      → PlainFields fields
      → json_str (line fields) (c ∷ cs) ≡ field_str (c ∷ cs) fields
  unfolding json_str line more_members after
  json_str-line [] p = refl
  json_str-line ((j, v) ∷ fields) p = picked_members ((j, v) ∷ fields) p

  json_u64-line :
      (fields : List Field)
      → PlainFields fields
      → json_u64 (line fields) (c ∷ cs) ≡ field_u64 (c ∷ cs) fields
  unfolding json_u64 line more_members after
  json_u64-line [] p = refl
  json_u64-line ((j, v) ∷ fields) p = counted_members ((j, v) ∷ fields) p

abbrev pub read_hex : Text → ℕ
read_hex s = or_zero (parse_hex 64 (without_0x s))

abbrev pub is_key : Text → Bool
is_key k = not (is_empty k) && all is_key_char k

pub key_of : (k : Text) → all is_key_char k ≡ true → IsKey k
key_of [] h = tt
key_of (c ∷ k) h = ground (arith, key_of k)

module _ (fields : List Field) (p : PlainFields fields) where
  pub str_at :
      (k : Text) {s : Text}
      → is_key k ≡ true
      → field_str k fields ≡ s
      → json_str (line fields) k ≡ s
  str_at [] h e = cc
  str_at (c ∷ cs) h e = json_str-line c cs (key_of (c ∷ cs) h) fields p ∙ e

  pub u64_at :
      (k : Text) {n : ℕ} → is_key k ≡ true → field_u64 k fields ≡ n → json_u64 (line fields) k ≡ n
  u64_at [] h e = cc
  u64_at (c ∷ cs) h e = json_u64-line c cs (key_of (c ∷ cs) h) fields p ∙ e

  pub hex_at :
      (k : Text) (a : ℕ)
      → is_key k ≡ true
      → field_str k fields ≡ b'0' ∷ b'x' ∷ hex a
      → a < 2 ^ 64
      → json_hex (line fields) k ≡ a
  unfolding json_hex
  hex_at k a h e small = ap read_hex (str_at k h e) ∙ ap or_zero (parse_hex-hex a small)
