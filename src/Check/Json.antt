-- ===== src/Check/Json.antt =====
-- `json_str`, `json_u64` and `json_hex` of engine/src/check.rs: the value behind the first place where
-- a key stands in a line.
use rtmap.Base.{ℕ, Bool, [], ◌∷◌, ◌++◌, Option, none, some, ◌==◌, ◌&&◌, if◌then◌else◌}
use rtmap.Base.Texts.{Text, codes, strip_prefix, split_once, parse_u64, parse_hex}
use rtmap.Base.Numerals.{is_digit}

-- `find`, and what follows the needle.
unfoldable pub after : Text → Text → Option Text
after needle [] = strip_prefix needle []
after needle (c ∷ s) =
    let later = after needle s in
    elim (strip_prefix needle (c ∷ s)) [ none ↦ later | some rest ↦ some rest ]

-- `replace` of two characters by one.
unfoldable pub replace_pair : ℕ → ℕ → ℕ → Text → Text
replace_pair a b by [] = []
replace_pair a b by (c ∷ []) = c ∷ []
replace_pair a b by (c ∷ d ∷ s) =
    let behind = replace_pair a b by s in
    let next = replace_pair a b by (d ∷ s) in if (c == a) && (d == b) then by ∷ behind else c ∷ next

abbrev pub unescape : Text → Text
unfolding replace_pair
unescape s = replace_pair b'\\' b'n' b'\n' (replace_pair b'\\' b'"' b'"' s)

abbrev pub text_needle : Text → Text
text_needle key = b'"' ∷ (key ++ codes "\":\"")

abbrev pub number_needle : Text → Text
number_needle key = b'"' ∷ (key ++ codes "\":")

abbrev pub up_to_quote : Text → Text
up_to_quote rest = elim (split_once b'"' rest) [ none ↦ [] | some (v, tail) ↦ unescape v ]

unfoldable pub json_str : Text → Text → Text
unfolding after
json_str l key = elim (after (text_needle key) l) [ none ↦ [] | some rest ↦ up_to_quote rest ]

abbrev pub take_while : (ℕ → Bool) → Text → Text
take_while p [] = []
take_while p (c ∷ s) = if p c then c ∷ take_while p s else []

abbrev pub or_zero : Option ℕ → ℕ
or_zero none = 0
or_zero (some n) = n

unfoldable pub json_u64 : Text → Text → ℕ
unfolding after
json_u64 l key = elim (after (number_needle key) l) [
  | none ↦ 0
  | some rest ↦ or_zero (parse_u64 (take_while is_digit rest))
]

-- `strip_prefix("0x").unwrap_or(&s)`
abbrev pub without_0x : Text → Text
without_0x s = elim (strip_prefix (codes "0x") s) [ none ↦ s | some rest ↦ rest ]

unfoldable pub json_hex : Text → Text → ℕ
unfolding json_str
json_hex l key = or_zero (parse_hex 64 (without_0x (json_str l key)))
