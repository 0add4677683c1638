-- ===== src/Check/Read.antt =====
-- What `json_str` and its kin find in a line of engine/src/topology.rs.
use rtmap.Base.{
  ℕ, ◌^◌, ◌<◌, ◌≡◌, refl, ◌∙◌, ap, Bool, true, false, not, ◌&&◌, ◌||◌, List, [], ◌∷◌, ◌++◌, Option,
  none, some, ◌==◌, leb, arith, All, All-map, if◌then◌else◌, if_rule,
}
use rtmap.Base.Texts.{Text, same_text, strip_prefix}
use rtmap.Base.Numerals.{decimal, hex, decimal-All, hex-All, is_digit, is_numeral}
use rtmap.Topology.{
  Field, Value, number, address, text, word, texts, esc, replace_char, value, member, quoted_names,
}
use rtmap.Check.Json.{after}

-- The characters of the keys.
abbrev pub is_key_char : ℕ → Bool
is_key_char c = (leb b'a' c && leb c b'z') || (c == b'_')

abbrev pub IsKey : Text → Type 0
IsKey k = All (λ c. is_key_char c ≡ true) k

-- No quote in it.
abbrev pub Unquoted : Text → Type 0
Unquoted s = All (λ c. (c == b'"') ≡ false) s

-- The needle without its first quote.
abbrev pub tail_of : Text → Text → Text
tail_of k more = k ++ b'"' ∷ b':' ∷ more

pub skip : (n s rest : Text) → Unquoted s → after (b'"' ∷ n) (s ++ rest) ≡ after (b'"' ∷ n) rest
unfolding after
skip n [] rest u = refl
skip n (c ∷ s) rest u = rw (after, u.0) (skip n s rest u.1)

strip_key :
    (k j more rest : Text)
    → Unquoted k
    → Unquoted j
    → strip_prefix (tail_of k more) (j ++ b'"' ∷ rest)
      ≡ (if same_text k j then strip_prefix (b':' ∷ more) rest else none)
strip_key [] [] more rest u v = refl
strip_key [] (d ∷ j) more rest u v = rw v.0 refl
strip_key (c ∷ k) [] more rest u v = ground (arith, u.0)
strip_key (c ∷ k) (d ∷ j) more rest u v = ground (arith, strip_key k j more rest u.1 v.1)

IsKey-Unquoted : (k : Text) → IsKey k → Unquoted k
IsKey-Unquoted k a = All-map (λ c h. plain_char c h) k a
  where
    plain_char : (c : ℕ) → is_key_char c ≡ true → (c == b'"') ≡ false
    plain_char c h = ground arith

-- What stands behind a value.
abbrev pub is_end : ℕ → Bool
is_end c = (c == b',') || (c == b'}') || (c == b']')

abbrev pub Ends : Text → Type 0
Ends [] = ⊥
Ends (c ∷ s) = is_end c ≡ true

-- A key that is not empty, and what follows its colon in the needle.
module _ (c : ℕ) (cs : Text) (key : IsKey (c ∷ cs)) (more : Text) where
  abbrev pub k : Text
  k = c ∷ cs

  abbrev pub needle : Text
  needle = b'"' ∷ tail_of k more

  no_start :
      (d : ℕ) (s : Text) → is_key_char d ≡ false → strip_prefix (tail_of k more) (d ∷ s) ≡ none
  no_start d s h = rw (other c d key.0 h) refl
    where
      other : (c d : ℕ) → is_key_char c ≡ true → is_key_char d ≡ false → (d == c) ≡ false
      other c d g h = ground arith

  not_here :
      (s : Text) → strip_prefix (tail_of k more) s ≡ none → after needle (b'"' ∷ s) ≡ after needle s
  unfolding after
  not_here s h = ap (λ o. elim o [ none ↦ after needle s | some rest ↦ some rest ]) h

  before_end : (tail : Text) → Ends tail → after needle (b'"' ∷ tail) ≡ after needle tail
  before_end [] e = absurd e
  before_end (d ∷ tail) e = not_here (d ∷ tail) (no_start d tail (not_key d e))
    where
      not_key : (d : ℕ) → is_end d ≡ true → is_key_char d ≡ false
      not_key d h = ground arith

  -- A value in quotes is no place of the key.
  after_quoted :
      (s tail : Text)
      → Unquoted s
      → Ends tail
      → after needle (b'"' ∷ (s ++ b'"' ∷ tail)) ≡ after needle tail
  after_quoted s tail u e =
      not_here (s ++ b'"' ∷ tail) (
        strip_key k s more tail (IsKey-Unquoted k key) u
        ∙ if_rule (λ (o : Option Text). o ≡ none) (same_text k s) (no_colon tail e) refl)
      ∙ skip (tail_of k more) s (b'"' ∷ tail) u
      ∙ before_end tail e
    where
      no_colon : (tail : Text) → Ends tail → strip_prefix (b':' ∷ more) tail ≡ none
      no_colon [] e = absurd e
      no_colon (d ∷ tail) e = rw (other d e) refl
        where
          other : (d : ℕ) → is_end d ≡ true → (d == b':') ≡ false
          other d h = ground arith

-- No character that `esc` changes.
abbrev pub is_plain : ℕ → Bool
is_plain c = not ((c == b'"') || (c == b'\\') || (c == b'\n') || (c == b'\r') || (c == b'\t'))

abbrev pub IsPlain : Text → Type 0
IsPlain s = All (λ c. is_plain c ≡ true) s

pub IsPlain-Unquoted : (s : Text) → IsPlain s → Unquoted s
IsPlain-Unquoted s a = All-map (λ c h. other c h) s a
  where
    other : (c : ℕ) → is_plain c ≡ true → (c == b'"') ≡ false
    other c h = ground arith

replace_char_same : (c : ℕ) (by s : Text) → All (λ d. (d == c) ≡ false) s → replace_char c by s ≡ s
unfolding replace_char
replace_char_same c by [] a = refl
replace_char_same c by (d ∷ s) a = rw (a.0) (ap (λ t. d ∷ t) (replace_char_same c by s a.1))

pub esc_plain : (s : Text) → IsPlain s → esc s ≡ s
unfolding esc
esc_plain s a =
    rw
      (
        replace_char_same b'\\' _ s (All-map (λ c h. ground arith) s a),
        replace_char_same b'"' _ s (All-map (λ c h. ground arith) s a),
        replace_char_same b'\n' _ s (All-map (λ c h. ground arith) s a),
        replace_char_same b'\r' _ s (All-map (λ c h. ground arith) s a),
        replace_char_same b'\t' _ s (All-map (λ c h. ground arith) s a),
      )
      refl

abbrev pub PlainValue : Value → Type 0
PlainValue (number n) = n < 2 ^ 64
PlainValue (address a) = a < 2 ^ 64
PlainValue (text s) = IsPlain s
PlainValue (word s) = IsPlain s
PlainValue (texts ns) = All IsPlain ns

abbrev pub PlainField : Field → Type 0
PlainField (key, v) = IsKey key × PlainValue v

pub hex-Unquoted : (a : ℕ) → Unquoted (hex a)
hex-Unquoted a = All-map (λ c h. other c h) (hex a) (hex-All a)
  where
    other : (c : ℕ) → is_numeral c ≡ true → (c == b'"') ≡ false
    other c h = ground arith

pub decimal-Unquoted : (n : ℕ) → Unquoted (decimal n)
decimal-Unquoted n = All-map (λ c h. other c h) (decimal n) (decimal-All n)
  where
    other : (c : ℕ) → is_digit c ≡ true → (c == b'"') ≡ false
    other c h = ground arith

module _ (c : ℕ) (cs : Text) (key : IsKey (c ∷ cs)) (more : Text) where
  after_names :
      (ns : List Text) (tail : Text)
      → All IsPlain ns
      → Ends tail
      → after (needle c cs key more) (quoted_names ns tail) ≡ after (needle c cs key more) tail
  unfolding quoted_names
  after_names [] tail a e = refl
  after_names (n ∷ []) tail a e =
      rw (esc_plain n a.0) (after_quoted c cs key more n tail (IsPlain-Unquoted n a.0) e)
  after_names (n ∷ m ∷ ns) tail a e = rw (esc_plain n a.0) (
      after_quoted c cs key more n (b',' ∷ quoted_names (m ∷ ns) tail) (IsPlain-Unquoted n a.0) refl
      ∙ skip (tail_of (c ∷ cs) more) (b',' ∷ []) (quoted_names (m ∷ ns) tail) (refl, tt)
      ∙ after_names (m ∷ ns) tail a.1 e)

  after_value :
      (v : Value) (tail : Text)
      → PlainValue v
      → Ends tail
      → after (needle c cs key more) (value v tail) ≡ after (needle c cs key more) tail
  unfolding value
  after_value (number n) tail p e =
      skip (tail_of (c ∷ cs) more) (decimal n) tail (decimal-Unquoted n)
  after_value (address a) tail p e =
      after_quoted c cs key more (b'0' ∷ b'x' ∷ hex a) tail (refl, (refl, hex-Unquoted a)) e
  after_value (text s) tail p e =
      rw (esc_plain s p) (after_quoted c cs key more s tail (IsPlain-Unquoted s p) e)
  after_value (word s) tail p e = after_quoted c cs key more s tail (IsPlain-Unquoted s p) e
  after_value (texts ns) tail p e =
      skip (tail_of (c ∷ cs) more) (b'[' ∷ []) (quoted_names ns (b']' ∷ tail)) (refl, tt)
      ∙ after_names ns (b']' ∷ tail) p refl
      ∙ skip (tail_of (c ∷ cs) more) (b']' ∷ []) tail (refl, tt)

  -- A member is the place of the key if it has the key, and if its value starts as the needle ends.
  pub after-member :
      (j : Text) (v : Value) (tail : Text)
      → PlainField (j, v)
      → Ends tail
      → after (needle c cs key more) (member j v tail)
        ≡ elim (if same_text (c ∷ cs) j then strip_prefix more (value v tail) else none) [
          | none ↦ after (needle c cs key more) tail
          | some rest ↦ some rest
        ]
  unfolding member after
  after-member j v tail p e =
      let N = needle c cs key more in
      let colon = b':' ∷ value v tail in
      let beyond : after N (j ++ b'"' ∷ colon) ≡ after N tail =
        skip (tail_of (c ∷ cs) more) j (b'"' ∷ colon) (IsKey-Unquoted j p.0)
        ∙ not_here c cs key more colon (no_start c cs key more b':' (value v tail) refl)
        ∙ skip (tail_of (c ∷ cs) more) (b':' ∷ []) (value v tail) (refl, tt)
        ∙ after_value v tail p.1 e in
      ap (λ o. elim o [ none ↦ after N (j ++ b'"' ∷ colon) | some rest ↦ some rest ])
        (strip_key (c ∷ cs) j more colon (IsKey-Unquoted (c ∷ cs) key) (IsKey-Unquoted j p.0))
      ∙ ap
          (λ y. elim (if same_text (c ∷ cs) j then strip_prefix more (value v tail) else none) [
            | none ↦ y
            | some rest ↦ some rest
          ])
          beyond
