-- ===== src/Topology.antt =====
-- `TopologyStream` of engine/src/topology.rs: one line of JSON for each change of the graph. What is
-- written is kept as a text; that a write fails is ignored by the code, and left out here.
pub mod Calls
use rtmap.Base.{ℕ, List, [], ◌∷◌, ◌++◌, Option, none, some, ◌==◌, if◌then◌else◌, sub32, add64}
use rtmap.Base.Texts.{Text, codes}
use rtmap.Base.Numerals.{decimal, hex}

pub record TopologyStream : Type 0 where
  pub w : Text
  pub lines : ℕ

-- `replace` of one character.
unfoldable pub replace_char : ℕ → Text → Text → Text
replace_char c by [] = []
replace_char c by (d ∷ s) = if d == c then by ++ replace_char c by s else d ∷ replace_char c by s

unfoldable pub esc : Text → Text
unfolding replace_char
esc s =
    let backslashes = replace_char b'\\' (b'\\' ∷ b'\\' ∷ []) s in
    let quotes = replace_char b'"' (b'\\' ∷ b'"' ∷ []) backslashes in
    let newlines = replace_char b'\n' (b'\\' ∷ b'n' ∷ []) quotes in
    let returns = replace_char b'\r' (b'\\' ∷ b'r' ∷ []) newlines in
    replace_char b'\t' (b'\\' ∷ b't' ∷ []) returns

-- The values that the format strings hold: `{}`, `"0x{:x}"`, `"{}"` of an escaped text, `"{}"` of one
-- that is not, and the list of names.
pub data Value : Type 0 where
  number : ℕ → Value
  address : ℕ → Value
  text : Text → Value
  word : Text → Value
  texts : List Text → Value

abbrev pub Field : Type 0
Field = Text × Value

-- The names in quotes, with commas between them.
unfoldable pub quoted_names : List Text → Text → Text
unfolding esc
quoted_names [] rest = rest
quoted_names (n ∷ []) rest = b'"' ∷ (esc n ++ b'"' ∷ rest)
quoted_names (n ∷ m ∷ ns) rest = b'"' ∷ (esc n ++ b'"' ∷ b',' ∷ quoted_names (m ∷ ns) rest)

-- A value, and what is written behind it.
unfoldable pub value : Value → Text → Text
unfolding decimal hex esc quoted_names
value (number n) rest = decimal n ++ rest
value (address a) rest = b'"' ∷ b'0' ∷ b'x' ∷ (hex a ++ b'"' ∷ rest)
value (text s) rest = b'"' ∷ (esc s ++ b'"' ∷ rest)
value (word s) rest = b'"' ∷ (s ++ b'"' ∷ rest)
value (texts ns) rest = b'[' ∷ quoted_names ns (b']' ∷ rest)

unfoldable pub member : Text → Value → Text → Text
unfolding value
member key v rest = b'"' ∷ (key ++ b'"' ∷ b':' ∷ value v rest)

unfoldable pub more_members : List Field → Text
unfolding member
more_members [] = b'}' ∷ []
more_members ((key, v) ∷ fields) = b',' ∷ member key v (more_members fields)

-- A line of JSON: its members in order.
unfoldable pub line : List Field → Text
unfolding more_members member
line [] = b'{' ∷ b'}' ∷ []
line ((key, v) ∷ fields) = b'{' ∷ member key v (more_members fields)

unfoldable pub writeln : List Field → TopologyStream → TopologyStream
writeln fields t = record { w = t.w ++ line fields ++ b'\n' ∷ []; lines = add64 t.lines 1 }
