-- ===== src/Check/Rebuilt.antt =====
-- What engine/src/check.rs builds from a file that engine/src/topology.rs wrote.
use mathlib.Core.List.{append-nil, append_assoc}
use rtmap.Base.{
  ℕ, ◌≡◌, refl, sym, ◌∙◌, ap, true, false, List, [], ◌∷◌, ◌++◌, ◌==◌, arith, All, if◌then◌else◌,
}
use rtmap.Base.Texts.{Text, is_empty, is_whitespace, trim, trim_start, trim_end, lines}
use rtmap.Base.Numerals.{decimal, hex, decimal-All, hex-All, is_digit, is_numeral}
use rtmap.Base.Lines.{Unbroken, Clean, prepend, no_break, first_line}
use rtmap.Topology.{
  TopologyStream, Field, Value, number, address, text, word, texts, quoted_names, value, member,
  more_members, line, writeln,
}
use rtmap.Check.{TopoGraph, empty_graph, add_line, build, build_from}
use rtmap.Check.Read.{IsPlain, is_plain, PlainValue, PlainField, esc_plain, is_key_char}
use rtmap.Check.Fields.{PlainFields}
use rtmap.Check.Emissions.{Emission, emit, fields_of, recorded, OfWords, emit-writeln}
use rtmap.Check.Emissions.Read.{emission_read}

IsPlain-Unbroken : (s : Text) → IsPlain s → Unbroken s
IsPlain-Unbroken = no_break is_plain (λ c h. other c h)
  where
    other : (c : ℕ) → is_plain c ≡ true → (c == b'\n') ≡ false
    other c h = ground arith

IsKey-Unbroken : (s : Text) → All (λ c. is_key_char c ≡ true) s → Unbroken s
IsKey-Unbroken = no_break is_key_char (λ c h. other c h)
  where
    other : (c : ℕ) → is_key_char c ≡ true → (c == b'\n') ≡ false
    other c h = ground arith

decimal-Unbroken : (n : ℕ) → Unbroken (decimal n)
decimal-Unbroken n = no_break is_digit (λ c h. other c h) (decimal n) (decimal-All n)
  where
    other : (c : ℕ) → is_digit c ≡ true → (c == b'\n') ≡ false
    other c h = ground arith

hex-Unbroken : (n : ℕ) → Unbroken (hex n)
hex-Unbroken n = no_break is_numeral (λ c h. other c h) (hex n) (hex-All n)
  where
    other : (c : ℕ) → is_numeral c ≡ true → (c == b'\n') ≡ false
    other c h = ground arith

names-Clean :
    (ns : List Text) (tail : Text) → All IsPlain ns → Clean tail → Clean (quoted_names ns tail)
unfolding quoted_names
names-Clean [] tail a c = c
names-Clean (n ∷ []) tail a c = rw (esc_plain n a.0) (
    prepend (b'"' ∷ n) (b'"' ∷ tail) (refl, IsPlain-Unbroken n a.0)
      (prepend (b'"' ∷ []) tail (refl, tt) c))
names-Clean (n ∷ m ∷ ns) tail a c = rw (esc_plain n a.0) (
    prepend (b'"' ∷ n) (b'"' ∷ b',' ∷ quoted_names (m ∷ ns) tail) (refl, IsPlain-Unbroken n a.0)
      (prepend (b'"' ∷ b',' ∷ []) (quoted_names (m ∷ ns) tail) (refl, (refl, tt))
        (names-Clean (m ∷ ns) tail a.1 c)))

quoted-Clean : (s tail : Text) → Unbroken s → Clean tail → Clean (b'"' ∷ (s ++ b'"' ∷ tail))
quoted-Clean s tail u c =
    prepend (b'"' ∷ s) (b'"' ∷ tail) (refl, u) (prepend (b'"' ∷ []) tail (refl, tt) c)

value-Clean : (v : Value) (tail : Text) → PlainValue v → Clean tail → Clean (value v tail)
unfolding value
value-Clean (number n) tail p c = prepend (decimal n) tail (decimal-Unbroken n) c
value-Clean (address a) tail p c =
    quoted-Clean (b'0' ∷ b'x' ∷ hex a) tail (refl, (refl, hex-Unbroken a)) c
value-Clean (text s) tail p c = rw (esc_plain s p) (quoted-Clean s tail (IsPlain-Unbroken s p) c)
value-Clean (word s) tail p c = quoted-Clean s tail (IsPlain-Unbroken s p) c
value-Clean (texts ns) tail p c =
    prepend (b'[' ∷ []) _ (refl, tt)
      (names-Clean ns (b']' ∷ tail) p (prepend (b']' ∷ []) tail (refl, tt) c))

member-Clean :
    (j : Text) (v : Value) (tail : Text) → PlainField (j, v) → Clean tail → Clean (member j v tail)
unfolding member
member-Clean j v tail p c =
    prepend (b'"' ∷ j) (b'"' ∷ b':' ∷ value v tail) (refl, IsKey-Unbroken j p.0)
      (prepend (b'"' ∷ b':' ∷ []) (value v tail) (refl, (refl, tt)) (value-Clean v tail p.1 c))

brace-Clean : Clean (b'}' ∷ [])
unfolding trim_end is_whitespace
brace-Clean = record { unbroken = (refl, tt); trimmed = refl; more = refl }

members-Clean : (fields : List Field) → PlainFields fields → Clean (more_members fields)
unfolding more_members
members-Clean [] p = brace-Clean
members-Clean ((j, v) ∷ fields) p =
    prepend (b',' ∷ []) (member j v (more_members fields)) (refl, tt)
      (member-Clean j v (more_members fields) p.0 (members-Clean fields p.1))

line-Clean : (fields : List Field) → PlainFields fields → Clean (line fields)
unfolding line
line-Clean [] p = prepend (b'{' ∷ []) (b'}' ∷ []) (refl, tt) brace-Clean
line-Clean ((j, v) ∷ fields) p =
    prepend (b'{' ∷ []) (member j v (more_members fields)) (refl, tt)
      (member-Clean j v (more_members fields) p.0 (members-Clean fields p.1))

trim_start-line : (fields : List Field) → trim_start (line fields) ≡ line fields
unfolding trim_start is_whitespace line
trim_start-line [] = refl
trim_start-line ((j, v) ∷ fields) = refl

trim-line : (fields : List Field) → PlainFields fields → trim (line fields) ≡ line fields
trim-line fields p = ap trim_end (trim_start-line fields) ∙ (line-Clean fields p).trimmed

unfoldable pub emit_all : List Emission → TopologyStream → TopologyStream
emit_all [] t = t
emit_all (e ∷ es) t = emit_all es (emit e t)

unfoldable pub recorded_all : List Emission → TopoGraph → TopoGraph
unfolding recorded
recorded_all [] g = g
recorded_all (e ∷ es) g = recorded_all es (recorded e g)

-- The texts of a call are plain, and its numbers of the widths that the code gives them.
abbrev pub Writable : Emission → Type 0
Writable e = OfWords e × PlainFields (fields_of e)

abbrev topology_of : List Emission → Text
topology_of [] = []
topology_of (e ∷ es) = line (fields_of e) ++ b'\n' ∷ topology_of es

writeln-w :
    (fields : List Field) (t : TopologyStream)
    → (writeln fields t).w ≡ t.w ++ (line fields ++ b'\n' ∷ [])
unfolding writeln
writeln-w fields t = append_assoc t.w (line fields) (b'\n' ∷ [])

emit_all-w : (es : List Emission) (t : TopologyStream) → (emit_all es t).w ≡ t.w ++ topology_of es
unfolding emit_all
emit_all-w [] t = sym (append-nil t.w)
emit_all-w (e ∷ es) t =
    emit_all-w es (emit e t)
    ∙ ap (λ s. s ++ topology_of es) (ap (λ u. u.w) (emit-writeln e t) ∙ writeln-w (fields_of e) t)
    ∙ append_assoc t.w (line (fields_of e) ++ b'\n' ∷ []) (topology_of es)
    ∙ ap (λ s. t.w ++ s) (append_assoc (line (fields_of e)) (b'\n' ∷ []) (topology_of es))

build_line :
    (l : Text) (ls : List Text) (g : TopoGraph)
    → trim l ≡ l
    → is_empty l ≡ false
    → build_from (l ∷ ls) g ≡ build_from ls (add_line l g)
unfolding build_from
build_line l ls g h k =
    ap (λ s. build_from ls (if is_empty s then g else add_line s g)) h ∙ rw k refl

build-topology_of :
    (es : List Emission) (g : TopoGraph)
    → All Writable es
    → build_from (lines (topology_of es)) g ≡ recorded_all es g
unfolding build_from recorded_all
build-topology_of [] g a = refl
build-topology_of (e ∷ es) g a =
    let l = line (fields_of e) in
    let c = line-Clean (fields_of e) a.0.1 in
    ap (λ ls. build_from ls g) (first_line l (topology_of es) c.unbroken)
    ∙ build_line l (lines (topology_of es)) g (trim-line (fields_of e) a.0.1) c.more
    ∙ ap (build_from (lines (topology_of es))) (emission_read e g a.0.0 a.0.1)
    ∙ build-topology_of es (recorded e g) a.1

-- Where a file is written by any sequence of calls whose texts are plain (no quote, backslash, newline,
-- carriage return or tab) and whose numbers have the code's widths, the graph that is built from it is
-- the one that the calls recorded: each allocation, free, stamp, link, hazard and summary in order and
-- with its own values, and nothing of the other lines.
pub build-emit_all :
    (es : List Emission)
    → All Writable es
    → build (emit_all es (record { w = []; lines = 0 })).w ≡ recorded_all es empty_graph
unfolding build
build-emit_all es a =
    ap (λ content. build_from (lines content) empty_graph)
      (emit_all-w es (record { w = []; lines = 0 }))
    ∙ build-topology_of es empty_graph a
