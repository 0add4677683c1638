-- ===== src/Tests/Topologies.antt =====
-- The topology stream and its checker, engine/src/topology.rs and engine/src/check.rs, at concrete
-- inputs.
use rtmap.Base.{
  ℕ, ◌^◌, ◌≡◌, ◌↔◌, refl, Bool, Option, if◌then◌else◌, true, ◌&&◌, List, [], ◌∷◌, none, some, arith,
  all, All, ltb,
}
use rtmap.Base.Texts.{Text, codes, same_text}
use rtmap.Topology.{Field, Value, number, address, text, word, texts}
use rtmap.Check.{TopoGraph, empty_graph, build}
use rtmap.Check.Chains.{chain_length, IsLength, chain_length-IsLength}
use rtmap.Check.Emissions.{
  Emission, alloc, free, stamp, link, hazard, summary, size_of_write, cold_stamp, false_share,
  fields_of,
}
use rtmap.Check.Fields.{PlainFields, key_of}
use rtmap.Check.Read.{IsPlain, is_plain, PlainValue, is_key_char}
use rtmap.Check.Rebuilt.{emit_all, recorded_all, Writable, build-emit_all}
use rtmap.Check.Assertions.{
  Assertion, no_hazards, no_use_after_free, monotonic_seq, live_allocs_lt, max_chain, type_stable,
}
use rtmap.Check.Assertions.Shown.{is_name_char, IsName}
use rtmap.Check.Assertions.Files.{assertion_file}
use rtmap.Check.Verdicts.{eval_one}
use rtmap.Check.Verdicts.Meaning.{Holds}
use rtmap.Check.Verdicts.Sound.{eval_one-Holds}
use rtmap.Check.Program.{main, main-Holds}

abbrev plain_value : Value → Bool
plain_value (number n) = ltb n (2 ^ 64)
plain_value (address a) = ltb a (2 ^ 64)
plain_value (text s) = all is_plain s
plain_value (word s) = all is_plain s
plain_value (texts ns) = all (all is_plain) ns

abbrev plain_fields : List Field → Bool
plain_fields [] = true
plain_fields ((key, v) ∷ fields) = (all is_key_char key && plain_value v) && plain_fields fields

decided_text : (s : Text) → all is_plain s ≡ true → IsPlain s
decided_text [] h = tt
decided_text (c ∷ s) h = ground (arith, decided_text s)

decided_texts : (ns : List Text) → all (all is_plain) ns ≡ true → All IsPlain ns
decided_texts [] h = tt
decided_texts (n ∷ ns) h = (decided_text n (ground arith), decided_texts ns (ground arith))

decided_value : (v : Value) → plain_value v ≡ true → PlainValue v
decided_value (number n) h = ground arith
decided_value (address a) h = ground arith
decided_value (text s) h = decided_text s h
decided_value (word s) h = decided_text s h
decided_value (texts ns) h = decided_texts ns h

fields_plain : (fields : List Field) → plain_fields fields ≡ true → PlainFields fields
fields_plain [] h = tt
fields_plain ((key, v) ∷ fields) h = (
  (key_of key (ground arith), decided_value v (ground arith)),
  fields_plain fields (ground arith),
)

-- A list of two nodes; one node goes, and a write runs past the end of the other.
abbrev calls : List Emission
calls =
    alloc 1 7 0x1000 24
    ∷ alloc 2 7 0x2000 24
    ∷ cold_stamp 0x1000 (codes "node") 24 (codes "g_head") 3 1
    ∷ stamp 3 0x1000 (codes "node") 24 (codes "g_head") 3
    ∷ stamp 4 0x2000 (codes "node") 24 (codes "next") 3
    ∷ link 5 (codes "next") 0x1008 0x2000 (codes "node") (codes "next")
    ∷ link 6 (codes "next") 0x2008 0x1000 (codes "node") (codes "next")
    ∷ hazard 7 (codes "OOB") 0x1010 16 0x1000 24 8 (some (codes "node")) none
    ∷ false_share 8 0x40 2 (codes "a" ∷ codes "b" ∷ [])
    ∷ free 9 7 0x2000 24
    ∷ summary 9 1 2 2 1 1
    ∷ []

abbrev writable : List Emission → Bool
writable [] = true
writable (e ∷ es) = (ltb (size_of_write e) (2 ^ 32) && plain_fields (fields_of e)) && writable es

writable_of : (es : List Emission) → writable es ≡ true → All Writable es
writable_of [] h = tt
writable_of (e ∷ es) h =
    ((ground arith, fields_plain (fields_of e) (ground arith)), writable_of es (ground arith))

build-emit_all_example :
    build (emit_all calls (record { w = []; lines = 0 })).w ≡ recorded_all calls empty_graph
build-emit_all_example = build-emit_all calls (writable_of calls refl)

-- Two nodes in a cycle.
abbrev cycle : TopoGraph
cycle = record empty_graph {
  type_addrs = (codes "node", 0x1000 ∷ 0x2000 ∷ []) ∷ [];
  edges = ((0x1000, codes "next"), 0x2000) ∷ ((0x2000, codes "next"), 0x1000) ∷ [];
}

chain_length-IsLength_example :
    (n : ℕ) × IsLength (λ fuel. chain_length fuel (codes "node") (codes "next") cycle) 2 n
chain_length-IsLength_example = chain_length-IsLength (codes "node") (codes "next") cycle

eval_one-Holds_example :
    (eval_one (recorded_all calls empty_graph) no_use_after_free ≡ true)
    ↔ Holds (recorded_all calls empty_graph) no_use_after_free
eval_one-Holds_example = eval_one-Holds (recorded_all calls empty_graph) no_use_after_free

decided_chars : (s : Text) → all is_name_char s ≡ true → IsName s
decided_chars [] h = tt
decided_chars (c ∷ s) h = ground (arith, decided_chars s)

abbrev asserted : List Assertion
asserted =
    live_allocs_lt 10
    ∷ max_chain (codes "node") (codes "next") 3
    ∷ type_stable (codes "g_head") (codes "node")
    ∷ monotonic_seq
    ∷ no_hazards
    ∷ []

abbrev topo_file : Text
topo_file = codes "topology.jsonl"

abbrev assert_file : Text
assert_file = codes "assertions.txt"

abbrev read_file : Text → Option Text
read_file path =
    if same_text path topo_file
    then some (emit_all calls (record { w = []; lines = 0 })).w
    else some (assertion_file asserted)

main-Holds_example :
    (main read_file (codes "rtmap-check" ∷ topo_file ∷ assert_file ∷ []) ≡ 0)
    ↔ All (Holds (recorded_all calls empty_graph)) asserted
main-Holds_example =
    main-Holds read_file (codes "rtmap-check") topo_file assert_file [] calls asserted refl refl
      (writable_of calls refl)
      (
        omega arith,
        (
          (decided_chars (codes "node") refl, decided_chars (codes "next") refl, omega arith),
          (
            (decided_chars (codes "g_head") refl, decided_chars (codes "node") refl),
            (tt, (tt, tt)),
          ),
        ),
      )
