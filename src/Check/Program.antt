-- ===== src/Check/Program.antt =====
-- The program of engine/src/check.rs: its exit status over the two files that it is given.
use rtmap.Base.{
  ℕ, ◌≡◌, ◌↔◌, refl, sym, ◌∙◌, Bool, true, false, List, [], ◌∷◌, ◌+◌, Option, none, some, ltb,
  if◌then◌else◌, All, arith,
}
use rtmap.Base.Texts.{Text}
use rtmap.Check.{TopoGraph, empty_graph, build}
use rtmap.Check.Emissions.{Emission}
use rtmap.Check.Rebuilt.{emit_all, recorded_all, Writable, build-emit_all}
use rtmap.Check.Assertions.{Assertion, parse_assertions}
use rtmap.Check.Assertions.Shown.{Named}
use rtmap.Check.Assertions.Files.{assertion_file, numbered, parse_assertions-assertion_file}
use rtmap.Check.Verdicts.{eval_one, counted, evaluate}
use rtmap.Check.Verdicts.Meaning.{Holds}
use rtmap.Check.Verdicts.Sound.{eval_one-Holds}

abbrev pub status : ℕ × ℕ → ℕ
status (pass, fail) = if ltb 0 fail then 1 else 0

-- What stands in a file is a parameter, and so is whether it can be read.
pub main : (Text → Option Text) → List Text → ℕ
main read (program ∷ topo_path ∷ assert_path ∷ rest) = elim (read topo_path) [
  | none ↦ 1
  | some topology ↦ elim (read assert_path) [
    | none ↦ 1
    | some assertions ↦ status (evaluate (build topology) (parse_assertions assertions))
  ]
]
main read args = 1

status_zero : (counts : ℕ × ℕ) → (status counts ≡ 0) ↔ (counts.1 ≡ 0)
status_zero (pass, fail) = ground arith

evaluate_none :
    (g : TopoGraph) (n : ℕ) (xs : List Assertion)
    → ((evaluate g (numbered n xs)).1 ≡ 0) ↔ All (Holds g) xs
unfolding evaluate
evaluate_none g n [] = (λ h. tt, λ a. refl)
evaluate_none g n (x ∷ xs) =
    by_verdict (evaluate g (numbered (n + 1) xs)) (evaluate_none g (n + 1) xs) (eval_one g x) refl
  where
    bools_differ : true ≡ false → ⊥
    bools_differ h = cc

    by_verdict :
        (counts : ℕ × ℕ)
        → (counts.1 ≡ 0) ↔ All (Holds g) xs
        → (b : Bool) → eval_one g x ≡ b
        → ((counted b counts).1 ≡ 0) ↔ (Holds g x × All (Holds g) xs)
    by_verdict counts later true e = (λ h. ((eval_one-Holds g x).0 e, later.0 h), λ a. later.1 a.1)
    by_verdict counts later false e = (
      λ h. absurd (omega (arith, h)),
      λ a. absurd (bools_differ (sym ((eval_one-Holds g x).1 a.0) ∙ e)),
    )

-- Where both files can be read, the first was written by any sequence of calls whose texts are
-- plain (no quote, backslash, newline, carriage return or tab) and whose numbers have the code's
-- widths, and the second has a line for each of some assertions, written as in the usage text, with
-- names that hold no quote, comma, parenthesis or newline and limits of 64 bits, the checker exits
-- with 0 exactly when every one of the assertions, in the meaning that eval_one-Holds gives it, is
-- so for what the calls recorded. In that meaning a link to a target without a stamp passes, and
-- stamps at allocations are left out of the orders.
pub main-Holds :
    (read : Text → Option Text) (program topo_path assert_path : Text) (rest : List Text)
    (calls : List Emission) (xs : List Assertion)
    → read topo_path ≡ some (emit_all calls (record { w = []; lines = 0 })).w
    → read assert_path ≡ some (assertion_file xs)
    → All Writable calls
    → All Named xs
    → (main read (program ∷ topo_path ∷ assert_path ∷ rest) ≡ 0)
      ↔ All (Holds (recorded_all calls empty_graph)) xs
unfolding main
main-Holds read program topo_path assert_path rest calls xs topo asserts writable named =
    let run : main read (program ∷ topo_path ∷ assert_path ∷ rest)
        ≡ status (evaluate (recorded_all calls empty_graph) (numbered 1 xs)) =
      rw
        (
          main,
          topo,
          asserts,
          build-emit_all calls writable,
          parse_assertions-assertion_file xs named,
        )
        refl in
    let zero_iff = status_zero (evaluate (recorded_all calls empty_graph) (numbered 1 xs)) in
    let all_hold = evaluate_none (recorded_all calls empty_graph) 1 xs in
    (λ h. all_hold.0 (zero_iff.0 (sym run ∙ h)), λ a. run ∙ zero_iff.1 (all_hold.1 a))
