-- ===== src/World/TypeStability/Balance.antt =====
-- The counters of the monitor in engine/src/world.rs, over any sequence of writes.
use Prim.Native.String.{String}
use text.Mathlib.Text.{◌==◌ as str_eq}
use text.Mathlib.TextEquality.{eq_iff}
use mathlib.Core.Path.{subst}
use rtmap.Base.{
  ℕ, suc, ◌+◌, ◌-◌, ◌^◌, ◌≤◌, ◌<◌, ◌≡◌, refl, sym, ap, ◌∙◌, Bool, true, false, List, [], ◌∷◌, ◌++◌,
  Option, none, some, add64, sub64, ltb, leb, ◌==◌, if◌then◌else◌, length, find, arith, min,
  if_cases, Option_rule, length-append, Bool-cases, inl, inr,
}
use rtmap.Base.KeyMap.{KeyMap, get, remove, IsMap, insert-IsMap}
use rtmap.Dwarf.{name, fields, byte_size}
use rtmap.World.ShadowTypeMap.{TypeProjection}
use rtmap.World.TypeStability.{
  TypeStabilityMonitor, TypeStabilityTally, no_tally, tally_of, set_tally, check_write, check_field,
  check_gap, covers, new, string_key, aligned_write, synthesized_write, spanning_hit,
  interstitial_hit, interstitial_violation, spanning_violation, straddles, TypeViolation,
  record_violation,
}

-- The sum of a count over all types.
abbrev total : (TypeStabilityTally → ℕ) → KeyMap String TypeStabilityTally → ℕ
total f [] = 0
total f ((k, t) ∷ m) = f t + total f m

abbrev part : (TypeStabilityTally → ℕ) → Option TypeStabilityTally → ℕ
part f none = 0
part f (some t) = f t

total-remove :
    (f : TypeStabilityTally → ℕ) (k : String) (m : KeyMap String TypeStabilityTally)
    → IsMap m
    → total f (remove k m) + part f (get k m) ≡ total f m
total-remove f k [] u = refl
total-remove f k ((j, t) ∷ m) u = elim (Bool-cases (str_eq j k)) [
  | inl here ↦
      let alone : get k m ≡ none = (λ i. get (sym ((eq_iff j k).0 here) i) m) ∙ u.0 in
      let rest : total f (remove k m) + 0 ≡ total f m =
        ap (λ o. total f (remove k m) + part f o) (sym alone) ∙ total-remove f k m u.1 in
      rw here (omega (arith, rest))
  | inr other ↦ rw other (omega (arith, total-remove f k m u.1))
]

abbrev or_none : Option TypeStabilityTally → TypeStabilityTally
or_none none = no_tally
or_none (some t) = t

part_lem :
    (f : TypeStabilityTally → ℕ) (o : Option TypeStabilityTally)
    → f no_tally ≡ 0
    → part f o ≡ f (or_none o)
part_lem f none h = sym h
part_lem f (some t) h = refl

-- A type's tally is part of the sum, and the sum moves with it.
retally :
    (f : TypeStabilityTally → ℕ) (k : String) (t : TypeStabilityTally) (m : TypeStabilityMonitor)
    → f no_tally ≡ 0
    → IsMap m.tally
    → (total f (set_tally k t m).tally + f (tally_of k m) ≡ total f m.tally + f t)
      × (f (tally_of k m) ≤ total f m.tally)
retally f k t m zero_count u =
    let whole = total-remove f k m.tally u in
    let here = part_lem f (get k m.tally) zero_count in
    (omega (arith, whole, here), omega (arith, whole, here))

-- The counters after `n` writes.
pub record Tallied (n : ℕ) (m : TypeStabilityMonitor) : Type 0 where
  pub types_once : IsMap m.tally
  pub checked : m.total_checked ≡ n
  pub violated :
      total (λ c. c.interstitial) m.tally + total (λ c. c.spanning) m.tally ≡ m.total_violations
  pub aligned_rest : total (λ c. c.aligned) m.tally + m.total_violations ≤ n
  pub synthesized_part : total (λ c. c.synthesized) m.tally ≤ total (λ c. c.aligned) m.tally
  pub kept : length m.violations ≡ min m.total_violations 128

-- The counters with one more type tally, where `n` writes are no overflow.
module _ (n : ℕ) (m : TypeStabilityMonitor) (type_name : String) (small : n < 2 ^ 64 - 1)
    (b : Tallied n m) where
  counted : TypeStabilityMonitor
  counted = record m { total_checked = add64 m.total_checked 1 }

  -- A tally of the type after the write.
  Moved : TypeStabilityTally → TypeStabilityTally → Type 0
  Moved t t' =
      (total (λ c. c.interstitial) (set_tally type_name t' m).tally + t.interstitial
        ≡ total (λ c. c.interstitial) m.tally + t'.interstitial)
      × (total (λ c. c.spanning) (set_tally type_name t' m).tally + t.spanning
          ≡ total (λ c. c.spanning) m.tally + t'.spanning)
      × (total (λ c. c.aligned) (set_tally type_name t' m).tally + t.aligned
          ≡ total (λ c. c.aligned) m.tally + t'.aligned)
      × (total (λ c. c.synthesized) (set_tally type_name t' m).tally + t.synthesized
          ≡ total (λ c. c.synthesized) m.tally + t'.synthesized)
      × (t.interstitial ≤ total (λ c. c.interstitial) m.tally)
      × (t.spanning ≤ total (λ c. c.spanning) m.tally)
      × (t.aligned ≤ total (λ c. c.aligned) m.tally)
      × (t.synthesized ≤ total (λ c. c.synthesized) m.tally)

  moved : (t' : TypeStabilityTally) → Moved (tally_of type_name m) t'
  unfolding Moved
  moved t' =
      let i = retally (λ c. c.interstitial) type_name t' m refl b.types_once in
      let s = retally (λ c. c.spanning) type_name t' m refl b.types_once in
      let a = retally (λ c. c.aligned) type_name t' m refl b.types_once in
      let y = retally (λ c. c.synthesized) type_name t' m refl b.types_once in
      (i.0, s.0, a.0, y.0, i.1, s.1, a.1, y.1)

  aligned_write-Tallied : Tallied (suc n) (aligned_write type_name counted)
  unfolding Moved counted
  aligned_write-Tallied =
      let t = tally_of type_name m in
      let t' : TypeStabilityTally = record t { aligned = add64 t.aligned 1 } in
      let facts = moved t' in
      record {
        types_once = insert-IsMap type_name t' m.tally b.types_once;
        checked = omega (arith, b.checked);
        violated = omega (arith, facts);
        aligned_rest = omega (arith, facts);
        synthesized_part = omega (arith, facts);
        kept = b.kept;
      }

  synthesized_write-Tallied : Tallied (suc n) (synthesized_write type_name counted)
  unfolding Moved counted
  synthesized_write-Tallied =
      let t = tally_of type_name m in
      let t' : TypeStabilityTally = record t {
        aligned = add64 t.aligned 1;
        synthesized = add64 t.synthesized 1;
      } in
      let facts = moved t' in
      record {
        types_once = insert-IsMap type_name t' m.tally b.types_once;
        checked = omega (arith, b.checked);
        violated = omega (arith, facts);
        aligned_rest = omega (arith, facts);
        synthesized_part = omega (arith, facts);
        kept = b.kept;
      }

  kept_violation :
      (v : TypeViolation)
      → length (if ltb (length m.violations) 128 then m.violations ++ v ∷ [] else m.violations)
        ≡ min (suc m.total_violations) 128
  kept_violation v =
      if_cases (λ (l : List TypeViolation). length l ≡ min (suc m.total_violations) 128)
        (ltb (length m.violations) 128)
        (λ room. let more = length-append m.violations (v ∷ []) in ground (arith, more, b.kept))
        (λ full. ground (arith, b.kept))

  hit-Tallied :
      (t' : TypeStabilityTally) (v : TypeViolation)
      → let t = tally_of type_name m in
        (t'.interstitial + t'.spanning ≡ suc (t.interstitial + t.spanning))
        → (let t = tally_of type_name m in t'.aligned ≡ t.aligned)
        → (let t = tally_of type_name m in t'.synthesized ≡ t.synthesized)
        → Tallied (suc n) (
            record_violation v (record (set_tally type_name t' counted) {
              total_violations = add64 m.total_violations 1;
            }))
  unfolding Moved counted
  hit-Tallied t' v more same_aligned same_synthesized =
      let facts = moved t' in
      let one_more : add64 m.total_violations 1 ≡ suc m.total_violations =
        omega (arith, b.aligned_rest) in
      record {
        types_once = insert-IsMap type_name t' m.tally b.types_once;
        checked = omega (arith, b.checked);
        violated = omega (arith, facts, more, one_more, b.violated);
        aligned_rest = omega (arith, facts, more, same_aligned, one_more, b.aligned_rest);
        synthesized_part = omega (arith, facts, same_aligned, same_synthesized, b.synthesized_part);
        kept = kept_violation v ∙ (λ i. min (sym one_more i) 128);
      }

  opaque_write : Tallied (suc n) counted
  unfolding counted
  opaque_write = record {
    types_once = b.types_once;
    checked = omega (arith, b.checked);
    violated = b.violated;
    aligned_rest = omega (arith, b.aligned_rest);
    synthesized_part = b.synthesized_part;
    kept = b.kept;
  }

check_write-Tallied :
    (write_addr write_size pc n : ℕ) (proj : TypeProjection) (m : TypeStabilityMonitor)
    → n < 2 ^ 64 - 1
    → Tallied n m
    → Tallied (suc n) (check_write write_addr write_size proj pc m).0
unfolding check_write check_field check_gap counted Moved
check_write-Tallied write_addr write_size pc n proj m small b =
    let type_name = name proj.type_info in
    let t = tally_of type_name m in
    let Good : TypeStabilityMonitor × Bool → Type 0 = λ x. Tallied (suc n) x.0 in
    let facts = moved n m type_name small b t in
    let next_spanning : add64 t.spanning 1 ≡ suc t.spanning = omega (arith, facts, b.violated) in
    let next_interstitial : add64 t.interstitial 1 ≡ suc t.interstitial =
      omega (arith, facts, b.violated) in
    let offset = sub64 write_addr proj.base_addr in
    let gap_violation = interstitial_violation write_addr write_size proj pc offset in
    let start : TypeStabilityMonitor = record m { total_checked = add64 m.total_checked 1 } in
    if_cases Good (length (fields proj.type_info) == 0) (λ _. opaque_write n m type_name small b)
      (λ _.
        Option_rule Good (find (covers offset) (fields proj.type_info))
          (λ _.
            if_cases Good (leb (add64 offset write_size) (byte_size proj.type_info))
              {x = (synthesized_write type_name start, false)}
              {y = (interstitial_hit type_name gap_violation start, true)}
              (λ _. synthesized_write-Tallied n m type_name small b)
              (λ _.
                hit-Tallied n m type_name small b
                  (record t { interstitial = add64 t.interstitial 1 }) gap_violation
                  (omega (arith, next_interstitial)) refl refl))
          (λ f _.
            let v = spanning_violation write_addr write_size proj pc offset f in
            if_cases Good (straddles offset write_size f proj.type_info)
              {x = (spanning_hit type_name v start, true)}
              {y = (aligned_write type_name start, false)}
              (λ _.
                hit-Tallied n m type_name small b (record t { spanning = add64 t.spanning 1 }) v
                  (omega (arith, next_spanning)) refl refl)
              (λ _. aligned_write-Tallied n m type_name small b)))

-- A write, by its address and size, to a stamped region, from an instruction.
pub record Write : Type 0 where
  pub write_addr : ℕ
  pub write_size : ℕ
  pub proj : TypeProjection
  pub pc : ℕ

unfoldable pub run : List Write → TypeStabilityMonitor → TypeStabilityMonitor
run [] m = m
run (w ∷ ws) m = run ws (check_write w.write_addr w.write_size w.proj w.pc m).0

run_from :
    (ws : List Write) (n : ℕ) (m : TypeStabilityMonitor)
    → n + length ws < 2 ^ 64
    → Tallied n m
    → Tallied (n + length ws) (run ws m)
unfolding run
run_from [] n m small b = subst (λ (k : ℕ). Tallied k m) (omega arith) b
run_from (w ∷ ws) n m small b =
    subst (λ (k : ℕ). Tallied k (run ws (check_write w.write_addr w.write_size w.proj w.pc m).0))
      (omega arith)
      (run_from ws (suc n) (check_write w.write_addr w.write_size w.proj w.pc m).0 (omega arith)
        (check_write-Tallied w.write_addr w.write_size w.pc n w.proj m (omega arith) b))

-- After any sequence of fewer than 2^64 writes, the monitor has counted each, the violations are the
-- interstitial and spanning writes of all types together, they and the aligned writes are no more
-- than the writes, the synthesized ones are among the aligned, and the list holds as many violations
-- as there were, up to 128.
pub run-Tallied : (ws : List Write) → length ws < 2 ^ 64 → Tallied (length ws) (run ws new)
unfolding new
run-Tallied ws small =
    subst (λ (k : ℕ). Tallied k (run ws new)) (omega arith)
      (run_from ws 0 new (omega arith) (record {
        types_once = tt;
        checked = refl;
        violated = refl;
        aligned_rest = omega arith;
        synthesized_part = omega arith;
        kept = refl;
      }))
