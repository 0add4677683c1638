-- ===== src/World/ShadowTypeMap/Propagate/Rounds.antt =====
-- `replay_deferred` of engine/src/world.rs is eight rounds over the waiting writes.
use rtmap.Base.{
  ℕ, zero, suc, ◌+◌, ◌≤◌, ◌≡◌, refl, sym, ap, ◌∙◌, inl, inr, Bool, true, false, not, List, [], ◌∷◌,
  arith, add64, ◌==◌, if◌then◌else◌, length, retain, Bool-cases, is_some,
}
use rtmap.Base.TreeMap.{last_le}
use rtmap.World.HeapAllocTracker.{HeapAllocTracker}
use rtmap.World.ShadowTypeMap.{ShadowTypeMap, DeferredWrite}
use rtmap.World.ShadowTypeMap.Stamps.{IsValid}
use rtmap.World.ShadowTypeMap.Propagate.{
  Registry, propagate_field_write, replay_hits, replay_pass, replay_passes, replay_deferred,
  still_waiting, nearest_covering, in_reach_of, after_pass,
}
use rtmap.World.ShadowTypeMap.Propagate.Safety.{propagate-Effect}
use rtmap.World.ShadowTypeMap.Propagate.Replay.{still_waiting-IsValid, replay_deferred-IsValid}
use rtmap.World.ShadowTypeMap.Propagate.Quiet.{propagate-Quiet}

-- The waiting writes whose address some projection of the map covers, and the others.
abbrev pub covered : ShadowTypeMap → List DeferredWrite → List DeferredWrite
covered m = retain (λ d. is_some (nearest_covering d.write_addr m))

abbrev pub uncovered : ShadowTypeMap → List DeferredWrite → List DeferredWrite
uncovered m = retain (λ d. not (is_some (nearest_covering d.write_addr m)))

module _ (registry : Registry) (t : HeapAllocTracker) where
  abbrev pub propagated : DeferredWrite → ShadowTypeMap → ShadowTypeMap × Bool
  propagated d m = propagate_field_write registry t d.write_addr d.write_value 8 d.seq m

  -- The writes, propagated in order as if they were made now, and how many of them typed something.
  abbrev pub all_propagated : List DeferredWrite → ShadowTypeMap → ShadowTypeMap
  all_propagated [] m = m
  all_propagated (d ∷ ds) m = all_propagated ds (propagated d m).0

  abbrev pub newly_typed : List DeferredWrite → ShadowTypeMap → ℕ
  newly_typed [] m = 0
  newly_typed (d ∷ ds) m =
      let later = newly_typed ds (propagated d m).0 in
      if (propagated d m).1 then later + 1 else later

  -- A round takes the covered writes out of the buffer and propagates them.
  abbrev pub round : ShadowTypeMap → ShadowTypeMap
  round m = all_propagated (covered m m.deferred) (record m { deferred = uncovered m m.deferred })

  abbrev pub typed_in_round : ShadowTypeMap → ℕ
  typed_in_round m =
      newly_typed (covered m m.deferred) (record m { deferred = uncovered m m.deferred })

  abbrev pub rounds : ℕ → ShadowTypeMap → ShadowTypeMap × ℕ
  rounds zero m = (m, 0)
  rounds (suc k) m = let later = rounds k (round m) in (later.0, typed_in_round m + later.1)

  replay_hits_lem :
      (ds : List DeferredWrite) (m : ShadowTypeMap)
      → replay_hits registry t ds m ≡ (all_propagated ds m, newly_typed ds m)
  unfolding replay_hits
  replay_hits_lem [] m = refl
  replay_hits_lem (d ∷ ds) m =
      ap (λ (out : ShadowTypeMap × ℕ). (out.0, if (propagated d m).1 then out.1 + 1 else out.1))
        (replay_hits_lem ds (propagated d m).0)

  -- Where nothing new is typed, the projections stay, and the buffer stays in any case.
  all_propagated-Quiet :
      (ds : List DeferredWrite) (m : ShadowTypeMap)
      → newly_typed ds m ≡ 0
      → (all_propagated ds m).projections ≡ m.projections
  all_propagated-Quiet [] m h = refl
  all_propagated-Quiet (d ∷ ds) m h =
      by_done (all_propagated-Quiet ds (propagated d m).0) (propagated d m).1 refl h
    where
      by_done :
          (newly_typed ds (propagated d m).0 ≡ 0
            → (all_propagated ds (propagated d m).0).projections ≡ (propagated d m).0.projections)
          → (b : Bool) → (propagated d m).1 ≡ b
          → (if b then newly_typed ds (propagated d m).0 + 1 else newly_typed ds (propagated d m).0)
            ≡ 0
          → (all_propagated ds (propagated d m).0).projections ≡ m.projections
      by_done later true e n = absurd (omega (arith, n))
      by_done later false e n =
          later n ∙ propagate-Quiet registry d.write_value d.seq m t d.write_addr 8 e

  all_propagated-IsValid :
      (ds : List DeferredWrite) (m : ShadowTypeMap)
      → IsValid m
      → IsValid (all_propagated ds m) × ((all_propagated ds m).deferred ≡ m.deferred)
  all_propagated-IsValid [] m v = (v, refl)
  all_propagated-IsValid (d ∷ ds) m v =
      let e = propagate-Effect registry t d.write_addr d.write_value 8 d.seq m v in
      let rest = all_propagated-IsValid ds (propagated d m).0 e.0.valid in (rest.0, rest.1 ∙ e.1)

retain_other {ℓ} :
    {A : Type ℓ} (p : A → Bool) (xs : List A) → retain p (retain (λ x. not (p x)) xs) ≡ []
retain_other p [] = refl
retain_other p (x ∷ xs) = ground (arith, retain_other p xs)

retain_rest {ℓ} :
    {A : Type ℓ} (p : A → Bool) (xs : List A) → retain p xs ≡ [] → retain (λ x. not (p x)) xs ≡ xs
retain_rest p [] h = refl
retain_rest p (x ∷ xs) h = by_test (retain_rest p xs) (p x) refl h
  where
    by_test :
        (retain p xs ≡ [] → retain (λ y. not (p y)) xs ≡ xs)
        → (b : Bool) → p x ≡ b
        → (if b then x ∷ retain p xs else retain p xs) ≡ []
        → (if not b then x ∷ retain (λ y. not (p y)) xs else retain (λ y. not (p y)) xs) ≡ x ∷ xs
    by_test rest true e n = cc
    by_test rest false e n = ap (λ ys. x ∷ ys) (rest n)

module _ (registry : Registry) (t : HeapAllocTracker) where
  -- Without a covered write a round changes nothing.
  settled_round : (m : ShadowTypeMap) → covered m m.deferred ≡ [] → round registry t m ≡ m
  settled_round m h =
      ap (λ ds. all_propagated registry t ds (record m { deferred = uncovered m m.deferred })) h
      ∙ ap (λ ds. record m { deferred = ds })
          (retain_rest (λ d. is_some (nearest_covering d.write_addr m)) m.deferred h)

  settled_rounds :
      (k : ℕ) (m : ShadowTypeMap) → covered m m.deferred ≡ [] → rounds registry t k m ≡ (m, 0)
  settled_rounds zero m h = refl
  settled_rounds (suc k) m h =
      let later : rounds registry t k (round registry t m) ≡ (m, 0) =
        ap (rounds registry t k) (settled_round m h) ∙ settled_rounds k m h in
      let none_typed : typed_in_round registry t m ≡ 0 =
        ap (λ ds. newly_typed registry t ds (record m { deferred = uncovered m m.deferred })) h in
      λ i. ((later i).0, none_typed i + (later i).1)

  round-IsValid :
      (m : ShadowTypeMap)
      → IsValid m
      → IsValid (round registry t m) × ((round registry t m).deferred ≡ uncovered m m.deferred)
  round-IsValid m v =
      all_propagated-IsValid registry t (covered m m.deferred) (still_waiting m)
        (still_waiting-IsValid m v)

  -- After a round that typed nothing new, no waiting write is covered.
  quiet_round :
      (m : ShadowTypeMap)
      → IsValid m
      → typed_in_round registry t m ≡ 0
      → covered (round registry t m) (round registry t m).deferred ≡ []
  unfolding nearest_covering
  quiet_round m v h =
      let same = all_propagated-Quiet registry t (covered m m.deferred) (still_waiting m) h in
      let left = (round-IsValid m v).1 in
      (λ i.
        retain (λ d. is_some (in_reach_of d.write_addr (last_le d.write_addr (same i)))) (left i))
      ∙ retain_other (λ d. is_some (nearest_covering d.write_addr m)) m.deferred

  pass_lem :
      (k : ℕ) (next : ShadowTypeMap → ShadowTypeMap × ℕ) (m : ShadowTypeMap)
      → IsValid m
      → next (round registry t m) ≡ rounds registry t k (round registry t m)
      → after_pass next (round registry t m, typed_in_round registry t m)
        ≡ rounds registry t (suc k) m
  pass_lem k next m v later = elim (Bool-cases (typed_in_round registry t m == 0)) [
    | inl quiet ↦
        let n : typed_in_round registry t m ≡ 0 = ground arith in
        let rest = settled_rounds k (round registry t m) (quiet_round m v n) in
        rw quiet (λ i. ((sym rest i).0, sym n i + (sym rest i).1))
    | inr typed ↦ rw typed (λ i. ((later i).0, typed_in_round registry t m + (later i).1))
  ]

  replay_passes-rounds :
      (k : ℕ) (m : ShadowTypeMap) → IsValid m → replay_passes registry t k m ≡ rounds registry t k m
  unfolding replay_passes replay_pass
  replay_passes-rounds zero m v = refl
  replay_passes-rounds (suc k) m v = by_hits (covered m m.deferred) refl (
      pass_lem k (replay_passes registry t k) m v
        (replay_passes-rounds k (round registry t m) (round-IsValid m v).0))
    where
      by_hits :
          (hits : List DeferredWrite)
          → covered m m.deferred ≡ hits
          → after_pass
              (replay_passes registry t k)
              (round registry t m, typed_in_round registry t m)
            ≡ rounds registry t (suc k) m
          → replay_pass registry t (replay_passes registry t k) m hits ≡ rounds registry t (suc k) m
      by_hits [] e later = (λ i. (retained i, 0)) ∙ sym (settled_rounds (suc k) m e)
        where
          retained : still_waiting m ≡ m
          retained =
              ap (λ ds. record m { deferred = ds })
                (retain_rest (λ d. is_some (nearest_covering d.write_addr m)) m.deferred e)
      by_hits (d ∷ ds) e later =
          ap (after_pass (replay_passes registry t k)) (
            replay_hits_lem registry t (d ∷ ds) (still_waiting m)
            ∙ sym (λ i. (
              all_propagated registry t (e i) (still_waiting m),
              newly_typed registry t (e i) (still_waiting m),
            )))
          ∙ later

-- For a valid map, the replay is eight rounds, each of which takes the waiting writes that a
-- projection covers then out of the buffer and propagates them in order, as if they were made now;
-- its count is that of the propagations that typed something new. That it stops as soon as a round
-- has nothing to do or types nothing new makes no difference. The map stays valid, and those
-- counted and those still waiting are together at most those that waited before.
pub replay_deferred-rounds :
    (registry : Registry) (t : HeapAllocTracker) (m : ShadowTypeMap)
    → IsValid m
    → let (m', total) = replay_deferred registry t m in
      let (after, typed) = rounds registry t 8 m in
      (m' ≡ record after { deferred_replays = add64 after.deferred_replays typed })
      × (total ≡ typed)
      × IsValid m'
      × (total + length m'.deferred ≤ length m.deferred)
unfolding replay_deferred
replay_deferred-rounds registry t m v =
    let same = replay_passes-rounds registry t 8 m v in
    let kept = replay_deferred-IsValid registry t m v in
    (
      λ i. record (same i).0 { deferred_replays = add64 (same i).0.deferred_replays (same i).1 },
      ap (λ (x : ShadowTypeMap × ℕ). x.1) same,
      kept.0,
      kept.1,
    )
