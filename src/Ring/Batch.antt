-- ===== src/Ring/Batch.antt =====
-- What `consume_batch` of engine/src/ring.rs copies and skips.
use rtmap.Base.{
  ℕ, zero, suc, ◌+◌, ◌-◌, ◌≤◌, ◌<◌, ◌≡◌, refl, ap, ◌∙◌, ◌⊎◌, inl, inr, bit_and, List, [], ◌∷◌, some,
  arith, add64, u64_mod, min, ltb, ◌==◌, length, get_elem?, Bool-cases, Option-cases, ltb→lt,
  ==_iff,
}
use mathlib.Core.Path.{subst}
use rtmap.Ring.{Event, ThreadRing, record_lap, batch_loop, next_run, batch_from, consume_batch}

module _ (slots : ℕ → Event) (mask t cap : ℕ) where
  pub length-batch_loop :
      (left n run_tail : ℕ) → length (batch_loop slots mask t cap left n run_tail) ≤ left
  unfolding batch_loop
  length-batch_loop zero n run_tail = omega arith
  length-batch_loop (suc left) n run_tail =
      elim (Option-cases (next_run (slots (bit_and (add64 t n) mask)) n cap run_tail)) [
        | inl e ↦ rw (batch_loop, e) (omega arith)
        | inr (rt, e) ↦ rw (batch_loop, e) (omega (arith, length-batch_loop left (n + 1) rt))
      ]

  -- The event at ring position `t + k`.
  abbrev event_at : ℕ → Event
  event_at k = slots (bit_and (add64 t k) mask)

  cons_at :
      (n : ℕ) (rest : List Event)
      → ((j : ℕ) → j < length rest → get_elem? rest j ≡ some (event_at (n + 1 + j)))
      → (i : ℕ) → i < length (event_at n ∷ rest)
      → get_elem? (event_at n ∷ rest) i ≡ some (event_at (n + i))
  cons_at n rest later zero h = ap {A = ℕ} (λ k. some (event_at k)) (omega arith)
  cons_at n rest later (suc i) h =
      let shift : n + 1 + i ≡ n + suc i = omega arith in
      later i (omega arith) ∙ ap (λ k. some (event_at k)) shift

  -- The `i`-th event of the loop is the one at ring position `t + n + i`.
  batch_loop_at :
      (left n run_tail i : ℕ)
      → i < length (batch_loop slots mask t cap left n run_tail)
      → get_elem? (batch_loop slots mask t cap left n run_tail) i ≡ some (event_at (n + i))
  unfolding batch_loop
  batch_loop_at zero n run_tail i h = absurd (omega arith)
  batch_loop_at (suc left) n run_tail i h =
      elim (Option-cases (next_run (event_at n) n cap run_tail)) [
        | inl e ↦
            let stop : batch_loop slots mask t cap (suc left) n run_tail ≡ [] =
              rw (batch_loop, e) refl in
            absurd (omega (arith, ap length stop))
        | inr (rt, e) ↦
            let rest = batch_loop slots mask t cap left (n + 1) rt in
            let more : batch_loop slots mask t cap (suc left) n run_tail ≡ event_at n ∷ rest =
              rw (batch_loop, e) refl in
            ap (λ l. get_elem? l i) more
            ∙ cons_at n rest (batch_loop_at left (n + 1) rt) i (omega (arith, ap length more))
      ]

-- What a batch did: `lost` events were skipped, `out` were copied, in order from there on.
pub record Accounted (slots : ℕ → Event) (h2 : ℕ) (r r' : ThreadRing) (out : List Event)
    : Type 0 where
  pub lost : ℕ
  pub counted : r'.lapped_events ≡ r.lapped_events + lost
  pub moved : r'.header.tail ≡ r.header.tail + lost + length out
  pub behind : r'.header.tail ≤ h2
  pub in_order :
      (i : ℕ)
      → i < length out
      → get_elem? out i ≡ some (slots (bit_and (r.header.tail + lost + i) (r.header.capacity - 1)))

module _ (slots : ℕ → Event) (h h2 out_len : ℕ) where
  -- A batch from position `t`, where `skipped` events before it are counted already.
  batch_from-Accounted :
      (r q : ThreadRing) (skipped : ℕ)
      → q.header.capacity ≡ r.header.capacity
      → q.lapped_events ≡ r.lapped_events + skipped
      → (q.header.tail ≡ r.header.tail)
      → r.header.tail + skipped ≤ h
      → (skipped ≡ 0) ⊎ (0 < min (h - (r.header.tail + skipped)) out_len)
      → h ≤ h2
      → h2 < u64_mod
      → r.lapped_events + (h2 - r.header.tail) < u64_mod
      → let (r', out) = batch_from slots h h2 out_len (r.header.tail + skipped) q in
        Accounted slots h2 r r' out
  unfolding batch_from
  batch_from-Accounted r q skipped same counted tail low room le fits total =
      let t = r.header.tail + skipped in
      let cap = min (h - t) out_len in
      let out = batch_loop slots (q.header.capacity - 1) t cap cap 0 0 in
      let short = length-batch_loop slots (q.header.capacity - 1) t cap cap 0 0 in
      elim (Bool-cases (cap == 0)) [
        | inl e ↦ rw e (record {
          lost = 0;
          counted = omega (arith, room, (==_iff cap 0).0 e);
          moved = omega arith;
          behind = omega arith;
          in_order = λ i lt. absurd (omega arith);
        })
        | inr e ↦ elim (Bool-cases (ltb q.header.capacity (h2 - t))) [
          | inl lapped ↦
              rw (e, lapped)
                (record {
                  lost = skipped + (h2 - q.header.capacity - t);
                  counted = ground arith;
                  moved = ground arith;
                  behind = omega arith;
                  in_order = λ i lt. absurd (omega arith);
                })
          | inr kept ↦
              rw (e, kept)
                (record {
                  lost = skipped;
                  counted = counted;
                  moved = moved_by (length out) (omega arith);
                  behind = omega (arith, moved_by (length out) (omega arith));
                  in_order = λ i lt.
                      batch_loop_at slots (q.header.capacity - 1) t cap cap 0 0 i lt
                      ∙ renamed i (omega arith);
                })
        ]
      ]
    where
      moved_by :
          (n : ℕ)
          → r.header.tail + skipped + n ≤ h2
          → add64 (r.header.tail + skipped) n ≡ r.header.tail + skipped + n
      moved_by n small = omega arith

      renamed :
          (i : ℕ)
          → r.header.tail + skipped + i ≤ h2
          → some (slots (bit_and (add64 (r.header.tail + skipped) (0 + i)) (q.header.capacity - 1)))
            ≡ some (slots (bit_and (r.header.tail + skipped + i) (r.header.capacity - 1)))
      renamed i small =
          let position : add64 (r.header.tail + skipped) (0 + i) ≡ r.header.tail + skipped + i =
            omega arith in
          rw (position, same) refl

  -- A batch into a buffer with room accounts for every event that the producer has written: the
  -- tail moves on by the events that were skipped as overwritten, each counted, and those that were
  -- copied, which are the next ones in order; it never passes the head.
  pub consume_batch-Accounted :
      (r : ThreadRing)
      → 0 < r.header.capacity
      → 0 < out_len
      → r.header.tail ≤ h
      → h ≤ h2
      → h2 < u64_mod
      → r.lapped_events + (h2 - r.header.tail) < u64_mod
      → let (r', out) = consume_batch slots h h2 out_len r in Accounted slots h2 r r' out
  unfolding consume_batch
  consume_batch-Accounted r some_slots room low le fits total =
      elim (Bool-cases (ltb r.header.capacity (h - r.header.tail))) [
        | inl e ↦
            let skipped = h - r.header.capacity - r.header.tail in
            let resync : r.header.tail + skipped ≡ h - r.header.capacity =
              omega (arith, ltb→lt _ _ e) in
            rw e (
              settled (record_lap skipped r) resync (
                batch_from-Accounted r (record_lap skipped r) skipped refl (omega arith) refl
                  (omega arith) (inr (omega (arith, ltb→lt _ _ e))) le fits total))
        | inr e ↦
            let here : r.header.tail + 0 ≡ r.header.tail = omega arith in
            rw e (
              settled r here (
                batch_from-Accounted r r 0 refl (omega arith) refl (omega arith) (inl refl) le fits
                  total))
      ]
    where
      settled :
          (q : ThreadRing) {t t' : ℕ}
          → t ≡ t'
          → Accounted slots h2 r
              (batch_from slots h h2 out_len t q).0
              (batch_from slots h h2 out_len t q).1
          → Accounted slots h2 r
              (batch_from slots h h2 out_len t' q).0
              (batch_from slots h h2 out_len t' q).1
      settled q same =
          subst
            (λ t.
              Accounted slots h2 r (batch_from slots h h2 out_len t q).0
                (batch_from slots h h2 out_len t q).1)
            same
