-- ===== src/Ring/Runs.antt =====
-- Runs of slots that belong together, in `consume_batch` of engine/src/ring.rs.
use rtmap.Base.{
  Bool-cases, inl, inr, ℕ, zero, suc, ◌+◌, ◌-◌, ◌%◌, ◌^◌, ◌≤◌, ◌<◌, ◌≡◌, refl, sym, ap, bit_and,
  Bool, true, false, List, [], ◌∷◌, Option, none, some, arith, add64, sub64, min, ltb, ◌==◌,
  if◌then◌else◌, length, if_rule, u64_mod,
}
use mathlib.Core.Path.{subst}
use rtmap.Ring.Batch.{length-batch_loop}
use rtmap.Ring.{
  Event, ThreadRing, kind, is_compound, compound_slots, event_reg_snapshot, batch_loop, next_run,
  batch_from, consume_batch,
}

-- How many slots the run has that an event opens.
unfoldable pub run_length : Event → ℕ
run_length e =
    if kind e == event_reg_snapshot then 7 else if is_compound e then compound_slots e else 1

-- The events are whole runs, after `left` slots of a run that is open already.
pub Whole : ℕ → List Event → Type 0
Whole zero [] = Unit
Whole (suc left) [] = ⊥
Whole zero (e ∷ es) = Whole (run_length e - 1) es
Whole (suc left) (e ∷ es) = Whole left es

-- A run that is opened fits into the batch: over the tests and the slot count of the event.
opens :
    (snap compound : Bool) (slots n cap run_tail : ℕ)
    → (compound ≡ true → (1 ≤ slots) × (slots ≤ 8))
    → n < cap
    → (if snap
        then (if ltb cap (n + 7) then none else some 6)
        else if compound
        then (if ltb cap (n + slots) then none else some (sub64 slots 1 % 2 ^ 8))
        else some 0)
      ≡ some run_tail
    → (run_tail ≡ (if snap then 7 else if compound then slots else 1) - 1)
      × (n + (if snap then 7 else if compound then slots else 1) ≤ cap)
opens true compound slots n cap run_tail sized low q = ground arith
opens false false slots n cap run_tail sized low q = ground arith
opens false true slots n cap run_tail sized low q =
    let bounds = sized refl in
    let small : sub64 slots 1 % 2 ^ 8 ≡ slots - 1 = omega (arith, bounds) in
    ground (arith, small, bounds)

slots_bounds :
    (e : Event)
    → (is_compound e ≡ true → 0 < e.size)
    → is_compound e ≡ true
    → (1 ≤ compound_slots e) × (compound_slots e ≤ 8)
unfolding compound_slots
slots_bounds e sized c = let positive = sized c in rw c (omega arith, omega arith)

run_length_pos : (e : Event) → (is_compound e ≡ true → 0 < e.size) → 0 < run_length e
unfolding run_length
run_length_pos e sized =
    by_tests (kind e == event_reg_snapshot) (is_compound e) (slots_bounds e sized)
  where
    by_tests :
        (snap compound : Bool)
        → (compound ≡ true → (1 ≤ compound_slots e) × (compound_slots e ≤ 8))
        → 0 < (if snap then 7 else if compound then compound_slots e else 1)
    by_tests true compound b = omega arith
    by_tests false true b = let bounds = b refl in omega (arith, bounds)
    by_tests false false b = omega arith

next_run_opens :
    (e : Event) (n cap run_tail : ℕ)
    → (is_compound e ≡ true → 0 < e.size)
    → n < cap
    → next_run e n cap 0 ≡ some run_tail
    → (run_tail ≡ run_length e - 1) × (n + run_length e ≤ cap)
unfolding next_run run_length
next_run_opens e n cap run_tail sized low q =
    opens (kind e == event_reg_snapshot) (is_compound e) (compound_slots e) n cap run_tail
      (slots_bounds e sized) low q

module _ (slots : ℕ → Event) where
  -- Where the next run starts, from the start of a run at position `t` on.
  pub data Start (mask t : ℕ) : ℕ → Type 0 where
    first_start : Start mask t t
    next_start : (p : ℕ) → Start mask t p → Start mask t (p + run_length (slots (bit_and p mask)))

module _ (slots : ℕ → Event)
    (sized : (p : ℕ) → is_compound (slots p) ≡ true → 0 < (slots p).size) where
  batch_loop-Whole :
      (mask t cap left n run_tail : ℕ)
      → n + left ≡ cap
      → run_tail ≤ left
      → Whole run_tail (batch_loop slots mask t cap left n run_tail)
  unfolding batch_loop Whole
  batch_loop-Whole mask t cap zero n zero full fits = tt
  batch_loop-Whole mask t cap zero n (suc run_tail) full fits = absurd (omega arith)
  batch_loop-Whole mask t cap (suc left) n (suc run_tail) full fits =
      batch_loop-Whole mask t cap left (n + 1) run_tail (omega arith) (omega arith)
  batch_loop-Whole mask t cap (suc left) n zero full fits =
      by_next (next_run (slots (bit_and (add64 t n) mask)) n cap 0) refl
        (λ rt le. batch_loop-Whole mask t cap left (n + 1) rt (omega arith) le)
    where
      by_next :
          (o : Option ℕ)
          → next_run (slots (bit_and (add64 t n) mask)) n cap 0 ≡ o
          → ((rt : ℕ) → rt ≤ left → Whole rt (batch_loop slots mask t cap left (n + 1) rt))
          → Whole 0 (elim o [
            | none ↦ []
            | some rt ↦
                slots (bit_and (add64 t n) mask) ∷ batch_loop slots mask t cap left (n + 1) rt
          ])
      by_next none q later = tt
      by_next (some rt) q later =
          let first = slots (bit_and (add64 t n) mask) in
          let run =
            next_run_opens first n cap rt (sized (bit_and (add64 t n) mask)) (omega arith) q in
          subst (λ k. Whole k (batch_loop slots mask t cap left (n + 1) rt)) run.0
            (later rt (omega (arith, run)))

  batch_from-Whole :
      (h h2 out_len t : ℕ) (r : ThreadRing) → Whole 0 (batch_from slots h h2 out_len t r).1
  unfolding batch_from Whole
  batch_from-Whole h h2 out_len t r =
      let cap = min (h - t) out_len in
      let out = batch_loop slots (r.header.capacity - 1) t cap cap 0 0 in
      if_rule (λ (x : ThreadRing × List Event). Whole 0 x.1) (cap == 0) tt
        (if_rule (λ (x : ThreadRing × List Event). Whole 0 x.1) (ltb r.header.capacity (h2 - t)) tt
          (batch_loop-Whole (r.header.capacity - 1) t cap cap 0 0 (omega arith) (omega arith)))

  -- Counted from its first slot, a batch consists of whole runs.
  pub consume_batch-Whole :
      (h h2 out_len : ℕ) (r : ThreadRing) → Whole 0 (consume_batch slots h h2 out_len r).1
  unfolding consume_batch
  consume_batch-Whole h h2 out_len r =
      if_rule (λ (x : ThreadRing × List Event). Whole 0 x.1)
        (ltb r.header.capacity (h - r.header.tail))
        (batch_from-Whole h h2 out_len (h - r.header.capacity) _)
        (batch_from-Whole h h2 out_len r.header.tail r)

  -- The loop stops in front of a run: `run_tail` slots are left of the last one that it has opened.
  batch_loop-Start :
      (mask from t cap left n run_tail : ℕ)
      → n + left ≡ cap
      → run_tail ≤ left
      → t + cap < u64_mod
      → Start slots mask from (t + n + run_tail)
      → Start slots mask from (t + n + length (batch_loop slots mask t cap left n run_tail))
  unfolding batch_loop
  batch_loop-Start mask from t cap zero n zero full fits small s = s
  batch_loop-Start mask from t cap zero n (suc run_tail) full fits small s = absurd (omega arith)
  batch_loop-Start mask from t cap (suc left) n (suc run_tail) full fits small s =
      let rest =
        batch_loop-Start mask from t cap left (n + 1) run_tail (omega arith) (omega arith) small
          (subst (Start slots mask from) (omega arith) s) in
      subst (Start slots mask from) (omega arith) rest
  batch_loop-Start mask from t cap (suc left) n zero full fits small s =
      by_next (next_run (slots (bit_and (add64 t n) mask)) n cap 0) refl
        (λ rt le o. batch_loop-Start mask from t cap left (n + 1) rt (omega arith) le small o)
    where
      by_next :
          (o : Option ℕ)
          → next_run (slots (bit_and (add64 t n) mask)) n cap 0 ≡ o
          → ((rt : ℕ)
              → rt ≤ left
              → Start slots mask from (t + (n + 1) + rt)
              → Start slots mask from
                  (t + (n + 1) + length (batch_loop slots mask t cap left (n + 1) rt)))
          → Start slots mask from (
              t
              + n
              + length (elim o [
                | none ↦ []
                | some rt ↦
                    slots (bit_and (add64 t n) mask) ∷ batch_loop slots mask t cap left (n + 1) rt
              ]))
      by_next none q later = s
      by_next (some rt) q later =
          let run =
            next_run_opens (slots (bit_and (add64 t n) mask)) n cap rt
              (sized (bit_and (add64 t n) mask)) (omega arith) q in
          let place : add64 t n ≡ t + n = omega arith in
          let opened : rt + 1 ≡ run_length (slots (bit_and (t + n) mask)) =
            let length_same = ap (λ x. run_length (slots (bit_and x mask))) place in
            omega (
              arith,
              run.0,
              length_same,
              run_length_pos (slots (bit_and (add64 t n) mask)) (sized (bit_and (add64 t n) mask)),
            ) in
          let start : Start slots mask from (t + n) =
            subst (Start slots mask from) (omega arith) s in
          let next = next_start (t + n) start in
          let rest =
            later rt (omega (arith, run))
              (subst (Start slots mask from) (omega (arith, opened)) next) in
          subst (Start slots mask from) (omega arith) rest

  -- Where every compound event has a size, the tail stands where a run starts, and the producer
  -- laps the consumer neither before the batch nor during it, a batch consists of whole runs (a
  -- register snapshot with its six continuations, a compound event with all its slots, or one
  -- slot), and the new tail stands where a run starts again.
  pub consume_batch-Start :
      (h h2 out_len : ℕ) (r : ThreadRing)
      → h < u64_mod
      → h - r.header.tail ≤ r.header.capacity
      → h2 - r.header.tail ≤ r.header.capacity
      → let (r', out) = consume_batch slots h h2 out_len r in
        Whole 0 out × Start slots (r.header.capacity - 1) r.header.tail r'.header.tail
  unfolding consume_batch batch_from
  consume_batch-Start h h2 out_len r small behind_h behind_h2 = (
    consume_batch-Whole h h2 out_len r,
    let t = r.header.tail in
        let cap = min (h - t) out_len in
        let mask = r.header.capacity - 1 in
        let no_lap : ltb r.header.capacity (h - t) ≡ false = ground arith in
        let no_lap2 : ltb r.header.capacity (h2 - t) ≡ false = ground arith in
        elim (Bool-cases (cap == 0)) [
          | inl idle ↦ rw (no_lap, idle) first_start
          | inr busy ↦
              let out = batch_loop slots mask t cap cap 0 0 in
              let few = length-batch_loop slots mask t cap cap 0 0 in
              let last : t + 0 + length out ≡ add64 t (length out) = ground (arith, few, busy) in
              rw (no_lap, busy, no_lap2)
                (subst (Start slots mask t) last (
                  batch_loop-Start mask t t cap cap 0 0 (omega arith) (omega arith)
                    (ground (arith, busy)) (subst (Start slots mask t) (omega arith) first_start)))
        ],
  )

-- A run that fits is opened.
fits_lem :
    (snap compound : Bool) (slots n cap : ℕ)
    → n + (if snap then 7 else if compound then slots else 1) ≤ cap
    → (run_tail : ℕ) × ((if snap
          then (if ltb cap (n + 7) then none else some 6)
          else if compound
          then (if ltb cap (n + slots) then none else some (sub64 slots 1 % 2 ^ 8))
          else some 0)
        ≡ some run_tail)
fits_lem true compound slots n cap h = (6, ground arith)
fits_lem false false slots n cap h = (0, refl)
fits_lem false true slots n cap h = (sub64 slots 1 % 2 ^ 8, ground arith)

batch_loop_first :
    (slots : ℕ → Event) (mask t cap left : ℕ)
    → run_length (slots (bit_and (add64 t 0) mask)) ≤ cap
    → 0 < length (batch_loop slots mask t cap (suc left) 0 0)
unfolding batch_loop next_run run_length
batch_loop_first slots mask t cap left h =
    let first = slots (bit_and (add64 t 0) mask) in
    let (rt, e) =
      fits_lem (kind first == event_reg_snapshot) (is_compound first) (compound_slots first) 0 cap
        (omega arith) in
    let start : next_run first 0 cap 0 ≡ some rt = e in
    let grow : Option ℕ → List Event = λ o. elim o [
      | none ↦ []
      | some run_tail ↦ first ∷ batch_loop slots mask t cap left (0 + 1) run_tail
    ] in
    let more : length (batch_loop slots mask t cap (suc left) 0 0)
        ≡ suc (length (batch_loop slots mask t cap left (0 + 1) rt)) =
      ap (λ o. length (grow o)) start in
    omega (arith, more)

-- A batch makes progress: where the first waiting run is in the ring as a whole and fits into the
-- buffer, and the producer laps the consumer neither before the batch nor during it, at least one
-- event is copied.
pub consume_batch_progress :
    (slots : ℕ → Event) (h h2 out_len : ℕ) (r : ThreadRing)
    → r.header.tail < h
    → h < u64_mod
    → 0 < out_len
    → h - r.header.tail ≤ r.header.capacity
    → h2 - r.header.tail ≤ r.header.capacity
    → run_length (slots (bit_and r.header.tail (r.header.capacity - 1)))
      ≤ min (h - r.header.tail) out_len
    → 0 < length (consume_batch slots h h2 out_len r).1
unfolding consume_batch batch_from
consume_batch_progress slots h h2 out_len r waiting small room behind behind' fits =
    let t = r.header.tail in
    let cap = min (h - t) out_len in
    let mask = r.header.capacity - 1 in
    let no_lap : ltb r.header.capacity (h - t) ≡ false = ground arith in
    let no_lap' : ltb r.header.capacity (h2 - t) ≡ false = ground arith in
    let busy : (cap == 0) ≡ false = ground arith in
    let here : t ≡ add64 t 0 = omega arith in
    let turn : cap ≡ suc (cap - 1) = omega arith in
    let first : run_length (slots (bit_and (add64 t 0) mask)) ≤ cap =
      subst (λ k. run_length (slots (bit_and k mask)) ≤ cap) here fits in
    let copied : 0 < length (batch_loop slots mask t cap cap 0 0) =
      subst (λ left. 0 < length (batch_loop slots mask t cap left 0 0)) (sym turn)
        (batch_loop_first slots mask t cap (cap - 1) first) in
    rw (no_lap, busy, no_lap') copied
