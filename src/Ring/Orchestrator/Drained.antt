-- ===== src/Ring/Orchestrator/Drained.antt =====
-- `batch_drain` of engine/src/ring.rs: the rings are drained in turns.
use rtmap.Base.{
  ℕ, zero, suc, ◌+◌, ◌-◌, ◌%◌, ◌≤◌, ◌<◌, ◌≡◌, ◌≢◌, refl, sym, ap, ◌∙◌, min, max, true, false, List,
  [], ◌∷◌, ◌++◌, map, Option, none, some, ◌==◌, ltb, leb, if◌then◌else◌, length, get_elem?, set,
  arith, Option_rule, length-set, Bool-cases, ==_iff, ==_refl, inl, inr, get_elem?-ge,
}
use mathlib.Core.Path.{subst}
use mathlib.Core.List.{append-nil}
use native.Mathlib.Nat.{mod-eq_of_lt, add-mod_left, mod-lt}
use rtmap.Ring.{Event, ThreadRing}
use rtmap.Ring.Orchestrator.{
  RingLoads, RingOrchestrator, drain_ring, drain_from, batch_drain, batch_size,
}

-- The events of ring `i`.
abbrev pub from_ring : ℕ → List (ℕ × Event) → List Event
from_ring i [] = []
from_ring i ((j, e) ∷ events) = if j == i then e ∷ from_ring i events else from_ring i events

tagged :
    (i j : ℕ) (out : List Event) (events : List (ℕ × Event))
    → from_ring i (map (λ e. (j, e)) out ++ events)
      ≡ (if j == i then out ++ from_ring i events else from_ring i events)
tagged i j [] events = ground arith
tagged i j (e ∷ out) events = ground (arith, tagged i j out events)

get_elem?-set_self :
    (rings : List ThreadRing) (i : ℕ) (r : ThreadRing)
    → i < length rings
    → get_elem? (set rings i r) i ≡ some r
get_elem?-set_self [] i r h = elim h [ ]
get_elem?-set_self (x ∷ xs) zero r h = refl
get_elem?-set_self (x ∷ xs) (suc i) r h = get_elem?-set_self xs i r (omega arith)

get_elem?-set_ne :
    (rings : List ThreadRing) (i j : ℕ) (r : ThreadRing)
    → (j == i) ≡ false
    → get_elem? (set rings j r) i ≡ get_elem? rings i
get_elem?-set_ne [] i j r h = refl
get_elem?-set_ne (x ∷ xs) zero zero r h = absurd (ground arith)
get_elem?-set_ne (x ∷ xs) zero (suc j) r h = refl
get_elem?-set_ne (x ∷ xs) (suc i) zero r h = refl
get_elem?-set_ne (x ∷ xs) (suc i) (suc j) r h = get_elem?-set_ne xs i j r (ground arith)

in_range : (rings : List ThreadRing) (i : ℕ) → i < length rings → get_elem? rings i ≡ none → ⊥
in_range [] i h e = elim h [ ]
in_range (x ∷ xs) zero h e = cc
in_range (x ∷ xs) (suc i) h e = in_range xs i (omega arith) e

-- The ring that is drained at an offset, and the offset of a ring.
wrap : ℕ → ℕ → ℕ
wrap n a = if ltb a n then a else a - n

wrap_lem : (n a : ℕ) → a < n + n → a % n ≡ wrap n a
unfolding wrap
wrap_lem n a h = elim (Bool-cases (ltb a n)) [
  | inl low ↦ let small : a < n = ground arith in rw low (mod-eq_of_lt small)
  | inr high ↦
      let over : n + (a - n) ≡ a = ground arith in
      let small : a - n < n = omega (arith, over) in
      rw high (ap (λ x. x % n) (sym over) ∙ add-mod_left n (a - n) ∙ mod-eq_of_lt small)
]

turn : ℕ → ℕ → ℕ → ℕ
turn n rr i = if leb rr i then i - rr else i + n - rr

-- Ring `i` and the events from it, in what a drain gives.
Ends : ℕ → ThreadRing → List Event → List ThreadRing × List (ℕ × Event) → Type 0
Ends i r es (rings, events) = (get_elem? rings i ≡ some r) × (from_ring i events ≡ es)

module _ (loads : ℕ → RingLoads) (limit n rr i : ℕ) (rr_in : rr < n) (i_in : i < n) where
  at_turn : (k : ℕ) → k < n → turn n rr i ≡ k → ((rr + k) % n == i) ≡ true
  unfolding turn wrap
  at_turn k k_in h = let at_wrap = wrap_lem n (rr + k) (omega arith) in rw at_wrap (ground arith)

  off_turn : (k : ℕ) → k < n → turn n rr i ≢ k → ((rr + k) % n == i) ≡ false
  unfolding turn wrap
  off_turn k k_in h = let at_wrap = wrap_lem n (rr + k) (omega arith) in rw at_wrap (ground arith)

  turn_in : turn n rr i < n
  unfolding turn
  turn_in = ground arith

  -- One turn of the loop, on a ring that is not `i`.
  other_turn :
      (left k : ℕ) (rings : List ThreadRing) (r : ThreadRing) (es : List Event)
      → length rings ≡ n
      → ((rr + k) % n == i) ≡ false
      → ((rings' : List ThreadRing)
          → length rings' ≡ n
          → get_elem? rings' i ≡ get_elem? rings i
          → Ends i r es (drain_from loads limit n rr left (k + 1) rings'))
      → Ends i r es (drain_from loads limit n rr (suc left) k rings)
  unfolding Ends drain_from
  other_turn left k rings r es sized other later =
      let j = (rr + k) % n in
      Option_rule (Ends i r es) (get_elem? rings j)
        (λ miss.
          absurd (in_range rings j (omega (arith, mod-lt (rr + k) {m = n} (omega arith))) miss))
        (λ q at_j.
          let drained = drain_ring (loads j) limit q in
          let rest =
            later (set rings j drained.0) (length-set rings j drained.0 ∙ sized)
              (get_elem?-set_ne rings i j drained.0 other) in
          (
            rest.0,
            tagged i j drained.1
                  (drain_from loads limit n rr left (k + 1) (set rings j drained.0)).1
                ∙ rw other rest.1,
          ))

  -- A ring whose turn is over stays as it is.
  visited :
      (left k : ℕ) (rings : List ThreadRing) (r : ThreadRing)
      → k + left ≡ n
      → turn n rr i < k
      → length rings ≡ n
      → get_elem? rings i ≡ some r
      → Ends i r [] (drain_from loads limit n rr left k rings)
  unfolding Ends drain_from
  visited zero k rings r whole over sized at_i = (at_i, refl)
  visited (suc left) k rings r whole over sized at_i =
      other_turn left k rings r [] sized
        (off_turn k (omega arith) (λ e. absurd (omega (arith, over, e))))
        (λ rings' sized' same.
          visited left (k + 1) rings' r (omega arith) (omega arith) sized' (same ∙ at_i))

  -- One turn of the loop, on ring `j`.
  abbrev step_on :
      ℕ → ℕ → ℕ → List ThreadRing → Option ThreadRing → List ThreadRing × List (ℕ × Event)
  step_on left k j rings o = elim o [
    | none ↦ (rings, [])
    | some q ↦
        let (q', out) = drain_ring (loads j) limit q in
        let (rings', events) = drain_from loads limit n rr left (k + 1) (set rings j q') in
        (rings', map (λ e. (j, e)) out ++ events)
  ]

  abbrev step_at : ℕ → ℕ → ℕ → List ThreadRing → List ThreadRing × List (ℕ × Event)
  step_at left k j rings = step_on left k j rings (get_elem? rings j)

  own_turn :
      (left k : ℕ) (rings : List ThreadRing) (r : ThreadRing)
      → get_elem? rings i ≡ some r
      → Ends i
          (drain_ring (loads i) limit r).0
          []
          (drain_from loads limit n rr left (k + 1) (set rings i (drain_ring (loads i) limit r).0))
      → Ends i
          (drain_ring (loads i) limit r).0
          (drain_ring (loads i) limit r).1
          (step_at left k i rings)
  unfolding Ends
  own_turn left k rings r at_i rest =
      let drained = drain_ring (loads i) limit r in
      let after = drain_from loads limit n rr left (k + 1) (set rings i drained.0) in
      subst (λ (o : Option ThreadRing). Ends i drained.0 drained.1 (step_on left k i rings o))
        (sym at_i)
        (
          rest.0,
          tagged i i drained.1 after.1
              ∙ rw (==_refl i) (ap (λ es. drained.1 ++ es) rest.1 ∙ append-nil drained.1),
        )

  -- A ring whose turn is to come is drained once.
  pending :
      (left k : ℕ) (rings : List ThreadRing) (r : ThreadRing)
      → k + left ≡ n
      → k ≤ turn n rr i
      → length rings ≡ n
      → get_elem? rings i ≡ some r
      → Ends i
          (drain_ring (loads i) limit r).0
          (drain_ring (loads i) limit r).1
          (drain_from loads limit n rr left k rings)
  unfolding Ends drain_from
  pending zero k rings r whole ahead sized at_i = absurd (omega (arith, turn_in))
  pending (suc left) k rings r whole ahead sized at_i = elim (Bool-cases (turn n rr i == k)) [
    | inl now ↦
        let here : (rr + k) % n ≡ i =
          (==_iff ((rr + k) % n) i).0 (at_turn k (omega arith) (ground arith)) in
        let passed : turn n rr i < k + 1 = ground arith in
        let drained = drain_ring (loads i) limit r in
        let rest =
          visited left (k + 1) (set rings i drained.0) drained.0 (omega arith) passed
            (length-set rings i drained.0 ∙ sized)
            (get_elem?-set_self rings i drained.0 (omega (arith, sized, i_in))) in
        subst (λ (j : ℕ). Ends i drained.0 drained.1 (step_at left k j rings)) (sym here)
          (own_turn left k rings r at_i rest)
    | inr later ↦
        let ahead' : k + 1 ≤ turn n rr i = ground arith in
        other_turn left k rings _ _ sized
          (off_turn k (omega arith) (λ e. absurd (ground (arith, e))))
          (λ rings' sized' same.
            pending left (k + 1) rings' r (omega arith) ahead' sized' (same ∙ at_i))
  ]

-- A drain goes through every ring exactly once: where the next turn is that of a ring, ring `i`
-- becomes what one batch of at most `per_ring` events, with the retirement of a terminal ring, makes
-- of it, and the events from it are that batch, in order.
pub batch_drain-ring :
    (loads : ℕ → RingLoads) (per_ring i : ℕ) (r : ThreadRing) (o : RingOrchestrator)
    → o.rr_idx < length o.rings
    → get_elem? o.rings i ≡ some r
    → let limit = min per_ring batch_size in
      let (o', events) = batch_drain loads per_ring o in
      (get_elem? o'.rings i ≡ some (drain_ring (loads i) limit r).0)
      × (from_ring i events ≡ (drain_ring (loads i) limit r).1)
      × (o'.rr_idx < length o.rings)
unfolding batch_drain Ends
batch_drain-ring loads per_ring i r o rr_in at_i =
    let n = length o.rings in
    let busy : (n == 0) ≡ false = ground arith in
    let i_in : i < n = elim (Bool-cases (ltb i n)) [
      | inl low ↦ ground arith
      | inr high ↦ absurd (no_ring (sym (get_elem?-ge o.rings i (ground arith)) ∙ at_i))
    ] in
    let drained =
      pending loads (min per_ring batch_size) n o.rr_idx i rr_in i_in n 0 o.rings r (omega arith)
        (omega arith) refl at_i in
    let turn_kept : (o.rr_idx + 1) % max n 1 < n =
      let one : max n 1 ≡ n = omega arith in rw one (mod-lt (o.rr_idx + 1) {m = n} (omega arith)) in
    rw busy (drained.0, drained.1, turn_kept)
  where
    no_ring : {q : ThreadRing} → none ≡ some q → ⊥
    no_ring h = cc
