-- ===== src/Ring/Attach.antt =====
-- `ThreadRing::from_shm` of engine/src/ring.rs and the slots of the mapped memory.
use rtmap.Base.{
  ℕ, zero, suc, ◌+◌, ◌-◌, ◌*◌, ◌^◌, ◌%◌, ◌≤◌, ◌≡◌, refl, sym, ap, ◌∙◌, inl, inr, bit_and, Bool,
  true, false, not, ◌||◌, Option, none, some, arith, ltb, ◌==◌, if◌then◌else◌, Bool-cases, ==_iff,
}
use mathlib.Core.Path.{subst}
use native.Mathlib.Nat.{mod-lt, one-le-pow}
use rtmap.Base.Bits.{bit_and-mask}
use rtmap.Ring.{
  RingHeader, ThreadRing, from_shm, attached, header_size, event_size, is_power_of_two, rtmap_magic,
  rtmap_proto_version,
}

power_of_two : (k n : ℕ) → is_power_of_two k n ≡ true → (j : ℕ) × (n ≡ 2 ^ j)
power_of_two zero n e = (0, ground arith)
power_of_two (suc k) n e = elim (Bool-cases (n == 2 ^ suc k)) [
  | inl hit ↦ (suc k, (==_iff n (2 ^ suc k)).0 hit)
  | inr miss ↦ power_of_two k n (rw (sym (only_rest miss)) e)
]
  where
    only_rest : (n == 2 ^ suc k) ≡ false → is_power_of_two (suc k) n ≡ is_power_of_two k n
    only_rest miss = rw miss refl

-- A guard that refuses was passed.
passed :
    (b : Bool) (o : Option ThreadRing) (r : ThreadRing)
    → (if b then none else o) ≡ some r
    → (b ≡ false) × (o ≡ some r)
passed true o r e = cc
passed false o r e = (refl, e)

-- Every ring that is attached has its slots in the mapped memory: whatever position is read, the
-- masked index is its remainder by the capacity, and that slot ends inside the memory.
pub from_shm-slots :
    (shm_len thread_id position : ℕ) (hdr : RingHeader) (r : ThreadRing)
    → from_shm shm_len hdr thread_id ≡ some r
    → (r.shm_len ≡ shm_len)
      × (bit_and position (r.header.capacity - 1) ≡ position % r.header.capacity)
      × (header_size + (bit_and position (r.header.capacity - 1) + 1) * event_size ≤ shm_len)
unfolding from_shm
from_shm-slots shm_len thread_id position hdr r e =
    let a = passed (ltb shm_len header_size) _ r e in
    let b = passed (not (hdr.magic == rtmap_magic)) _ r a.1 in
    let c = passed (not (hdr.proto_version == rtmap_proto_version)) _ r b.1 in
    let d = passed (hdr.capacity == 0 || not (is_power_of_two 31 hdr.capacity)) _ r c.1 in
    let f = passed (not (hdr.entry_size == event_size)) _ r d.1 in
    let g = passed (ltb shm_len (header_size + hdr.capacity * event_size)) _ r f.1 in
    let same : attached shm_len hdr thread_id ≡ r =
      ap (λ o. elim o [ none ↦ r | some q ↦ q ]) g.1 in
    let (j, power) = power_of_two 31 hdr.capacity (second_false _ _ d.0) in
    subst
      (λ q.
        (q.shm_len ≡ shm_len)
        × (bit_and position (q.header.capacity - 1) ≡ position % q.header.capacity)
        × (header_size + (bit_and position (q.header.capacity - 1) + 1) * event_size ≤ shm_len))
      same
      (
        refl,
        masked j power,
        omega (
          arith,
          masked j power,
          ltb_room g.0,
          mod-lt position {m = hdr.capacity} (positive j power),
        ),
      )
  where
    second_false : (a b : Bool) → (a || not b) ≡ false → b ≡ true
    second_false true b e = cc
    second_false false true e = refl
    second_false false false e = cc

    masked :
        (j : ℕ)
        → hdr.capacity ≡ 2 ^ j
        → bit_and position (hdr.capacity - 1) ≡ position % hdr.capacity
    masked j power =
        ap (λ c. bit_and position (c - 1)) power
        ∙ bit_and-mask position j
        ∙ ap (λ c. position % c) (sym power)

    positive : (j : ℕ) → hdr.capacity ≡ 2 ^ j → 1 ≤ hdr.capacity
    positive j power = omega (arith, one-le-pow j 2 (omega arith))

    ltb_room :
        ltb shm_len (header_size + hdr.capacity * event_size) ≡ false
        → header_size + hdr.capacity * event_size ≤ shm_len
    ltb_room e = ground arith
