-- ===== src/Record/Bytes.antt =====
-- Numbers in little-endian order and events in the layout of engine/src/record.rs.
use rtmap.Base.{
  ℕ, zero, suc, ◌+◌, ◌*◌, ◌/◌, ◌^◌, ◌<◌, ◌≡◌, refl, ap, List, [], ◌∷◌, ◌++◌, arith, length, take,
  drop,
}
use native.Mathlib.Nat.{div-add-mod}
use rtmap.Ring.{Event}
use rtmap.ShadowRegs.Pieces.{le_bytes}
use rtmap.Record.{event_bytes, event_of, from_le}

-- The values fit into the widths of their fields.
pub record Fits (e : Event) : Type 0 where
  pub addr_fits : e.addr < 2 ^ 64
  pub size_fits : e.size < 2 ^ 32
  pub thread_fits : e.thread_id < 2 ^ 16
  pub seq_fits : e.seq < 2 ^ 16
  pub value_fits : e.value < 2 ^ 64
  pub flags_fits : e.kind_flags < 2 ^ 32
  pub rip_fits : e.rip_lo < 2 ^ 32

pub length-le_bytes : (n v : ℕ) → length (le_bytes n v) ≡ n
length-le_bytes zero v = refl
length-le_bytes (suc n) v = ap suc (length-le_bytes n (v / 256))

pow_suc : (n : ℕ) → 256 ^ suc n ≡ 256 * 256 ^ n
pow_suc n = omega arith

below_next : (n v : ℕ) → v < 256 ^ suc n → v / 256 < 256 ^ n
below_next n v h = omega (arith, rw (pow_suc n) at h)

pub from_le-le_bytes : (n v : ℕ) → v < 256 ^ n → from_le (le_bytes n v) ≡ v
from_le-le_bytes zero v h = omega (arith, h)
from_le-le_bytes (suc n) v h =
    omega (arith, from_le-le_bytes n (v / 256) (below_next n v h), div-add-mod v 256)

module _ {ℓ} {A : Type ℓ} where
  pub take_left : (xs ys : List A) → take (length xs) (xs ++ ys) ≡ xs
  take_left [] ys = refl
  take_left (x ∷ xs) ys = ap (◌∷◌ x) (take_left xs ys)

  pub take_past :
      (xs ys : List A) (k n : ℕ) → n ≡ length xs + k → take n (xs ++ ys) ≡ xs ++ take k ys
  take_past [] ys k n h = let same : n ≡ k = omega arith in ap (λ m. take m ys) same
  take_past (x ∷ xs) ys k zero h = absurd (omega arith)
  take_past (x ∷ xs) ys k (suc n) h = ap (◌∷◌ x) (take_past xs ys k n (omega arith))

  pub drop_left : (xs ys : List A) → drop (length xs) (xs ++ ys) ≡ ys
  drop_left [] ys = refl
  drop_left (x ∷ xs) ys = drop_left xs ys

pub event_of-event_bytes : (e : Event) → Fits e → event_of (event_bytes e) ≡ e
unfolding event_of event_bytes
event_of-event_bytes e f = λ i. record {
  addr = from_le-le_bytes 8 e.addr f.addr_fits i;
  size = from_le-le_bytes 4 e.size f.size_fits i;
  thread_id = from_le-le_bytes 2 e.thread_id f.thread_fits i;
  seq = from_le-le_bytes 2 e.seq f.seq_fits i;
  value = from_le-le_bytes 8 e.value f.value_fits i;
  kind_flags = from_le-le_bytes 4 e.kind_flags f.flags_fits i;
  rip_lo = from_le-le_bytes 4 e.rip_lo f.rip_fits i;
}
