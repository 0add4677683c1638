-- ===== src/World/SnapshotRing/History.antt =====
-- The contents of the snapshot ring of engine/src/world.rs, oldest first.
use rtmap.Base.{
  ℕ, ◌+◌, ◌%◌, ◌<◌, ◌≡◌, refl, List, [], some, arith, length, get_elem?, get_elem?-ge, min,
}
use native.Mathlib.Decide.{dec_lt}
use rtmap.Circular.{IsCircular, view, keep_last, push_slot-view, get_elem?-view, length-view}
use rtmap.World.SnapshotRing.{SnapEntry, SnapshotRing, new, entry, push, slot}

pub record IsValid {Snap : Type 0} (r : SnapshotRing Snap) : Type 0 where
  pub circular : IsCircular r.cap r.write_pos r.buf
  pub stored : r.len ≡ length r.buf

module _ {Snap : Type 0} where
  -- The history that a ring holds, oldest first.
  abbrev pub contents : SnapshotRing Snap → List (SnapEntry Snap)
  contents r = view r.cap r.write_pos r.buf

  -- A push in a valid ring does not panic; it keeps the ring valid, appends its snapshot to the
  -- history, and forgets the oldest one exactly when the ring is full.
  pub push-contents :
      (insn_counter : Snap → ℕ) (r : SnapshotRing Snap) (s : Snap) (tick seq : ℕ)
      → IsValid r
      → (r' : SnapshotRing Snap) × (push insn_counter r s tick seq ≡ some r')
        × IsValid r'
        × (r'.cap ≡ r.cap)
        × (contents r' ≡ keep_last r.cap (contents r) (entry insn_counter s tick seq))
  unfolding push
  push-contents insn_counter r s tick seq v =
      let (buf', done, size, circular, seen) =
        push_slot-view r.cap r.write_pos r.buf (entry insn_counter s tick seq) v.circular in
      (
        record r { buf = buf'; write_pos = (r.write_pos + 1) % r.cap; len = min (r.len + 1) r.cap },
        rw done refl,
        record { circular = circular; stored = omega (arith, v.stored, size) },
        refl,
        seen,
      )

  -- Index `i` of a valid ring is the `i`-th oldest snapshot of its history, and an index past the
  -- end is refused: the read of the buffer is in range.
  pub slot-contents :
      (r : SnapshotRing Snap) (i : ℕ) → IsValid r → slot r i ≡ get_elem? (contents r) i
  unfolding slot
  slot-contents r i v = elim (dec_lt i r.len) [
    | yes lt ↦ ground (arith, v.stored, get_elem?-view r.cap r.write_pos i r.buf v.circular)
    | no ge ↦
        ground (arith, v.stored, get_elem?-ge (contents r) i, length-view r.cap r.write_pos r.buf)
  ]

-- A ring of positive capacity starts valid and empty.
pub new-IsValid :
    (Snap : Type 0) (cap : ℕ)
    → 0 < cap
    → IsValid {Snap = Snap} (new cap) × (contents {Snap = Snap} (new cap) ≡ [])
unfolding new
new-IsValid Snap cap h = (
  record {
    circular = record { room = h; bounded = omega arith; pos_in = h; filling = λ _. refl };
    stored = refl;
  },
  ground arith,
)
