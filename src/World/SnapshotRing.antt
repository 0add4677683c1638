-- ===== src/World/SnapshotRing.antt =====
-- `SnapshotRing` of engine/src/world.rs: the circular buffer of snapshots, indexed by instruction
-- count, tick and event sequence for time travel. A snapshot is any type `Snap` with its counter.
pub mod History
pub mod Search
use rtmap.Base.{
  ℕ, zero, suc, ◌+◌, ◌-◌, ◌/◌, ◌%◌, Bool, List, [], ◌∷◌, Option, none, some, ltb, leb, ◌==◌,
  if◌then◌else◌, length, get_elem?, min, ◌>>=◌,
}
use rtmap.Circular.{push_slot}

pub record SnapEntry (Snap : Type 0) : Type 0 where
  pub snap : Snap
  pub insn : ℕ
  pub tick : ℕ
  pub event_seq : ℕ

pub record SnapshotRing (Snap : Type 0) : Type 0 where
  pub buf : List (SnapEntry Snap)
  pub cap : ℕ
  pub write_pos : ℕ
  pub len : ℕ

-- `if lo > 0 { Some(lo - 1) } else { None }`
abbrev pub found : ℕ → Option ℕ
found lo = if ltb 0 lo then some (lo - 1) else none

module _ {Snap : Type 0} where
  pub new : ℕ → SnapshotRing Snap
  new cap = record { buf = []; cap = cap; write_pos = 0; len = 0 }

  abbrev pub entry : (Snap → ℕ) → Snap → ℕ → ℕ → SnapEntry Snap
  entry insn_counter snap tick event_seq = record {
    snap = snap;
    insn = insn_counter snap;
    tick = tick;
    event_seq = event_seq;
  }

  -- `none` is a panic: an index out of range, as with capacity 0.
  pub push : (Snap → ℕ) → SnapshotRing Snap → Snap → ℕ → ℕ → Option (SnapshotRing Snap)
  unfolding push_slot
  push insn_counter r snap tick event_seq = do
    buf ← push_slot r.buf r.cap r.write_pos (entry insn_counter snap tick event_seq)
    some
        (record r { buf = buf; write_pos = (r.write_pos + 1) % r.cap; len = min (r.len + 1) r.cap })

  -- Index 0 is the oldest. `self.buf[real]` is in range in every ring that `push` built.
  unfoldable pub slot : SnapshotRing Snap → ℕ → Option (SnapEntry Snap)
  slot r idx =
      if leb r.len idx
      then none
      else get_elem? r.buf (((if ltb r.len r.cap then 0 else r.write_pos) + idx) % r.cap)

  pub latest : SnapshotRing Snap → Option (SnapEntry Snap)
  unfolding slot
  latest r = if r.len == 0 then none else slot r (r.len - 1)

  -- `while lo < hi`, on fuel. `none` is the panic of `unwrap`, or that the fuel ran out.
  pub search_loop : (SnapEntry Snap → ℕ) → SnapshotRing Snap → ℕ → ℕ → ℕ → ℕ → Option ℕ
  search_loop key r target zero lo hi = none
  search_loop key r target (suc fuel) lo hi =
      let mid = lo + (hi - lo) / 2 in
      let below = search_loop key r target fuel (mid + 1) hi in
      let above = search_loop key r target fuel lo mid in
      if ltb lo hi
      then (slot r mid >>= λ e. if leb (key e) target then below else above)
      else some lo

  -- The binary search of the three `find_by` methods, which differ in the key only. The outer
  -- option is the panic. An interval of `len` slots takes at most `len` rounds and a last test.
  pub find_by : (SnapEntry Snap → ℕ) → SnapshotRing Snap → ℕ → Option (Option ℕ)
  unfolding search_loop
  find_by key r target =
      if r.len == 0
      then some none
      else (search_loop key r target (suc r.len) 0 r.len >>= λ lo. some (found lo))

  pub find_by_insn : SnapshotRing Snap → ℕ → Option (Option ℕ)
  unfolding find_by
  find_by_insn = find_by (λ e. e.insn)

  pub find_by_tick : SnapshotRing Snap → ℕ → Option (Option ℕ)
  unfolding find_by
  find_by_tick = find_by (λ e. e.tick)

  pub find_by_seq : SnapshotRing Snap → ℕ → Option (Option ℕ)
  unfolding find_by
  find_by_seq = find_by (λ e. e.event_seq)
