-- ===== src/Reconciler.antt =====
-- Register snapshots in engine/src/reconciler.rs: seven slots of the event stream that belong
-- together, on their way into the world and the shadow registers of the thread.
pub mod Replayed
use rtmap.Base.{
  ℕ, zero, suc, ◌+◌, ◌==◌, Bool, true, false, not, ◌&&◌, List, [], ◌∷◌, ◌++◌, Option, none, some,
  ltb, if◌then◌else◌, length, take, drop, all,
}
use rtmap.Base.KeyMap.{KeyMap, get, insert, nat_key}
use rtmap.Ring.{Event, kind, event_reg_snapshot}
use rtmap.ShadowRegs.{ShadowRegisterFile, apply_snapshot, new}
use rtmap.World.Nodes.{WorldInner, update_regs}

abbrev pub is_snapshot : Event → Bool
is_snapshot e = kind e == event_reg_snapshot

-- Three registers from each continuation.
abbrev pub snapshot_regs : List Event → List ℕ
snapshot_regs [] = []
snapshot_regs (c ∷ conts) = c.addr ∷ c.size ∷ c.value ∷ snapshot_regs conts

-- The register files by thread.
abbrev pub Files : Type 0
Files = KeyMap ℕ ShadowRegisterFile

-- `entry(thread).or_default()`
abbrev pub file_of : ℕ → Files → ShadowRegisterFile
file_of thread files = elim (get thread files) [ none ↦ new | some f ↦ f ]

-- The answer is how many slots were used up.
pub apply_reg_snapshot : List Event → WorldInner → Files → (WorldInner × Files) × ℕ
apply_reg_snapshot [] w files = ((w, files), 0)
apply_reg_snapshot (header ∷ rest) w files =
    let conts = take 6 rest in
    let regs = snapshot_regs conts in
    if not (is_snapshot header)
    then ((w, files), 0)
    else if ltb (length (header ∷ rest)) 7
    then ((w, files), 1)
    else if not (all is_snapshot conts)
    then ((w, files), 1)
    else (
      (
        update_regs regs header.addr w,
        insert header.thread_id
            (apply_snapshot regs header.seq header.addr (file_of header.thread_id files)) files,
      ),
      7,
    )
