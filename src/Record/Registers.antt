-- ===== src/Record/Registers.antt =====
-- A register snapshot as a sequence of recorded events, engine/src/record.rs.
use rtmap.Base.{ℕ, zero, suc, ◌+◌, ◌≡◌, refl, List, [], ◌∷◌}
use rtmap.Ring.{Event}
use rtmap.Record.{cont_event, record_event, record_conts, record_reg_snapshot, EventRecorder}
use rtmap.Record.Recording.{record_all}

unfoldable pub conts_from : ℕ → ℕ → Event → List ℕ → List Event
conts_from zero i header regs = []
conts_from (suc left) i header regs = cont_event header regs i ∷ conts_from left (i + 1) header regs

-- The events that a snapshot is recorded as.
unfoldable pub snapshot_events : Event → List ℕ → List Event
unfolding conts_from
snapshot_events header regs = header ∷ conts_from 6 0 header regs

record_conts_lem :
    (left i : ℕ) (header : Event) (regs : List ℕ) (r : EventRecorder)
    → record_conts left i header regs r ≡ record_all (conts_from left i header regs) r
unfolding record_conts record_all conts_from
record_conts_lem zero i header regs r = refl
record_conts_lem (suc left) i header regs r =
    record_conts_lem left (i + 1) header regs (record_event (cont_event header regs i) r)

pub record_reg_snapshot_lem :
    (header : Event) (regs : List ℕ) (r : EventRecorder)
    → record_reg_snapshot header regs r ≡ record_all (snapshot_events header regs) r
unfolding record_reg_snapshot record_all snapshot_events
record_reg_snapshot_lem header regs r = record_conts_lem 6 0 header regs (record_event header r)
