-- ===== src/Tests/Records.antt =====
-- Recordings and replays, engine/src/record.rs and engine/src/reconciler.rs, at concrete inputs.
use rtmap.Base.{ℕ, ◌+◌, ◌<◌, ◌≡◌, refl, List, [], ◌∷◌, some, arith}
use rtmap.Ring.{Event, kind}
use rtmap.Record.{create, finish, open_player, event_count, replay_loop, EventPlayer, ok}
use rtmap.Record.Bytes.{Fits}
use rtmap.Record.Recording.{record_all}
use rtmap.Record.Replay.{concat, Cut, replay_loop-finish, recording-Cut}
use rtmap.Record.Registers.{snapshot_events}
use rtmap.Reconciler.{apply_reg_snapshot}
use rtmap.Reconciler.Replayed.{IsSnapshot, seven, apply_reg_snapshot-replayed}
use rtmap.World.Nodes.{new}

abbrev write_at : ℕ → Event
write_at a = record {
  addr = a;
  size = 8;
  thread_id = 3;
  seq = 77;
  value = 0xFFFFFFFFFFFFFFFF;
  kind_flags = 0x10000;
  rip_lo = 0x401000;
}

abbrev two_writes : List Event
two_writes = write_at 0x7FFF00001000 ∷ write_at 0x2000 ∷ []

write_at-Fits : (a : ℕ) → a < 18446744073709551616 → Fits (write_at a)
write_at-Fits a h = record {
  addr_fits = h;
  size_fits = omega arith;
  thread_fits = omega arith;
  seq_fits = omega arith;
  value_fits = omega arith;
  flags_fits = omega arith;
  rip_fits = omega arith;
}

replay_loop-finish_example :
    (p : EventPlayer) × (batches : List (List Event)) × (open_player
        (finish (record_all two_writes create)).0
      ≡ ok p)
    × (event_count p ≡ 2)
    × (replay_loop 4096 3 p ≡ some batches)
    × (concat batches ≡ two_writes)
replay_loop-finish_example =
    replay_loop-finish two_writes 4096 3
      (write_at-Fits 0x7FFF00001000 (omega arith), (write_at-Fits 0x2000 (omega arith), tt))
      (omega arith) (omega arith) (omega arith)

-- Cut off in the second event.
recording-Cut_example : Cut two_writes 60 1 5
recording-Cut_example =
    recording-Cut two_writes 60 1 5
      (write_at-Fits 0x7FFF00001000 (omega arith), (write_at-Fits 0x2000 (omega arith), tt))
      (omega arith) (omega arith) (omega arith)

abbrev slot_of : ℕ → Event
slot_of v = record {
  addr = v;
  size = v + 1;
  thread_id = 3;
  seq = 9;
  value = v + 2;
  kind_flags = 5;
  rip_lo = 0;
}

abbrev slots : List Event
slots = slot_of 1 ∷ slot_of 4 ∷ slot_of 7 ∷ slot_of 10 ∷ slot_of 13 ∷ slot_of 16 ∷ []

slots-IsSnapshot : IsSnapshot (slot_of 100 ∷ slots)
unfolding kind
slots-IsSnapshot =
    seven (slot_of 1) (slot_of 4) (slot_of 7) (slot_of 10) (slot_of 13) (slot_of 16) refl refl
      (omega arith, (omega arith, (omega arith, (omega arith, (omega arith, (omega arith, tt))))))

apply_reg_snapshot-replayed_example :
    apply_reg_snapshot
      (snapshot_events
        (slot_of 100)
        (apply_reg_snapshot (slot_of 100 ∷ slots) new []).0.0.reg_file.values)
      new
      []
    ≡ apply_reg_snapshot (slot_of 100 ∷ slots) new []
apply_reg_snapshot-replayed_example =
    apply_reg_snapshot-replayed (slot_of 100) slots new [] slots-IsSnapshot
