-- ===== src/Tests/Rings.antt =====
-- The event ring of engine/src/ring.rs at concrete inputs.
use rtmap.Base.{
  List, Option, get_elem?, ◌∷◌, [], ℕ, ◌+◌, ◌*◌, ◌%◌, ◌≤◌, ◌<◌, ◌≡◌, refl, bit_and, true, some,
  arith, length,
}
use rtmap.Ring.{
  Event, RingHeader, ThreadRing, from_shm, attached, consume_batch, header_size, event_size,
  is_compound, kind, compound_slots,
}
use rtmap.Ring.Batch.{Accounted, consume_batch-Accounted}
use rtmap.Ring.Attach.{from_shm-slots}
use rtmap.Ring.Orchestrator.{
  ThreadEntry, RingOrchestrator, RingLoads, new, poll_new_rings, batch_drain, drain_ring, open_ring,
}
use rtmap.Ring.Orchestrator.Drained.{from_ring, batch_drain-ring}
use rtmap.Ring.Orchestrator.Polled.{HasLive, poll_new_rings-HasLive}
use rtmap.Ring.Runs.{Whole, Start, run_length, consume_batch-Start, consume_batch_progress}

abbrev header : RingHeader
header = record {
  magic = 0x52544D4150425200;
  capacity = 16;
  entry_size = 32;
  proto_version = 3;
  status = 0;
  tail = 5;
}

abbrev ring : ThreadRing
ring = attached 1024 header 7

-- A compound event of three slots at each position.
abbrev compound : ℕ → Event
compound p = record {
  addr = 0x1000 + p;
  size = 24;
  thread_id = 7;
  seq = p;
  value = 0;
  kind_flags = 0x4000;
  rip_lo = 0;
}

consume_batch-Accounted_example :
    let (r', out) = consume_batch compound 30 31 8 ring in Accounted compound 31 ring r' out
consume_batch-Accounted_example =
    consume_batch-Accounted compound 30 31 8 ring (omega arith) (omega arith) (omega arith)
      (omega arith) (omega arith) (omega arith)

compound_sized : (p : ℕ) → is_compound (compound p) ≡ true → 0 < (compound p).size
compound_sized p e = omega arith

consume_batch-Start_example :
    let (r', out) = consume_batch compound 14 15 8 ring in
    Whole 0 out × Start compound 15 5 r'.header.tail
consume_batch-Start_example =
    consume_batch-Start compound compound_sized 14 15 8 ring (omega arith) (omega arith)
      (omega arith)

consume_batch_progress_example : 0 < length (consume_batch compound 14 15 8 ring).1
unfolding run_length kind is_compound compound_slots
consume_batch_progress_example =
    consume_batch_progress compound 14 15 8 ring (omega arith) (omega arith) (omega arith)
      (omega arith) (omega arith) (omega arith)

ring_attaches : from_shm 1024 header 7 ≡ some ring
unfolding from_shm
ring_attaches = refl

from_shm-slots_example :
    (ring.shm_len ≡ 1024)
    × (bit_and 100 15 ≡ 100 % 16)
    × (header_size + (bit_and 100 15 + 1) * event_size ≤ 1024)
from_shm-slots_example = from_shm-slots 1024 7 100 header ring ring_attaches

-- Two threads in the table, of which the first is being initialised when it is read first.
abbrev table_entry : ℕ → ℕ → ThreadEntry
table_entry state tid = record { state = state; thread_id = tid; shm_name = 114 ∷ tid ∷ 0 ∷ [] }

abbrev open_any : List ℕ → Option (ℕ × RingHeader)
open_any shm_name = some (1024, header)

poll_new_rings-HasLive_example :
    HasLive 6
      (poll_new_rings open_any
        (table_entry 3 5 ∷ table_entry 1 6 ∷ [])
        (table_entry 3 5 ∷ table_entry 1 6 ∷ [])
        new).rings
unfolding from_shm open_ring
poll_new_rings-HasLive_example =
    poll_new_rings-HasLive open_any (table_entry 3 5 ∷ table_entry 1 6 ∷ []) (table_entry 3 5 ∷ [])
      [] (table_entry 1 6) (attached 1024 header 6) new refl refl tt

-- The next poll attaches thread 6 a second time: three rings for two threads.
abbrev twice : ℕ
twice =
    let polled =
      poll_new_rings open_any (table_entry 3 5 ∷ table_entry 1 6 ∷ [])
        (table_entry 3 5 ∷ table_entry 1 6 ∷ []) new in
    length
      (poll_new_rings open_any (table_entry 1 5 ∷ table_entry 1 6 ∷ [])
        (table_entry 1 5 ∷ table_entry 1 6 ∷ []) polled).rings

abbrev two_rings : RingOrchestrator
two_rings = record { rings = ring ∷ attached 1024 header 8 ∷ []; known_count = 2; rr_idx = 1 }

abbrev ring_loads : ℕ → RingLoads
ring_loads i = record { slots = compound; head_before = 14; head_after = 15; head_last = 15 }

batch_drain-ring_example :
    let (o', events) = batch_drain ring_loads 8 two_rings in
    (get_elem? o'.rings 0 ≡ some (drain_ring (ring_loads 0) 8 ring).0)
    × (from_ring 0 events ≡ (drain_ring (ring_loads 0) 8 ring).1)
    × (o'.rr_idx < 2)
batch_drain-ring_example = batch_drain-ring ring_loads 8 0 ring two_rings (omega arith) refl
