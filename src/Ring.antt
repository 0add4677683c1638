-- ===== src/Ring.antt =====
-- The consumer's side of a thread's event ring, engine/src/ring.rs. The tracer writes the other
-- side from its own process: each load of the head, and each slot that is read, is an argument.
pub mod Backpressure
pub mod Batch
pub mod Attach
pub mod Runs
pub mod Control
pub mod Orchestrator
use rtmap.Base.{
  ℕ, zero, suc, ◌+◌, ◌-◌, ◌*◌, ◌/◌, ◌^◌, ◌%◌, bit_and, Bool, true, false, not, ◌&&◌, ◌||◌, List, [],
  ◌∷◌, Option, none, some, add64, sub64, min, ltb, leb, ◌==◌, if◌then◌else◌, length,
}

pub record Event : Type 0 where
  pub addr : ℕ
  pub size : ℕ
  pub thread_id : ℕ
  pub seq : ℕ
  pub value : ℕ
  pub kind_flags : ℕ
  pub rip_lo : ℕ

abbrev pub compound_max_slots : ℕ
compound_max_slots = 8

abbrev pub event_reg_snapshot : ℕ
event_reg_snapshot = 5

-- `flags() & bit != 0`
abbrev pub has_flag : ℕ → Event → Bool
has_flag bit e = not (bit_and (bit_and (e.kind_flags / 2 ^ 8) 0xFF) bit == 0)

unfoldable pub kind : Event → ℕ
kind e = bit_and e.kind_flags 0xFF

unfoldable pub is_compound : Event → Bool
is_compound e = has_flag 0x40 e

pub is_truncated : Event → Bool
is_truncated e = has_flag 0x80 e

pub is_continuation : Event → Bool
is_continuation e = has_flag 0x20 e

-- Ring slots that the event takes up.
unfoldable pub compound_slots : Event → ℕ
unfolding is_compound
compound_slots e = if is_compound e then min ((e.size + 7) / 8) compound_max_slots else 1

-- `(hi << 16) | seq`: the halves do not overlap.
pub seq32 : Event → ℕ
seq32 e = e.kind_flags / 2 ^ 16 * 2 ^ 16 + e.seq

abbrev pub rtmap_magic : ℕ
rtmap_magic = 0x52544D4150425200

abbrev pub rtmap_proto_version : ℕ
rtmap_proto_version = 3

abbrev pub status_terminal : ℕ
status_terminal = 1

-- `size_of` the header and of an event.
abbrev pub header_size : ℕ
header_size = 192

abbrev pub event_size : ℕ
event_size = 32

-- The fields that the consumer reads; head and tail change while it runs.
pub record RingHeader : Type 0 where
  pub magic : ℕ
  pub capacity : ℕ
  pub entry_size : ℕ
  pub proto_version : ℕ
  pub status : ℕ
  pub tail : ℕ

pub record ThreadRing : Type 0 where
  pub shm_len : ℕ
  pub header : RingHeader
  pub thread_id : ℕ
  pub alive : Bool
  pub lapped_events : ℕ
  pub lap_episodes : ℕ

-- `is_power_of_two`, for the powers up to `2 ^ k`.
abbrev pub is_power_of_two : ℕ → ℕ → Bool
is_power_of_two zero n = n == 1
is_power_of_two (suc k) n = if n == 2 ^ suc k then true else is_power_of_two k n

abbrev pub attached : ℕ → RingHeader → ℕ → ThreadRing
attached shm_len hdr thread_id = record {
  shm_len = shm_len;
  header = hdr;
  thread_id = thread_id;
  alive = true;
  lapped_events = 0;
  lap_episodes = 0;
}

-- Attaching to a mapped ring: a corrupt or truncated one is refused.
unfoldable pub from_shm : ℕ → RingHeader → ℕ → Option ThreadRing
from_shm shm_len hdr thread_id =
    if ltb shm_len header_size
    then none
    else if not (hdr.magic == rtmap_magic)
    then none
    else if not (hdr.proto_version == rtmap_proto_version)
    then none
    else if hdr.capacity == 0 || not (is_power_of_two 31 hdr.capacity)
    then none
    else if not (hdr.entry_size == event_size)
    then none
    else if ltb shm_len (header_size + hdr.capacity * event_size)
    then none
    else some (attached shm_len hdr thread_id)

pub is_terminal : ThreadRing → Bool
is_terminal r = r.header.status == status_terminal

-- (Without the message that it prints.)
abbrev pub record_lap : ℕ → ThreadRing → ThreadRing
record_lap lost r = record r {
  lapped_events = add64 r.lapped_events lost;
  lap_episodes = add64 r.lap_episodes 1;
}

abbrev pub store_tail : ℕ → ThreadRing → ThreadRing
store_tail tail r = record r { header = record r.header { tail = tail } }

-- What one event makes of `run_tail`, the slots that are left of the run it stands in; none ends
-- the batch before a run that does not fit. `(slots - 1) as u8` wraps.
unfoldable pub next_run : Event → ℕ → ℕ → ℕ → Option ℕ
unfolding kind is_compound compound_slots
next_run ev n cap (suc run_tail) = some run_tail
next_run ev n cap zero =
    if kind ev == event_reg_snapshot
    then (if ltb cap (n + 7) then none else some 6)
    else if is_compound ev
    then (if ltb cap (n + compound_slots ev)
        then none
        else some (sub64 (compound_slots ev) 1 % 2 ^ 8))
    else some 0

-- `while n < cap`, with `left` turns to go: the events from `t + n` on.
pub batch_loop : (ℕ → Event) → ℕ → ℕ → ℕ → ℕ → ℕ → ℕ → List Event
unfolding next_run
batch_loop slots mask t cap zero n run_tail = []
batch_loop slots mask t cap (suc left) n run_tail =
    let ev = slots (bit_and (add64 t n) mask) in
    elim (next_run ev n cap run_tail) [
      | none ↦ []
      | some run_tail' ↦ ev ∷ batch_loop slots mask t cap left (n + 1) run_tail'
    ]

-- The end of a batch: if the producer lapped into it while it was copied, all of it is discarded.
abbrev pub finish_batch : ℕ → ℕ → List Event → ThreadRing → ThreadRing × List Event
finish_batch h2 t out r =
    if ltb r.header.capacity (h2 - t)
    then (store_tail (h2 - r.header.capacity) (record_lap (h2 - r.header.capacity - t) r), [])
    else (store_tail (add64 t (length out)) r, out)

batch_from : (ℕ → Event) → ℕ → ℕ → ℕ → ℕ → ThreadRing → ThreadRing × List Event
unfolding batch_loop
batch_from slots h h2 out_len t r =
    let cap = min (h - t) out_len in
    if cap == 0
    then (r, [])
    else finish_batch h2 t (batch_loop slots (r.header.capacity - 1) t cap cap 0 0) r

-- `h` and `h2` are the two loads of the head, `out_len` the room in `out`; the answer is what was
-- copied there. Before the copy a lap is skipped: its slots are overwritten already.
pub consume_batch : (ℕ → Event) → ℕ → ℕ → ℕ → ThreadRing → ThreadRing × List Event
unfolding batch_from
consume_batch slots h h2 out_len r =
    let t = r.header.tail in
    if ltb r.header.capacity (h - t)
    then batch_from slots h h2 out_len (h - r.header.capacity)
        (record_lap (h - r.header.capacity - t) r)
    else batch_from slots h h2 out_len t r
