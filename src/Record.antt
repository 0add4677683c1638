-- ===== src/Record.antt =====
-- Recording and replay of events, engine/src/record.rs. A file is the list of its bytes; the file
-- system is taken not to fail, so that the errors are those of the file's contents.
pub mod Bytes
pub mod Recording
pub mod Replay
pub mod Registers
use rtmap.Base.{
  ℕ, zero, suc, ◌+◌, ◌-◌, ◌*◌, ◌%◌, ◌^◌, not, List, [], ◌∷◌, ◌++◌, Option, none, some, add64, ltb,
  ◌==◌, if◌then◌else◌, length, take, drop, get_or, ◌>>=◌,
}
use rtmap.Ring.{Event}
use rtmap.ShadowRegs.Pieces.{le_bytes, splice}

abbrev pub record_magic : ℕ
record_magic = 0x52544D4150524300

abbrev pub proto_version : ℕ
proto_version = 3

abbrev pub header_bytes : ℕ
header_bytes = 24

abbrev pub disk_event_size : ℕ
disk_event_size = 32

pub record EventRecorder : Type 0 where
  pub writer : List ℕ
  pub count : ℕ

pub create : EventRecorder
create = record {
  writer = le_bytes 8 record_magic ++ (le_bytes 4 proto_version ++ (le_bytes 8 0 ++ le_bytes 4 0));
  count = 0;
}

-- The bytes of an event on disk.
unfoldable pub event_bytes : Event → List ℕ
event_bytes ev =
    le_bytes 8 ev.addr
    ++ (le_bytes 4 ev.size
        ++ (le_bytes 2 ev.thread_id
            ++ (le_bytes 2 ev.seq
                ++ (le_bytes 8 ev.value ++ (le_bytes 4 ev.kind_flags ++ le_bytes 4 ev.rip_lo)))))

pub record_event : Event → EventRecorder → EventRecorder
unfolding event_bytes
record_event ev r = record { writer = r.writer ++ event_bytes ev; count = add64 r.count 1 }

-- Continuation `i` of a register snapshot: three registers, the middle one cast to 32 bits.
abbrev pub cont_event : Event → List ℕ → ℕ → Event
cont_event header regs i = record {
  addr = get_or regs (i * 3) 0;
  size = get_or regs (i * 3 + 1) 0 % 2 ^ 32;
  thread_id = header.thread_id;
  seq = header.seq;
  value = get_or regs (i * 3 + 2) 0;
  kind_flags = header.kind_flags;
  rip_lo = 0;
}

-- The loop over the continuations from `i` on.
pub record_conts : ℕ → ℕ → Event → List ℕ → EventRecorder → EventRecorder
unfolding record_event
record_conts zero i header regs r = r
record_conts (suc left) i header regs r =
    record_conts left (i + 1) header regs (record_event (cont_event header regs i) r)

pub record_reg_snapshot : Event → List ℕ → EventRecorder → EventRecorder
unfolding record_event record_conts
record_reg_snapshot header regs r = record_conts 6 0 header regs (record_event header r)

-- The file, with the count written over the header's, and the count.
pub finish : EventRecorder → List ℕ × ℕ
finish r = (splice 12 (le_bytes 8 r.count) r.writer, r.count)

pub data Error : Type 0 where
  unexpected_eof : Error
  bad_magic : ℕ → Error
  proto_mismatch : ℕ → Error

pub data Result {ℓ} (A : Type ℓ) : Type ℓ where
  ok : A → Result A
  err : Error → Result A

pub record EventPlayer : Type 0 where
  pub reader : List ℕ
  pub remaining : ℕ

-- `from_le_bytes`
abbrev pub from_le : List ℕ → ℕ
from_le [] = 0
from_le (b ∷ bs) = b + 256 * from_le bs

-- `from_le_bytes(buf[at..at + n])`
abbrev pub field : ℕ → ℕ → List ℕ → ℕ
field at n buf = from_le (take n (drop at buf))

pub open_player : List ℕ → Result EventPlayer
open_player file =
    let hdr = take header_bytes file in
    if ltb (length file) header_bytes
    then err unexpected_eof
    else if not (field 0 8 hdr == record_magic)
    then err (bad_magic (field 0 8 hdr))
    else if not (field 8 4 hdr == proto_version)
    then err (proto_mismatch (field 8 4 hdr))
    else ok (record { reader = drop header_bytes file; remaining = field 12 8 hdr })

pub event_count : EventPlayer → ℕ
event_count p = p.remaining

unfoldable pub event_of : List ℕ → Event
event_of buf = record {
  addr = field 0 8 buf;
  size = field 8 4 buf;
  thread_id = field 12 2 buf;
  seq = field 14 2 buf;
  value = field 16 8 buf;
  kind_flags = field 24 4 buf;
  rip_lo = field 28 4 buf;
}

-- A `read_exact` that meets the end of the file has read what was left of it.
pub next_event : EventPlayer → EventPlayer × Option Event
unfolding event_of
next_event p =
    if p.remaining == 0
    then (p, none)
    else if ltb (length p.reader) disk_event_size
    then (record p { reader = [] }, none)
    else (
      record { reader = drop disk_event_size p.reader; remaining = p.remaining - 1 },
      some (event_of (take disk_event_size p.reader)),
    )

-- The loop of at most `max` turns: the events that are appended to the buffer; the count that the
-- source returns is their number.
pub read_batch : ℕ → EventPlayer → EventPlayer × List Event
unfolding next_event
read_batch zero p = (p, [])
read_batch (suc max) p =
    let (p', o) = next_event p in
    let (last, out) = read_batch max p' in elim o [ none ↦ (p', []) | some ev ↦ (last, ev ∷ out) ]

-- The loop of a replay: the batches that it works through, until one is empty. `none` is a loop that
-- runs out of turns.
pub replay_loop : ℕ → ℕ → EventPlayer → Option (List (List Event))
unfolding read_batch
replay_loop max zero p = none
replay_loop max (suc turns) p =
    let (p', batch) = read_batch max p in
    if length batch == 0
    then some []
    else (replay_loop max turns p' >>= λ batches. some (batch ∷ batches))
