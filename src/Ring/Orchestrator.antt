-- ===== src/Ring/Orchestrator.antt =====
-- `RingOrchestrator` of engine/src/ring.rs: the table of threads and the draining of their rings.
-- What the traced process changes meanwhile (the table's states, heads and slots) is an argument as
-- it is when it is loaded; opening the shared memory of a ring is a parameter.
pub mod Drained
pub mod Polled
use rtmap.Base.{
  ℕ, zero, suc, ◌+◌, ◌%◌, min, Bool, true, false, not, ◌&&◌, ◌||◌, List, [], ◌∷◌, ◌++◌, map, Option,
  none, some, ◌==◌, ltb, drop, if◌then◌else◌, length, get_elem?, set, any, retain, add64, max,
  ◌>>=◌,
}
use rtmap.Ring.{Event, RingHeader, ThreadRing, from_shm, consume_batch, is_terminal}

abbrev pub thread_state_empty : ℕ
thread_state_empty = 0

abbrev pub thread_state_active : ℕ
thread_state_active = 1

abbrev pub thread_state_dead : ℕ
thread_state_dead = 2

abbrev pub thread_state_initializing : ℕ
thread_state_initializing = 3

pub record ThreadEntry : Type 0 where
  pub state : ℕ
  pub thread_id : ℕ
  pub shm_name : List ℕ

pub record RingOrchestrator : Type 0 where
  pub rings : List ThreadRing
  pub known_count : ℕ
  pub rr_idx : ℕ

pub new : RingOrchestrator
new = record { rings = []; known_count = 0; rr_idx = 0 }

-- The name up to its first zero byte.
abbrev pub name_bytes : List ℕ → List ℕ
name_bytes [] = []
name_bytes (b ∷ bs) = if b == 0 then [] else b ∷ name_bytes bs

-- The first ring that the test finds is no longer alive.
abbrev pub kill_first : (ThreadRing → Bool) → List ThreadRing → List ThreadRing
kill_first p [] = []
kill_first p (r ∷ rings) =
    if p r then record r { alive = false } ∷ rings else r ∷ kill_first p rings

abbrev pub is_ring_of : ℕ → ThreadRing → Bool
is_ring_of tid r = r.thread_id == tid

abbrev pub is_live_ring_of : ℕ → ThreadRing → Bool
is_live_ring_of tid r = (r.thread_id == tid) && r.alive

module _ (open_shm : List ℕ → Option (ℕ × RingHeader)) where
  -- Opening, mapping and attaching a ring, where its name is not empty.
  unfoldable pub open_ring : ThreadEntry → Option ThreadRing
  open_ring entry = elim (name_bytes entry.shm_name) [
    | [] ↦ none
    | b ∷ bs ↦ open_shm (b ∷ bs) >>= λ shm. from_shm shm.0 shm.1 entry.thread_id
  ]

  abbrev pub push_ring : ThreadEntry → List ThreadRing → List ThreadRing
  push_ring entry rings = elim (open_ring entry) [ none ↦ rings | some r ↦ rings ++ r ∷ [] ]

  -- A new entry of the table. An entry without a name is passed over before its state counts.
  pub discover : ThreadEntry → List ThreadRing → List ThreadRing
  unfolding open_ring
  discover entry rings =
      if (entry.state == thread_state_empty) || (length (name_bytes entry.shm_name) == 0)
      then rings
      else if entry.state == thread_state_dead
      then kill_first (is_ring_of entry.thread_id) (push_ring entry rings)
      else push_ring entry rings

  -- The first loop: the new entries in order, up to one that is being initialised.
  pub poll_new : List ThreadEntry → ℕ → List ThreadRing → ℕ × List ThreadRing
  unfolding discover
  poll_new [] known rings = (known, rings)
  poll_new (entry ∷ entries) known rings =
      let (known', rings') = poll_new entries (known + 1) (discover entry rings) in
      if entry.state == thread_state_initializing then (known, rings) else (known', rings')

  -- An entry of the table, with the state that is loaded again.
  pub refresh : ThreadEntry → List ThreadRing → List ThreadRing
  unfolding open_ring
  refresh entry rings =
      if entry.state == thread_state_dead
      then kill_first (is_live_ring_of entry.thread_id) rings
      else if entry.state == thread_state_active
      then (if any (is_live_ring_of entry.thread_id) rings then rings else push_ring entry rings)
      else rings

  pub refresh_all : List ThreadEntry → List ThreadRing → List ThreadRing
  unfolding refresh
  refresh_all [] rings = rings
  refresh_all (entry ∷ entries) rings = refresh_all entries (refresh entry rings)

  -- `first` and `second` are the entries below the thread count as the two loops load them. (A count
  -- above the table's size panics.)
  pub poll_new_rings : List ThreadEntry → List ThreadEntry → RingOrchestrator → RingOrchestrator
  unfolding poll_new refresh_all
  poll_new_rings first second o =
      let (known, rings) = poll_new (drop o.known_count first) o.known_count o.rings in
      record o { known_count = known; rings = refresh_all second rings }

pub ring_count : RingOrchestrator → ℕ
ring_count o = length o.rings

pub active_count : RingOrchestrator → ℕ
active_count o = length (retain (λ r. r.alive) o.rings)

sum_lapped : List ThreadRing → ℕ
sum_lapped [] = 0
sum_lapped (r ∷ rings) = add64 r.lapped_events (sum_lapped rings)

pub total_lapped : RingOrchestrator → ℕ
unfolding sum_lapped
total_lapped o = sum_lapped o.rings

-- What a drain loads from a ring: the head before and after the copy and at the end, and the slots.
pub record RingLoads : Type 0 where
  pub slots : ℕ → Event
  pub head_before : ℕ
  pub head_after : ℕ
  pub head_last : ℕ

-- A terminal ring that is drained is retired.
abbrev pub retire : ℕ → ThreadRing → ThreadRing
retire head r =
    if r.alive && is_terminal r && (head == r.header.tail) then record r { alive = false } else r

unfoldable pub drain_ring : RingLoads → ℕ → ThreadRing → ThreadRing × List Event
unfolding consume_batch is_terminal
drain_ring loads limit r =
    let (r', out) = consume_batch loads.slots loads.head_before loads.head_after limit r in
    (retire loads.head_last r', out)

abbrev pub batch_size : ℕ
batch_size = 4096

-- The loop over the offsets from `offset` on: the rings, and the events with their ring's number.
pub drain_from :
    (ℕ → RingLoads) → ℕ → ℕ → ℕ → ℕ → ℕ → List ThreadRing → List ThreadRing × List (ℕ × Event)
unfolding drain_ring
drain_from loads limit n rr zero offset rings = (rings, [])
drain_from loads limit n rr (suc left) offset rings =
    let i = (rr + offset) % n in
    elim (get_elem? rings i) [
      | none ↦ (rings, [])
      | some r ↦
          let (r', out) = drain_ring (loads i) limit r in
          let (rings', events) = drain_from loads limit n rr left (offset + 1) (set rings i r') in
          (rings', map (λ e. (i, e)) out ++ events)
    ]

-- The events that are appended to the buffer; the count that the source returns is their number.
pub batch_drain : (ℕ → RingLoads) → ℕ → RingOrchestrator → RingOrchestrator × List (ℕ × Event)
unfolding drain_from
batch_drain loads per_ring o =
    let n = length o.rings in
    let (rings, events) = drain_from loads (min per_ring batch_size) n o.rr_idx n 0 o.rings in
    if n == 0
    then (o, [])
    else (record o { rings = rings; rr_idx = (o.rr_idx + 1) % max n 1 }, events)
