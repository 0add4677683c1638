-- ===== src/Ring/Orchestrator/Polled.antt =====
-- `poll_new_rings` of engine/src/ring.rs: which threads have a ring afterwards.
use rtmap.Base.{
  ℕ, ◌≡◌, refl, sym, ◌∙◌, true, false, ◌&&◌, List, [], ◌∷◌, ◌++◌, Option, none, some, ◌==◌, arith,
  any, All, ◌>>=◌, if_cases, Option_rule,
}
use rtmap.Ring.{ThreadRing, RingHeader, from_shm}
use rtmap.Ring.Orchestrator.{
  ThreadEntry, RingOrchestrator, thread_state_active, thread_state_dead, is_live_ring_of,
  kill_first, push_ring, open_ring, refresh, refresh_all, poll_new_rings, name_bytes,
}

abbrev pub HasLive : ℕ → List ThreadRing → Type 0
HasLive tid rings = any (is_live_ring_of tid) rings ≡ true

-- The entry does not say that a thread `tid` is dead.
abbrev pub Spares : ℕ → ThreadEntry → Type 0
Spares tid e = ((e.thread_id == tid) && (e.state == thread_state_dead)) ≡ false

kill_first-HasLive :
    (tid other : ℕ) (rings : List ThreadRing)
    → (other == tid) ≡ false
    → HasLive tid rings
    → HasLive tid (kill_first (is_live_ring_of other) rings)
kill_first-HasLive tid other [] h l = l
kill_first-HasLive tid other (r ∷ rings) h l = ground (arith, kill_first-HasLive tid other rings h)

push-HasLive :
    (tid : ℕ) (r : ThreadRing) (rings : List ThreadRing)
    → HasLive tid rings
    → HasLive tid (rings ++ r ∷ [])
push-HasLive tid r [] l = cc
push-HasLive tid r (q ∷ rings) l = ground (arith, push-HasLive tid r rings)

pushed :
    (tid : ℕ) (r : ThreadRing) (rings : List ThreadRing)
    → is_live_ring_of tid r ≡ true
    → HasLive tid (rings ++ r ∷ [])
pushed tid r [] l = rw l refl
pushed tid r (q ∷ rings) l = ground (arith, pushed tid r rings l)

from_shm_live :
    (shm_len tid : ℕ) (hdr : RingHeader) (r : ThreadRing)
    → from_shm shm_len hdr tid ≡ some r
    → is_live_ring_of tid r ≡ true
unfolding from_shm
from_shm_live shm_len tid hdr r h = ground arith

module _ (open_shm : List ℕ → Option (ℕ × RingHeader)) where
  open_ring_live :
      (e : ThreadEntry) (r : ThreadRing)
      → open_ring open_shm e ≡ some r
      → is_live_ring_of e.thread_id r ≡ true
  unfolding open_ring
  open_ring_live e r h = by_name (name_bytes e.shm_name) h
    where
      by_shm :
          (o : Option (ℕ × RingHeader))
          → (o >>= λ shm. from_shm shm.0 shm.1 e.thread_id) ≡ some r
          → is_live_ring_of e.thread_id r ≡ true
      by_shm none h = cc
      by_shm (some shm) h = from_shm_live shm.0 e.thread_id shm.1 r h

      by_name :
          (n : List ℕ)
          → elim n [
            | [] ↦ none
            | b ∷ bs ↦ open_shm (b ∷ bs) >>= λ shm. from_shm shm.0 shm.1 e.thread_id
          ]
            ≡ some r
          → is_live_ring_of e.thread_id r ≡ true
      by_name [] h = cc
      by_name (b ∷ bs) h = by_shm (open_shm (b ∷ bs)) h

  push_ring-HasLive :
      (tid : ℕ) (e : ThreadEntry) (rings : List ThreadRing)
      → HasLive tid rings
      → HasLive tid (push_ring open_shm e rings)
  push_ring-HasLive tid e rings l =
      Option_rule (HasLive tid) (open_ring open_shm e) (λ _. l) (λ r _. push-HasLive tid r rings l)

  refresh-HasLive :
      (tid : ℕ) (e : ThreadEntry) (rings : List ThreadRing)
      → Spares tid e
      → HasLive tid rings
      → HasLive tid (refresh open_shm e rings)
  unfolding refresh
  refresh-HasLive tid e rings spares l =
      if_cases (HasLive tid) (e.state == thread_state_dead)
        (λ dead. kill_first-HasLive tid e.thread_id rings (ground arith) l)
        (λ _.
          if_cases (HasLive tid) (e.state == thread_state_active)
            (λ _.
              if_cases (HasLive tid) (any (is_live_ring_of e.thread_id) rings) (λ _. l)
                (λ _. push_ring-HasLive tid e rings l))
            (λ _. l))

  refresh_active :
      (e : ThreadEntry) (r : ThreadRing) (rings : List ThreadRing)
      → e.state ≡ thread_state_active
      → open_ring open_shm e ≡ some r
      → HasLive e.thread_id (refresh open_shm e rings)
  unfolding refresh
  refresh_active e r rings active opens =
      let alive : (e.state == thread_state_dead) ≡ false = ground arith in
      let now : (e.state == thread_state_active) ≡ true = ground arith in
      rw (alive, now)
        (if_cases (HasLive e.thread_id) (any (is_live_ring_of e.thread_id) rings) (λ known. known)
          (λ _.
            Option_rule (HasLive e.thread_id) (open_ring open_shm e)
              (λ miss. absurd (no_ring (sym miss ∙ opens)))
              (λ q found. pushed e.thread_id q rings (open_ring_live e q found))))
    where
      no_ring : {q : ThreadRing} → none ≡ some q → ⊥
      no_ring h = cc

  refresh_all-HasLive :
      (tid : ℕ) (entries : List ThreadEntry) (rings : List ThreadRing)
      → All (Spares tid) entries
      → HasLive tid rings
      → HasLive tid (refresh_all open_shm entries rings)
  unfolding refresh_all
  refresh_all-HasLive tid [] rings spares l = l
  refresh_all-HasLive tid (e ∷ entries) rings spares l =
      refresh_all-HasLive tid entries (refresh open_shm e rings) spares.1
        (refresh-HasLive tid e rings spares.0 l)

  refresh_all_active :
      (before after : List ThreadEntry) (e : ThreadEntry) (r : ThreadRing) (rings : List ThreadRing)
      → e.state ≡ thread_state_active
      → open_ring open_shm e ≡ some r
      → All (Spares e.thread_id) after
      → HasLive e.thread_id (refresh_all open_shm (before ++ e ∷ after) rings)
  unfolding refresh_all
  refresh_all_active [] after e r rings active opens spares =
      refresh_all-HasLive e.thread_id after (refresh open_shm e rings) spares
        (refresh_active e r rings active opens)
  refresh_all_active (b ∷ before) after e r rings active opens spares =
      refresh_all_active before after e r (refresh open_shm b rings) active opens spares

  -- After a poll, every thread that the table's second reading has as active, and whose ring opens
  -- and is valid, has a live ring, unless a later entry says that the thread is dead.
  pub poll_new_rings-HasLive :
      (first before after : List ThreadEntry) (e : ThreadEntry) (r : ThreadRing)
      (o : RingOrchestrator)
      → e.state ≡ thread_state_active
      → open_ring open_shm e ≡ some r
      → All (Spares e.thread_id) after
      → HasLive e.thread_id (poll_new_rings open_shm first (before ++ e ∷ after) o).rings
  unfolding poll_new_rings
  poll_new_rings-HasLive first before after e r o active opens spares =
      refresh_all_active before after e r _ active opens spares
