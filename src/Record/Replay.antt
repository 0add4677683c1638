-- ===== src/Record/Replay.antt =====
-- What engine/src/record.rs reads back from a file that it has written, whole or cut off.
use rtmap.Base.{
  ℕ, zero, suc, ◌+◌, ◌-◌, ◌*◌, ◌/◌, ◌^◌, ◌≤◌, ◌<◌, ◌≡◌, refl, sym, ap, ◌∙◌, ◌⊎◌, List, [], ◌∷◌,
  ◌++◌, Option, none, true, false, some, arith, length, take, drop, length-take, length-drop,
  take-append-drop, All, Bool-cases, inl, inr, ltb, ◌==◌,
}
use mathlib.Core.Path.{subst}
use rtmap.Ring.{Event}
use rtmap.Record.{
  create, finish, EventPlayer, ok, err, unexpected_eof, open_player, next_event, read_batch,
  replay_loop, event_of, disk_event_size, event_count,
}
use rtmap.Record.Bytes.{Fits}
use rtmap.Record.Recording.{
  record_all, recording, player, take_all, length-recording, open_short, open_prefix,
  next_event-none, next_event-some,
}

-- The player yields these events one by one and then none.
data Plays : EventPlayer → List Event → Type 0 where
  stop : {p p' : EventPlayer} → next_event p ≡ (p', none) → Plays p []
  more :
      {p p' : EventPlayer} {e : Event} {es : List Event}
      → next_event p ≡ (p', some e)
      → Plays p' es
      → Plays p (e ∷ es)

next_event_again : (p p' : EventPlayer) → next_event p ≡ (p', none) → next_event p' ≡ (p', none)
unfolding next_event
next_event_again p p' h = elim (Bool-cases (p.remaining == 0)) [
  | inl over ↦
      let here : next_event p ≡ (p, none) = rw over refl in
      stays p here (ap (λ x. x.0) (sym here ∙ h))
  | inr left ↦ elim (Bool-cases (ltb (length p.reader) disk_event_size)) [
    | inl short ↦
        let here : next_event p ≡ (record p { reader = [] }, none) = rw (left, short) refl in
        stays (record p { reader = [] }) (rw left refl) (ap (λ x. x.0) (sym here ∙ h))
    | inr long ↦
        let here : (next_event p).1 ≡ some (event_of (take disk_event_size p.reader)) =
          rw (left, long) refl in
        absurd (no_some (sym here ∙ ap (λ x. x.1) h))
  ]
]
  where
    stays : (q : EventPlayer) → next_event q ≡ (q, none) → q ≡ p' → next_event p' ≡ (p', none)
    stays q here same = subst (λ (x : EventPlayer). next_event x ≡ (x, none)) same here

    no_some : {A : Type 0} {a : A} → some a ≡ none → ⊥
    no_some h = cc

take_nil : (n : ℕ) → take {A = Event} n [] ≡ []
take_nil zero = refl
take_nil (suc n) = refl

no_more : (k : ℕ) → next_event (player k []) ≡ (player k [], none)
unfolding next_event player
no_more k = refl

player-Plays : (k : ℕ) (es : List Event) → All Fits es → Plays (player k es) (take (k / 32) es)
player-Plays k [] f = rw (take_nil (k / 32)) (stop (no_more k))
player-Plays k (e ∷ es) f = elim (Bool-cases (ltb k 32)) [
  | inl short ↦
      let none_whole : k / 32 ≡ 0 = ground arith in
      rw none_whole (stop (next_event-none k (ground arith) e es))
  | inr long ↦
      let split : k ≡ 32 + (k - 32) = ground arith in
      let next : k / 32 ≡ suc ((k - 32) / 32) = ground arith in
      rw next (more (next_event-some (k - 32) k e es split f.0) (player-Plays (k - 32) es f.1))
]

read_batch-none :
    (max : ℕ) (p p' : EventPlayer) → next_event p ≡ (p', none) → read_batch (suc max) p ≡ (p', [])
unfolding read_batch
read_batch-none max p p' h =
    ap
      (λ (x : EventPlayer × Option Event). elim x.1 [
        | none ↦ (x.0, [])
        | some ev ↦ ((read_batch max x.0).0, ev ∷ (read_batch max x.0).1)
      ])
      h

read_batch-some :
    (max : ℕ) (p p' : EventPlayer) (e : Event)
    → next_event p ≡ (p', some e)
    → read_batch (suc max) p ≡ ((read_batch max p').0, e ∷ (read_batch max p').1)
unfolding read_batch
read_batch-some max p p' e h =
    ap
      (λ (x : EventPlayer × Option Event). elim x.1 [
        | none ↦ (x.0, [])
        | some ev ↦ ((read_batch max x.0).0, ev ∷ (read_batch max x.0).1)
      ])
      h

-- A batch and the player that it leaves.
Batched : ℕ → List Event → EventPlayer × List Event → Type 0
Batched max es (p, out) = (out ≡ take max es) × Plays p (drop max es)

read_batch-Plays :
    (max : ℕ) (p : EventPlayer) (es : List Event) → Plays p es → Batched max es (read_batch max p)
unfolding read_batch Batched
read_batch-Plays zero p es h = (refl, h)
read_batch-Plays (suc max) p [] (stop {p' = p'} h) =
    subst (Batched (suc max) []) (sym (read_batch-none max p p' h))
      (refl, stop (next_event_again p p' h))
read_batch-Plays (suc max) p (e ∷ es) (more {p' = p'} h later) =
    let rest = read_batch-Plays max p' es later in
    subst (Batched (suc max) (e ∷ es)) (sym (read_batch-some max p p' e h))
      (ap (◌∷◌ e) rest.0, rest.1)

abbrev pub concat : List (List Event) → List Event
concat [] = []
concat (xs ∷ xss) = xs ++ concat xss

replay_loop-Plays :
    (max fuel : ℕ) (p : EventPlayer) (es : List Event)
    → 0 < max
    → length es < fuel
    → Plays p es
    → (batches : List (List Event)) × (replay_loop max fuel p ≡ some batches)
      × (concat batches ≡ es)
unfolding replay_loop Batched
replay_loop-Plays max zero p es some_room enough h = elim enough [ ]
replay_loop-Plays max (suc fuel) p [] some_room enough h =
    let (out, last) = read_batch-Plays max p [] h in
    let empty : (length (read_batch max p).1 == 0) ≡ true = rw (out, take_nil max) refl in
    ([], rw empty refl, refl)
replay_loop-Plays zero (suc fuel) p (e ∷ es) some_room enough h = absurd (omega arith)
replay_loop-Plays (suc max) (suc fuel) p (e ∷ es) some_room enough h =
    let (out, last) = read_batch-Plays (suc max) p (e ∷ es) h in
    let busy : (length (read_batch (suc max) p).1 == 0) ≡ false = rw out (ground arith) in
    let (batches, turn, all) =
      replay_loop-Plays (suc max) fuel (read_batch (suc max) p).0 (drop max es) some_room
        (omega (arith, length-drop max es)) last in
    (
      (read_batch (suc max) p).1 ∷ batches,
      rw (busy, turn) refl,
      ap (λ b. b ++ concat batches) out
          ∙ ap (λ b. e ∷ (take max es ++ b)) all
          ∙ ap (◌∷◌ e) (take-append-drop max es),
    )

-- A cut of a recording to `n` bytes is refused as too short, or is played in batches up to the last
-- event that is in it as a whole.
unfoldable pub Cut : List Event → ℕ → ℕ → ℕ → Type 0
Cut es n max turns =
    (n < 24) × (open_player (take n (recording es)) ≡ err unexpected_eof)
    ⊎ ((24 ≤ n)
        × ((p : EventPlayer) × (batches : List (List Event)) × (open_player (take n (recording es))
              ≡ ok p)
            × (replay_loop max turns p ≡ some batches)
            × (concat batches ≡ take ((n - 24) / 32) es)))

-- A recording that is cut off after `n` bytes, be it the whole of it, is refused with the error of a
-- short read where the header is not complete. Otherwise it opens, and the loop of a replay, with
-- batches of any size but 0, ends and hands on every event that is in the cut as a whole, in order
-- and as it was recorded.
pub recording-Cut :
    (es : List Event) (n max turns : ℕ)
    → All Fits es
    → length es < 2 ^ 64
    → 0 < max
    → length es < turns
    → Cut es n max turns
unfolding Cut
recording-Cut es n max turns fit small some_room enough = elim (Bool-cases (ltb n 24)) [
  | inl short ↦ let low : n < 24 = ground arith in inl (low, open_short es n low)
  | inr long ↦
      let (batches, played, all) =
        replay_loop-Plays max turns (player (n - 24) es) (take ((n - 24) / 32) es) some_room
          (omega (arith, length-take ((n - 24) / 32) es)) (player-Plays (n - 24) es fit) in
      let high : 24 ≤ n = ground arith in
      inr (
        high,
        (player (n - 24) es, batches, open_prefix es n (n - 24) (omega arith) small, played, all),
      )
]

-- A finished recording of fewer than 2^64 events opens with the number of its events, and the loop
-- of a replay, with batches of any size but 0, ends and hands on exactly the recorded events.
pub replay_loop-finish :
    (es : List Event) (max turns : ℕ)
    → All Fits es
    → length es < 2 ^ 64
    → 0 < max
    → length es < turns
    → (p : EventPlayer) × (batches : List (List Event)) × (open_player
          (finish (record_all es create)).0
        ≡ ok p)
      × (event_count p ≡ length es)
      × (replay_loop max turns p ≡ some batches)
      × (concat batches ≡ es)
unfolding recording event_count player
replay_loop-finish es max turns fit small some_room enough =
    let k = 32 * length es in
    let whole : take (24 + k) (recording es) ≡ recording es =
      take_all (recording es) (24 + k) (omega (arith, length-recording es small)) in
    let all_events : take (k / 32) es ≡ es = take_all es (k / 32) (omega arith) in
    let (batches, played, all) =
      replay_loop-Plays max turns (player k es) (take (k / 32) es) some_room
        (omega (arith, length-take (k / 32) es)) (player-Plays k es fit) in
    (
      player k es,
      batches,
      ap open_player (sym whole) ∙ open_prefix es (24 + k) k refl small,
      refl,
      played,
      all ∙ all_events,
    )
