-- ===== src/Record/Recording.antt =====
-- The bytes of a recording of engine/src/record.rs, and what the player reads at its start and from
-- each event.
use rtmap.Base.{
  ℕ, zero, suc, ◌+◌, ◌-◌, ◌*◌, ◌^◌, ◌≤◌, ◌<◌, ◌≡◌, refl, sym, ap, ◌∙◌, List, [], ◌∷◌, ◌++◌, none,
  true, false, some, arith, length, take, length-append, length-take, ltb, ◌==◌,
}
use mathlib.Core.List.{append-nil, append_assoc}
use rtmap.Ring.{Event}
use rtmap.ShadowRegs.Pieces.{le_bytes, splice}
use rtmap.Record.{
  EventRecorder, create, record_event, event_bytes, finish, EventPlayer, ok, err, unexpected_eof,
  open_player, next_event, record_magic, proto_version,
}
use rtmap.Record.Bytes.{Fits, event_of-event_bytes, from_le-le_bytes, take_past}

-- The recording of a sequence of events.
unfoldable pub record_all : List Event → EventRecorder → EventRecorder
record_all [] r = r
record_all (e ∷ es) r = record_all es (record_event e r)

unfoldable pub recording : List Event → List ℕ
unfolding record_all
recording es = (finish (record_all es create)).0

unfoldable pub events_bytes : List Event → List ℕ
events_bytes [] = []
events_bytes (e ∷ es) = event_bytes e ++ events_bytes es

-- A player of the first `k` bytes of the events, whose header counts them all.
unfoldable pub player : ℕ → List Event → EventPlayer
player k es = record { reader = take k (events_bytes es); remaining = length es }

pub header : ℕ → List ℕ
header count =
    le_bytes 8 record_magic ++ (le_bytes 4 proto_version ++ (le_bytes 8 count ++ le_bytes 4 0))

record_all-writer :
    (es : List Event) (r : EventRecorder) → (record_all es r).writer ≡ r.writer ++ events_bytes es
unfolding record_all record_event events_bytes
record_all-writer [] r = sym (append-nil r.writer)
record_all-writer (e ∷ es) r =
    record_all-writer es (record_event e r)
    ∙ append_assoc r.writer (event_bytes e) (events_bytes es)

record_all-count :
    (es : List Event) (r : EventRecorder)
    → r.count + length es < 2 ^ 64
    → (record_all es r).count ≡ r.count + length es
unfolding record_all record_event
record_all-count [] r h = omega arith
record_all-count (e ∷ es) r h = omega (arith, record_all-count es (record_event e r) (omega arith))

recording-header :
    (es : List Event) → length es < 2 ^ 64 → recording es ≡ header (length es) ++ events_bytes es
unfolding recording finish create header
recording-header es h =
    let counted : (record_all es create).count ≡ length es =
      omega (arith, record_all-count es create (omega arith)) in
    λ i. splice 12 (le_bytes 8 (counted i)) (record_all-writer es create i)

pub take_all {ℓ} : {A : Type ℓ} (xs : List A) (n : ℕ) → length xs ≤ n → take n xs ≡ xs
take_all [] zero h = refl
take_all [] (suc n) h = refl
take_all (x ∷ xs) zero h = absurd (omega arith)
take_all (x ∷ xs) (suc n) h = ap (◌∷◌ x) (take_all xs n (omega arith))

length-events_bytes : (es : List Event) → length (events_bytes es) ≡ 32 * length es
unfolding events_bytes event_bytes
length-events_bytes [] = refl
length-events_bytes (e ∷ es) =
    let one : length (event_bytes e) ≡ 32 = refl in
    omega (arith, one, length-append (event_bytes e) (events_bytes es), length-events_bytes es)

pub length-recording :
    (es : List Event) → length es < 2 ^ 64 → length (recording es) ≡ 24 + 32 * length es
unfolding header
length-recording es h = omega (
  arith,
  ap length (recording-header es h),
  length-append (header (length es)) (events_bytes es),
  length-events_bytes es,
)

pub open_short :
    (es : List Event) (n : ℕ) → n < 24 → open_player (take n (recording es)) ≡ err unexpected_eof
unfolding open_player
open_short es n h =
    let short : ltb (length (take n (recording es))) 24 ≡ true =
      ground (arith, length-take n (recording es)) in
    rw short refl

pub open_prefix :
    (es : List Event) (n k : ℕ)
    → n ≡ 24 + k
    → length es < 2 ^ 64
    → open_player (take n (recording es)) ≡ ok (player k es)
unfolding open_player player header
open_prefix es n k split h =
    let cut : take n (recording es) ≡ header (length es) ++ take k (events_bytes es) =
      ap (take n) (recording-header es h)
      ∙ take_past (header (length es)) (events_bytes es) k n split in
    let long : ltb (length (header (length es) ++ take k (events_bytes es))) 24 ≡ false =
      ground arith in
    rw (cut, long)
      (ap (λ c. ok (record { reader = take k (events_bytes es); remaining = c }))
        (from_le-le_bytes 8 (length es) h))

pub next_event-none :
    (k : ℕ)
    → k < 32
    → (e : Event) (es : List Event)
    → next_event (player k (e ∷ es)) ≡ (record { reader = []; remaining = suc (length es) }, none)
unfolding next_event player
next_event-none k h e es = ground (arith, length-take k (events_bytes (e ∷ es)))

pub next_event-some :
    (k n : ℕ) (e : Event) (es : List Event)
    → n ≡ 32 + k
    → Fits e
    → next_event (player n (e ∷ es)) ≡ (player k es, some e)
unfolding next_event player events_bytes event_bytes
next_event-some k n e es split f =
    let cut : take n (event_bytes e ++ events_bytes es)
        ≡ event_bytes e ++ take k (events_bytes es) =
      take_past (event_bytes e) (events_bytes es) k n split in
    let long : ltb (length (event_bytes e ++ take k (events_bytes es))) 32 ≡ false = ground arith in
    let more : (suc (length es) == 0) ≡ false = ground arith in
    let less : suc (length es) - 1 ≡ length es = omega arith in
    rw (cut, more, long)
      (λ i. (
        record { reader = take k (events_bytes es); remaining = less i },
        some (event_of-event_bytes e f i),
      ))
