-- ===== src/Circular.antt =====
-- The circular vectors of engine/src/world.rs: a vector that grows to its capacity and is then
-- overwritten at a write position, read from its oldest element on.
mod Rotate
pub use Rotate.{keep_last}
use Rotate.{rotate, drop_one, length-rotate, rotate-set_mod, get_elem?-rotate}
use rtmap.Base.{
  ℕ, zero, suc, ◌+◌, ◌-◌, ◌%◌, ◌≤◌, ◌<◌, ◌≡◌, refl, sym, ap, ◌∙◌, List, [], ◌∷◌, ◌++◌, Option, some,
  arith, ltb, leb, if◌then◌else◌, length, get_elem?, set, set?, min, take, drop, length-append,
  length-set, length-take, length-drop, set?-eq-set,
}
use mathlib.Core.List.{append-nil, append_assoc}
use Prim.Native.Nat.add
use native.Mathlib.Decide.{dec_lt}
use native.Mathlib.Numerals.{add-one}
use native.Mathlib.Nat.{mod-eq_of_lt, mod-eq-sub-mod, mod-lt}

-- The write position after a push that leaves the vector short, or that fills it.
next_short : (cap pos n : ℕ) → pos ≡ n → n + 1 < cap → (pos + 1) % cap ≡ n + 1
next_short cap pos n e lt = omega (arith, mod-eq_of_lt {n = pos + 1} {m = cap} (omega arith))

module _ {ℓ} {A : Type ℓ} where
  -- `if buf.len() < cap { buf.push(e) } else { buf[pos] = e }`; `none` is the panic.
  unfoldable pub push_slot : List A → ℕ → ℕ → A → Option (List A)
  push_slot buf cap pos e = if ltb (length buf) cap then some (buf ++ e ∷ []) else set? buf pos e

  -- Oldest to newest: a vector that is not full has not wrapped.
  abbrev pub view : ℕ → ℕ → List A → List A
  view cap pos buf = if ltb (length buf) cap then buf else rotate pos buf

  view-short : (cap pos : ℕ) (buf : List A) → length buf < cap → view cap pos buf ≡ buf
  view-short cap pos buf lt = ground arith

  view-full : (cap pos : ℕ) (buf : List A) → cap ≤ length buf → view cap pos buf ≡ rotate pos buf
  view-full cap pos buf le = ground arith

  pub length-view : (cap pos : ℕ) (buf : List A) → length (view cap pos buf) ≡ length buf
  length-view cap pos buf = ground (arith, length-rotate pos buf)

  keep_last-short :
      (cap : ℕ) (xs : List A) (e : A) → length xs < cap → keep_last cap xs e ≡ xs ++ e ∷ []
  keep_last-short cap xs e lt =
      let none_over : length xs + 1 - cap ≡ 0 = omega arith in rw none_over

  -- A queue that evicts its front element when it is full keeps the same bounded history.
  pub evict-keep_last :
      (cap : ℕ) (xs : List A) (e : A)
      → 0 < cap
      → length xs ≤ cap
      → (if leb cap (length xs) then drop 1 xs else xs) ++ e ∷ [] ≡ keep_last cap xs e
  evict-keep_last cap xs e room le = elim (dec_lt (length xs) cap) [
    | yes lt ↦ ground (arith, keep_last-short cap xs e lt)
    | no ge ↦
        let over : length xs + 1 - cap ≡ 1 = omega arith in
        rw over (ground (arith, drop_one xs (e ∷ []) 0))
  ]

  pub length-keep_last : (cap : ℕ) (xs : List A) (e : A) → length (keep_last cap xs e) ≤ cap
  length-keep_last cap xs e =
      omega (arith, length-drop (length xs + 1 - cap) (xs ++ e ∷ []), length-append xs (e ∷ []))

  -- The state of a circular vector that pushes alone can reach.
  pub record IsCircular (cap pos : ℕ) (buf : List A) : Type 0 where
    pub room : 0 < cap
    pub bounded : length buf ≤ cap
    pub pos_in : pos < cap
    pub filling : length buf < cap → pos ≡ length buf

  push_slot-grows :
      (cap pos : ℕ) (buf : List A) (e : A)
      → IsCircular cap pos buf
      → length buf < cap
      → (push_slot buf cap pos e ≡ some (buf ++ e ∷ []))
        × IsCircular cap ((pos + 1) % cap) (buf ++ e ∷ [])
        × (view cap ((pos + 1) % cap) (buf ++ e ∷ []) ≡ buf ++ e ∷ [])
  unfolding push_slot
  push_slot-grows cap pos buf e v lt = (
    ground arith,
    record {
      room = v.room;
      bounded = omega (arith, length-append buf (e ∷ []));
      pos_in = mod-lt (pos + 1) v.room;
      filling = λ short.
          let n : length (buf ++ e ∷ []) ≡ length buf + 1 = length-append buf (e ∷ []) in
          next_short cap pos (length buf) (v.filling lt) (omega arith) ∙ sym n;
    },
    elim (dec_lt (length buf + 1) cap) [
      | yes short ↦ view-short cap _ _ (omega (arith, length-append buf (e ∷ [])))
      | no filled ↦
          view-full cap _ _ (omega (arith, length-append buf (e ∷ [])))
          ∙ ap (λ n. rotate n (buf ++ e ∷ [])) (wraps (omega arith))
          ∙ append-nil _
    ],
  )
    where
      wraps : length buf + 1 ≡ cap → (pos + 1) % cap ≡ 0
      wraps q = omega (
        arith,
        v.filling lt,
        mod-eq-sub-mod {n = pos + 1} {m = cap} (omega (arith, v.filling lt)),
        mod-eq_of_lt {n = 0} {m = cap} v.room,
      )

  push_slot-full :
      (cap pos : ℕ) (buf : List A) (e : A)
      → IsCircular cap pos buf
      → length buf ≡ cap
      → (push_slot buf cap pos e ≡ some (set buf pos e))
        × IsCircular cap ((pos + 1) % cap) (set buf pos e)
        × (view cap ((pos + 1) % cap) (set buf pos e) ≡ keep_last cap (rotate pos buf) e)
  unfolding push_slot
  push_slot-full cap pos buf e v full = (
    ground (arith, set?-eq-set buf pos e (omega arith)),
    record {
      room = v.room;
      bounded = omega (arith, length-set buf pos e);
      pos_in = mod-lt (pos + 1) v.room;
      filling = λ short. absurd (omega (arith, length-set buf pos e));
    },
    view-full cap _ _ (omega (arith, length-set buf pos e))
        ∙ rotate-set_mod buf pos cap e v.pos_in full,
  )

  -- A push does not panic, and the view is then the bounded history with the new element.
  pub push_slot-view :
      (cap pos : ℕ) (buf : List A) (e : A)
      → IsCircular cap pos buf
      → (buf' : List A) × (push_slot buf cap pos e ≡ some buf')
        × (length buf' ≡ min (length buf + 1) cap)
        × IsCircular cap ((pos + 1) % cap) buf'
        × (view cap ((pos + 1) % cap) buf' ≡ keep_last cap (view cap pos buf) e)
  push_slot-view cap pos buf e v = elim (dec_lt (length buf) cap) [
    | yes lt ↦
        let g = push_slot-grows cap pos buf e v lt in
        (
          buf ++ e ∷ [],
          g.0,
          omega (arith, length-append buf (e ∷ [])),
          g.1,
          g.2
              ∙ sym (
                  ap (λ xs. keep_last cap xs e) (view-short cap pos buf lt)
                  ∙ keep_last-short cap buf e lt),
        )
    | no ge ↦
        let g = push_slot-full cap pos buf e v (omega arith) in
        (
          set buf pos e,
          g.0,
          omega (arith, length-set buf pos e),
          g.1,
          g.2 ∙ sym (ap (λ xs. keep_last cap xs e) (view-full cap pos buf (omega arith))),
        )
  ]

  -- Element `i` of the view, where the code looks it up.
  pub get_elem?-view :
      (cap pos i : ℕ) (buf : List A)
      → IsCircular cap pos buf
      → i < length buf
      → get_elem? buf (((if ltb (length buf) cap then 0 else pos) + i) % cap)
        ≡ get_elem? (view cap pos buf) i
  get_elem?-view cap pos i buf v h = elim (dec_lt (length buf) cap) [
    | yes lt ↦ ground (arith, mod-eq_of_lt {n = 0 + i} {m = cap} (omega arith))
    | no ge ↦ ground (arith, get_elem?-rotate pos buf i cap (omega arith) v.pos_in)
  ]
