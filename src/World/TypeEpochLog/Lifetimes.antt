-- ===== src/World/TypeEpochLog/Lifetimes.antt =====
-- Closing and querying lifetimes in the epoch log of engine/src/world.rs.
use rtmap.Base.{
  ℕ, zero, suc, ◌+◌, ◌-◌, ◌%◌, ◌≤◌, ◌<◌, ◌≡◌, refl, ap, ◌∙◌, Bool, true, List, [], ◌∷◌, ◌++◌, none,
  some, arith, add64, length, drop, find, min,
}
use rtmap.Circular.{IsCircular, keep_last, push_slot-view}
use rtmap.World.ShadowTypeMap.{TypeProjection}
use rtmap.World.TypeEpochLog.{
  EpochClose, TypeEpoch, TypeEpochLog, epoch, close_epoch, iter, query, lived_at,
}

-- The log's representation invariant.
pub record IsValid (l : TypeEpochLog) : Type 0 where
  pub circular : IsCircular l.cap l.head l.buf
  pub stored : l.len ≡ length l.buf

-- Closing an epoch in a valid log does not panic and keeps the log valid; iteration then yields
-- the last `cap` closed epochs in the order of closing, the new one last.
pub close_epoch-iter :
    (addr size : ℕ) (proj : TypeProjection) (close_seq : ℕ) (reason : EpochClose) (l : TypeEpochLog)
    → IsValid l
    → (l' : TypeEpochLog) × (close_epoch addr size proj close_seq reason l ≡ some l')
      × IsValid l'
      × (l'.cap ≡ l.cap)
      × (l'.total_closed ≡ add64 l.total_closed 1)
      × (iter l' ≡ keep_last l.cap (iter l) (epoch addr size proj close_seq reason))
unfolding close_epoch iter
close_epoch-iter addr size proj close_seq reason l v =
    let (buf', done, grown, circular, seen) =
      push_slot-view l.cap l.head l.buf (epoch addr size proj close_seq reason) v.circular in
    (
      record l {
        buf = buf';
        head = (l.head + 1) % l.cap;
        len = min (l.len + 1) l.cap;
        total_closed = add64 l.total_closed 1;
      },
      rw done refl,
      record { circular = circular; stored = omega (arith, v.stored, grown) },
      refl,
      refl,
      seen,
    )

find-append_last :
    (p : TypeEpoch → Bool) (xs : List TypeEpoch) (e : TypeEpoch)
    → find p xs ≡ none
    → p e ≡ true
    → find p (xs ++ e ∷ []) ≡ some e
find-append_last p [] e h t = rw t
find-append_last p (x ∷ xs) e h t = ground (arith, find-append_last p xs e)

find-drop :
    (p : TypeEpoch → Bool) (n : ℕ) (xs : List TypeEpoch)
    → find p xs ≡ none
    → find p (drop n xs) ≡ none
find-drop p zero xs h = h
find-drop p (suc n) [] h = refl
find-drop p (suc n) (x ∷ xs) h = find-drop p n xs (ground arith)

drop-append : (n : ℕ) (xs ys : List TypeEpoch) → n ≤ length xs → drop n (xs ++ ys) ≡ drop n xs ++ ys
drop-append zero xs ys h = refl
drop-append (suc n) [] ys h = elim h [ ]
drop-append (suc n) (x ∷ xs) ys h = drop-append n xs ys (omega arith)

-- Time travel to a closed lifetime: if a valid log knows no epoch of an address at a moment, then
-- after an epoch of that address is closed whose half-open interval from its stamp to its closing
-- contains the moment, the query answers exactly that epoch, whatever the log had to forget.
pub query-close_epoch :
    (addr size : ℕ) (proj : TypeProjection) (close_seq : ℕ) (reason : EpochClose) (l : TypeEpochLog)
    (seq : ℕ)
    → IsValid l
    → query addr seq l ≡ none
    → proj.stamp_seq ≤ seq
    → seq < close_seq
    → (l' : TypeEpochLog) × (close_epoch addr size proj close_seq reason l ≡ some l')
      × (query addr seq l' ≡ some (epoch addr size proj close_seq reason))
unfolding query
query-close_epoch addr size proj close_seq reason l seq v unknown opened before =
    let (l', done, valid, same, total, seen) =
      close_epoch-iter addr size proj close_seq reason l v in
    let n = length (iter l) + 1 - l.cap in
    let closing = epoch addr size proj close_seq reason in
    let room : 0 < l.cap = v.circular.room in
    let alive : lived_at addr seq closing ≡ true = ground arith in
    (
      l',
      done,
      ap (find (lived_at addr seq)) (seen ∙ drop-append n (iter l) (closing ∷ []) (omega arith))
          ∙ find-append_last (lived_at addr seq) (drop n (iter l)) closing
              (find-drop (lived_at addr seq) n (iter l) unknown) alive,
    )
