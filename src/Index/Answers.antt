-- ===== src/Index/Answers.antt =====
-- What a lookup of engine/src/index.rs answers, over any sequence of the index's operations.
use rtmap.Base.{
  ℕ, zero, suc, ◌-◌, ◌≤◌, ◌<◌, ◌≡◌, refl, sym, ap, true, ◌||◌, List, [], ◌∷◌, Option, none, some,
  arith, ltb, leb, if_cases, ◌>>=◌, All, take,
}
use rtmap.Base.KeyMap.{KeyMap, nat_key, IsMap}
use rtmap.Index.{
  Interval, AddressIndex, MruEntry, static, dynamic, entry_lo, entry_contains, LookupResult,
}
use rtmap.Index.Lookup.{
  entry_interval, result_at, lookup, lookup_slow, lookup_dynamics, lookup_statics, take_hit,
  resolve_mru, push_mru, BestLocal,
}
use rtmap.Index.Locals.{Best, lookup_dynamics-Least}
use rtmap.Index.Statics.{Found, lookup_statics-Found}

abbrev entry_hi : MruEntry → ℕ
entry_hi (static lo hi idx) = hi
entry_hi (dynamic lo hi frame_id local_idx) = hi

module _ (statics : List Interval) (dynamics : KeyMap ℕ (List Interval)) where
  -- The entry stands for an interval with its bounds.
  pub record IsEntry (e : MruEntry) : Type 0 where
    pub iv : Interval
    pub stored : entry_interval statics dynamics e ≡ some iv
    pub lo_eq : iv.lo ≡ entry_lo e
    pub hi_eq : iv.hi ≡ entry_hi e

  -- The answer is that of an interval, in a place of the index as it is, that holds the address.
  pub record IsAnswer (addr : ℕ) (r : LookupResult) : Type 0 where
    pub place : MruEntry
    pub iv : Interval
    pub stored : entry_interval statics dynamics place ≡ some iv
    pub low : iv.lo ≤ addr
    pub high : addr < iv.hi
    pub is_result : r ≡ result_at (addr - iv.lo) iv

  abbrev pub AnswerOf : ℕ → Option LookupResult → Type 0
  AnswerOf addr none = Unit {0}
  AnswerOf addr (some r) = IsAnswer addr r

  abbrev Hit : ℕ → Option (MruEntry × List MruEntry) → Type 0
  Hit addr none = Unit {0}
  Hit addr (some (e, rest)) = IsEntry e × ((entry_contains addr e ≡ true) × All IsEntry rest)

  take_hit-Hit : (addr : ℕ) (mru : List MruEntry) → All IsEntry mru → Hit addr (take_hit addr mru)
  take_hit-Hit addr [] a = tt
  take_hit-Hit addr (e ∷ mru) a =
      if_cases (Hit addr) (entry_contains addr e) (λ t. (a.0, (t, a.1)))
        (λ _. later (take_hit addr mru) (take_hit-Hit addr mru a.1))
    where
      later :
          (o : Option (MruEntry × List MruEntry))
          → Hit addr o
          → Hit addr (elim o [ none ↦ none | some (h, rest) ↦ some (h, e ∷ rest) ])
      later none k = tt
      later (some (h, rest)) k = (k.0, (k.1.0, (a.0, k.1.1)))

  -- An entry that holds the address answers with its interval.
  entry_answer :
      (addr : ℕ) (e : MruEntry) (iv : Interval) (offset : Interval → ℕ)
      → entry_interval statics dynamics e ≡ some iv
      → offset iv ≡ addr - iv.lo
      → iv.lo ≤ addr
      → addr < iv.hi
      → AnswerOf addr (entry_interval statics dynamics e >>= λ i. some (result_at (offset i) i))
  entry_answer addr e iv offset stored same low high = rw stored (record {
    place = e;
    iv = iv;
    stored = stored;
    low = low;
    high = high;
    is_result = ap (λ o. result_at o iv) same;
  })

  entry_holds :
      (addr : ℕ) (e : MruEntry)
      → entry_contains addr e ≡ true
      → (entry_lo e ≤ addr) × (addr < entry_hi e)
  entry_holds addr (static lo hi idx) h = ground arith
  entry_holds addr (dynamic lo hi frame_id local_idx) h = ground arith

  hit_answer :
      (addr : ℕ) (e : MruEntry)
      → IsEntry e
      → entry_contains addr e ≡ true
      → AnswerOf addr
          (entry_interval statics dynamics e >>= λ i. some (result_at (addr - entry_lo e) i))
  hit_answer addr e valid h =
      let (low, high) = entry_holds addr e h in
      entry_answer addr e valid.iv (λ i. addr - entry_lo e) valid.stored
        (λ i. addr - sym valid.lo_eq i) (omega (arith, low, valid.lo_eq))
        (omega (arith, high, valid.hi_eq))

  All-take : (n : ℕ) (mru : List MruEntry) → All IsEntry mru → All IsEntry (take n mru)
  All-take zero mru a = tt
  All-take (suc n) [] a = tt
  All-take (suc n) (e ∷ mru) a = (a.0, All-take n mru a.1)

-- The frames have different keys, and the recent entries stand for what is in the index.
pub record IsValid (ix : AddressIndex) : Type 0 where
  pub frames_map : IsMap ix.dynamics
  pub entries : All (IsEntry ix.statics ix.dynamics) ix.mru

-- After a lookup: the index is valid still, and what was answered holds of it.
unfoldable pub Sound : ℕ → AddressIndex → AddressIndex × Option LookupResult → Type 0
Sound addr ix (ix', r) =
    (ix'.statics ≡ ix.statics)
    × (ix'.dynamics ≡ ix.dynamics)
    × IsValid ix'
    × AnswerOf ix.statics ix.dynamics addr r

pushed :
    (e : MruEntry) (ix : AddressIndex)
    → IsEntry ix.statics ix.dynamics e
    → IsValid ix
    → IsValid (push_mru e ix)
pushed e ix valid v = record {
  frames_map = v.frames_map;
  entries = (valid, All-take ix.statics ix.dynamics 7 ix.mru v.entries);
}

lookup_slow-Sound :
    (addr : ℕ) (ix : AddressIndex) → IsValid ix → Sound addr ix (lookup_slow addr ix)
unfolding lookup_slow Sound Found
lookup_slow-Sound addr ix v =
    by_local (lookup_dynamics addr ix) (lookup_dynamics-Least addr ix v.frames_map).0
  where
    by_static :
        (o : Option (ℕ × Interval))
        → Found addr ix.statics o
        → Sound addr ix (elim o [
          | some (idx, iv) ↦
              let e = static iv.lo iv.hi idx in
              (
                push_mru e ix,
                entry_interval ix.statics ix.dynamics e >>= λ s. some (result_at (addr - s.lo) s),
              )
          | none ↦ (ix, none)
        ])
    by_static none f = (refl, refl, v, tt)
    by_static (some (idx, iv)) (stored, low, high) =
        let e = static iv.lo iv.hi idx in
        (
          refl,
          refl,
          pushed e ix (record { iv = iv; stored = stored; lo_eq = refl; hi_eq = refl }) v,
          entry_answer ix.statics ix.dynamics addr e iv (λ s. addr - s.lo) stored refl low high,
        )

    by_local :
        (o : Option BestLocal)
        → Best addr ix.dynamics o
        → Sound addr ix (elim o [
          | some b ↦
              let e = dynamic b.lo b.hi b.frame_id b.local_idx in
              (
                push_mru e ix,
                entry_interval ix.statics ix.dynamics e >>= λ iv.
                    some (result_at (addr - iv.lo) iv),
              )
          | none ↦ elim (lookup_statics addr ix) [
            | some (idx, iv) ↦
                let e = static iv.lo iv.hi idx in
                (
                  push_mru e ix,
                  entry_interval ix.statics ix.dynamics e >>= λ s. some (result_at (addr - s.lo) s),
                )
            | none ↦ (ix, none)
          ]
        ])
    by_local none f = by_static (lookup_statics addr ix) (lookup_statics-Found addr ix)
    by_local (some b) f =
        let e = dynamic b.lo b.hi b.frame_id b.local_idx in
        (
          refl,
          refl,
          pushed e ix (record { iv = f.iv; stored = f.found; lo_eq = f.lo_eq; hi_eq = f.hi_eq }) v,
          entry_answer ix.statics ix.dynamics addr e f.iv (λ s. addr - s.lo) f.found refl
              (omega (arith, f.low, f.lo_eq)) (omega (arith, f.high, f.hi_eq)),
        )

pub lookup-Sound : (addr : ℕ) (ix : AddressIndex) → IsValid ix → Sound addr ix (lookup addr ix)
unfolding lookup Sound resolve_mru
lookup-Sound addr ix v =
    if_cases (Sound addr ix) (ltb addr ix.universe_lo || leb ix.universe_hi addr)
      (λ _. (refl, refl, v, tt))
      (λ _.
        by_hit (take_hit addr ix.mru) (take_hit-Hit ix.statics ix.dynamics addr ix.mru v.entries))
  where
    by_hit :
        (o : Option (MruEntry × List MruEntry))
        → Hit ix.statics ix.dynamics addr o
        → Sound addr ix (elim o [
          | some (e, rest) ↦ (record ix { mru = e ∷ rest }, resolve_mru ix e addr)
          | none ↦ lookup_slow addr ix
        ])
    by_hit none h = lookup_slow-Sound addr ix v
    by_hit (some (e, rest)) (valid, (inside, others)) = (
      refl,
      refl,
      record { frames_map = v.frames_map; entries = (valid, others) },
      hit_answer ix.statics ix.dynamics addr e valid inside,
    )
