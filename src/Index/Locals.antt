-- ===== src/Index/Locals.antt =====
-- The search among the locals of the frames, in engine/src/index.rs.
use rtmap.Base.{
  ℕ, ◌+◌, ◌-◌, ◌≤◌, ◌<◌, ◌≡◌, refl, sym, ap, ◌∙◌, Bool, true, ◌&&◌, List, [], ◌∷◌, ◌++◌, Option,
  none, some, arith, ltb, leb, if◌then◌else◌, ◌>>=◌, length, get_elem?, All, if_cases,
  length-append,
}
use mathlib.Core.List.{append_assoc}
use mathlib.Core.Path.{subst}
use rtmap.Base.KeyMap.{KeyMap, nat_key, get, IsMap, IsMap-stored}
use rtmap.Index.{Interval, AddressIndex}
use rtmap.Index.Lookup.{BestLocal, is_narrower, scan_locals, scan_frames, lookup_dynamics}

abbrev pub Frames : Type 0
Frames = KeyMap ℕ (List Interval)

abbrev pub holds : ℕ → Interval → Bool
holds addr iv = leb iv.lo addr && ltb addr iv.hi

abbrev best_of : ℕ → ℕ → Interval → BestLocal
best_of fid li iv = record {
  frame_id = fid;
  local_idx = li;
  lo = iv.lo;
  hi = iv.hi;
  span = iv.hi - iv.lo;
}

abbrev next_best : ℕ → ℕ → ℕ → Interval → Option BestLocal → Option BestLocal
next_best addr fid li iv best =
    if leb iv.lo addr && ltb addr iv.hi && is_narrower (iv.hi - iv.lo) best
    then some (best_of fid li iv)
    else best

-- The local stands in its place and holds the address.
pub record IsLocal (addr : ℕ) (m : Frames) (b : BestLocal) : Type 0 where
  pub iv : Interval
  pub found : (get b.frame_id m >>= λ ivs. get_elem? ivs b.local_idx) ≡ some iv
  pub lo_eq : iv.lo ≡ b.lo
  pub hi_eq : iv.hi ≡ b.hi
  pub span_eq : b.span ≡ b.hi - b.lo
  pub low : b.lo ≤ addr
  pub high : addr < b.hi

abbrev pub Best : ℕ → Frames → Option BestLocal → Type 0
Best addr m none = Unit {0}
Best addr m (some b) = IsLocal addr m b

-- A local of the span is no better than what was found.
abbrev NotWider : ℕ → Option BestLocal → Type 0
NotWider span none = ⊥
NotWider span (some b) = b.span ≤ span

-- Every interval that holds the address is at least as wide as what was found.
abbrev pub Least : ℕ → Option BestLocal → List Interval → Type 0
Least addr best [] = Unit {0}
Least addr best (iv ∷ ivs) =
    (if holds addr iv then NotWider (iv.hi - iv.lo) best else Unit {0}) × Least addr best ivs

get_elem?-middle :
    (pre ivs : List Interval) (iv : Interval) → get_elem? (pre ++ iv ∷ ivs) (length pre) ≡ some iv
get_elem?-middle [] ivs iv = refl
get_elem?-middle (p ∷ pre) ivs iv = get_elem?-middle pre ivs iv

module _ (addr : ℕ) (m : Frames) where
  next_best-Best :
      (fid : ℕ) (pre ivs : List Interval) (iv : Interval) (best : Option BestLocal)
      → get fid m ≡ some (pre ++ iv ∷ ivs)
      → Best addr m best
      → Best addr m (next_best addr fid (length pre) iv best)
  next_best-Best fid pre ivs iv best at_frame h =
      if_cases (Best addr m) (leb iv.lo addr && ltb addr iv.hi && is_narrower (iv.hi - iv.lo) best)
        (λ holds_it.
          let low : iv.lo ≤ addr = ground arith in
          let high : addr < iv.hi = ground arith in
          record {
            iv = iv;
            found = rw at_frame (get_elem?-middle pre ivs iv);
            lo_eq = refl;
            hi_eq = refl;
            span_eq = refl;
            low = low;
            high = high;
          })
        (λ _. h)

  scan_locals-Best :
      (fid : ℕ) (pre ivs : List Interval) (best : Option BestLocal)
      → get fid m ≡ some (pre ++ ivs)
      → Best addr m best
      → Best addr m (scan_locals addr fid (length pre) ivs best)
  unfolding scan_locals
  scan_locals-Best fid pre [] best at_frame h = h
  scan_locals-Best fid pre (iv ∷ ivs) best at_frame h =
      let longer : length (pre ++ iv ∷ []) ≡ length pre + 1 = length-append pre (iv ∷ []) in
      let later =
        scan_locals-Best fid (pre ++ iv ∷ []) ivs (next_best addr fid (length pre) iv best)
          (at_frame ∙ ap some (sym (append_assoc pre (iv ∷ []) ivs)))
          (next_best-Best fid pre ivs iv best at_frame h) in
      subst
        (λ (k : ℕ).
          Best addr m (scan_locals addr fid k ivs (next_best addr fid (length pre) iv best)))
        longer later

  scan_frames-Best :
      (frames : Frames) (best : Option BestLocal)
      → All (λ f. get f.0 m ≡ some f.1) frames
      → Best addr m best
      → Best addr m (scan_frames addr frames best)
  unfolding scan_frames
  scan_frames-Best [] best a h = h
  scan_frames-Best ((fid, ivs) ∷ frames) best a h =
      scan_frames-Best frames (scan_locals addr fid 0 ivs best) a.1
        (scan_locals-Best fid [] ivs best a.0 h)

module _ (addr : ℕ) where
  next_best-NotWider :
      (fid li span : ℕ) (iv : Interval) (best : Option BestLocal)
      → NotWider span best
      → NotWider span (next_best addr fid li iv best)
  next_best-NotWider fid li span iv none h = absurd h
  next_best-NotWider fid li span iv (some b) h =
      if_cases (NotWider span) (leb iv.lo addr && ltb addr iv.hi && ltb (iv.hi - iv.lo) b.span)
        (λ t. ground arith) (λ _. h)

  scan_locals-NotWider :
      (fid li span : ℕ) (ivs : List Interval) (best : Option BestLocal)
      → NotWider span best
      → NotWider span (scan_locals addr fid li ivs best)
  unfolding scan_locals
  scan_locals-NotWider fid li span [] best h = h
  scan_locals-NotWider fid li span (iv ∷ ivs) best h =
      scan_locals-NotWider fid (li + 1) span ivs (next_best addr fid li iv best)
        (next_best-NotWider fid li span iv best h)

  scan_frames-NotWider :
      (span : ℕ) (frames : Frames) (best : Option BestLocal)
      → NotWider span best
      → NotWider span (scan_frames addr frames best)
  unfolding scan_frames
  scan_frames-NotWider span [] best h = h
  scan_frames-NotWider span ((fid, ivs) ∷ frames) best h =
      scan_frames-NotWider span frames (scan_locals addr fid 0 ivs best)
        (scan_locals-NotWider fid 0 span ivs best h)

  next_best-found :
      (fid li : ℕ) (iv : Interval) (best : Option BestLocal)
      → holds addr iv ≡ true
      → NotWider (iv.hi - iv.lo) (next_best addr fid li iv best)
  next_best-found fid li iv none h = rw h (omega arith)
  next_best-found fid li iv (some b) h =
      if_cases (NotWider (iv.hi - iv.lo))
        (leb iv.lo addr && ltb addr iv.hi && ltb (iv.hi - iv.lo) b.span) (λ _. omega arith)
        (λ t. ground arith)

  -- What the search answers is no wider than any local of the frames.
  scan_locals-Least :
      (fid li : ℕ) (ivs : List Interval) (best : Option BestLocal) (frames : Frames)
      → Least addr (scan_frames addr frames (scan_locals addr fid li ivs best)) ivs
  unfolding scan_locals
  scan_locals-Least fid li [] best frames = tt
  scan_locals-Least fid li (iv ∷ ivs) best frames =
      let next = next_best addr fid li iv best in
      (
        if_cases (λ (T : Type 0). T) (holds addr iv)
            (λ t.
              scan_frames-NotWider (iv.hi - iv.lo) frames (scan_locals addr fid (li + 1) ivs next) (
                scan_locals-NotWider fid (li + 1) (iv.hi - iv.lo) ivs next
                  (next_best-found fid li iv best t)))
            (λ _. tt),
        scan_locals-Least fid (li + 1) ivs next frames,
      )

  scan_frames-Least :
      (frames : Frames) (best : Option BestLocal)
      → All (λ f. Least addr (scan_frames addr frames best) f.1) frames
  unfolding scan_frames
  scan_frames-Least [] best = tt
  scan_frames-Least ((fid, ivs) ∷ frames) best = (
    scan_locals-Least fid 0 ivs best frames,
    scan_frames-Least frames (scan_locals addr fid 0 ivs best),
  )

-- Where each frame stands once, what the search among the locals answers is a local that stands in
-- the place it names and holds the address, and none of the frames has a narrower one that holds it;
-- it answers nothing only where no local holds the address.
pub lookup_dynamics-Least :
    (addr : ℕ) (ix : AddressIndex)
    → IsMap ix.dynamics
    → Best addr ix.dynamics (lookup_dynamics addr ix)
      × All (λ f. Least addr (lookup_dynamics addr ix) f.1) ix.dynamics
unfolding lookup_dynamics
lookup_dynamics-Least addr ix u = (
  scan_frames-Best addr ix.dynamics ix.dynamics none (IsMap-stored ix.dynamics u) tt,
  scan_frames-Least addr ix.dynamics none,
)
