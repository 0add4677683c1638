-- ===== src/Index/Lookup.antt =====
-- The lookup of an address, `AddressIndex::lookup` of engine/src/index.rs: the recent entries, the locals, the
-- globals and fields.
use rtmap.Base.{
  ℕ, zero, suc, ◌+◌, ◌-◌, Bool, true, false, not, ◌&&◌, ◌||◌, List, [], ◌∷◌, Option, none, some,
  ltb, leb, ◌==◌, if◌then◌else◌, ◌>>=◌, get_elem?, take,
}
use rtmap.Base.KeyMap.{KeyMap, nat_key, get}
use rtmap.Index.{
  node_key, Interval, LookupResult, mru_slots, MruEntry, entry_lo, entry_contains, AddressIndex,
  node_rank, static, dynamic,
}

-- A local that holds the address: frame, number, lo, hi, span.
pub record BestLocal : Type 0 where
  pub frame_id : ℕ
  pub local_idx : ℕ
  pub lo : ℕ
  pub hi : ℕ
  pub span : ℕ

abbrev pub is_narrower : ℕ → Option BestLocal → Bool
is_narrower span none = true
is_narrower span (some b) = ltb span b.span

-- The loop over a frame's locals from number `li` on.
unfoldable pub scan_locals : ℕ → ℕ → ℕ → List Interval → Option BestLocal → Option BestLocal
scan_locals addr fid li [] best = best
scan_locals addr fid li (iv ∷ ivs) best =
    let span = iv.hi - iv.lo in
    scan_locals addr fid (li + 1) ivs (
      if leb iv.lo addr && ltb addr iv.hi && is_narrower span best
      then some (record { frame_id = fid; local_idx = li; lo = iv.lo; hi = iv.hi; span = span })
      else best)

unfoldable pub scan_frames : ℕ → KeyMap ℕ (List Interval) → Option BestLocal → Option BestLocal
unfolding scan_locals
scan_frames addr [] best = best
scan_frames addr ((fid, ivs) ∷ frames) best =
    scan_frames addr frames (scan_locals addr fid 0 ivs best)

unfoldable pub lookup_dynamics : ℕ → AddressIndex → Option BestLocal
unfolding scan_frames
lookup_dynamics addr ix = scan_frames addr ix.dynamics none

-- `partition_point(|iv| iv.lo <= addr)`, on intervals in the order of `lo`.
abbrev pub partition_point : ℕ → List Interval → ℕ
partition_point addr [] = 0
partition_point addr (iv ∷ ivs) = if leb iv.lo addr then suc (partition_point addr ivs) else 0

-- Whether an interval comes before the best one so far: by rank, then by size.
abbrev pub dominates : Interval → Option (ℕ × Interval) → Bool
dominates iv none = true
dominates iv (some (i, prev)) =
    let iv_r = node_rank iv.meta.node_id in
    let prev_r = node_rank prev.meta.node_id in
    ltb prev_r iv_r || ((iv_r == prev_r) && ltb (iv.hi - iv.lo) (prev.hi - prev.lo))

abbrev pub better : ℕ → ℕ → Interval → Option (ℕ × Interval) → Option (ℕ × Interval)
better addr i iv best = if ltb addr iv.hi && dominates iv best then some (i, iv) else best

-- Whether the interval before number `i` also starts at `lo`.
abbrev pub same_start : List Interval → ℕ → ℕ → Bool
same_start statics lo zero = false
same_start statics lo (suc i) = elim (get_elem? statics i) [
  | none ↦ false
  | some prev ↦ not (ltb prev.lo lo)
]

-- The loop from number `i` down.
unfoldable pub walk_back : ℕ → List Interval → ℕ → Option (ℕ × Interval) → Option (ℕ × Interval)
walk_back addr statics zero best = elim (get_elem? statics 0) [
  | none ↦ best
  | some iv ↦ if ltb addr iv.lo then best else better addr 0 iv best
]
walk_back addr statics (suc i) best = elim (get_elem? statics (suc i)) [
  | none ↦ best
  | some iv ↦
      let further = walk_back addr statics i (better addr (suc i) iv best) in
      if ltb addr iv.lo
      then best
      else if same_start statics iv.lo (suc i)
      then further
      else better addr (suc i) iv best
]

unfoldable pub lookup_statics : ℕ → AddressIndex → Option (ℕ × Interval)
unfolding walk_back
lookup_statics addr ix =
    let idx = partition_point addr ix.statics in
    if idx == 0 then none else walk_back addr ix.statics (idx - 1) none

abbrev pub result_at : ℕ → Interval → LookupResult
result_at offset iv = record {
  label = iv.meta.label;
  type_info = iv.meta.type_info;
  node_id = iv.meta.node_id;
  offset_in_var = offset;
}

-- The interval that an entry stands for.
abbrev pub entry_interval : List Interval → KeyMap ℕ (List Interval) → MruEntry → Option Interval
entry_interval statics dynamics (static lo hi idx) = get_elem? statics idx
entry_interval statics dynamics (dynamic lo hi frame_id local_idx) =
    get frame_id dynamics >>= λ ivs. get_elem? ivs local_idx

unfoldable pub resolve_mru : AddressIndex → MruEntry → ℕ → Option LookupResult
resolve_mru ix e addr =
    entry_interval ix.statics ix.dynamics e >>= λ iv. some (result_at (addr - entry_lo e) iv)

abbrev pub push_mru : MruEntry → AddressIndex → AddressIndex
push_mru e ix = record ix { mru = take mru_slots (e ∷ ix.mru) }

-- The first entry that contains the address, and the others in their order.
abbrev pub take_hit : ℕ → List MruEntry → Option (MruEntry × List MruEntry)
take_hit addr [] = none
take_hit addr (e ∷ mru) =
    if entry_contains addr e
    then some (e, mru)
    else elim (take_hit addr mru) [ none ↦ none | some (h, rest) ↦ some (h, e ∷ rest) ]

-- Behind the entries: the locals, then the statics. The interval of a hit is in its place, so the
-- indexing that follows does not panic.
unfoldable pub lookup_slow : ℕ → AddressIndex → AddressIndex × Option LookupResult
unfolding lookup_dynamics lookup_statics
lookup_slow addr ix = elim (lookup_dynamics addr ix) [
  | some b ↦
      let e = dynamic b.lo b.hi b.frame_id b.local_idx in
      (
        push_mru e ix,
        entry_interval ix.statics ix.dynamics e >>= λ iv. some (result_at (addr - iv.lo) iv),
      )
  | none ↦ elim (lookup_statics addr ix) [
    | some (idx, iv) ↦
        let e = static iv.lo iv.hi idx in
        (
          push_mru e ix,
          entry_interval ix.statics ix.dynamics e >>= λ s. some (result_at (addr - s.lo) s),
        )
    | none ↦ (ix, none)
  ]
]

unfoldable pub lookup : ℕ → AddressIndex → AddressIndex × Option LookupResult
unfolding resolve_mru lookup_slow
lookup addr ix =
    if ltb addr ix.universe_lo || leb ix.universe_hi addr
    then (ix, none)
    else elim (take_hit addr ix.mru) [
      | some (e, rest) ↦ (record ix { mru = e ∷ rest }, resolve_mru ix e addr)
      | none ↦ lookup_slow addr ix
    ]
