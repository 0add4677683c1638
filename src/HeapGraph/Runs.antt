-- ===== src/HeapGraph/Runs.antt =====
-- `process_write`, `on_free` and `gc_stale` of engine/src/heap_graph.rs in any order.
use rtmap.Base.{
  ℕ, ◌^◌, ◌<◌, ◌≡◌, refl, ◌∙◌, ap, sym, Bool, true, List, [], ◌∷◌, map, Option, some, All, retain,
  leb, ltb, ◌&&◌, ◌-◌, saturating_add64, ◌>>=◌,
}
use mathlib.Core.Path.{subst}
use rtmap.HeapGraph.{
  HeapGraph, HeapObject, new, on_free, gc_stale, release_all, process_write,
  assert_addr_to_base_invariant,
}
use rtmap.HeapGraph.Released.{release_all-IsIndexed, release_all-recent_writes, IsIndexed-assert}
use rtmap.HeapGraph.Consistent.{Consistent, IsAddress, Succeeds, process_write-Succeeds}

-- What happens to the graph.
pub data Op : Type 0 where
  write : ℕ → ℕ → ℕ → ℕ → Op
  free : ℕ → ℕ → Op
  gc : ℕ → ℕ → Op

unfoldable pub apply : Op → HeapGraph → Option HeapGraph
apply (write addr size value seq) g = process_write addr size value seq g
apply (free addr size) g = some (on_free addr size g)
apply (gc current_seq max_age) g = some (gc_stale current_seq max_age g)

unfoldable pub run : List Op → HeapGraph → Option HeapGraph
run [] g = some g
run (op ∷ ops) g = apply op g >>= run ops

-- The address of a write is of 64 bits.
abbrev pub OfWords : Op → Type 0
OfWords (write addr size value seq) = addr < 2 ^ 64
OfWords (free addr size) = Unit
OfWords (gc current_seq max_age) = Unit

release_all-Consistent :
    (bases : List ℕ) (g : HeapGraph) → Consistent g → Consistent (release_all bases g)
release_all-Consistent bases g c = record {
  indexed = release_all-IsIndexed bases g c.indexed;
  addressed = subst (All IsAddress) (sym (release_all-recent_writes bases g)) c.addressed;
}

release_where-Consistent :
    (p : ℕ × HeapObject → Bool) (g : HeapGraph)
    → Consistent g
    → Consistent (release_all (map (λ e. e.0) (retain p g.objects)) g)
release_where-Consistent p g = release_all-Consistent (map (λ e. e.0) (retain p g.objects)) g

apply-Succeeds : (op : Op) (g : HeapGraph) → OfWords op → Consistent g → Succeeds (apply op g)
unfolding apply on_free gc_stale
apply-Succeeds (write addr size value seq) g h c = process_write-Succeeds addr size value seq g h c
apply-Succeeds (free addr size) g h c = (
  _,
  refl,
  release_where-Consistent (λ e. leb addr e.0 && ltb e.0 (saturating_add64 addr size)) g c,
)
apply-Succeeds (gc current_seq max_age) g h c =
    (_, refl, release_where-Consistent (λ e. ltb e.1.last_seq (current_seq - max_age)) g c)

run_from : (ops : List Op) (g : HeapGraph) → All OfWords ops → Consistent g → Succeeds (run ops g)
unfolding run
run_from [] g h c = (g, refl, c)
run_from (op ∷ ops) g h c =
    let (next, made, c') = apply-Succeeds op g h.0 c in
    let (last, rest, c'') = run_from ops next h.1 c' in
    (last, ap (λ o. o >>= run ops) made ∙ rest, c'')

-- After any sequence of writes with 64-bit addresses, of frees and of collections of stale objects,
-- from the empty graph, no `unwrap` has failed and every entry of the index of addresses names an
-- object that is there.
pub run-assert_addr_to_base_invariant :
    (ops : List Op)
    → All OfWords ops
    → (run ops new >>= λ g. some (assert_addr_to_base_invariant g)) ≡ some true
unfolding new
run-assert_addr_to_base_invariant ops h =
    let (last, ended, c) =
      run_from ops new h
        (record { indexed = record { ordered = tt; pointed = tt }; addressed = tt }) in
    ap (λ o. o >>= λ g. some (assert_addr_to_base_invariant g)) ended
    ∙ ap some (IsIndexed-assert last c.indexed)
