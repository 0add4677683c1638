-- ===== src/Check/Verdicts.antt =====
-- `eval_one` and `evaluate` of engine/src/check.rs: whether each assertion holds. The messages, with the
-- first violation and the counts in them, are left out.
pub mod Walks
pub mod Meaning
pub mod Names
pub mod Sound
use rtmap.Base.{
  ℕ, suc, ◌+◌, ◌/◌, Bool, true, false, not, ◌&&◌, ◌||◌, List, [], ◌∷◌, Option, none, some, ◌==◌,
  ltb, leb, if◌then◌else◌, length, retain, find, any, all, is_some,
}
use rtmap.Base.KeyMap.{KeyMap, nat_key, get, insert}
use rtmap.Base.Texts.{Text, codes, same_text, text_key, strip_prefix}
use rtmap.Check.{TopoGraph, AllocEvent, StampEvent, LinkEvent}
use rtmap.Check.Chains.{chain_length}
use rtmap.Check.Assertions.{
  Assertion, no_hazards, alloc_before_stamp, no_use_after_free, monotonic_seq, stamp_before_link,
  live_allocs_lt, stm_projections_gt, max_chain, type_stable, no_false_sharing,
}

unfoldable pub live_alloc_count : TopoGraph → ℕ
live_alloc_count g = length (retain (λ a. not a.freed) g.allocs)

pub is_type_stable : Text → Text → TopoGraph → Bool
is_type_stable source_name expected_type g =
    all (λ s. same_text s.type_name expected_type)
      (retain (λ s. same_text s.source source_name) g.stamps)

-- `violations += 1` in a loop.
abbrev pub count_if {ℓ} : {A : Type ℓ} → (A → Bool) → List A → ℕ
count_if p [] = 0
count_if p (x ∷ xs) = if p x then suc (count_if p xs) else count_if p xs

-- A stamp of an address that is allocated, but not before the stamp.
pub is_unallocated : List AllocEvent → StampEvent → Bool
is_unallocated allocs s =
    any (λ a. a.addr == s.addr) allocs
    && not (any (λ a. (a.addr == s.addr) && leb a.seq s.seq) allocs)

-- The map from an address to the sequence number of its free.
abbrev pub freed_from : KeyMap ℕ ℕ → List AllocEvent → KeyMap ℕ ℕ
freed_from m [] = m
freed_from m (a ∷ allocs) =
    freed_from (if a.freed && ltb 0 a.free_seq then insert a.addr a.free_seq m else m) allocs

abbrev pub is_behind : ℕ → Option ℕ → Bool
is_behind seq none = false
is_behind seq (some free_seq) = ltb free_seq seq

-- The numbers below the one before them.
abbrev pub drops : ℕ → List ℕ → ℕ
drops last [] = 0
drops last (s ∷ ss) = if ltb s last then suc (drops s ss) else drops s ss

abbrev pub is_alloc_site : StampEvent → Bool
is_alloc_site s = is_some (strip_prefix (codes "alloc@") s.source)

abbrev pub alloc_seqs : List AllocEvent → List ℕ
alloc_seqs [] = []
alloc_seqs (a ∷ allocs) = a.seq ∷ alloc_seqs allocs

abbrev pub stamp_seqs : List StampEvent → List ℕ
stamp_seqs [] = []
stamp_seqs (s ∷ stamps) = if is_alloc_site s then stamp_seqs stamps else s.seq ∷ stamp_seqs stamps

abbrev pub link_seqs : List LinkEvent → List ℕ
link_seqs [] = []
link_seqs (l ∷ links) = l.seq ∷ link_seqs links

-- `entry(s.addr).or_insert(s.seq)`
abbrev pub first_stamps : KeyMap ℕ ℕ → List StampEvent → KeyMap ℕ ℕ
first_stamps m [] = m
first_stamps m (s ∷ stamps) =
    first_stamps (if is_alloc_site s || is_some (get s.addr m) then m else insert s.addr s.seq m)
      stamps

abbrev pub is_before : ℕ → Option ℕ → Bool
is_before seq none = false
is_before seq (some stamp_seq) = ltb seq stamp_seq

abbrev pub is_unstamped : KeyMap ℕ ℕ → LinkEvent → Bool
is_unstamped m l = not (l.to_addr == 0) && is_before l.seq (get l.to_addr m)

-- `source_targets.get(name).or_else(..)`
unfoldable pub address_of : Text → TopoGraph → Option ℕ
address_of name g = elim (get name g.source_targets) [
  | none ↦ elim (find (λ s. same_text s.source name || same_text s.type_name name) g.stamps) [
    | none ↦ none
    | some s ↦ some s.addr
  ]
  | some a ↦ some a
]

abbrev pub apart : Option ℕ → Option ℕ → Bool
apart (some a) (some b) = not (a / 64 == b / 64)
apart (some a) none = true
apart none b = true

abbrev pub below : Option ℕ → ℕ → Bool
below none limit = false
below (some len) limit = ltb len limit

-- The chains are walked on fuel above the number of edges.
pub eval_one : TopoGraph → Assertion → Bool
unfolding live_alloc_count is_type_stable is_unallocated address_of
eval_one g no_hazards = length g.hazards == 0
eval_one g (live_allocs_lt limit) = ltb (live_alloc_count g) limit
eval_one g (stm_projections_gt min) = ltb min g.summary.stm_projections
eval_one g (max_chain type_name field limit) =
    below (chain_length (suc (length g.edges)) type_name field g) limit
eval_one g (type_stable source expected) = is_type_stable source expected g
eval_one g alloc_before_stamp = count_if (is_unallocated g.allocs) g.stamps == 0
eval_one g no_use_after_free =
    let freed = freed_from [] g.allocs in
    count_if (λ s. is_behind s.seq (get s.addr freed)) g.stamps
      + count_if (λ l. is_behind l.seq (get l.to_addr freed)) g.links
    == 0
eval_one g monotonic_seq =
    drops 0 (alloc_seqs g.allocs) + drops 0 (stamp_seqs g.stamps) + drops 0 (link_seqs g.links) == 0
eval_one g stamp_before_link = count_if (is_unstamped (first_stamps [] g.stamps)) g.links == 0
eval_one g (no_false_sharing a b) = apart (address_of a g) (address_of b g)

abbrev pub counted : Bool → ℕ × ℕ → ℕ × ℕ
counted ok (pass, fail) = if ok then (suc pass, fail) else (pass, suc fail)

-- How many assertions pass, and how many fail.
unfoldable pub evaluate : TopoGraph → List (ℕ × Assertion) → ℕ × ℕ
unfolding eval_one
evaluate g [] = (0, 0)
evaluate g ((lineno, a) ∷ rest) = counted (eval_one g a) (evaluate g rest)
