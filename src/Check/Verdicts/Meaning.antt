-- ===== src/Check/Verdicts/Meaning.antt =====
-- What the assertions of engine/src/check.rs mean, and that the checker's verdict is just that.
use rtmap.Base.{
  ◌⊎◌, map, retain, take, ℕ, suc, ◌+◌, ◌/◌, ◌≤◌, ◌<◌, ◌≡◌, ◌≢◌, ◌↔◌, refl, sym, ◌∙◌, ap, Bool, true,
  false, not, ◌&&◌, ◌||◌, List, [], ◌∷◌, Option, none, some, ◌==◌, ltb, leb, arith, if◌then◌else◌,
  length, find, any, All, All-map, is_some, Bool-cases, inl, inr, ==_iff, if_rule,
}
use mathlib.Core.Path.{subst}
use rtmap.Base.Texts.{Text, text_key, codes, same_text, strip_prefix}
use rtmap.Base.KeyMap.{KeyMap, nat_key, get, insert, get-insert}
use rtmap.Check.{TopoGraph, AllocEvent, StampEvent, find_last}
use rtmap.Check.Assertions.{
  Assertion, no_hazards, alloc_before_stamp, no_use_after_free, monotonic_seq, stamp_before_link,
  live_allocs_lt, stm_projections_gt, max_chain, type_stable, no_false_sharing,
}
use rtmap.Check.Verdicts.Walks.{Shorter, stamped_as}
use rtmap.Check.Verdicts.{count_if, freed_from, drops, is_alloc_site, first_stamps}

-- Each number is at most all that follow it.
abbrev pub Rising : List ℕ → Type 0
Rising [] = Unit
Rising (s ∷ ss) = All (λ r. s ≤ r) ss × Rising ss

-- The last listed allocation of the address that was freed, at a number other than 0.
abbrev pub last_free : ℕ → List AllocEvent → Option AllocEvent
last_free addr = find_last (λ a. (a.freed && ltb 0 a.free_seq) && (a.addr == addr))

-- The source of a stamp that was made at an allocation begins with `alloc@`.
abbrev pub at_allocation : StampEvent → Bool
at_allocation s = same_text (take 6 s.source) (codes "alloc@")

is_some-strip_prefix : (p s : Text) → is_some (strip_prefix p s) ≡ same_text (take (length p) s) p
is_some-strip_prefix [] s = refl
is_some-strip_prefix (c ∷ p) [] = refl
is_some-strip_prefix (c ∷ p) (d ∷ s) = ground (arith, is_some-strip_prefix p s)

pub is_alloc_site_lem : (s : StampEvent) → is_alloc_site s ≡ at_allocation s
is_alloc_site_lem s = is_some-strip_prefix (codes "alloc@") s.source

-- The first stamp of the address that was not made at an allocation.
abbrev pub first_stamp : ℕ → List StampEvent → Option StampEvent
first_stamp addr = find (λ s. not (at_allocation s) && (s.addr == addr))

abbrev pub Until : ℕ → Option AllocEvent → Type 0
Until seq none = Unit
Until seq (some a) = seq ≤ a.free_seq

abbrev pub Since : ℕ → Option StampEvent → Type 0
Since seq none = Unit
Since seq (some s) = s.seq ≤ seq

-- The allocations that were not freed.
abbrev pub unfreed : List AllocEvent → ℕ
unfreed [] = 0
unfreed (a ∷ allocs) = if a.freed then unfreed allocs else suc (unfreed allocs)

-- The first stamp whose source or type has the name is of the address.
abbrev pub FirstNamed : Text → List StampEvent → ℕ → Type 0
FirstNamed name [] x = ⊥
FirstNamed name (s ∷ stamps) x =
    (((s.source ≡ name) ⊎ (s.type_name ≡ name)) × (s.addr ≡ x))
    ⊎ ((s.source ≢ name) × (s.type_name ≢ name) × FirstNamed name stamps x)

-- A name stands for the target that its source was last stamped with, or else for that stamp's.
abbrev pub StandsFor : TopoGraph → Text → ℕ → Type 0
StandsFor g name x =
    (get name g.source_targets ≡ some x)
    ⊎ ((get name g.source_targets ≡ none) × FirstNamed name g.stamps x)

-- What each assertion says of a topology.
abbrev pub Holds : TopoGraph → Assertion → Type 0
Holds g no_hazards = g.hazards ≡ []
Holds g (live_allocs_lt limit) = unfreed g.allocs < limit
Holds g (stm_projections_gt min) = min < g.summary.stm_projections
Holds g (max_chain t f limit) = (0 < limit) × Shorter g.edges f limit (stamped_as t g)
Holds g (type_stable source expected) =
    All (λ s. s.source ≡ source → s.type_name ≡ expected) g.stamps
Holds g alloc_before_stamp =
    All
      (λ s.
        any (λ a. a.addr == s.addr) g.allocs ≡ true
        → any (λ a. (a.addr == s.addr) && leb a.seq s.seq) g.allocs ≡ true)
      g.stamps
Holds g no_use_after_free =
    All (λ s. Until s.seq (last_free s.addr g.allocs)) g.stamps
    × All (λ l. Until l.seq (last_free l.to_addr g.allocs)) g.links
Holds g monotonic_seq =
    Rising (map (λ a. a.seq) g.allocs)
    × Rising (map (λ s. s.seq) (retain (λ s. not (at_allocation s)) g.stamps))
    × Rising (map (λ l. l.seq) g.links)
Holds g stamp_before_link =
    All (λ l. l.to_addr ≢ 0 → Since l.seq (first_stamp l.to_addr g.stamps)) g.links
Holds g (no_false_sharing a b) = (x y : ℕ) → StandsFor g a x → StandsFor g b y → x / 64 ≢ y / 64

drops_step : (last s : ℕ) (ss : List ℕ) → drops last (s ∷ ss) ≡ 0 → (last ≤ s) × (drops s ss ≡ 0)
drops_step last s ss h = ground arith

pub ascending : (last : ℕ) (ss : List ℕ) → drops last ss ≡ 0 → All (λ r. last ≤ r) ss × Rising ss
ascending last [] h = (tt, tt)
ascending last (s ∷ ss) h =
    let (l, h') = drops_step last s ss h in
    let (a, r) = ascending s ss h' in ((l, All-map (λ x k. omega (arith, l, k)) ss a), (a, r))

pub drops_none : (last : ℕ) (ss : List ℕ) → All (λ r. last ≤ r) ss → Rising ss → drops last ss ≡ 0
drops_none last [] a r = refl
drops_none last (s ∷ ss) a r = ground (arith, a.0, drops_none s ss r.0 r.1)

pub All_zero : (ss : List ℕ) → All (λ r. 0 ≤ r) ss
All_zero [] = tt
All_zero (s ∷ ss) = (omega arith, All_zero ss)

pub count_iff {ℓ} :
    {A : Type ℓ} (p : A → Bool) (xs : List A) → (count_if p xs ≡ 0) ↔ All (λ x. p x ≡ false) xs
count_iff p [] = (λ h. tt, λ a. refl)
count_iff p (x ∷ xs) = by_test (count_iff p xs) (p x) refl
  where
    bools_differ : true ≡ false → ⊥
    bools_differ h = cc

    by_test :
        (count_if p xs ≡ 0) ↔ All (λ x. p x ≡ false) xs
        → (b : Bool) → p x ≡ b
        → ((if b then suc (count_if p xs) else count_if p xs) ≡ 0)
          ↔ ((p x ≡ false) × All (λ x. p x ≡ false) xs)
    by_test rest true e = (λ h. absurd (omega (arith, h)), λ a. absurd (bools_differ (sym e ∙ a.0)))
    by_test rest false e = (λ h. (e, rest.0 h), λ a. rest.1 a.1)

pub sum_iff : (a b : ℕ) → ((a + b == 0) ≡ true) ↔ ((a ≡ 0) × (b ≡ 0))
sum_iff a b = ground arith

abbrev pub from_last : Option AllocEvent → Option ℕ → Option ℕ
from_last none o = o
from_last (some a) o = some a.free_seq

pub get-freed_from :
    (k : ℕ) (allocs : List AllocEvent) (m : KeyMap ℕ ℕ)
    → get k (freed_from m allocs) ≡ from_last (last_free k allocs) (get k m)
get-freed_from k [] m = refl
get-freed_from k (a ∷ allocs) m =
    get-freed_from k allocs (if a.freed && ltb 0 a.free_seq then insert a.addr a.free_seq m else m)
    ∙ joined (a.freed && ltb 0 a.free_seq) (last_free k allocs)
  where
    here :
        (b : Bool) (o : Option ℕ)
        → (if b then some a.free_seq else o) ≡ from_last (if b then some a else none) o
    here true o = refl
    here false o = refl

    joined :
        (c : Bool) (o : Option AllocEvent)
        → from_last o (get k (if c then insert a.addr a.free_seq m else m))
          ≡ from_last
              (elim o [ none ↦ if c && (a.addr == k) then some a else none | some b ↦ some b ])
              (get k m)
    joined true none = get-insert a.addr k a.free_seq m ∙ here (a.addr == k) (get k m)
    joined false none = refl
    joined c (some b) = refl

abbrev pub from_first : Option ℕ → Option StampEvent → Option ℕ
from_first (some n) o = some n
from_first none none = none
from_first none (some s) = some s.seq

pub get-first_stamps :
    (k : ℕ) (stamps : List StampEvent) (m : KeyMap ℕ ℕ)
    → get k (first_stamps m stamps) ≡ from_first (get k m) (first_stamp k stamps)
get-first_stamps k [] m = unchanged (get k m)
  where
    unchanged : (o : Option ℕ) → o ≡ from_first o none
    unchanged none = refl
    unchanged (some n) = refl
get-first_stamps k (s ∷ stamps) m =
    get-first_stamps k stamps
      (if is_alloc_site s || is_some (get s.addr m) then m else insert s.addr s.seq m)
    ∙ subst
        (λ (c : Bool).
          from_first
            (get k (if is_alloc_site s || is_some (get s.addr m) then m else insert s.addr s.seq m))
            (first_stamp k stamps)
          ≡ from_first (get k m) (if not c && (s.addr == k) then some s else first_stamp k stamps))
        (is_alloc_site_lem s) (joined (is_alloc_site s))
  where
    at_key :
        (o : Option ℕ) (f : Option StampEvent)
        → get k m ≡ o
        → s.addr ≡ k
        → from_first (get k (if is_some (get s.addr m) then m else insert s.addr s.seq m)) f
          ≡ from_first (get k m) (some s)
    at_key none f e key =
        let free : get s.addr m ≡ none = (λ i. get (key i) m) ∙ e in
        rw (free, get-insert s.addr k s.seq m, e, (==_iff s.addr k).1 key) refl
    at_key (some v) f e key =
        let held : get s.addr m ≡ some v = (λ i. get (key i) m) ∙ e in rw (held, e) refl

    joined :
        (c : Bool)
        → from_first
            (get k (if c || is_some (get s.addr m) then m else insert s.addr s.seq m))
            (first_stamp k stamps)
          ≡ from_first (get k m) (if not c && (s.addr == k) then some s else first_stamp k stamps)
    joined true = refl
    joined false = elim (Bool-cases (s.addr == k)) [
      | inl same ↦ rw same (at_key (get k m) (first_stamp k stamps) refl ((==_iff s.addr k).0 same))
      | inr other ↦ rw other (
          ap (λ o. from_first o (first_stamp k stamps))
            (if_rule (λ (n : KeyMap ℕ ℕ). get k n ≡ get k m) (is_some (get s.addr m)) refl
              (get-insert s.addr k s.seq m ∙ rw other refl)))
    ]
