-- ===== src/Check/Verdicts/Sound.antt =====
-- `eval_one` and `evaluate` of engine/src/check.rs answer what the assertions mean.
use rtmap.Base.{
  ℕ, suc, ◌+◌, ◌/◌, ◌<◌, ◌≡◌, ◌≢◌, ◌↔◌, refl, sym, ◌∙◌, ap, Bool, true, false, not, ◌&&◌, List, [],
  ◌∷◌, Option, none, some, ◌==◌, ltb, leb, arith, if◌then◌else◌, length, retain, any, all, All,
  All-map, ==_iff,
}
use mathlib.Core.Path.{subst}
use rtmap.Base.KeyMap.{nat_key, get}
use rtmap.Base.Texts.{Text, same_text, same_text_iff}
use rtmap.Check.{TopoGraph, AllocEvent, StampEvent, LinkEvent}
use rtmap.Check.Chains.{chain_length, chain_length-IsLength}
use rtmap.Check.Assertions.{
  Assertion, no_hazards, alloc_before_stamp, no_use_after_free, monotonic_seq, stamp_before_link,
  live_allocs_lt, stm_projections_gt, max_chain, type_stable, no_false_sharing,
}
use rtmap.Check.Verdicts.{
  live_alloc_count, is_type_stable, count_if, is_unallocated, freed_from, is_behind, drops,
  alloc_seqs, stamp_seqs, link_seqs, first_stamps, is_before, is_unstamped, address_of, apart,
  below, eval_one,
}
use rtmap.Check.Verdicts.Walks.{Shorter, stamped_as, chain_length-Shorter}
use rtmap.Check.Verdicts.Names.{
  live_alloc_count_lem, alloc_seqs_lem, stamp_seqs_lem, link_seqs_lem, address_of-StandsFor,
}
use rtmap.Check.Verdicts.Meaning.{
  Holds, Rising, last_free, first_stamp, Until, Since, ascending, drops_none, All_zero, count_iff,
  sum_iff, from_last, from_first, get-freed_from, get-first_stamps,
}

All_iff {ℓ} :
    {A : Type ℓ} {P Q : A → Type 0} → ((a : A) → P a ↔ Q a) → (xs : List A) → All P xs ↔ All Q xs
All_iff f xs = (All-map (λ a. (f a).0) xs, All-map (λ a. (f a).1) xs)

iff_trans : {P Q R : Type 0} → P ↔ Q → Q ↔ R → P ↔ R
iff_trans f g = (λ p. g.0 (f.0 p), λ r. f.1 (g.1 r))

iff_both : {P Q R S : Type 0} → P ↔ R → Q ↔ S → (P × Q) ↔ (R × S)
iff_both f g = (λ p. (f.0 p.0, g.0 p.1), λ r. (f.1 r.0, g.1 r.1))

ltb_iff : (a b : ℕ) → (ltb a b ≡ true) ↔ (a < b)
ltb_iff a b = ground arith

bools_differ : true ≡ false → ⊥
bools_differ h = cc

and_false : (b : Bool) → (b && false) ≡ false
and_false true = refl
and_false false = refl

-- A count of violations is 0.
module _ {ℓ} {A : Type ℓ} (p : A → Bool) (Q : A → Type 0) where
  none_iff : ((a : A) → (p a ≡ false) ↔ Q a) → (xs : List A) → (count_if p xs ≡ 0) ↔ All Q xs
  none_iff f xs = iff_trans (count_iff p xs) (All_iff f xs)

drops_iff : (ss : List ℕ) → (drops 0 ss ≡ 0) ↔ Rising ss
drops_iff ss = (λ h. (ascending 0 ss h).1, λ r. drops_none 0 ss (All_zero ss) r)

is_behind_iff :
    (seq addr : ℕ) (allocs : List AllocEvent)
    → (is_behind seq (get addr (freed_from [] allocs)) ≡ false) ↔ Until seq (last_free addr allocs)
is_behind_iff seq addr allocs =
    subst (λ (o : Option ℕ). (is_behind seq o ≡ false) ↔ Until seq (last_free addr allocs))
      (sym (get-freed_from addr allocs [])) (by_free (last_free addr allocs))
  where
    by_free : (o : Option AllocEvent) → (is_behind seq (from_last o none) ≡ false) ↔ Until seq o
    by_free none = (λ h. tt, λ u. refl)
    by_free (some a) = ground arith

is_unstamped_iff :
    (l : LinkEvent) (stamps : List StampEvent)
    → (is_unstamped (first_stamps [] stamps) l ≡ false)
      ↔ (l.to_addr ≢ 0 → Since l.seq (first_stamp l.to_addr stamps))
is_unstamped_iff l stamps =
    subst
      (λ (o : Option ℕ).
        ((not (l.to_addr == 0) && is_before l.seq o) ≡ false)
        ↔ (l.to_addr ≢ 0 → Since l.seq (first_stamp l.to_addr stamps)))
      (sym (get-first_stamps l.to_addr stamps [])) (by_stamp (first_stamp l.to_addr stamps))
  where
    by_stamp :
        (o : Option StampEvent)
        → ((not (l.to_addr == 0) && is_before l.seq (from_first none o)) ≡ false)
          ↔ (l.to_addr ≢ 0 → Since l.seq o)
    by_stamp none = (λ h n. tt, λ f. and_false (not (l.to_addr == 0)))
    by_stamp (some s) = ground arith

stable_iff :
    (source expected : Text) (stamps : List StampEvent)
    → (all (λ s. same_text s.type_name expected) (retain (λ s. same_text s.source source) stamps)
        ≡ true)
      ↔ All (λ s. s.source ≡ source → s.type_name ≡ expected) stamps
stable_iff source expected [] = (λ h. tt, λ a. refl)
stable_iff source expected (s ∷ stamps) =
    by_test (stable_iff source expected stamps) (same_text s.source source) refl
      (same_text s.type_name expected) refl
  where
    rest_holds : Bool
    rest_holds =
        all (λ s. same_text s.type_name expected) (retain (λ s. same_text s.source source) stamps)

    by_test :
        (rest_holds ≡ true) ↔ All (λ s. s.source ≡ source → s.type_name ≡ expected) stamps
        → (b : Bool) → same_text s.source source ≡ b
        → (c : Bool) → same_text s.type_name expected ≡ c
        → (all
              (λ s. same_text s.type_name expected)
              (if b
                then s ∷ retain (λ s. same_text s.source source) stamps
                else retain (λ s. same_text s.source source) stamps)
            ≡ true)
          ↔ ((s.source ≡ source → s.type_name ≡ expected)
              × All (λ s. s.source ≡ source → s.type_name ≡ expected) stamps)
    by_test rest true e true f = (
      λ h. (λ q. (same_text_iff s.type_name expected).0 f, rest.0 (sym (rw f refl) ∙ h)),
      λ a. rw f (rest.1 a.1),
    )
    by_test rest true e false f = (
      λ h. absurd (bools_differ (sym h ∙ rw f refl)),
      λ a. absurd (
          bools_differ (
            sym ((same_text_iff s.type_name expected).1 (a.0 ((same_text_iff s.source source).0 e)))
            ∙ f)),
    )
    by_test rest false e c f = (
      λ h. (λ q. absurd (bools_differ (sym ((same_text_iff s.source source).1 q) ∙ e)), rest.0 h),
      λ a. rest.1 a.1,
    )

unallocated_iff :
    (allocs : List AllocEvent) (s : StampEvent)
    → (is_unallocated allocs s ≡ false) ↔ (
        any (λ a. a.addr == s.addr) allocs ≡ true
        → any (λ a. (a.addr == s.addr) && leb a.seq s.seq) allocs ≡ true)
unfolding is_unallocated
unallocated_iff allocs s =
    implied (any (λ a. a.addr == s.addr) allocs)
      (any (λ a. (a.addr == s.addr) && leb a.seq s.seq) allocs)
  where
    implied : (u v : Bool) → ((u && not v) ≡ false) ↔ (u ≡ true → v ≡ true)
    implied true true = (λ h e. refl, λ f. refl)
    implied true false = (λ h e. absurd (bools_differ h), λ f. absurd (bools_differ (sym (f refl))))
    implied false v = (λ h e. absurd (bools_differ (sym e)), λ f. refl)

some_inj : {x y : ℕ} → some x ≡ some y → x ≡ y
some_inj h = cc

apart_iff :
    (o p : Option ℕ) → (apart o p ≡ true) ↔ ((x y : ℕ) → o ≡ some x → p ≡ some y → x / 64 ≢ y / 64)
apart_iff none p = (λ h x y e f. cc, λ a. refl)
apart_iff (some a) none = (λ h x y e f. cc, λ a. refl)
apart_iff (some a) (some b) = (
  λ h x y e f same.
      let key : a / 64 ≡ b / 64 =
        ap (λ n. n / 64) (some_inj e) ∙ same ∙ sym (ap (λ n. n / 64) (some_inj f)) in
      ground (arith, h, key),
  λ other. let not_same = other a b refl refl in ground (arith, not_same),
)

chain_iff :
    (g : TopoGraph) (t f : Text) (limit : ℕ)
    → (below (chain_length (suc (length g.edges)) t f g) limit ≡ true)
      ↔ ((0 < limit) × Shorter g.edges f limit (stamped_as t g))
chain_iff g t f limit =
    let (n, (bound, runs)) = chain_length-IsLength t f g in
    let run : chain_length (suc (length g.edges)) t f g ≡ some n =
      runs (suc (length g.edges)) (omega arith) in
    iff_trans
      (
        λ h. (ltb_iff n limit).0 (sym (ap (λ o. below o limit) run) ∙ h),
        λ l. ap (λ o. below o limit) run ∙ (ltb_iff n limit).1 l,
      )
      (chain_length-Shorter g t f limit n run)

no_elements_iff {ℓ} : {A : Type ℓ} (xs : List A) → ((length xs == 0) ≡ true) ↔ (xs ≡ [])
no_elements_iff [] = (λ h. refl, λ h. refl)
no_elements_iff (x ∷ xs) = (λ h. absurd (ground (arith, h)), λ h. absurd (cons_nil h))
  where
    cons_nil : x ∷ xs ≡ [] → ⊥
    cons_nil h = cc

sum_of_three_iff : (a b c : ℕ) → ((a + b + c == 0) ≡ true) ↔ ((a ≡ 0) × (b ≡ 0) × (c ≡ 0))
sum_of_three_iff a b c = (
  λ h. (ground (arith, h), ground (arith, h), ground (arith, h)),
  λ r. ground (arith, r.0, r.1, r.2),
)

-- For every topology, the checker's verdict on an assertion is this meaning of it, which is stated
-- apart from the code: no hazard is recorded; fewer allocations than the limit are left unfreed at
-- the end of the file; the summary has more projections than the bound; the limit is not 0, and
-- every walk along the edges of the name that starts at an object stamped with the type and visits
-- no object twice has fewer objects than the limit; every stamp of the source has the type; every
-- stamp of an address that has any allocation comes no earlier than some allocation of it; no stamp
-- and no link target comes later than the free of the last listed allocation of its address that
-- was freed at a number other than 0; the numbers never fall in the allocations, in the links, and
-- in the stamps but those whose source begins with alloc@; no link to an address other than 0 comes
-- before the first stamp of its target whose source does not begin so, where it has one; the two
-- names stand for addresses in different lines of 64 bytes, where both stand for one.
pub eval_one-Holds : (g : TopoGraph) (a : Assertion) → (eval_one g a ≡ true) ↔ Holds g a
unfolding eval_one is_type_stable
eval_one-Holds g no_hazards = no_elements_iff g.hazards
eval_one-Holds g (live_allocs_lt limit) =
    subst (λ n. (ltb (live_alloc_count g) limit ≡ true) ↔ (n < limit)) (live_alloc_count_lem g)
      (ltb_iff (live_alloc_count g) limit)
eval_one-Holds g (stm_projections_gt min) = ltb_iff min g.summary.stm_projections
eval_one-Holds g (max_chain t f limit) = chain_iff g t f limit
eval_one-Holds g (type_stable source expected) = stable_iff source expected g.stamps
eval_one-Holds g alloc_before_stamp =
    iff_trans (==_iff _ 0)
      (none_iff (is_unallocated g.allocs) _ (unallocated_iff g.allocs) g.stamps)
eval_one-Holds g no_use_after_free = iff_trans (sum_iff _ _) (
    iff_both (none_iff _ _ (λ s. is_behind_iff s.seq s.addr g.allocs) g.stamps)
      (none_iff _ _ (λ l. is_behind_iff l.seq l.to_addr g.allocs) g.links))
eval_one-Holds g monotonic_seq =
    let by_allocs =
      subst (λ ns. (drops 0 (alloc_seqs g.allocs) ≡ 0) ↔ Rising ns) (alloc_seqs_lem g.allocs)
        (drops_iff (alloc_seqs g.allocs)) in
    let by_stamps =
      subst (λ ns. (drops 0 (stamp_seqs g.stamps) ≡ 0) ↔ Rising ns) (stamp_seqs_lem g.stamps)
        (drops_iff (stamp_seqs g.stamps)) in
    let by_links =
      subst (λ ns. (drops 0 (link_seqs g.links) ≡ 0) ↔ Rising ns) (link_seqs_lem g.links)
        (drops_iff (link_seqs g.links)) in
    iff_trans (sum_of_three_iff _ _ _) (
      λ n. (by_allocs.0 n.0, by_stamps.0 n.1, by_links.0 n.2),
      λ r. (by_allocs.1 r.0, by_stamps.1 r.1, by_links.1 r.2),
    )
eval_one-Holds g stamp_before_link =
    iff_trans (==_iff _ 0) (none_iff _ _ (λ l. is_unstamped_iff l g.stamps) g.links)
eval_one-Holds g (no_false_sharing a b) = iff_trans (apart_iff (address_of a g) (address_of b g)) (
  λ h x y p q. h x y ((address_of-StandsFor g a x).1 p) ((address_of-StandsFor g b y).1 q),
  λ h x y p q. h x y ((address_of-StandsFor g a x).0 p) ((address_of-StandsFor g b y).0 q),
)
