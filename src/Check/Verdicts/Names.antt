-- ===== src/Check/Verdicts/Names.antt =====
-- The counts, numbers and names that `eval_one` of engine/src/check.rs reads off a topology, in plain terms.
use rtmap.Base.{
  ℕ, suc, ◌≡◌, ◌≢◌, ◌↔◌, ◌⊎◌, inl, inr, refl, sym, ◌∙◌, ap, Bool, true, false, not, ◌||◌, List, [],
  ◌∷◌, Option, none, some, map, retain, find, length, if◌then◌else◌,
}
use rtmap.Base.KeyMap.{get}
use rtmap.Base.Texts.{Text, text_key, same_text, same_text_iff}
use rtmap.Check.{TopoGraph, AllocEvent, StampEvent, LinkEvent}
use rtmap.Check.Verdicts.{
  live_alloc_count, alloc_seqs, stamp_seqs, link_seqs, is_alloc_site, address_of,
}
use rtmap.Check.Verdicts.Meaning.{at_allocation, is_alloc_site_lem, unfreed, FirstNamed, StandsFor}

count_left : (allocs : List AllocEvent) → length (retain (λ a. not a.freed) allocs) ≡ unfreed allocs
count_left [] = refl
count_left (a ∷ allocs) = by_freed a.freed (count_left allocs)
  where
    by_freed :
        (b : Bool)
        → length (retain (λ x. not x.freed) allocs) ≡ unfreed allocs
        → length (
            if not b
            then a ∷ retain (λ x. not x.freed) allocs
            else retain (λ x. not x.freed) allocs)
          ≡ (if b then unfreed allocs else suc (unfreed allocs))
    by_freed true e = e
    by_freed false e = ap suc e

pub live_alloc_count_lem : (g : TopoGraph) → live_alloc_count g ≡ unfreed g.allocs
unfolding live_alloc_count
live_alloc_count_lem g = count_left g.allocs

pub alloc_seqs_lem : (allocs : List AllocEvent) → alloc_seqs allocs ≡ map (λ a. a.seq) allocs
alloc_seqs_lem [] = refl
alloc_seqs_lem (a ∷ allocs) = ap (λ ns. a.seq ∷ ns) (alloc_seqs_lem allocs)

pub link_seqs_lem : (links : List LinkEvent) → link_seqs links ≡ map (λ l. l.seq) links
link_seqs_lem [] = refl
link_seqs_lem (l ∷ links) = ap (λ ns. l.seq ∷ ns) (link_seqs_lem links)

pub stamp_seqs_lem :
    (stamps : List StampEvent)
    → stamp_seqs stamps ≡ map (λ s. s.seq) (retain (λ s. not (at_allocation s)) stamps)
stamp_seqs_lem [] = refl
stamp_seqs_lem (s ∷ stamps) =
    by_site (is_alloc_site s) (stamp_seqs_lem stamps)
    ∙ ap (λ b. map (λ x. x.seq) (if not b then s ∷ others else others)) (is_alloc_site_lem s)
  where
    others : List StampEvent
    others = retain (λ x. not (at_allocation x)) stamps

    by_site :
        (b : Bool)
        → stamp_seqs stamps ≡ map (λ x. x.seq) others
        → (if b then stamp_seqs stamps else s.seq ∷ stamp_seqs stamps)
          ≡ map (λ x. x.seq) (if not b then s ∷ others else others)
    by_site true e = e
    by_site false e = ap (λ ns. s.seq ∷ ns) e

-- What the search among the stamps answers.
abbrev stamp_of_name : Text → List StampEvent → Option StampEvent
stamp_of_name name = find (λ s. same_text s.source name || same_text s.type_name name)

abbrev addr_of : Option StampEvent → Option ℕ
addr_of none = none
addr_of (some s) = some s.addr

some_inj : {x y : ℕ} → some x ≡ some y → x ≡ y
some_inj h = cc

apart_texts : (s t : Text) → same_text s t ≡ false → s ≢ t
apart_texts s t h e = bools_differ (sym ((same_text_iff s t).1 e) ∙ h)
  where
    bools_differ : true ≡ false → ⊥
    bools_differ h' = cc

found_FirstNamed :
    (name : Text) (stamps : List StampEvent) (x : ℕ)
    → (addr_of (stamp_of_name name stamps) ≡ some x) ↔ FirstNamed name stamps x
found_FirstNamed name [] x = (λ h. cc, λ f. absurd f)
found_FirstNamed name (s ∷ stamps) x =
    by_tests (found_FirstNamed name stamps x) (same_text s.source name) refl
      (same_text s.type_name name) refl
  where
    by_tests :
        (addr_of (stamp_of_name name stamps) ≡ some x) ↔ FirstNamed name stamps x
        → (b : Bool) → same_text s.source name ≡ b
        → (c : Bool) → same_text s.type_name name ≡ c
        → (addr_of (if b || c then some s else stamp_of_name name stamps) ≡ some x)
          ↔ FirstNamed name (s ∷ stamps) x
    by_tests rest true e c f = (
      λ h. inl (inl ((same_text_iff s.source name).0 e), some_inj h),
      λ w. elim w [
        | inl (n, a) ↦ ap (λ k. some k) a
        | inr (n, m, l) ↦ absurd (n ((same_text_iff s.source name).0 e))
      ],
    )
    by_tests rest false e true f = (
      λ h. inl (inr ((same_text_iff s.type_name name).0 f), some_inj h),
      λ w. elim w [
        | inl (n, a) ↦ ap (λ k. some k) a
        | inr (n, m, l) ↦ absurd (m ((same_text_iff s.type_name name).0 f))
      ],
    )
    by_tests rest false e false f = (
      λ h. inr (apart_texts s.source name e, apart_texts s.type_name name f, rest.0 h),
      λ w. elim w [
        | inl (n, a) ↦ elim n [
          | inl q ↦ absurd (apart_texts s.source name e q)
          | inr q ↦ absurd (apart_texts s.type_name name f q)
        ]
        | inr (n, m, l) ↦ rest.1 l
      ],
    )

pub address_of-StandsFor :
    (g : TopoGraph) (name : Text) (x : ℕ) → (address_of name g ≡ some x) ↔ StandsFor g name x
unfolding address_of
address_of-StandsFor g name x =
    by_target (get name g.source_targets) (found_FirstNamed name g.stamps x)
  where
    by_target :
        (o : Option ℕ)
        → (addr_of (stamp_of_name name g.stamps) ≡ some x) ↔ FirstNamed name g.stamps x
        → (elim o [
          | none ↦ elim (stamp_of_name name g.stamps) [ none ↦ none | some s ↦ some s.addr ]
          | some a ↦ some a
        ]
            ≡ some x)
          ↔ ((o ≡ some x) ⊎ ((o ≡ none) × FirstNamed name g.stamps x))
    by_target none found = (
      λ h. inr (refl, found.0 (as_addr (stamp_of_name name g.stamps) ∙ h)),
      λ w. elim w [
        | inl h ↦ cc
        | inr (h, l) ↦ sym (as_addr (stamp_of_name name g.stamps)) ∙ found.1 l
      ],
    )
      where
        as_addr :
            (o : Option StampEvent) → addr_of o ≡ elim o [ none ↦ none | some s ↦ some s.addr ]
        as_addr none = refl
        as_addr (some s) = refl
    by_target (some a) found = (λ h. inl h, λ w. elim w [ inl h ↦ h | inr (h, l) ↦ cc ])
