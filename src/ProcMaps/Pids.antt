-- ===== src/ProcMaps/Pids.antt =====
-- The processes that a region of engine/src/proc_maps.rs is seen in: sorted, without repetition.
use rtmap.Base.{
  ℕ, ◌≡◌, refl, sym, ◌∙◌, Bool, true, false, not, ◌||◌, List, [], ◌∷◌, map, ◌==◌, leb, arith, any,
  length, Bool-cases, inl, inr, ==_iff,
}
use rtmap.ProcMaps.{Mapping, dedup, sort_unstable, sort_into, seen_pids}

abbrev pub other_than : ℕ → ℕ → Bool
other_than x y = not (y == x)

dedup_more : (x : ℕ) (xs : List ℕ) → leb 1 (length (dedup (x ∷ xs))) ≡ true
dedup_more x [] = refl
dedup_more x (y ∷ ys) = ground (arith, dedup_more y ys)

dedup-length : (x : ℕ) (xs : List ℕ) → leb 2 (length (dedup (x ∷ xs))) ≡ any (other_than x) xs
dedup-length x [] = refl
dedup-length x (y ∷ ys) = elim (Bool-cases (x == y)) [
  | inl same ↦
      let key : x ≡ y = (==_iff x y).0 same in
      let as_one : any (other_than x) ys ≡ any (other_than y) ys =
        λ i. any (other_than (key i)) ys in
      ground (arith, same, as_one, dedup-length y ys)
  | inr other ↦ ground (arith, other, dedup_more y ys)
]

sort_into-any : (p : ℕ → Bool) (x : ℕ) (ys : List ℕ) → any p (sort_into x ys) ≡ (p x || any p ys)
sort_into-any p x [] = ground arith
sort_into-any p x (y ∷ ys) = ground (arith, sort_into-any p x ys)

sort_unstable-any : (p : ℕ → Bool) (xs : List ℕ) → any p (sort_unstable xs) ≡ any p xs
sort_unstable-any p [] = refl
sort_unstable-any p (x ∷ xs) =
    sort_into-any p x (sort_unstable xs) ∙ ground (arith, sort_unstable-any p xs)

another :
    (a b : ℕ) (xs : List ℕ)
    → (a == b) ≡ false
    → any (λ y. y == b) xs ≡ true
    → any (other_than a) xs ≡ true
another a b [] d h = cc
another a b (x ∷ xs) d h = ground (arith, another a b xs d)

-- Of two members, either tells whether there is another.
any-other_than :
    (a b : ℕ) (xs : List ℕ)
    → any (λ y. y == a) xs ≡ true
    → any (λ y. y == b) xs ≡ true
    → any (other_than a) xs ≡ any (other_than b) xs
any-other_than a b xs ha hb = elim (Bool-cases (a == b)) [
  | inl same ↦ let key : a ≡ b = (==_iff a b).0 same in λ i. any (other_than (key i)) xs
  | inr diff ↦ another a b xs diff hb ∙ sym (another b a xs (ground arith) ha)
]

distinct_from :
    (x : ℕ) (xs sorted : List ℕ)
    → ((p : ℕ → Bool) → any p sorted ≡ any p (x ∷ xs))
    → leb 2 (length (dedup sorted)) ≡ any (other_than x) xs
distinct_from x xs [] h = absurd (no (h (λ _. true)))
  where
    no : false ≡ true → ⊥
    no e = cc
distinct_from x xs (y ∷ ys) h =
    let mine : any (λ z. z == y) (x ∷ xs) ≡ true = sym (h (λ z. z == y)) ∙ ground arith in
    let swapped = any-other_than y x (x ∷ xs) mine (ground arith) in
    dedup-length y ys ∙ skip_self y ys ∙ h (other_than y) ∙ swapped ∙ sym (skip_self x xs)
  where
    skip_self : (a : ℕ) (zs : List ℕ) → any (other_than a) zs ≡ any (other_than a) (a ∷ zs)
    skip_self a zs = ground arith

-- Some mapping is of another process than the first one's.
unfoldable pub is_of_several : List Mapping → Bool
is_of_several [] = false
is_of_several (m ∷ ms) = any (other_than m.pid) (map (λ n. n.pid) ms)

pub seen_pids-is_of_several : (ms : List Mapping) → leb 2 (length (seen_pids ms)) ≡ is_of_several ms
unfolding is_of_several
seen_pids-is_of_several [] = refl
seen_pids-is_of_several (m ∷ ms) =
    let pids = map (λ n. n.pid) ms in
    distinct_from m.pid pids (sort_unstable (m.pid ∷ pids))
      (λ p. sort_unstable-any p (m.pid ∷ pids))
