-- ===== src/Circular/Rotate.antt =====
-- Reading a full circular vector from its write position on.
use rtmap.Base.{
  ℕ, zero, suc, ◌+◌, ◌-◌, ◌%◌, ◌<◌, ◌≡◌, refl, sym, ap, ◌∙◌, List, [], ◌∷◌, ◌++◌, arith, ltb,
  if◌then◌else◌, length, get_elem?, set, take, drop, length-append, length-set, length-take,
  length-drop,
}
use mathlib.Core.List.{append-nil, append_assoc}
use Prim.Native.Nat.add
use native.Mathlib.Decide.{dec_lt}
use native.Mathlib.Numerals.{add-one}
use native.Mathlib.Nat.{mod-eq_of_lt, mod-eq-sub-mod}

module _ {ℓ} {A : Type ℓ} where
  abbrev pub rotate : ℕ → List A → List A
  rotate h xs = drop h xs ++ take h xs

  -- What a bounded history of `cap` elements holds after one more.
  abbrev pub keep_last : ℕ → List A → A → List A
  keep_last cap xs e = drop (length xs + 1 - cap) (xs ++ e ∷ [])

  pub rotate-length : (xs : List A) → rotate (length xs) xs ≡ xs
  rotate-length xs = drops xs
    where
      none_left : (ys : List A) → drop (length ys) ys ≡ []
      none_left [] = refl
      none_left (y ∷ ys) = none_left ys

      all_taken : (ys : List A) → take (length ys) ys ≡ ys
      all_taken [] = refl
      all_taken (y ∷ ys) = ap (◌∷◌ y) (all_taken ys)

      drops : (ys : List A) → rotate (length ys) ys ≡ ys
      drops ys = rw (none_left ys, all_taken ys)

  pub drop-set : (xs : List A) (h : ℕ) (v : A) → drop (suc h) (set xs h v) ≡ drop (suc h) xs
  drop-set [] h v = refl
  drop-set (x ∷ xs) zero v = refl
  drop-set (x ∷ xs) (suc h) v = drop-set xs h v

  pub take-set :
      (xs : List A) (h : ℕ) (v : A)
      → h < length xs
      → take (suc h) (set xs h v) ≡ take h xs ++ v ∷ []
  take-set [] h v lt = elim lt [ ]
  take-set (x ∷ xs) zero v lt = refl
  take-set (x ∷ xs) (suc h) v lt = ap (◌∷◌ x) (take-set xs h v (omega arith))

  pub drop_one :
      (xs ys : List A) (h : ℕ) → h < length xs → drop 1 (drop h xs ++ ys) ≡ drop (suc h) xs ++ ys
  drop_one [] ys h lt = elim lt [ ]
  drop_one (x ∷ xs) ys zero lt = refl
  drop_one (x ∷ xs) ys (suc h) lt = drop_one xs ys h (omega arith)

  -- Overwriting the oldest element and moving on drops it and appends the new one.
  pub rotate-set :
      (xs : List A) (h : ℕ) (v : A)
      → h < length xs
      → rotate (suc h) (set xs h v) ≡ drop 1 (rotate h xs ++ v ∷ [])
  rotate-set xs h v lt = rw (
    drop-set xs h v,
    take-set xs h v lt,
    append_assoc (drop h xs) (take h xs) (v ∷ []),
    drop_one xs (take h xs ++ v ∷ []) h lt,
  )

  pub length-rotate : (h : ℕ) (xs : List A) → length (rotate h xs) ≡ length xs
  length-rotate h xs =
      omega (arith, length-append (drop h xs) (take h xs), length-drop h xs, length-take h xs)

  pub rotate-set_mod :
      (xs : List A) (h cap : ℕ) (v : A)
      → h < cap
      → length xs ≡ cap
      → rotate ((h + 1) % cap) (set xs h v) ≡ keep_last cap (rotate h xs) v
  rotate-set_mod xs h cap v lt e = elim (dec_lt (h + 1) cap) [
    | yes p ↦ rw (mod-eq_of_lt p, add-one, rotate-set xs h v (omega arith), one_more)
    | no p ↦
        let last : (h + 1) % cap ≡ 0 =
          omega (arith, mod-eq-sub-mod {n = h + 1} {m = cap} (omega arith)) in
        let full : suc h ≡ length (set xs h v) = omega (arith, length-set xs h v) in
        rw (last, append-nil, one_more)
          (sym (rotate-length (set xs h v))
            ∙ ap (λ n. rotate n (set xs h v)) (sym full)
            ∙ rotate-set xs h v (omega arith))
  ]
    where
      one_more : length (rotate h xs) + 1 - cap ≡ 1
      one_more = omega (arith, length-rotate h xs)

  pub get_elem?-append :
      (xs ys : List A) (i : ℕ)
      → get_elem? (xs ++ ys) i
        ≡ (if ltb i (length xs) then get_elem? xs i else get_elem? ys (i - length xs))
  get_elem?-append [] ys i = ground arith
  get_elem?-append (x ∷ xs) ys zero = ground arith
  get_elem?-append (x ∷ xs) ys (suc i) =
      let e : suc i - suc (length xs) ≡ i - length xs = omega arith in
      rw (e, get_elem?-append xs ys i) (ground arith)

  pub get_elem?-drop :
      (h : ℕ) (xs : List A) (i : ℕ) → get_elem? (drop h xs) i ≡ get_elem? xs (h + i)
  get_elem?-drop zero xs i = rw add.zero refl
  get_elem?-drop (suc h) [] i = refl
  get_elem?-drop (suc h) (x ∷ xs) i = rw add.suc (get_elem?-drop h xs i)

  pub get_elem?-take :
      (h : ℕ) (xs : List A) (i : ℕ) → i < h → get_elem? (take h xs) i ≡ get_elem? xs i
  get_elem?-take zero xs i lt = elim lt [ ]
  get_elem?-take (suc h) [] i lt = refl
  get_elem?-take (suc h) (x ∷ xs) zero lt = refl
  get_elem?-take (suc h) (x ∷ xs) (suc i) lt = get_elem?-take h xs i (omega arith)

  -- The `i`-th oldest element stands `i` places after the write position, going round.
  pub get_elem?-rotate :
      (h : ℕ) (xs : List A) (i cap : ℕ)
      → length xs ≡ cap
      → h < cap
      → i < cap
      → get_elem? (rotate h xs) i ≡ get_elem? xs ((h + i) % cap)
  get_elem?-rotate h xs i cap e lt li = elim (dec_lt (h + i) cap) [
    | yes p ↦
        rw (get_elem?-append (drop h xs) (take h xs) i, length-drop h xs, mod-eq_of_lt p)
          (ground (arith, get_elem?-drop h xs i))
    | no p ↦
        let wrapped : (h + i) % cap ≡ h + i - cap = omega (
          arith,
          mod-eq-sub-mod {n = h + i} {m = cap} (omega arith),
          mod-eq_of_lt {n = h + i - cap} {m = cap} (omega arith),
        ) in
        let past : i - (length xs - h) ≡ h + i - cap = omega arith in
        rw (get_elem?-append (drop h xs) (take h xs) i, length-drop h xs, wrapped, past)
          (ground (arith, get_elem?-take h xs (h + i - cap) (omega arith)))
  ]
