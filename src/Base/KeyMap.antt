-- ===== src/Base/KeyMap.antt =====
-- A hash map, or a map whose order nothing depends on: an association list over keys with equality.
use mathlib.Core.Path.{◌≡◌, refl, sym, ◌∙◌}
use mathlib.Core.Bool.{Bool, true, false}
use mathlib.Core.Logic.{◌↔◌, inl, inr}
use mathlib.Core.List.{List, [], ◌∷◌}
use mathlib.Core.Option.{Option, none, some}
use native.Mathlib.Omega.{arith}
use rtmap.Base.Tests.{if◌then◌else◌, ◌==◌, ==_iff, Bool-cases, if_rule, if_cases}
use rtmap.Base.Lists.{retain, All}
use Prim.Native.Nat.{ℕ}

-- Keys with a test for equality.
pub record Key {ℓ} (K : Type ℓ) : Type ℓ where
  pub same : K → K → Bool
  pub same_iff : (a b : K) → (same a b ≡ true) ↔ (a ≡ b)

instance abbrev pub nat_key : Key ℕ
nat_key = record { same = ◌==◌; same_iff = ==_iff }

abbrev pub KeyMap {ℓ κ} : Type ℓ → Type κ → Type (ℓ ⊔ κ)
KeyMap K V = List (K × V)

module _ {ℓ} {K : Type ℓ} ⦃e : Key K⦄ where
  -- The first key is the one asked for, or the two are told apart by any third.
  pub same_self : (a : K) → e.same a a ≡ true
  same_self a = (e.same_iff a a).1 refl

  pub same_of : (a b c : K) → e.same a b ≡ true → e.same a c ≡ e.same b c
  same_of a b c h = λ i. e.same ((e.same_iff a b).0 h i) c

module _ {ℓ κ} {K : Type ℓ} {V : Type κ} ⦃e : Key K⦄ where
  abbrev pub get : K → KeyMap K V → Option V
  get k [] = none
  get k ((j, v) ∷ m) = if e.same j k then some v else get k m

  abbrev pub remove : K → KeyMap K V → KeyMap K V
  remove k [] = []
  remove k ((j, v) ∷ m) = if e.same j k then remove k m else (j, v) ∷ remove k m

  abbrev pub insert : K → V → KeyMap K V → KeyMap K V
  insert k v m = (k, v) ∷ remove k m

  pub get-remove :
      (k j : K) (m : KeyMap K V) → get j (remove k m) ≡ (if e.same k j then none else get j m)
  get-remove k j [] = ground arith
  get-remove k j ((i, v) ∷ m) = elim (Bool-cases (e.same i k)) [
    | inl gone ↦ rw (gone, same_of i k j gone, get-remove k j m) (ground arith)
    | inr kept ↦ elim (Bool-cases (e.same k j)) [
      | inl asked ↦
          let other : e.same i j ≡ false =
            (λ t. e.same i (sym ((e.same_iff k j).0 asked) t)) ∙ kept in
          rw (kept, other, get-remove k j m, asked) refl
      | inr free ↦ rw (kept, get-remove k j m, free) refl
    ]
  ]

  pub get-insert :
      (k j : K) (v : V) (m : KeyMap K V)
      → get j (insert k v m) ≡ (if e.same k j then some v else get j m)
  get-insert k j v m = elim (Bool-cases (e.same k j)) [
    | inl asked ↦ rw asked refl
    | inr free ↦ rw (free, get-remove k j m, free) refl
  ]

  -- Every key stands in the map once.
  abbrev pub IsMap : KeyMap K V → Type κ
  IsMap [] = Unit
  IsMap ((j, v) ∷ m) = (get j m ≡ none) × IsMap m

  pub get-retain-none :
      (p : K × V → Bool) (k : K) (m : KeyMap K V) → get k m ≡ none → get k (retain p m) ≡ none
  get-retain-none p k [] h = refl
  get-retain-none p k ((j, v) ∷ m) h = ground (arith, get-retain-none p k m)

  -- `retain` keeps an entry where the test holds of it.
  pub get-retain :
      (p : K × V → Bool) (k : K) (m : KeyMap K V)
      → IsMap m
      → get k (retain p m)
        ≡ elim (get k m) [ none ↦ none | some v ↦ if p (k, v) then some v else none ]
  get-retain p k [] u = refl
  get-retain p k ((j, v) ∷ m) u = elim (Bool-cases (e.same j k)) [
    | inl here ↦
        let key : j ≡ k = (e.same_iff j k).0 here in
        let alone : get k m ≡ none = (λ i. get (sym key i) m) ∙ u.0 in
        let gone = get-retain-none p k m alone in
        let test : p (j, v) ≡ p (k, v) = λ i. p (key i, v) in ground (arith, here, gone, test)
    | inr other ↦ ground (arith, other, get-retain p k m u.1)
  ]

  pub remove-IsMap : (k : K) (m : KeyMap K V) → IsMap m → IsMap (remove k m)
  remove-IsMap k [] u = tt
  remove-IsMap k ((j, v) ∷ m) u = elim (Bool-cases (e.same j k)) [
    | inl gone ↦ rw gone (remove-IsMap k m u.1)
    | inr kept ↦ rw kept (
      get-remove k j m ∙ if_rule (λ (o : Option V). o ≡ none) (e.same k j) refl u.0,
      remove-IsMap k m u.1,
    )
  ]

  pub insert-IsMap : (k : K) (v : V) (m : KeyMap K V) → IsMap m → IsMap (insert k v m)
  insert-IsMap k v m u = (get-remove k k m ∙ rw (same_self k) refl, remove-IsMap k m u)

  pub retain-IsMap : (p : K × V → Bool) (m : KeyMap K V) → IsMap m → IsMap (retain p m)
  retain-IsMap p [] u = tt
  retain-IsMap p ((j, v) ∷ m) u = ground (arith, get-retain-none p j m u.0, retain-IsMap p m u.1)

  put_before :
      (j : K) (v : V) (m n : KeyMap K V)
      → get j m ≡ none
      → All (λ x. get x.0 m ≡ some x.1) n
      → All (λ x. get x.0 ((j, v) ∷ m) ≡ some x.1) n
  put_before j v m [] h a = tt
  put_before j v m ((k, w) ∷ n) h a = (
    if_cases (λ (o : Option V). o ≡ some w) (e.same j k)
        (λ same. absurd (none_some (sym h ∙ (λ i. get ((e.same_iff j k).0 same i) m) ∙ a.0)))
        (λ _. a.0),
    put_before j v m n h a.1,
  )
    where
      none_some : {w : V} → none ≡ some w → ⊥
      none_some h = cc

  -- Each entry is what the map has under its key.
  pub IsMap-stored : (m : KeyMap K V) → IsMap m → All (λ x. get x.0 m ≡ some x.1) m
  IsMap-stored [] u = tt
  IsMap-stored ((j, v) ∷ m) u = (rw (same_self j) refl, put_before j v m m u.0 (IsMap-stored m u.1))
