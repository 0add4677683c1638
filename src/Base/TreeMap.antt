-- ===== src/Base/TreeMap.antt =====
-- `BTreeMap<u64, V>`: an association list in the order of its keys. The laws of `get` hold in any
-- order; those of `range(..=a)` and of the ends need the keys to rise.
use Prim.Native.Nat.{ℕ, suc, ◌≤◌, ◌<◌, compare, Ordering}
use mathlib.Core.Path.{◌≡◌, refl, subst}
use mathlib.Core.Bool.{Bool, true, false}
use mathlib.Core.Logic.{inl, inr}
use mathlib.Core.List.{List, [], ◌∷◌}
use mathlib.Core.Option.{Option, none, some}
use native.Mathlib.Omega.{arith}
use rtmap.Base.Tests.{if◌then◌else◌, leb, ◌==◌, Option-cases, Bool-cases, ==_iff, is_some}
use rtmap.Base.Lists.{length, retain, All}

abbrev pub TreeMap {ℓ} : Type ℓ → Type ℓ
TreeMap V = List (ℕ × V)

module _ {ℓ} {V : Type ℓ} where
  abbrev pub get : ℕ → TreeMap V → Option V
  get k [] = none
  get k ((j, v) ∷ m) = if j == k then some v else get k m

  abbrev pub insert : ℕ → V → TreeMap V → TreeMap V
  insert k v [] = (k, v) ∷ []
  insert k v ((j, w) ∷ m) = elim (compare k j) [
    | Ordering.lt ↦ (k, v) ∷ (j, w) ∷ m
    | Ordering.eq ↦ (k, v) ∷ m
    | Ordering.gt ↦ (j, w) ∷ insert k v m
  ]

  abbrev pub remove : ℕ → TreeMap V → TreeMap V
  remove k [] = []
  remove k ((j, w) ∷ m) = if j == k then remove k m else (j, w) ∷ remove k m

  -- `range(..=a).next_back()`: the last entry whose key is at most `a`.
  abbrev pub last_le : ℕ → TreeMap V → Option (ℕ × V)
  last_le a [] = none
  last_le a ((j, w) ∷ m) = elim (last_le a m) [
    | none ↦ if leb j a then some (j, w) else none
    | some e ↦ some e
  ]

  -- `range(..=a)`, in order.
  abbrev pub range_le : ℕ → TreeMap V → TreeMap V
  range_le a = retain (λ e. leb e.0 a)

  -- `iter().next_back()`
  abbrev pub last_entry : TreeMap V → Option (ℕ × V)
  last_entry [] = none
  last_entry (e ∷ m) = elim (last_entry m) [ none ↦ some e | some f ↦ some f ]

  -- The keys rise strictly, and lie above `lo`.
  abbrev pub Above : ℕ → TreeMap V → Type 0
  Above lo [] = Unit {0}
  Above lo ((j, w) ∷ m) = (lo ≤ j) × Above (suc j) m

  abbrev pub IsOrdered : TreeMap V → Type 0
  IsOrdered m = Above 0 m

  pub get-insert :
      (k j : ℕ) (v : V) (m : TreeMap V)
      → get j (insert k v m) ≡ (if k == j then some v else get j m)
  get-insert k j v [] = refl
  get-insert k j v ((i, w) ∷ m) = ground (arith, get-insert k j v m)

  pub get-remove :
      (k j : ℕ) (m : TreeMap V) → get j (remove k m) ≡ (if k == j then none else get j m)
  get-remove k j [] = ground arith
  get-remove k j ((i, w) ∷ m) = ground (arith, get-remove k j m)

  pub Above-mono : (lo hi : ℕ) (m : TreeMap V) → lo ≤ hi → Above hi m → Above lo m
  Above-mono lo hi [] h a = tt
  Above-mono lo hi ((j, w) ∷ m) h a = (omega arith, a.1)

  pub insert-Above :
      (lo k : ℕ) (v : V) (m : TreeMap V) → lo ≤ k → Above lo m → Above lo (insert k v m)
  insert-Above lo k v [] h a = (h, tt)
  insert-Above lo k v ((j, w) ∷ m) h a =
      ground (arith, insert-Above (suc j) k v m, Above-mono (suc k) (suc j) m)

  pub remove-Above : (lo k : ℕ) (m : TreeMap V) → Above lo m → Above lo (remove k m)
  remove-Above lo k [] a = tt
  remove-Above lo k ((j, w) ∷ m) a =
      ground (arith, remove-Above (suc j) k m a.1, Above-mono lo (suc j) (remove k m))

  pub get_of_Above : (lo k : ℕ) (m : TreeMap V) → Above lo m → k < lo → get k m ≡ none
  get_of_Above lo k [] a h = refl
  get_of_Above lo k ((j, w) ∷ m) a h = ground (arith, get_of_Above (suc j) k m a.1)

  -- What `range(..=a).next_back()` finds is an entry at or below `a`.
  pub last_le-get :
      (lo a k : ℕ) (v : V) (m : TreeMap V)
      → Above lo m
      → last_le a m ≡ some (k, v)
      → (lo ≤ k) × (k ≤ a) × (get k m ≡ some v)
  last_le-get lo a k v [] o e = cc
  last_le-get lo a k v ((j, w) ∷ m) o e = ground (arith, last_le-get (suc j) a k v m o.1)

  pub last_le-none :
      (a i : ℕ) (w : V) (m : TreeMap V) → last_le a m ≡ none → get i m ≡ some w → a < i
  last_le-none a i w [] e g = cc
  last_le-none a i w ((j, u) ∷ m) e g = ground (arith, last_le-none a i w m)

  -- No entry at or below `a` has a greater key.
  pub last_le-max :
      (lo a k i : ℕ) (v w : V) (m : TreeMap V)
      → Above lo m
      → last_le a m ≡ some (k, v)
      → get i m ≡ some w
      → i ≤ a
      → i ≤ k
  last_le-max lo a k i v w [] o e g h = cc
  last_le-max lo a k i v w ((j, u) ∷ m) o e g h = elim (Option-cases (last_le a m)) [
    | inl e' ↦ ground (arith, last_le-none a i w m e')
    | inr ((k', v'), e') ↦
        ground
          (arith, last_le-get (suc j) a k' v' m o.1 e', last_le-max (suc j) a k' i v' w m o.1 e')
  ]

module _ {ℓ} {V : Type ℓ} where
  -- The last entry of an ordered map is in it, and no key is greater.
  pub last_entry-get :
      (lo k : ℕ) (v : V) (m : TreeMap V)
      → Above lo m
      → last_entry m ≡ some (k, v)
      → (lo ≤ k) × (get k m ≡ some v)
  last_entry-get lo k v [] o e = cc
  last_entry-get lo k v ((j, w) ∷ m) o e = elim (Option-cases (last_entry m)) [
    | inl e' ↦ ground (arith, e')
    | inr ((k', v'), e') ↦ ground (arith, last_entry-get (suc j) k' v' m o.1 e')
  ]

  pub last_entry-none : (i : ℕ) (w : V) (m : TreeMap V) → last_entry m ≡ none → get i m ≡ some w → ⊥
  last_entry-none i w [] e g = cc
  last_entry-none i w ((j, u) ∷ m) e g = elim (Option-cases (last_entry m)) [
    | inl e' ↦ ground (arith, e')
    | inr (x, e') ↦ ground (arith, e')
  ]

  pub last_entry-max :
      (lo k i : ℕ) (v w : V) (m : TreeMap V)
      → Above lo m
      → last_entry m ≡ some (k, v)
      → get i m ≡ some w
      → i ≤ k
  last_entry-max lo k i v w [] o e g = cc
  last_entry-max lo k i v w ((j, u) ∷ m) o e g = elim (Option-cases (last_entry m)) [
    | inl e' ↦ let none_left = last_entry-none i w m e' in ground (arith, e', none_left)
    | inr ((k', v'), e') ↦
        ground
          (arith, last_entry-get (suc j) k' v' m o.1 e', last_entry-max (suc j) k' i v' w m o.1 e')
  ]

module _ {ℓ κ} {V : Type ℓ} (P : ℕ × V → Type κ) where
  pub All_of_get : (k : ℕ) (v : V) (m : TreeMap V) → All P m → get k m ≡ some v → P (k, v)
  All_of_get k v [] a e = cc
  All_of_get k v ((j, w) ∷ m) a e = elim (Bool-cases (j == k)) [
    | inl same ↦
        let key : j ≡ k = (==_iff j k).0 same in
        let value : w ≡ v = ground arith in
        subst (λ (x : ℕ). P (x, v)) key (subst (λ (x : V). P (j, x)) value a.0)
    | inr other ↦ All_of_get k v m a.1 (ground arith)
  ]

  pub insert-All : (k : ℕ) (v : V) (m : TreeMap V) → P (k, v) → All P m → All P (insert k v m)
  insert-All k v [] p a = (p, tt)
  insert-All k v ((j, w) ∷ m) p a =
      elim (compare k j)
        as (λ o. All P (elim o [
          | Ordering.lt ↦ (k, v) ∷ (j, w) ∷ m
          | Ordering.eq ↦ (k, v) ∷ m
          | Ordering.gt ↦ (j, w) ∷ insert k v m
        ])) [
          | Ordering.lt ↦ (p, a)
          | Ordering.eq ↦ (p, a.1)
          | Ordering.gt ↦ (a.0, insert-All k v m p a.1)
        ]

  pub remove-All : (k : ℕ) (m : TreeMap V) → All P m → All P (remove k m)
  remove-All k [] a = tt
  remove-All k ((j, w) ∷ m) a =
      elim (j == k) as (λ b. All P (if b then remove k m else (j, w) ∷ remove k m)) [
        | true ↦ remove-All k m a.1
        | false ↦ (a.0, remove-All k m a.1)
      ]

-- `retain` by the keys, or by a test that agrees with one on the keys.
module _ {ℓ} {V : Type ℓ} where
  pub get-retain :
      (p : ℕ → Bool) (k : ℕ) (m : TreeMap V)
      → get k (retain (λ e. p e.0) m) ≡ (if p k then get k m else none)
  get-retain p k [] = ground arith
  get-retain p k ((j, w) ∷ m) = elim (Bool-cases (j == k)) [
    | inl same ↦ let key : j ≡ k = (==_iff j k).0 same in ground (arith, get-retain p k m)
    | inr other ↦ ground (arith, get-retain p k m)
  ]

  pub retain-cong :
      (f g : ℕ × V → Bool) (m : TreeMap V) → All (λ e. f e ≡ g e) m → retain f m ≡ retain g m
  retain-cong f g [] a = refl
  retain-cong f g (e ∷ m) a = rw (a.0, retain-cong f g m a.1)

  pub retain-Above :
      (f : ℕ × V → Bool) (lo : ℕ) (m : TreeMap V) → Above lo m → Above lo (retain f m)
  retain-Above f lo [] a = tt
  retain-Above f lo ((j, w) ∷ m) a =
      ground (arith, retain-Above f (suc j) m a.1, Above-mono lo (suc j) (retain f m))

  pub length-insert :
      (lo k : ℕ) (v : V) (m : TreeMap V)
      → Above lo m
      → length (insert k v m) ≡ (if is_some (get k m) then length m else suc (length m))
  length-insert lo k v [] a = refl
  length-insert lo k v ((j, w) ∷ m) a =
      ground (arith, length-insert (suc j) k v m a.1, get_of_Above (suc j) k m a.1)

  pub length-remove :
      (lo k : ℕ) (m : TreeMap V)
      → Above lo m
      → (if is_some (get k m) then suc (length (remove k m)) else length (remove k m)) ≡ length m
  length-remove lo k [] a = refl
  length-remove lo k ((j, w) ∷ m) a =
      ground (arith, length-remove (suc j) k m a.1, get_of_Above (suc j) k m a.1)
