-- ===== src/HeapOracle/Modules.antt =====
-- `add_module` and `is_heap` of engine/src/heap_graph.rs: the addresses of the modules.
use rtmap.Base.{
  ℕ, suc, ◌^◌, ◌≤◌, ◌<◌, ◌≡◌, refl, ◌∙◌, ap, Bool, true, false, not, ◌&&◌, ◌||◌, List, [], ◌∷◌,
  Option, none, some, ◌==◌, ltb, leb, arith, any, All, All-map, saturating_add64, sym,
  if◌then◌else◌, if_rule, if_cases,
}
use mathlib.Core.Path.{subst}
use rtmap.Base.TreeMap.{TreeMap}
use rtmap.HeapOracle.{
  HeapOracle, put_range, last_range, widen_last, add_range, add_module, in_range, in_user_range,
  is_heap,
}

abbrev pub Module : Type 0
Module = ℕ × ℕ

abbrev pub module_holds : ℕ → Module → Bool
module_holds a (base, size) = leb base a && ltb a (saturating_add64 base size)

-- No range starts behind `base`.
abbrev StartsBy : ℕ → List (ℕ × ℕ) → Type 0
StartsBy base rs = All (λ r. r.0 ≤ base) rs

-- Only the last range is looked at.
add_range_later :
    (base top : ℕ) (r q : ℕ × ℕ) (rs : List (ℕ × ℕ))
    → r.0 ≤ base
    → add_range base top (r ∷ q ∷ rs) ≡ r ∷ add_range base top (q ∷ rs)
add_range_later base top r q rs h = over (last_range (q ∷ rs))
  where
    over :
        (o : Option (ℕ × ℕ))
        → elim o [
          | none ↦ put_range (base, top) (r ∷ q ∷ rs)
          | some l ↦
              if leb base l.1
              then widen_last top (r ∷ q ∷ rs)
              else put_range (base, top) (r ∷ q ∷ rs)
        ]
          ≡ r ∷ elim o [
            | none ↦ put_range (base, top) (q ∷ rs)
            | some l ↦
                if leb base l.1 then widen_last top (q ∷ rs) else put_range (base, top) (q ∷ rs)
          ]
    over none = ground arith
    over (some l) = ground arith

add_range-any :
    (a base top : ℕ) (rs : List (ℕ × ℕ))
    → StartsBy base rs
    → any (in_range a) (add_range base top rs) ≡ (any (in_range a) rs || in_range a (base, top))
add_range-any a base top [] u = ground arith
add_range-any a base top (r ∷ []) u = ground arith
add_range-any a base top (r ∷ q ∷ rs) u =
    rw (add_range_later base top r q rs u.0, add_range-any a base top (q ∷ rs) u.1)
      (if_or (in_range a r) (any (in_range a) (q ∷ rs)) (in_range a (base, top)))
  where
    if_or : (b c d : Bool) → (if b then true else c || d) ≡ ((if b then true else c) || d)
    if_or true c d = refl
    if_or false c d = refl

add_range-StartsBy :
    (base top : ℕ) (rs : List (ℕ × ℕ)) → StartsBy base rs → StartsBy base (add_range base top rs)
add_range-StartsBy base top [] u = (omega arith, tt)
add_range-StartsBy base top (r ∷ []) u = ground arith
add_range-StartsBy base top (r ∷ q ∷ rs) u =
    subst (StartsBy base) (sym (add_range_later base top r q rs u.0))
      (u.0, add_range-StartsBy base top (q ∷ rs) u.1)

pub add_modules : List Module → HeapOracle → HeapOracle
unfolding add_module
add_modules [] o = o
add_modules ((base, size) ∷ ms) o = add_modules ms (add_module base size o)

-- Each module starts no lower than those before it.
abbrev pub InOrder : ℕ → List Module → Type 0
InOrder low [] = Unit {0}
InOrder low (m ∷ ms) = (low ≤ m.0) × (m.0 < 2 ^ 64) × InOrder m.0 ms

-- The ranges rise and do not meet, as `binary_search_by` needs it.
abbrev pub Apart : ℕ → List (ℕ × ℕ) → Type 0
Apart lo [] = Unit {0}
Apart lo (r ∷ rs) = (lo ≤ r.0) × (r.0 ≤ r.1) × Apart (suc r.1) rs

add_range-Apart :
    (lo base top : ℕ) (rs : List (ℕ × ℕ))
    → lo ≤ base
    → base ≤ top
    → StartsBy base rs
    → Apart lo rs
    → Apart lo (add_range base top rs)
add_range-Apart lo base top [] l t u p = (l, t, tt)
add_range-Apart lo base top (r ∷ []) l t u p = ground arith
add_range-Apart lo base top (r ∷ q ∷ rs) l t u p =
    subst (Apart lo) (sym (add_range_later base top r q rs u.0)) (
      p.0,
      p.1,
      add_range-Apart (suc r.1) base top (q ∷ rs) (omega (arith, p.2.0, u.1.0)) t u.1 p.2,
    )

-- Nothing but the modules is covered, and the ranges are in order.
record Covered (a : ℕ) (low : ℕ) (held : Bool) (o : HeapOracle) : Type 0 where
  covered : any (in_range a) o.module_ranges ≡ held
  starts : StartsBy low o.module_ranges
  apart : Apart 0 o.module_ranges

add_module-Covered :
    (a low base size : ℕ) (held : Bool) (o : HeapOracle)
    → low ≤ base
    → base < 2 ^ 64
    → Covered a low held o
    → Covered a base (held || module_holds a (base, size)) (add_module base size o)
unfolding add_module
add_module-Covered a low base size held o l small c =
    let top = saturating_add64 base size in
    let starts : StartsBy base o.module_ranges =
      All-map (λ r h. omega (arith, l, h)) o.module_ranges c.starts in
    if_cases (Covered a base (held || module_holds a (base, size))) (size == 0)
      (λ zero. record {
        covered =
            let outside : module_holds a (base, size) ≡ false = ground arith in
            c.covered ∙ sym (ap (λ b. held || b) outside ∙ or_false held);
        starts = starts;
        apart = c.apart;
      })
      (λ _. record {
        covered =
            add_range-any a base top o.module_ranges starts
            ∙ ap (λ b. b || in_range a (base, top)) c.covered;
        starts = add_range-StartsBy base top o.module_ranges starts;
        apart =
            add_range-Apart 0 base top o.module_ranges (omega arith) (omega (arith, small)) starts
              c.apart;
      })
  where
    or_false : (b : Bool) → (b || false) ≡ b
    or_false true = refl
    or_false false = refl

add_modules-Covered :
    (a low : ℕ) (held : Bool) (ms : List Module) (o : HeapOracle)
    → InOrder low ms
    → Covered a low held o
    → (any (in_range a) (add_modules ms o).module_ranges ≡ (held || any (module_holds a) ms))
      × Apart 0 (add_modules ms o).module_ranges
unfolding add_modules
add_modules-Covered a low held [] o h c = (ground (arith, c.covered), c.apart)
add_modules-Covered a low held ((base, size) ∷ ms) o h c =
    let (covers, apart) =
      add_modules-Covered a base (held || module_holds a (base, size)) ms (add_module base size o)
        h.2 (add_module-Covered a low base size held o h.0 h.1 c) in
    (covers ∙ or_if held (module_holds a (base, size)) (any (module_holds a) ms), apart)
  where
    or_if : (b c d : Bool) → ((b || c) || d) ≡ (b || (if c then true else d))
    or_if true c d = refl
    or_if false c d = ground arith

add_modules-stack_bounds :
    (ms : List Module) (o : HeapOracle) → (add_modules ms o).stack_bounds ≡ o.stack_bounds
unfolding add_modules add_module
add_modules-stack_bounds [] o = refl
add_modules-stack_bounds ((base, size) ∷ ms) o =
    add_modules-stack_bounds ms (add_module base size o)
    ∙ if_rule (λ (p : HeapOracle). p.stack_bounds ≡ o.stack_bounds) (size == 0) refl refl

abbrev pub stacks_only : TreeMap (ℕ × ℕ) → HeapOracle
stacks_only stacks = record { module_ranges = []; stack_bounds = stacks }

-- Where the modules are added in the order of their bases, which are of 64 bits, an address is the
-- heap's exactly when it lies in no module, in no stack, and in the range of user addresses; the
-- ranges that are kept rise and do not meet.
pub is_heap-add_modules :
    (a : ℕ) (stacks : TreeMap (ℕ × ℕ)) (ms : List Module)
    → InOrder 0 ms
    → (is_heap (add_modules ms (stacks_only stacks)) a ≡ (
        not (any (module_holds a) ms) && not (any (λ e. in_range a e.1) stacks) && in_user_range a))
      × Apart 0 (add_modules ms (stacks_only stacks)).module_ranges
unfolding is_heap
is_heap-add_modules a stacks ms h =
    let (covers, apart) =
      add_modules-Covered a 0 false ms (stacks_only stacks) h
        (record { covered = refl; starts = tt; apart = tt }) in
    (rw (add_modules-stack_bounds ms (stacks_only stacks), covers) refl, apart)
