-- ===== src/World/ShadowTypeMap/Stamps.antt =====
-- `stamp_type` of the type map of engine/src/world.rs, and when a map is valid.
use Prim.Native.String.{String}
use text.Mathlib.Text.{◌==◌ as str_eq}
use text.Mathlib.TextEquality.{eq_iff}
use rtmap.Base.{
  ℕ, ◌≤◌, ◌<◌, ◌≡◌, ◌≢◌, refl, ap, ◌∙◌, ◌⊎◌, inl, inr, none, some, arith, add64, saturating_add16,
  ltb, leb, ◌==◌, ==_iff, length, All, Bool-cases, Option-cases,
}
use rtmap.Base.TreeMap.{get, insert, get-insert, insert-Above, insert-All, IsOrdered}
use rtmap.Dwarf.{TypeInfo, name, byte_size}
use rtmap.World.ShadowTypeMap.{
  TypeProjection, StampResult, stamped, restamped, rejected, schism, pool_reuse, ShadowTypeMap,
  stamp_type, stamp_found, stamp_over, get_or_zero, lookup, deferred_cap,
}

abbrev pub projection : ℕ → TypeInfo → String → ℕ → TypeProjection
projection target t source seq = record {
  base_addr = target;
  type_info = t;
  source_name = source;
  stamp_seq = seq;
}

-- How a stamp may turn out, by what the map held at the address.
pub data Stamping (target : ℕ) (t : TypeInfo) (source : String) (seq : ℕ) (m : ShadowTypeMap)
    (out : ShadowTypeMap × StampResult) : Type 0 where
  -- the null address, or a type of size zero
  refused :
      (target ≡ 0) ⊎ (byte_size t ≡ 0) → out ≡ (m, rejected) → Stamping target t source seq m out
  fresh :
      target ≢ 0
      → byte_size t ≢ 0
      → lookup target m ≡ none
      → out ≡ (
        record m { projections = insert target (projection target t source seq) m.projections },
        stamped,
      )
      → Stamping target t source seq m out
  same :
      (old : TypeProjection)
      → lookup target m ≡ some old
      → name old.type_info ≡ name t
      → out ≡ (m, restamped)
      → Stamping target t source seq m out
  -- an older write never overwrites a newer stamp
  stale :
      (old : TypeProjection)
      → lookup target m ≡ some old
      → name old.type_info ≢ name t
      → seq < old.stamp_seq
      → out ≡ (m, rejected)
      → Stamping target t source seq m out
  -- another type, the first time at this address
  conflicting :
      (old : TypeProjection)
      → target ≢ 0
      → byte_size t ≢ 0
      → lookup target m ≡ some old
      → name old.type_info ≢ name t
      → old.stamp_seq ≤ seq
      → get_or_zero (get target m.addr_schisms) ≡ 0
      → out ≡ (
        record m {
          projections = insert target (projection target t source seq) m.projections;
          addr_schisms = insert target 1 m.addr_schisms;
          schism_count = add64 m.schism_count 1;
        },
        schism (name old.type_info) old.source_name old.stamp_seq,
      )
      → Stamping target t source seq m out
  -- another type once more: the address is reused
  reused :
      (old : TypeProjection)
      → target ≢ 0
      → byte_size t ≢ 0
      → lookup target m ≡ some old
      → name old.type_info ≢ name t
      → old.stamp_seq ≤ seq
      → get_or_zero (get target m.addr_schisms) ≢ 0
      → out ≡ (
        record m {
          projections = insert target (projection target t source seq) m.projections;
          addr_schisms =
              insert target
                (saturating_add16 (get_or_zero (get target m.addr_schisms)) 1)
                m.addr_schisms;
          pool_reuse_count = add64 m.pool_reuse_count 1;
        },
        pool_reuse (name old.type_info) old.source_name old.stamp_seq,
      )
      → Stamping target t source seq m out

stamp_over-Stamping :
    (target : ℕ) (t : TypeInfo) (source : String) (seq : ℕ) (m : ShadowTypeMap)
    (old : TypeProjection)
    → target ≢ 0
    → byte_size t ≢ 0
    → lookup target m ≡ some old
    → Stamping target t source seq m (stamp_over target t source seq m old)
unfolding stamp_over
stamp_over-Stamping target t source seq m old addr size e =
    elim (Bool-cases (str_eq (name old.type_info) (name t))) [
      | inl q ↦ same old e ((eq_iff _ _).0 q) (rw q)
      | inr q ↦
          let other : name old.type_info ≢ name t =
            λ n. cc ((eq_iff (name old.type_info) (name t)).1 n) in
          elim (Bool-cases (ltb seq old.stamp_seq)) [
            | inl late ↦ stale old e other (ground arith) (rw (q, late))
            | inr current ↦
                elim (Bool-cases
                  (leb 2 (saturating_add16 (get_or_zero (get target m.addr_schisms)) 1))) [
                    | inl often ↦
                        reused old addr size e other (ground arith) (ground arith)
                          (rw (q, current, often))
                    | inr once ↦
                        let first : get_or_zero (get target m.addr_schisms) ≡ 0 = ground arith in
                        conflicting old addr size e other (ground arith) first
                          (rw (q, current, first))
                  ]
          ]
    ]

-- Every stamp turns out in one of six ways, told apart by the map at the address, each with the map, the
-- counters and the answer that it gives.
pub stamp_type-Stamping :
    (target : ℕ) (t : TypeInfo) (source : String) (seq : ℕ) (m : ShadowTypeMap)
    → Stamping target t source seq m (stamp_type target t source seq m)
unfolding stamp_type stamp_found lookup
stamp_type-Stamping target t source seq m = elim (Bool-cases (target == 0)) [
  | inl zero_addr ↦ refused (inl ((==_iff target 0).0 zero_addr)) (rw zero_addr)
  | inr addr ↦ elim (Bool-cases (byte_size t == 0)) [
    | inl zero_size ↦ refused (inr ((==_iff (byte_size t) 0).0 zero_size)) (rw (addr, zero_size))
    | inr size ↦ elim (Option-cases (get target m.projections)) [
      | inl e ↦ fresh (ground arith) (ground arith) e (rw (addr, size, e))
      | inr (old, e) ↦
          rw (addr, size, e)
            (stamp_over-Stamping target t source seq m old (ground arith) (ground arith) e)
    ]
  ]
]

-- A projection stands under its own address, which is not null, and its type has a size.
abbrev pub IsKeyed : ℕ × TypeProjection → Type 0
IsKeyed e = (e.1.base_addr ≡ e.0) × (e.0 ≢ 0) × (byte_size e.1.type_info ≢ 0)

pub record IsValid (m : ShadowTypeMap) : Type 0 where
  pub ordered : IsOrdered m.projections
  pub keyed : All IsKeyed m.projections
  pub buffered : length m.deferred ≤ deferred_cap

insert-IsValid :
    (target : ℕ) (t : TypeInfo) (source : String) (seq : ℕ) (m m' : ShadowTypeMap)
    → target ≢ 0
    → byte_size t ≢ 0
    → IsValid m
    → m'.projections ≡ insert target (projection target t source seq) m.projections
    → m'.deferred ≡ m.deferred
    → IsValid m'
insert-IsValid target t source seq m m' addr size v e d = record {
  ordered = rw e (insert-Above 0 target _ m.projections (omega arith) v.ordered);
  keyed = rw e (insert-All IsKeyed target _ m.projections (refl, addr, size) v.keyed);
  buffered = rw d v.buffered;
}

-- What holds of every entry that a stamp leaves unchanged, overwrites or adds.
pub record Effect (target : ℕ) (m m' : ShadowTypeMap) : Type 0 where
  pub valid : IsValid m'
  pub elsewhere : (a : ℕ) → a ≢ target → lookup a m' ≡ lookup a m
  pub newer :
      (old : TypeProjection)
      → lookup target m ≡ some old
      → (now : TypeProjection) × (lookup target m' ≡ some now) × (old.stamp_seq ≤ now.stamp_seq)

pub unchanged-Effect : (target : ℕ) (m : ShadowTypeMap) → IsValid m → Effect target m m
unchanged-Effect target m v = record {
  valid = v;
  elsewhere = λ a ne. refl;
  newer = λ old e. (old, e, omega arith);
}

inserted-Effect :
    (target : ℕ) (t : TypeInfo) (source : String) (seq : ℕ) (m m' : ShadowTypeMap)
    → target ≢ 0
    → byte_size t ≢ 0
    → IsValid m
    → m'.projections ≡ insert target (projection target t source seq) m.projections
    → m'.deferred ≡ m.deferred
    → ((old : TypeProjection) → lookup target m ≡ some old → old.stamp_seq ≤ seq)
    → Effect target m m'
unfolding lookup
inserted-Effect target t source seq m m' addr size v e d older = record {
  valid = insert-IsValid target t source seq m m' addr size v e d;
  elsewhere = λ a ne.
      ap (get a) e
      ∙ get-insert target a (projection target t source seq) m.projections
      ∙ ground arith;
  newer = λ old q. (
    projection target t source seq,
    ap (get target) e
        ∙ get-insert target target (projection target t source seq) m.projections
        ∙ ground arith,
    older old q,
  );
}

-- A stamp keeps the map valid, touches no other address, and never replaces a projection by one
-- with a smaller sequence number.
pub stamp_type-Effect :
    (target : ℕ) (t : TypeInfo) (source : String) (seq : ℕ) (m : ShadowTypeMap)
    → IsValid m
    → Effect target m (stamp_type target t source seq m).0
stamp_type-Effect target t source seq m v = by_case (stamp_type-Stamping target t source seq m)
  where
    by_case :
        {out : ShadowTypeMap × StampResult}
        → Stamping target t source seq m out
        → Effect target m out.0
    by_case (refused why q) = rw q (unchanged-Effect target m v)
    by_case (fresh addr size e q) =
        rw q (inserted-Effect target t source seq m _ addr size v refl refl (λ old p. cc))
    by_case (same old e n q) = rw q (unchanged-Effect target m v)
    by_case (stale old e n late q) = rw q (unchanged-Effect target m v)
    by_case (conflicting old addr size e n le first q) =
        rw q
          (inserted-Effect target t source seq m _ addr size v refl refl (λ old' p. ground arith))
    by_case (reused old addr size e n le again q) =
        rw q
          (inserted-Effect target t source seq m _ addr size v refl refl (λ old' p. ground arith))
