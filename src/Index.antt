-- ===== src/Index.antt =====
-- The names of the tracked variables, and the index from addresses to them: engine/src/index.rs.
pub mod Lookup
pub mod Locals
pub mod Statics
pub mod Answers
pub mod Runs
use Prim.Native.String.{String}
use rtmap.Base.{
  ℕ, zero, suc, ◌+◌, ◌-◌, ◌%◌, ◌^◌, ◌≡◌, refl, sym, ap, ◌↔◌, Bool, true, false, not, ◌&&◌, ◌||◌,
  List, [], ◌∷◌, ◌++◌, Option, none, some, map, arith, add64, ltb, leb, ◌==◌, if◌then◌else◌, ◌>>=◌,
  length, get_elem?, take, u64_max,
}
use rtmap.Base.KeyMap.{Key, KeyMap, nat_key, get, insert, remove}
use rtmap.Dwarf.{TypeInfo}

pub data NodeId : Type 0 where
  global : ℕ → NodeId
  field : ℕ → ℕ → NodeId
  local : ℕ → ℕ → NodeId

-- The derived equality.
abbrev pub same_node : NodeId → NodeId → Bool
same_node (global g) (global h) = g == h
same_node (field g f) (field h k) = (g == h) && (f == k)
same_node (local g f) (local h k) = (g == h) && (f == k)
same_node a b = false

pub same_node_iff : (a b : NodeId) → (same_node a b ≡ true) ↔ (a ≡ b)
same_node_iff a b = ground arith

instance abbrev pub node_key : Key NodeId
node_key = record { same = same_node; same_iff = same_node_iff }

pub record VarMeta : Type 0 where
  pub label : String
  pub type_info : TypeInfo
  pub node_id : NodeId

pub record Interval : Type 0 where
  pub lo : ℕ
  pub hi : ℕ
  pub meta : VarMeta

pub record LookupResult : Type 0 where
  pub label : String
  pub type_info : TypeInfo
  pub node_id : NodeId
  pub offset_in_var : ℕ

abbrev pub mru_slots : ℕ
mru_slots = 8

-- lo, hi and the place of the interval: its index, or its frame and its index there.
pub data MruEntry : Type 0 where
  static : ℕ → ℕ → ℕ → MruEntry
  dynamic : ℕ → ℕ → ℕ → ℕ → MruEntry

abbrev pub entry_lo : MruEntry → ℕ
entry_lo (static lo hi idx) = lo
entry_lo (dynamic lo hi frame_id local_idx) = lo

abbrev pub entry_contains : ℕ → MruEntry → Bool
entry_contains addr (static lo hi idx) = leb lo addr && ltb addr hi
entry_contains addr (dynamic lo hi frame_id local_idx) = leb lo addr && ltb addr hi

-- `mru` is the part of the array below `mru_len`, where every slot is taken.
pub record AddressIndex : Type 0 where
  pub statics : List Interval
  pub statics_sorted : Bool
  pub dynamics : KeyMap ℕ (List Interval)
  pub mru : List MruEntry
  pub universe_lo : ℕ
  pub universe_hi : ℕ

pub new : AddressIndex
new = record {
  statics = [];
  statics_sorted = true;
  dynamics = [];
  mru = [];
  universe_lo = u64_max;
  universe_hi = 0;
}

abbrev pub node_rank : NodeId → ℕ
node_rank (local frame i) = 2
node_rank (field g f) = 1
node_rank (global g) = 0

abbrev pub interval : ℕ → ℕ → String → TypeInfo → NodeId → Interval
interval addr size label t node_id = record {
  lo = addr;
  hi = add64 addr size;
  meta = record { label = label; type_info = t; node_id = node_id };
}

abbrev pub widen_universe : ℕ → ℕ → AddressIndex → AddressIndex
widen_universe lo hi ix = record ix {
  universe_lo = if ltb lo ix.universe_lo then lo else ix.universe_lo;
  universe_hi = if ltb ix.universe_hi hi then hi else ix.universe_hi;
}

abbrev pub push_static : Interval → AddressIndex → AddressIndex
push_static iv ix =
    widen_universe iv.lo iv.hi
      (record ix { statics = ix.statics ++ iv ∷ []; statics_sorted = false; mru = [] })

pub insert_global : ℕ → ℕ → String → TypeInfo → ℕ → AddressIndex → AddressIndex
insert_global addr size label t global_idx ix =
    if size == 0 then ix else push_static (interval addr size label t (global global_idx)) ix

pub insert_field : ℕ → ℕ → String → TypeInfo → ℕ → ℕ → AddressIndex → AddressIndex
insert_field addr size label t global_idx field_idx ix =
    if size == 0
    then ix
    else push_static (interval addr size label t (field global_idx field_idx)) ix

-- offset from the frame base, size, name, type
pub record Local : Type 0 where
  pub offset : ℕ
  pub size : ℕ
  pub label : String
  pub type_info : TypeInfo

-- The intervals of the locals from number `li` on.
pub frame_intervals : ℕ → ℕ → ℕ → List Local → List Interval
frame_intervals frame_id frame_base li [] = []
frame_intervals frame_id frame_base li (l ∷ locals) =
    let rest = frame_intervals frame_id frame_base (li + 1) locals in
    if l.size == 0
    then rest
    else interval (add64 frame_base l.offset) l.size l.label l.type_info
        (local frame_id (li % 2 ^ 16))
      ∷ rest

abbrev pub widen_all : List Interval → AddressIndex → AddressIndex
widen_all [] ix = ix
widen_all (iv ∷ ivs) ix = widen_all ivs (widen_universe iv.lo iv.hi ix)

abbrev pub has_any : List Interval → Bool
has_any [] = false
has_any (iv ∷ ivs) = true

pub insert_frame_locals : ℕ → ℕ → List Local → AddressIndex → AddressIndex
unfolding frame_intervals
insert_frame_locals frame_id frame_base locals ix =
    let ivs = frame_intervals frame_id frame_base 0 locals in
    let wide = widen_all ivs ix in
    record wide {
      dynamics = if has_any ivs then insert frame_id ivs wide.dynamics else wide.dynamics;
      mru = [];
    }

pub remove_frame : ℕ → AddressIndex → AddressIndex
remove_frame frame_id ix = record ix { dynamics = remove frame_id ix.dynamics; mru = [] }

pub in_universe : ℕ → AddressIndex → Bool
in_universe addr ix = leb ix.universe_lo addr && ltb addr ix.universe_hi

module _ (sort_by_lo : List Interval → List Interval) where
  -- `sort_unstable_by_key` is the parameter: it may order equal keys in any way.
  pub finalize : AddressIndex → AddressIndex
  finalize ix =
      if ix.statics_sorted
      then ix
      else record ix { statics = sort_by_lo ix.statics; statics_sorted = true; mru = [] }
