-- ===== src/Check.antt =====
-- `TopoGraph` of engine/src/check.rs: what a recorded topology says, line by line. A text stands for
-- the file's content. The assertions about it are in the modules below.
pub mod Json
pub mod Read
pub mod Fields
pub mod Emissions
pub mod Rebuilt
pub mod Chains
pub mod Assertions
pub mod Verdicts
pub mod Program
use rtmap.Base.{
  ℕ, zero, suc, ◌+◌, ◌%◌, ◌^◌, ◌≡◌, ◌↔◌, arith, ◌>>=◌, Bool, true, false, not, ◌&&◌, List, [], ◌∷◌,
  ◌++◌, Option, none, some, ◌==◌, ltb, leb, if◌then◌else◌, length, retain, any, all, add64, max,
}
use rtmap.Base.KeyMap.{Key, KeyMap, nat_key, get, insert, remove}
use rtmap.Base.Texts.{Text, codes, same_text, same_text_iff, text_key, is_empty, trim, lines}
use rtmap.Check.Json.{json_str, json_u64, json_hex}

pub record AllocEvent : Type 0 where
  pub seq : ℕ
  pub addr : ℕ
  pub size : ℕ
  pub freed : Bool
  pub free_seq : ℕ

pub record StampEvent : Type 0 where
  pub seq : ℕ
  pub addr : ℕ
  pub type_name : Text
  pub type_size : ℕ
  pub source : Text
  pub fields : ℕ

pub record LinkEvent : Type 0 where
  pub seq : ℕ
  pub from_name : Text
  pub from_addr : ℕ
  pub to_addr : ℕ
  pub pointee_type : Text
  pub edge : Text

pub record HazardEvent : Type 0 where
  pub seq : ℕ
  pub kind : Text
  pub write_addr : ℕ
  pub write_size : ℕ
  pub alloc_base : ℕ
  pub alloc_size : ℕ
  pub overflow : ℕ
  pub type_name : Text
  pub field_name : Text

pub record Summary : Type 0 where
  pub total_events : ℕ
  pub nodes : ℕ
  pub edges : ℕ
  pub stm_projections : ℕ
  pub live_allocs : ℕ
  pub hazards : ℕ

abbrev pub same_edge : ℕ × Text → ℕ × Text → Bool
same_edge (a, s) (b, t) = (a == b) && same_text s t

pub same_edge_iff : (x y : ℕ × Text) → (same_edge x y ≡ true) ↔ (x ≡ y)
same_edge_iff (a, s) (b, t) = ground (arith, same_text_iff s t)

instance abbrev pub edge_key : Key (ℕ × Text)
edge_key = record { same = same_edge; same_iff = same_edge_iff }

pub record TopoGraph : Type 0 where
  pub allocs : List AllocEvent
  pub stamps : List StampEvent
  pub links : List LinkEvent
  pub hazards : List HazardEvent
  pub summary : Summary
  pub addr_type : KeyMap ℕ Text
  pub type_addrs : KeyMap Text (List ℕ)
  pub edges : KeyMap (ℕ × Text) ℕ
  pub source_targets : KeyMap Text ℕ

abbrev pub empty_graph : TopoGraph
empty_graph = record {
  allocs = [];
  stamps = [];
  links = [];
  hazards = [];
  summary = record {
    total_events = 0;
    nodes = 0;
    edges = 0;
    stm_projections = 0;
    live_allocs = 0;
    hazards = 0;
  };
  addr_type = [];
  type_addrs = [];
  edges = [];
  source_targets = [];
}

-- `iter().rev().find(..)`
abbrev pub find_last {ℓ} : {A : Type ℓ} → (A → Bool) → List A → Option A
find_last p [] = none
find_last p (a ∷ as') = elim (find_last p as') [
  | none ↦ if p a then some a else none
  | some b ↦ some b
]

-- The last allocation of the address that is not freed yet, marked as freed.
abbrev pub free_last : ℕ → ℕ → List AllocEvent → Option (List AllocEvent)
free_last addr seq [] = none
free_last addr seq (a ∷ allocs) = elim (free_last addr seq allocs) [
  | none ↦
      if (a.addr == addr) && not a.freed
      then some (record a { freed = true; free_seq = seq } ∷ allocs)
      else none
  | some later ↦ some (a ∷ later)
]

abbrev pub or_same : List AllocEvent → Option (List AllocEvent) → List AllocEvent
or_same allocs none = allocs
or_same allocs (some changed) = changed

pub resolve_base : ℕ → TopoGraph → Option ℕ
resolve_base field_addr g =
    elim (find_last (λ s. leb s.addr field_addr && ltb field_addr (add64 s.addr s.type_size))
      g.stamps) [ none ↦ none | some s ↦ some s.addr ]

-- `entry(..).or_default().insert(..)` of a set.
abbrev pub add_address : ℕ → Option (List ℕ) → List ℕ
add_address a none = a ∷ []
add_address a (some addrs) = if any (λ b. b == a) addrs then addrs else a ∷ addrs

pub add_alloc : AllocEvent → TopoGraph → TopoGraph
add_alloc a g = record g { allocs = g.allocs ++ a ∷ [] }

pub add_free : ℕ → ℕ → TopoGraph → TopoGraph
add_free addr fseq g = record g {
  allocs = or_same g.allocs (free_last addr fseq g.allocs);
  addr_type = remove addr g.addr_type;
}

pub add_stamp : StampEvent → TopoGraph → TopoGraph
add_stamp s g = record g {
  addr_type = insert s.addr s.type_name g.addr_type;
  type_addrs = insert s.type_name (add_address s.addr (get s.type_name g.type_addrs)) g.type_addrs;
  source_targets = insert s.source s.addr g.source_targets;
  stamps = g.stamps ++ s ∷ [];
}

-- The edge starts at the object that the field lies in.
pub add_link : LinkEvent → TopoGraph → TopoGraph
unfolding resolve_base
add_link l g =
    let base : ℕ = elim (resolve_base l.from_addr g) [ none ↦ l.from_addr | some base ↦ base ] in
    record g { edges = insert (base, l.edge) l.to_addr g.edges; links = g.links ++ l ∷ [] }

pub add_hazard : HazardEvent → TopoGraph → TopoGraph
add_hazard h g = record g { hazards = g.hazards ++ h ∷ [] }

abbrev pub alloc_of : Text → AllocEvent
alloc_of l = record {
  seq = json_u64 l (codes "seq");
  addr = json_hex l (codes "addr");
  size = json_u64 l (codes "size");
  freed = false;
  free_seq = 0;
}

abbrev pub stamp_of : Text → StampEvent
stamp_of l = record {
  seq = json_u64 l (codes "seq");
  addr = json_hex l (codes "addr");
  type_name = json_str l (codes "type_name");
  type_size = json_u64 l (codes "type_size");
  source = json_str l (codes "source");
  fields = json_u64 l (codes "fields");
}

abbrev pub link_of : Text → LinkEvent
link_of l = record {
  seq = json_u64 l (codes "seq");
  from_name = json_str l (codes "from");
  from_addr = json_hex l (codes "from_addr");
  to_addr = json_hex l (codes "to_addr");
  pointee_type = json_str l (codes "pointee_type");
  edge = json_str l (codes "edge");
}

abbrev pub hazard_of : Text → HazardEvent
hazard_of l = record {
  seq = json_u64 l (codes "seq");
  kind = json_str l (codes "kind");
  write_addr = json_hex l (codes "write_addr");
  write_size = json_u64 l (codes "write_size") % 2 ^ 32;
  alloc_base = json_hex l (codes "alloc_base");
  alloc_size = json_u64 l (codes "alloc_size");
  overflow = json_u64 l (codes "overflow");
  type_name = json_str l (codes "type_name");
  field_name = json_str l (codes "field_name");
}

abbrev pub summary_of : Text → Summary
summary_of l = record {
  total_events = json_u64 l (codes "total_events");
  nodes = json_u64 l (codes "nodes");
  edges = json_u64 l (codes "edges");
  stm_projections = json_u64 l (codes "stm_projections");
  live_allocs = json_u64 l (codes "live_allocs");
  hazards = json_u64 l (codes "hazards");
}

-- The `match` on the line's type.
unfoldable pub add_line : Text → TopoGraph → TopoGraph
unfolding add_alloc add_free add_stamp add_link add_hazard
add_line l g =
    let ty = json_str l (codes "type") in
    if same_text ty (codes "ALLOC")
    then add_alloc (alloc_of l) g
    else if same_text ty (codes "FREE")
    then add_free (json_hex l (codes "addr")) (json_u64 l (codes "seq")) g
    else if same_text ty (codes "STAMP")
    then add_stamp (stamp_of l) g
    else if same_text ty (codes "LINK")
    then add_link (link_of l) g
    else if same_text ty (codes "HAZARD")
    then add_hazard (hazard_of l) g
    else if same_text ty (codes "SUMMARY")
    then record g { summary = summary_of l }
    else g

unfoldable pub build_from : List Text → TopoGraph → TopoGraph
unfolding add_line
build_from [] g = g
build_from (l ∷ ls) g = build_from ls (if is_empty (trim l) then g else add_line (trim l) g)

unfoldable pub build : Text → TopoGraph
unfolding build_from
build content = build_from (lines content) empty_graph
