-- ===== src/Check/Emissions.antt =====
-- The calls of engine/src/topology.rs, and what each tells the reader, engine/src/check.rs.
pub mod Read
use rtmap.Base.{ℕ, ◌%◌, ◌^◌, ◌<◌, ◌≡◌, refl, ◌∙◌, ap, false, List, Option, arith}
use rtmap.Base.Texts.{Text, codes}
use rtmap.Topology.{TopologyStream, Field, line, writeln}
use rtmap.Topology.Calls.{
  or_blank, alloc_fields, free_fields, stamp_fields, link_fields, hazard_fields, summary_fields,
  cold_stamp_fields, cold_link_fields, false_share_fields, process_fork_fields,
  cross_process_write_fields, seq_gap_fields, type_schism_fields, type_violation_fields,
  type_epoch_close_fields, emit_alloc, emit_free, emit_stamp, emit_link, emit_hazard, emit_summary,
  emit_cold_stamp, emit_cold_link, emit_false_share, emit_process_fork, emit_cross_process_write,
  emit_seq_gap, emit_type_schism, emit_type_violation, emit_type_epoch_close,
}
use rtmap.Check.{TopoGraph, add_line, add_alloc, add_free, add_stamp, add_link, add_hazard}
use rtmap.Check.Json.{json_u64}
use rtmap.Check.Fields.{PlainFields, str_at, u64_at, hex_at}

-- The calls of the stream.
pub data Emission : Type 0 where
  alloc : ℕ → ℕ → ℕ → ℕ → Emission
  free : ℕ → ℕ → ℕ → ℕ → Emission
  stamp : ℕ → ℕ → Text → ℕ → Text → ℕ → Emission
  link : ℕ → Text → ℕ → ℕ → Text → Text → Emission
  hazard : ℕ → Text → ℕ → ℕ → ℕ → ℕ → ℕ → Option Text → Option Text → Emission
  summary : ℕ → ℕ → ℕ → ℕ → ℕ → ℕ → Emission
  cold_stamp : ℕ → Text → ℕ → Text → ℕ → ℕ → Emission
  cold_link : Text → ℕ → ℕ → Text → Text → Emission
  false_share : ℕ → ℕ → ℕ → List Text → Emission
  process_fork : ℕ → ℕ → ℕ → Emission
  cross_process_write : ℕ → ℕ → ℕ → ℕ → Text → Emission
  seq_gap : ℕ → ℕ → ℕ → ℕ → Emission
  type_schism : ℕ → ℕ → Text → Text → Text → Text → Emission
  type_violation : ℕ → Text → ℕ → ℕ → ℕ → ℕ → Text → Option Text → ℕ → Emission
  type_epoch_close : ℕ → ℕ → Text → Text → ℕ → ℕ → Text → Emission

unfoldable pub emit : Emission → TopologyStream → TopologyStream
emit (alloc seq tid addr size) t = emit_alloc seq tid addr size t
emit (free seq tid addr size) t = emit_free seq tid addr size t
emit (stamp seq target_addr type_name type_size source_name field_count) t =
    emit_stamp seq target_addr type_name type_size source_name field_count t
emit (link seq from_name from_addr to_addr pointee_type edge_field) t =
    emit_link seq from_name from_addr to_addr pointee_type edge_field t
emit (hazard seq kind write_addr write_size alloc_base alloc_size overflow type_name field_name) t =
    emit_hazard seq kind write_addr write_size alloc_base alloc_size overflow type_name field_name t
emit (summary total_events nodes edges stm_projections live_allocs hazard_count) t =
    emit_summary total_events nodes edges stm_projections live_allocs hazard_count t
emit (cold_stamp target_addr type_name type_size source_name field_count depth) t =
    emit_cold_stamp target_addr type_name type_size source_name field_count depth t
emit (cold_link from_name from_addr to_addr pointee_type edge_field) t =
    emit_cold_link from_name from_addr to_addr pointee_type edge_field t
emit (false_share seq cl_addr thread_count names) t =
    emit_false_share seq cl_addr thread_count names t
emit (process_fork seq child_pid parent_pid) t = emit_process_fork seq child_pid parent_pid t
emit (cross_process_write seq tid addr size region_path) t =
    emit_cross_process_write seq tid addr size region_path t
emit (seq_gap seq tid expected actual) t = emit_seq_gap seq tid expected actual t
emit (type_schism seq addr old_type new_type old_source new_source) t =
    emit_type_schism seq addr old_type new_type old_source new_source t
emit (type_violation seq kind write_addr write_size base_addr offset type_name field_name pc) t =
    emit_type_violation seq kind write_addr write_size base_addr offset type_name field_name pc t
emit (type_epoch_close seq addr type_name source open_seq close_seq reason) t =
    emit_type_epoch_close seq addr type_name source open_seq close_seq reason t

abbrev pub fields_of : Emission → List Field
fields_of (alloc seq tid addr size) = alloc_fields seq tid addr size
fields_of (free seq tid addr size) = free_fields seq tid addr size
fields_of (stamp seq target_addr type_name type_size source_name field_count) =
    stamp_fields seq target_addr type_name type_size source_name field_count
fields_of (link seq from_name from_addr to_addr pointee_type edge_field) =
    link_fields seq from_name from_addr to_addr pointee_type edge_field
fields_of
      (hazard seq kind write_addr write_size alloc_base alloc_size overflow type_name field_name) =
    hazard_fields seq kind write_addr write_size alloc_base alloc_size overflow type_name field_name
fields_of (summary total_events nodes edges stm_projections live_allocs hazard_count) =
    summary_fields total_events nodes edges stm_projections live_allocs hazard_count
fields_of (cold_stamp target_addr type_name type_size source_name field_count depth) =
    cold_stamp_fields target_addr type_name type_size source_name field_count depth
fields_of (cold_link from_name from_addr to_addr pointee_type edge_field) =
    cold_link_fields from_name from_addr to_addr pointee_type edge_field
fields_of (false_share seq cl_addr thread_count names) =
    false_share_fields seq cl_addr thread_count names
fields_of (process_fork seq child_pid parent_pid) = process_fork_fields seq child_pid parent_pid
fields_of (cross_process_write seq tid addr size region_path) =
    cross_process_write_fields seq tid addr size region_path
fields_of (seq_gap seq tid expected actual) = seq_gap_fields seq tid expected actual
fields_of (type_schism seq addr old_type new_type old_source new_source) =
    type_schism_fields seq addr old_type new_type old_source new_source
fields_of (type_violation seq kind write_addr write_size base_addr offset type_name field_name pc) =
    type_violation_fields seq kind write_addr write_size base_addr offset type_name field_name pc
fields_of (type_epoch_close seq addr type_name source open_seq close_seq reason) =
    type_epoch_close_fields seq addr type_name source open_seq close_seq reason

-- What a call tells the reader: the graph that the checker is to have afterwards.
unfoldable pub recorded : Emission → TopoGraph → TopoGraph
recorded (alloc seq tid addr size) g =
    add_alloc (record { seq = seq; addr = addr; size = size; freed = false; free_seq = 0 }) g
recorded (free seq tid addr size) g = add_free addr seq g
recorded (stamp seq target_addr type_name type_size source_name field_count) g =
    add_stamp
      (record {
        seq = seq;
        addr = target_addr;
        type_name = type_name;
        type_size = type_size;
        source = source_name;
        fields = field_count;
      })
      g
recorded (link seq from_name from_addr to_addr pointee_type edge_field) g =
    add_link
      (record {
        seq = seq;
        from_name = from_name;
        from_addr = from_addr;
        to_addr = to_addr;
        pointee_type = pointee_type;
        edge = edge_field;
      })
      g
recorded (hazard seq kind write_addr write_size alloc_base alloc_size overflow type_name field_name)
      g =
    add_hazard
      (record {
        seq = seq;
        kind = kind;
        write_addr = write_addr;
        write_size = write_size;
        alloc_base = alloc_base;
        alloc_size = alloc_size;
        overflow = overflow;
        type_name = or_blank type_name;
        field_name = or_blank field_name;
      })
      g
recorded (summary total_events nodes edges stm_projections live_allocs hazard_count) g = record g {
  summary = record {
    total_events = total_events;
    nodes = nodes;
    edges = edges;
    stm_projections = stm_projections;
    live_allocs = live_allocs;
    hazards = hazard_count;
  };
}
recorded e g = g

-- The size of a write is of 32 bits.
abbrev pub size_of_write : Emission → ℕ
size_of_write (hazard seq kind write_addr write_size base size overflow type_name field_name) =
    write_size
size_of_write e = 0

abbrev pub OfWords : Emission → Type 0
OfWords e = size_of_write e < 2 ^ 32

pub emit-writeln : (e : Emission) (t : TopologyStream) → emit e t ≡ writeln (fields_of e) t
unfolding emit emit_alloc emit_free emit_stamp emit_link emit_hazard emit_summary emit_cold_stamp
    emit_cold_link emit_false_share emit_process_fork emit_cross_process_write emit_seq_gap
    emit_type_schism emit_type_violation emit_type_epoch_close
emit-writeln (alloc _ _ _ _) t = refl
emit-writeln (free _ _ _ _) t = refl
emit-writeln (stamp _ _ _ _ _ _) t = refl
emit-writeln (link _ _ _ _ _ _) t = refl
emit-writeln (hazard _ _ _ _ _ _ _ _ _) t = refl
emit-writeln (summary _ _ _ _ _ _) t = refl
emit-writeln (cold_stamp _ _ _ _ _ _) t = refl
emit-writeln (cold_link _ _ _ _ _) t = refl
emit-writeln (false_share _ _ _ _) t = refl
emit-writeln (process_fork _ _ _) t = refl
emit-writeln (cross_process_write _ _ _ _ _) t = refl
emit-writeln (seq_gap _ _ _ _) t = refl
emit-writeln (type_schism _ _ _ _ _ _) t = refl
emit-writeln (type_violation _ _ _ _ _ _ _ _ _) t = refl
emit-writeln (type_epoch_close _ _ _ _ _ _ _) t = refl
