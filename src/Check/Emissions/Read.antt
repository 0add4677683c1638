-- ===== src/Check/Emissions/Read.antt =====
-- What engine/src/check.rs reads from the line of each call of engine/src/topology.rs.
use rtmap.Base.{ℕ, ◌%◌, ◌^◌, ◌<◌, ◌≡◌, refl, ◌∙◌, ap, false, Option, arith}
use rtmap.Base.Texts.{Text, codes}
use rtmap.Topology.{line}
use rtmap.Topology.Calls.{
  or_blank, alloc_fields, free_fields, stamp_fields, link_fields, hazard_fields, summary_fields,
  cold_stamp_fields, cold_link_fields, false_share_fields, process_fork_fields,
  cross_process_write_fields, seq_gap_fields, type_schism_fields, type_violation_fields,
  type_epoch_close_fields,
}
use rtmap.Check.{TopoGraph, add_line, add_alloc, add_free, add_stamp, add_link, add_hazard}
use rtmap.Check.Json.{json_u64}
use rtmap.Check.Fields.{PlainFields, str_at, u64_at, hex_at}
use rtmap.Check.Emissions.{
  Emission, alloc, free, stamp, link, hazard, summary, cold_stamp, cold_link, false_share,
  process_fork, cross_process_write, seq_gap, type_schism, type_violation, type_epoch_close,
  fields_of, recorded, OfWords,
}

alloc_read :
    (seq tid addr size : ℕ) (g : TopoGraph)
    → PlainFields (alloc_fields seq tid addr size)
    → add_line (line (alloc_fields seq tid addr size)) g
      ≡ add_alloc (record { seq = seq; addr = addr; size = size; freed = false; free_seq = 0 }) g
unfolding add_line
alloc_read seq tid addr size g p =
    let f = alloc_fields seq tid addr size in
    rw (str_at f p (codes "type") refl refl) (λ i.
      add_alloc
        (record {
          seq = u64_at f p (codes "seq") refl refl i;
          addr = hex_at f p (codes "addr") addr refl refl p.1.1.1.0.1 i;
          size = u64_at f p (codes "size") refl refl i;
          freed = false;
          free_seq = 0;
        })
        g)

free_read :
    (seq tid addr size : ℕ) (g : TopoGraph)
    → PlainFields (free_fields seq tid addr size)
    → add_line (line (free_fields seq tid addr size)) g ≡ add_free addr seq g
unfolding add_line
free_read seq tid addr size g p =
    let f = free_fields seq tid addr size in
    rw (str_at f p (codes "type") refl refl) (λ i.
      add_free (hex_at f p (codes "addr") addr refl refl p.1.1.1.0.1 i)
        (u64_at f p (codes "seq") refl refl i) g)

stamp_read :
    (seq : ℕ) (target_addr : ℕ) (type_name : Text) (type_size : ℕ) (source_name : Text)
    (field_count : ℕ) (g : TopoGraph)
    → PlainFields (stamp_fields seq target_addr type_name type_size source_name field_count)
    → add_line (line (stamp_fields seq target_addr type_name type_size source_name field_count)) g
      ≡ add_stamp
          (record {
            seq = seq;
            addr = target_addr;
            type_name = type_name;
            type_size = type_size;
            source = source_name;
            fields = field_count;
          })
          g
unfolding add_line
stamp_read seq target_addr type_name type_size source_name field_count g p =
    let f = stamp_fields seq target_addr type_name type_size source_name field_count in
    rw (str_at f p (codes "type") refl refl) (λ i.
      add_stamp
        (record {
          seq = u64_at f p (codes "seq") refl refl i;
          addr = hex_at f p (codes "addr") target_addr refl refl p.1.1.0.1 i;
          type_name = str_at f p (codes "type_name") refl refl i;
          type_size = u64_at f p (codes "type_size") refl refl i;
          source = str_at f p (codes "source") refl refl i;
          fields = u64_at f p (codes "fields") refl refl i;
        })
        g)

link_read :
    (seq : ℕ) (from_name : Text) (from_addr : ℕ) (to_addr : ℕ) (pointee_type : Text)
    (edge_field : Text) (g : TopoGraph)
    → PlainFields (link_fields seq from_name from_addr to_addr pointee_type edge_field)
    → add_line (line (link_fields seq from_name from_addr to_addr pointee_type edge_field)) g
      ≡ add_link
          (record {
            seq = seq;
            from_name = from_name;
            from_addr = from_addr;
            to_addr = to_addr;
            pointee_type = pointee_type;
            edge = edge_field;
          })
          g
unfolding add_line
link_read seq from_name from_addr to_addr pointee_type edge_field g p =
    let f = link_fields seq from_name from_addr to_addr pointee_type edge_field in
    rw (str_at f p (codes "type") refl refl) (λ i.
      add_link
        (record {
          seq = u64_at f p (codes "seq") refl refl i;
          from_name = str_at f p (codes "from") refl refl i;
          from_addr = hex_at f p (codes "from_addr") from_addr refl refl p.1.1.1.0.1 i;
          to_addr = hex_at f p (codes "to_addr") to_addr refl refl p.1.1.1.1.0.1 i;
          pointee_type = str_at f p (codes "pointee_type") refl refl i;
          edge = str_at f p (codes "edge") refl refl i;
        })
        g)

hazard_read :
    (seq : ℕ) (kind : Text) (write_addr write_size alloc_base alloc_size : ℕ) (overflow : ℕ)
    (type_name : Option Text) (field_name : Option Text) (g : TopoGraph)
    → write_size < 2 ^ 32
    → PlainFields (
        hazard_fields seq kind write_addr write_size alloc_base alloc_size overflow type_name
          field_name)
    → add_line
        (line (
          hazard_fields seq kind write_addr write_size alloc_base alloc_size overflow type_name
            field_name))
        g
      ≡ add_hazard
          (record {
            seq = seq;
            kind = kind;
            write_addr = write_addr;
            write_size = write_size;
            alloc_base = alloc_base;
            alloc_size = alloc_size;
            overflow = overflow;
            type_name = or_blank type_name;
            field_name = or_blank field_name;
          })
          g
unfolding add_line
hazard_read seq kind write_addr write_size alloc_base alloc_size overflow type_name field_name g
      small p =
    let f =
      hazard_fields seq kind write_addr write_size alloc_base alloc_size overflow type_name
        field_name in
    let size : json_u64 (line f) (codes "write_size") % 2 ^ 32 ≡ write_size =
      ap (λ n. n % 2 ^ 32) (u64_at f p (codes "write_size") refl refl) ∙ omega (arith, small) in
    rw (str_at f p (codes "type") refl refl) (λ i.
      add_hazard
        (record {
          seq = u64_at f p (codes "seq") refl refl i;
          kind = str_at f p (codes "kind") refl refl i;
          write_addr = hex_at f p (codes "write_addr") write_addr refl refl p.1.1.1.0.1 i;
          write_size = size i;
          alloc_base = hex_at f p (codes "alloc_base") alloc_base refl refl p.1.1.1.1.1.0.1 i;
          alloc_size = u64_at f p (codes "alloc_size") refl refl i;
          overflow = u64_at f p (codes "overflow") refl refl i;
          type_name = str_at f p (codes "type_name") refl refl i;
          field_name = str_at f p (codes "field_name") refl refl i;
        })
        g)

summary_read :
    (total_events nodes edges stm_projections live_allocs : ℕ) (hazard_count : ℕ) (g : TopoGraph)
    → PlainFields (summary_fields total_events nodes edges stm_projections live_allocs hazard_count)
    → add_line
        (line (summary_fields total_events nodes edges stm_projections live_allocs hazard_count))
        g
      ≡ record g {
        summary = record {
          total_events = total_events;
          nodes = nodes;
          edges = edges;
          stm_projections = stm_projections;
          live_allocs = live_allocs;
          hazards = hazard_count;
        };
      }
unfolding add_line
summary_read total_events nodes edges stm_projections live_allocs hazard_count g p =
    let f = summary_fields total_events nodes edges stm_projections live_allocs hazard_count in
    rw (str_at f p (codes "type") refl refl) (λ i. record g {
      summary = record {
        total_events = u64_at f p (codes "total_events") refl refl i;
        nodes = u64_at f p (codes "nodes") refl refl i;
        edges = u64_at f p (codes "edges") refl refl i;
        stm_projections = u64_at f p (codes "stm_projections") refl refl i;
        live_allocs = u64_at f p (codes "live_allocs") refl refl i;
        hazards = u64_at f p (codes "hazards") refl refl i;
      };
    })

pub emission_read :
    (e : Emission) (g : TopoGraph)
    → OfWords e
    → PlainFields (fields_of e)
    → add_line (line (fields_of e)) g ≡ recorded e g
unfolding add_line recorded
emission_read (alloc seq tid addr size) g small p = alloc_read seq tid addr size g p
emission_read (free seq tid addr size) g small p = free_read seq tid addr size g p
emission_read (stamp seq target_addr type_name type_size source_name field_count) g small p =
    stamp_read seq target_addr type_name type_size source_name field_count g p
emission_read (link seq from_name from_addr to_addr pointee_type edge_field) g small p =
    link_read seq from_name from_addr to_addr pointee_type edge_field g p
emission_read
      (hazard seq kind write_addr write_size alloc_base alloc_size overflow type_name field_name) g
      small p =
    hazard_read seq kind write_addr write_size alloc_base alloc_size overflow type_name field_name g
      small p
emission_read (summary total_events nodes edges stm_projections live_allocs hazard_count) g small
      p =
    summary_read total_events nodes edges stm_projections live_allocs hazard_count g p
emission_read (cold_stamp target_addr type_name type_size source_name field_count depth) g small p =
    rw
      (str_at (cold_stamp_fields target_addr type_name type_size source_name field_count depth) p
        (codes "type") refl refl)
      refl
emission_read (cold_link from_name from_addr to_addr pointee_type edge_field) g small p =
    rw
      (str_at (cold_link_fields from_name from_addr to_addr pointee_type edge_field) p
        (codes "type") refl refl)
      refl
emission_read (false_share seq cl_addr thread_count names) g small p =
    rw (str_at (false_share_fields seq cl_addr thread_count names) p (codes "type") refl refl) refl
emission_read (process_fork seq child_pid parent_pid) g small p =
    rw (str_at (process_fork_fields seq child_pid parent_pid) p (codes "type") refl refl) refl
emission_read (cross_process_write seq tid addr size region_path) g small p =
    rw
      (str_at (cross_process_write_fields seq tid addr size region_path) p (codes "type") refl refl)
      refl
emission_read (seq_gap seq tid expected actual) g small p =
    rw (str_at (seq_gap_fields seq tid expected actual) p (codes "type") refl refl) refl
emission_read (type_schism seq addr old_type new_type old_source new_source) g small p =
    rw
      (str_at (type_schism_fields seq addr old_type new_type old_source new_source) p (codes "type")
        refl refl)
      refl
emission_read
      (type_violation seq kind write_addr write_size base_addr offset type_name field_name pc) g
      small p =
    rw
      (str_at
        (type_violation_fields seq kind write_addr write_size base_addr offset type_name field_name
          pc)
        p (codes "type") refl refl)
      refl
emission_read (type_epoch_close seq addr type_name source open_seq close_seq reason) g small p =
    rw
      (str_at (type_epoch_close_fields seq addr type_name source open_seq close_seq reason) p
        (codes "type") refl refl)
      refl
