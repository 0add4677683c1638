-- ===== src/Topology/Calls.antt =====
-- The methods of `TopologyStream` of engine/src/topology.rs: the members that each writes.
use rtmap.Base.{ℕ, List, [], ◌∷◌, Option, none, some, sub32}
use rtmap.Base.Texts.{Text, codes}
use rtmap.Topology.{TopologyStream, Field, number, address, text, word, texts, writeln}

abbrev pub or_blank : Option Text → Text
or_blank none = []
or_blank (some s) = s

abbrev pub alloc_fields : ℕ → ℕ → ℕ → ℕ → List Field
alloc_fields seq tid addr size =
    (codes "seq", number seq)
    ∷ (codes "tid", number tid)
    ∷ (codes "type", word (codes "ALLOC"))
    ∷ (codes "addr", address addr)
    ∷ (codes "size", number size)
    ∷ []

unfoldable pub emit_alloc : ℕ → ℕ → ℕ → ℕ → TopologyStream → TopologyStream
emit_alloc seq tid addr size t = writeln (alloc_fields seq tid addr size) t

abbrev pub free_fields : ℕ → ℕ → ℕ → ℕ → List Field
free_fields seq tid addr size =
    (codes "seq", number seq)
    ∷ (codes "tid", number tid)
    ∷ (codes "type", word (codes "FREE"))
    ∷ (codes "addr", address addr)
    ∷ (codes "size", number size)
    ∷ []

unfoldable pub emit_free : ℕ → ℕ → ℕ → ℕ → TopologyStream → TopologyStream
emit_free seq tid addr size t = writeln (free_fields seq tid addr size) t

abbrev pub cold_stamp_fields : ℕ → Text → ℕ → Text → ℕ → ℕ → List Field
cold_stamp_fields target_addr type_name type_size source_name field_count depth =
    (codes "type", word (codes "COLD_STAMP"))
    ∷ (codes "addr", address target_addr)
    ∷ (codes "type_name", text type_name)
    ∷ (codes "type_size", number type_size)
    ∷ (codes "source", text source_name)
    ∷ (codes "fields", number field_count)
    ∷ (codes "depth", number depth)
    ∷ []

unfoldable pub emit_cold_stamp : ℕ → Text → ℕ → Text → ℕ → ℕ → TopologyStream → TopologyStream
emit_cold_stamp target_addr type_name type_size source_name field_count depth t =
    writeln (cold_stamp_fields target_addr type_name type_size source_name field_count depth) t

abbrev pub cold_link_fields : Text → ℕ → ℕ → Text → Text → List Field
cold_link_fields from_name from_addr to_addr pointee_type edge_field =
    (codes "type", word (codes "COLD_LINK"))
    ∷ (codes "from", text from_name)
    ∷ (codes "from_addr", address from_addr)
    ∷ (codes "to_addr", address to_addr)
    ∷ (codes "pointee_type", text pointee_type)
    ∷ (codes "edge", text edge_field)
    ∷ []

unfoldable pub emit_cold_link : Text → ℕ → ℕ → Text → Text → TopologyStream → TopologyStream
emit_cold_link from_name from_addr to_addr pointee_type edge_field t =
    writeln (cold_link_fields from_name from_addr to_addr pointee_type edge_field) t

abbrev pub stamp_fields : ℕ → ℕ → Text → ℕ → Text → ℕ → List Field
stamp_fields seq target_addr type_name type_size source_name field_count =
    (codes "seq", number seq)
    ∷ (codes "type", word (codes "STAMP"))
    ∷ (codes "addr", address target_addr)
    ∷ (codes "type_name", text type_name)
    ∷ (codes "type_size", number type_size)
    ∷ (codes "source", text source_name)
    ∷ (codes "fields", number field_count)
    ∷ []

unfoldable pub emit_stamp : ℕ → ℕ → Text → ℕ → Text → ℕ → TopologyStream → TopologyStream
emit_stamp seq target_addr type_name type_size source_name field_count t =
    writeln (stamp_fields seq target_addr type_name type_size source_name field_count) t

abbrev pub link_fields : ℕ → Text → ℕ → ℕ → Text → Text → List Field
link_fields seq from_name from_addr to_addr pointee_type edge_field =
    (codes "seq", number seq)
    ∷ (codes "type", word (codes "LINK"))
    ∷ (codes "from", text from_name)
    ∷ (codes "from_addr", address from_addr)
    ∷ (codes "to_addr", address to_addr)
    ∷ (codes "pointee_type", text pointee_type)
    ∷ (codes "edge", text edge_field)
    ∷ []

unfoldable pub emit_link : ℕ → Text → ℕ → ℕ → Text → Text → TopologyStream → TopologyStream
emit_link seq from_name from_addr to_addr pointee_type edge_field t =
    writeln (link_fields seq from_name from_addr to_addr pointee_type edge_field) t

abbrev pub hazard_fields : ℕ → Text → ℕ → ℕ → ℕ → ℕ → ℕ → Option Text → Option Text → List Field
hazard_fields seq kind write_addr write_size alloc_base alloc_size overflow type_name field_name =
    (codes "seq", number seq)
    ∷ (codes "type", word (codes "HAZARD"))
    ∷ (codes "kind", word kind)
    ∷ (codes "write_addr", address write_addr)
    ∷ (codes "write_size", number write_size)
    ∷ (codes "alloc_base", address alloc_base)
    ∷ (codes "alloc_size", number alloc_size)
    ∷ (codes "overflow", number overflow)
    ∷ (codes "type_name", text (or_blank type_name))
    ∷ (codes "field_name", text (or_blank field_name))
    ∷ []

unfoldable pub emit_hazard :
    ℕ → Text → ℕ → ℕ → ℕ → ℕ → ℕ → Option Text → Option Text → TopologyStream → TopologyStream
emit_hazard seq kind write_addr write_size alloc_base alloc_size overflow type_name field_name t =
    writeln
      (hazard_fields seq kind write_addr write_size alloc_base alloc_size overflow type_name
        field_name)
      t

abbrev pub false_share_fields : ℕ → ℕ → ℕ → List Text → List Field
false_share_fields seq cl_addr thread_count names =
    (codes "seq", number seq)
    ∷ (codes "type", word (codes "FALSE_SHARE"))
    ∷ (codes "cl_addr", address cl_addr)
    ∷ (codes "threads", number thread_count)
    ∷ (codes "names", texts names)
    ∷ []

unfoldable pub emit_false_share : ℕ → ℕ → ℕ → List Text → TopologyStream → TopologyStream
emit_false_share seq cl_addr thread_count names t =
    writeln (false_share_fields seq cl_addr thread_count names) t

abbrev pub process_fork_fields : ℕ → ℕ → ℕ → List Field
process_fork_fields seq child_pid parent_pid =
    (codes "seq", number seq)
    ∷ (codes "type", word (codes "PROCESS_FORK"))
    ∷ (codes "child_pid", number child_pid)
    ∷ (codes "parent_pid", number parent_pid)
    ∷ []

unfoldable pub emit_process_fork : ℕ → ℕ → ℕ → TopologyStream → TopologyStream
emit_process_fork seq child_pid parent_pid t =
    writeln (process_fork_fields seq child_pid parent_pid) t

abbrev pub cross_process_write_fields : ℕ → ℕ → ℕ → ℕ → Text → List Field
cross_process_write_fields seq tid addr size region_path =
    (codes "seq", number seq)
    ∷ (codes "tid", number tid)
    ∷ (codes "type", word (codes "CROSS_PROCESS_WRITE"))
    ∷ (codes "addr", address addr)
    ∷ (codes "size", number size)
    ∷ (codes "region", text region_path)
    ∷ []

unfoldable pub emit_cross_process_write : ℕ → ℕ → ℕ → ℕ → Text → TopologyStream → TopologyStream
emit_cross_process_write seq tid addr size region_path t =
    writeln (cross_process_write_fields seq tid addr size region_path) t

abbrev pub seq_gap_fields : ℕ → ℕ → ℕ → ℕ → List Field
seq_gap_fields seq tid expected actual =
    (codes "seq", number seq)
    ∷ (codes "tid", number tid)
    ∷ (codes "type", word (codes "SEQ_GAP"))
    ∷ (codes "expected", number expected)
    ∷ (codes "actual", number actual)
    ∷ (codes "dropped", number (sub32 actual expected))
    ∷ []

unfoldable pub emit_seq_gap : ℕ → ℕ → ℕ → ℕ → TopologyStream → TopologyStream
emit_seq_gap seq tid expected actual t = writeln (seq_gap_fields seq tid expected actual) t

abbrev pub type_schism_fields : ℕ → ℕ → Text → Text → Text → Text → List Field
type_schism_fields seq addr old_type new_type old_source new_source =
    (codes "seq", number seq)
    ∷ (codes "type", word (codes "TYPE_SCHISM"))
    ∷ (codes "addr", address addr)
    ∷ (codes "old_type", text old_type)
    ∷ (codes "new_type", text new_type)
    ∷ (codes "old_source", text old_source)
    ∷ (codes "new_source", text new_source)
    ∷ []

unfoldable pub emit_type_schism :
    ℕ → ℕ → Text → Text → Text → Text → TopologyStream → TopologyStream
emit_type_schism seq addr old_type new_type old_source new_source t =
    writeln (type_schism_fields seq addr old_type new_type old_source new_source) t

abbrev pub type_violation_fields : ℕ → Text → ℕ → ℕ → ℕ → ℕ → Text → Option Text → ℕ → List Field
type_violation_fields seq kind write_addr write_size base_addr offset type_name field_name pc =
    (codes "seq", number seq)
    ∷ (codes "type", word (codes "TYPE_VIOLATION"))
    ∷ (codes "kind", word kind)
    ∷ (codes "write_addr", address write_addr)
    ∷ (codes "write_size", number write_size)
    ∷ (codes "base_addr", address base_addr)
    ∷ (codes "offset", number offset)
    ∷ (codes "type_name", text type_name)
    ∷ (codes "field", text (or_blank field_name))
    ∷ (codes "pc", address pc)
    ∷ []

unfoldable pub emit_type_violation :
    ℕ → Text → ℕ → ℕ → ℕ → ℕ → Text → Option Text → ℕ → TopologyStream → TopologyStream
emit_type_violation seq kind write_addr write_size base_addr offset type_name field_name pc t =
    writeln
      (type_violation_fields seq kind write_addr write_size base_addr offset type_name field_name
        pc)
      t

abbrev pub type_epoch_close_fields : ℕ → ℕ → Text → Text → ℕ → ℕ → Text → List Field
type_epoch_close_fields seq addr type_name source open_seq close_seq reason =
    (codes "seq", number seq)
    ∷ (codes "type", word (codes "TYPE_EPOCH_CLOSE"))
    ∷ (codes "addr", address addr)
    ∷ (codes "type_name", text type_name)
    ∷ (codes "source", text source)
    ∷ (codes "open_seq", number open_seq)
    ∷ (codes "close_seq", number close_seq)
    ∷ (codes "reason", word reason)
    ∷ []

unfoldable pub emit_type_epoch_close :
    ℕ → ℕ → Text → Text → ℕ → ℕ → Text → TopologyStream → TopologyStream
emit_type_epoch_close seq addr type_name source open_seq close_seq reason t =
    writeln (type_epoch_close_fields seq addr type_name source open_seq close_seq reason) t

abbrev pub summary_fields : ℕ → ℕ → ℕ → ℕ → ℕ → ℕ → List Field
summary_fields total_events nodes edges stm_projections live_allocs hazard_count =
    (codes "type", word (codes "SUMMARY"))
    ∷ (codes "total_events", number total_events)
    ∷ (codes "nodes", number nodes)
    ∷ (codes "edges", number edges)
    ∷ (codes "stm_projections", number stm_projections)
    ∷ (codes "live_allocs", number live_allocs)
    ∷ (codes "hazards", number hazard_count)
    ∷ []

unfoldable pub emit_summary : ℕ → ℕ → ℕ → ℕ → ℕ → ℕ → TopologyStream → TopologyStream
emit_summary total_events nodes edges stm_projections live_allocs hazard_count t =
    writeln (summary_fields total_events nodes edges stm_projections live_allocs hazard_count) t
