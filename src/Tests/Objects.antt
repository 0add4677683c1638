-- ===== src/Tests/Objects.antt =====
-- The heap graph of engine/src/heap_graph.rs at concrete inputs.
use rtmap.Base.{ℕ, ◌+◌, ◌≡◌, refl, true, not, ◌&&◌, List, [], ◌∷◌, some, arith, any, ◌>>=◌}
use rtmap.Base.TreeMap.{TreeMap}
use rtmap.HeapGraph.{
  new, object_count, edge_count, sum_edges, process_write, make_cluster, find_object_base,
  write_object, cluster_object, assert_addr_to_base_invariant,
}
use rtmap.HeapGraph.Runs.{Op, write, free, gc, apply, run, run-assert_addr_to_base_invariant}
use rtmap.HeapOracle.{in_range, in_user_range, is_heap}
use rtmap.HeapOracle.Modules.{
  Module, module_holds, add_modules, stacks_only, Apart, is_heap-add_modules,
}

-- Three writes make an object with an edge, the fourth, behind it, changes nothing.
abbrev three_fields : List Op
three_fields =
    write 0x10010 8 7 0
    ∷ write 0x10000 8 0x20000 1
    ∷ write 0x10008 4 1 2
    ∷ write 0x10018 8 0x30000 3
    ∷ []

objects_made : (run three_fields new >>= λ g. some (object_count g + edge_count g)) ≡ some 2
unfolding run apply process_write new object_count edge_count sum_edges make_cluster
    find_object_base write_object cluster_object
objects_made = refl

abbrev life : List Op
life =
    write 0x10010 8 7 0
    ∷ write 0x10000 8 0x20000 1
    ∷ write 0x10008 4 1 2
    ∷ write 0x10008 8 0x30000 3
    ∷ free 0x10000 32
    ∷ write 0x10008 8 0x30000 4
    ∷ gc 9 1
    ∷ []

run-assert_addr_to_base_invariant_example :
    (run life new >>= λ g. some (assert_addr_to_base_invariant g)) ≡ some true
run-assert_addr_to_base_invariant_example =
    run-assert_addr_to_base_invariant life
      (omega arith, (omega arith, (omega arith, (omega arith, (tt, (omega arith, (tt, tt)))))))

abbrev loaded : List Module
loaded = (0x400000, 0x1000) ∷ (0x401000, 0x500) ∷ (0x500000, 0) ∷ (0x700000, 0x2000) ∷ []

abbrev stack_of : TreeMap (ℕ × ℕ)
stack_of = (1, (0x7f0000, 0x810000)) ∷ []

is_heap-add_modules_example :
    (is_heap (add_modules loaded (stacks_only stack_of)) 0x600000 ≡ (
      not (any (module_holds 0x600000) loaded)
      && not (any (λ e. in_range 0x600000 e.1) stack_of)
      && in_user_range 0x600000))
    × Apart 0 (add_modules loaded (stacks_only stack_of)).module_ranges
is_heap-add_modules_example = is_heap-add_modules 0x600000 stack_of loaded (
  omega arith,
  omega arith,
  (omega arith, omega arith, (omega arith, omega arith, (omega arith, omega arith, tt))),
)
