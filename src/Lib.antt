-- ===== src/Lib.antt =====
-- A model of the rtmap engine (engine/src): the part that reads the events of a traced program and
-- keeps a typed picture of its memory.
--
-- Parts and how they interact. The tracer writes events into rings in shared memory; the engine's
-- event loop takes each event and updates the models of engine/src/world.rs. An allocation or a
-- free goes to the heap tracker; a free also purges the type map and closes an epoch. A write of a
-- pointer either types its target through the type map or waits in the map's buffer until a stamp
-- covers the written address. Calls and returns go to the shadow stack of their thread. The
-- snapshot ring keeps the last states for time travel. The recorder writes the events to a file as
-- they are taken from the rings, and the replay reads them back from there. The topology stream
-- writes what the models find out to a file of JSON lines; the checker, a program of its own, builds
-- a graph from such a file and decides assertions about it.
--
-- Files and what they model:
--   Base, Circular             numbers, lists, ordered maps, circular vectors
--   Dwarf                      TypeInfo, FieldInfo (engine/src/dwarf.rs)
--   Dwarf.Location             location tables, resolve_location, eval_stack_machine
--                              (engine/src/dwarf.rs)
--   Ring                       Event, ThreadRing (engine/src/ring.rs): from_shm, consume_batch
--   Ring.Control               the control block and its handshake, the address filter
--                              (engine/src/ring.rs)
--   Ring.Orchestrator          RingOrchestrator (engine/src/ring.rs): poll_new_rings, batch_drain
--   Ring.Backpressure          update_backpressure, total_fill (engine/src/ring.rs)
--   ShadowRegs                 ShadowRegisterFile (engine/src/shadow_regs.rs)
--   ShadowRegs.Pieces          PieceAssembler (engine/src/shadow_regs.rs)
--   World.SnapshotRing         SnapshotRing (engine/src/world.rs): push, slot, find_by_*
--   World.SnapshotDelta        SnapshotRing::delta (engine/src/world.rs)
--   World.TypeEpochLog         TypeEpochLog (engine/src/world.rs): close_epoch, query, history
--   World.ShadowStack          ShadowStack (engine/src/world.rs): push_call, pop_return(_checked)
--   World.ShadowTypeMap        ShadowTypeMap (engine/src/world.rs): stamps, purges, covering
--   World.ShadowTypeMap.Propagate
--                              propagate_field_write, replay_deferred
--   World.HeapAllocTracker     HeapAllocTracker (engine/src/world.rs): on_alloc, on_free, checks
--   World.Nodes                WorldInner, WorldState (engine/src/world.rs): nodes and edges
--   World.TypeStability        TypeStabilityMonitor (engine/src/world.rs)
--   Index, Index.Lookup        NodeId, AddressIndex (engine/src/index.rs)
--   HeapGraph, HeapOracle      engine/src/heap_graph.rs: objects that are inferred from writes
--   Record                     EventRecorder, EventPlayer (engine/src/record.rs), and the loop of
--                              the replay (engine/src/main.rs)
--   Reconciler                 apply_reg_snapshot (engine/src/reconciler.rs)
--   Config                     engine/src/config.rs: parsing, merging, target profiles, shell_split
--   ProcMaps                   engine/src/proc_maps.rs: lines of maps, shared regions
--   Topology, Topology.Calls   TopologyStream and its emit_* (engine/src/topology.rs)
--   Check                      TopoGraph, from the lines of a topology (engine/src/check.rs)
--   Check.Assertions           parse_assertions, parse_one (engine/src/check.rs)
--   Check.Verdicts             evaluate, eval_one (engine/src/check.rs)
--   Check.Program              main (engine/src/check.rs), with the reading of files as a parameter
--   Tests                      the models at concrete inputs
--
-- Conventions. A method takes the object and answers the changed one. u64 counters wrap at 2^64, as
-- in a release build. A BTreeMap, and a HashMap whose order nothing reads, is an association list.
-- An index out of range or a division by zero, a panic of the code, is `none`. An i64 is the word
-- of the same bits. What another process may change under the consumer of a ring (the head, the
-- slots, the table of threads) is an argument, as it is when it is read, and so is the memory that
-- the pieces of a variable are read from. The binary search runs on fuel `len + 1`: an interval of
-- `len` slots takes at most `len` rounds and a last test. The loop of a batch runs on the number of
-- slots that are left, the loop of a replay on a number of turns that is to be greater than the
-- number of recorded events, and the passes of the replay are bounded by the code's own constant,
-- 8. The digits of a printed number run on fuel 64, more than a number of 64 bits has. The walk
-- along the edges of a topology runs on fuel; any above the number of edges gives the same answer.
-- The debug information's table of types by name is a function, and the state in a snapshot, but
-- for the delta of two, a type parameter.
--
-- Not modelled: the event loop and the terminal interface, the candidate types of heap objects with
-- their confidence in floating point (they touch no object's extent, fields or edges), the heat
-- maps, the reports of leaks and cache lines, the comparison of recordings (engine/src/diff.rs),
-- the lints (engine/src/lint.rs), what the checker prints, the reading of ELF and DWARF, and the C
-- side of the tracer.
pub mod Base
pub mod Circular
pub mod Dwarf
pub mod Ring
pub mod ShadowRegs
pub mod World
pub mod Tests
pub mod Record
pub mod Index
pub mod HeapGraph
pub mod HeapOracle
pub mod ProcMaps
pub mod Topology
pub mod Check
pub mod Config
pub mod Reconciler
