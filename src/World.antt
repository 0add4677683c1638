-- ===== src/World.antt =====
-- engine/src/world.rs: the engine's model of the traced process.
pub mod SnapshotRing
pub mod SnapshotDelta
pub mod Nodes
pub mod TypeStability
pub mod TypeEpochLog
pub mod ShadowStack
pub mod ShadowTypeMap
pub mod HeapAllocTracker
