-- ===== src/Tests.antt =====
-- Runs of the models at concrete inputs, and the theorems applied to them.
mod History
mod Deltas
mod Calls
mod Heap
mod Types
mod Registers
mod Locations
mod Rings
mod Records
mod Indexes
mod Variables
mod Configs
mod Objects
mod Mappings
mod Topologies
