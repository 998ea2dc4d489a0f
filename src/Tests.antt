-- ===== src/Tests.antt =====
-- Runs of the theorems at concrete inputs.
mod Replay
mod Graphs
mod Ids
mod Metadata
mod Neighbors
mod Store
mod Sessions
mod Server
mod Tools
