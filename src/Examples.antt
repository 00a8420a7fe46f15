-- ===== src/Examples.antt =====
-- Runs of the development on concrete values: a log of three entries, of which the last is not yet
-- stored, and a node of a group of three.
pub mod Values
pub mod Pieces
pub mod Layers
pub mod Nodes
pub mod Files
pub mod Shards
pub mod Requests
