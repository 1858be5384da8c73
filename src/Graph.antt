-- ===== src/Graph.antt =====
-- src/block/graph: the nodes of a graph in blocks.
pub mod NodeData
pub mod Db
mod Tests
