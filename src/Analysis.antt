-- ===== src/Analysis.antt =====
-- src/hdl_kgraph/graph/analysis.py: the structural queries over a linked graph. Units finds and counts
-- design units, Impact is the impact radius of a change, Hierarchy the tree below a top, Queries what
-- drives a signal and the search of nodes.
pub mod Units
pub mod Impact
pub mod Hierarchy
pub mod Queries
mod Samples
