-- ===== src/Analysis.antt =====
-- src/analysis: the state graph of a net.
pub mod Graph
pub mod Snapshot
pub mod Reachability
pub mod Por
pub mod Boundness
