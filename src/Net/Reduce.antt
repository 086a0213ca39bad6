-- ===== src/Net/Reduce.antt =====
-- src/net/reduce: the structural reduction of a net. A working graph is built from the net, three
-- rules rewrite it, and it is read back as a net.
pub mod Graph
pub mod Materialize
pub mod Loops
pub mod Sequence
pub mod Intermediate
pub mod Reducer
pub mod Pairwise
pub mod InRange
pub mod Keeps
