-- ===== src/Net.antt =====
-- src/net: place/transition nets. Ids and indexed vectors, the static structure of a net, its
-- incidence matrices, the net itself with its firing rule, and its reduction.
pub mod IndexVec
pub mod Structure
pub mod Incidence
pub mod Core
pub mod Reduce
