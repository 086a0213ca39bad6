-- ===== src/Examples.antt =====
-- Concrete runs of the models: a list-based state graph, small nets, and what the theorems say of
-- them.
pub mod ListGraph
pub mod Nets
pub mod Firing
pub mod Searching
pub mod Reducing
pub mod Bounding
pub mod Shrinking
pub mod Detecting
pub mod Viewing
