-- ===== src/Detect.antt =====
-- src/detect: the detectors that read a finished state graph.
pub mod Cycles
pub mod Deadlock
