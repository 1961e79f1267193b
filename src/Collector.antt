-- ===== src/Collector.antt =====
-- src/backend_input_collector.cc
pub mod Iterator
pub mod State
pub mod Tensor
pub mod Process
pub mod Contiguous
