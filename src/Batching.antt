-- ===== src/Batching.antt =====
-- The custom batching strategies of examples/batching_strategies.
pub mod Volume
pub mod Single
