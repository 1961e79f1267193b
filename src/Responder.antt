-- ===== src/Responder.antt =====
-- `BackendOutputResponder` of src/backend_output_responder.cc and
-- include/triton/backend/backend_output_responder.h.
pub mod State
pub mod Flush
pub mod Process
pub mod Once
pub mod Scatter
pub mod Deferred
pub mod Delivered
