-- ===== src/Tracker.antt =====
-- `DeviceMemoryTracker` of src/device_memory_tracker.cc and
-- include/triton/backend/device_memory_tracker.h, in the build with TRITON_ENABLE_MEMORY_TRACKER.
pub mod Activity
pub mod Usage
pub mod Attribution
pub mod Balance
pub mod Balanced
pub mod Serialized
