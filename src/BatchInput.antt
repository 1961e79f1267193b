-- ===== src/BatchInput.antt =====
-- The batch inputs of a model: `BatchInput` of include/triton/backend/backend_common.h, and what
-- src/backend_input_collector.cc makes of them.
pub mod Elements
pub mod Process
pub mod Counts
pub mod Written
pub mod Bounds
pub mod Sized
pub mod Items
pub mod Shapes
pub mod Overrun
use Prim.Native.String.{String}
use backend_radius_ai.Prelude.{ℕ, Bool, ◌+◌}
use backend_radius_ai.Triton.{DataType}

pub data Kind : Type 0 where
  element_count accumulated_element_count accumulated_element_count_with_zero
        max_element_count_as_shape item_shape item_shape_flatten :
      Kind

-- `BatchInput`, with the first of its source inputs, the only one that is looked at. The target
-- names only stand in messages.
pub record BatchInput : Type 0 where
  pub kind : Kind
  pub data_type : DataType
  pub source_input : String
