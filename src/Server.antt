-- ===== src/Server.antt =====
-- The part of the TRITONBACKEND API through which the library reads the inputs of requests. It is
-- implemented by the server, so it is a parameter of the model. The calls read what they return and
-- change nothing; a call that fails leaves its output arguments alone.
use Prim.Native.String.{String}
use backend_radius_ai.Prelude.{ℕ, Option, List}
use backend_radius_ai.Prelude.Int.{ℤ}
use backend_radius_ai.Triton.{MemoryType, Result}

-- `MemoryDesc` of include/triton/backend/backend_input_collector.h
pub record MemoryDesc : Type 0 where
  pub buffer : ℕ
  pub byte_size : ℕ
  pub memory_type : MemoryType
  pub memory_type_id : ℕ

pub record Properties : Type 0 where
  pub shape : List ℤ
  pub byte_size : ℕ
  pub buffer_count : ℕ

pub record Server : Type 1 where
  pub Request : Type 0
  pub Input : Type 0
  -- TRITONBACKEND_RequestInput
  pub request_input : Request → String → Result Input
  -- TRITONBACKEND_InputPropertiesForHostPolicy
  pub input_properties : Input → Option String → Result Properties
  -- TRITONBACKEND_InputBufferForHostPolicy
  pub input_buffer : Input → Option String → ℕ → Result MemoryDesc
