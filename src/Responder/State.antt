-- ===== src/Responder/State.antt =====
-- The members of `BackendOutputResponder`, and the server's calls on requests and outputs. A call
-- that changes the server's state `H` returns the state after it.
use Prim.Native.String.{String}
use backend_radius_ai.Prelude.{ℕ, Bool, true, false, List, get_elem?, some}
use backend_radius_ai.Prelude.Int.{ℤ}
use backend_radius_ai.Triton.{DataType, MemoryType, Result}
use backend_radius_ai.Machine.{Machine}
use backend_radius_ai.Copy.{Cuda, Place}
use backend_radius_ai.Responses.{Responses}

-- A buffer that the server gives for an output or a state, in the memory that it chose.
pub record Block : Type 0 where
  pub buffer : ℕ
  pub place : Place

-- `OutputData`, without the name, which only stands in messages.
pub record OutputData : Type 0 where
  pub block : Block
  pub buffer_byte_size : ℕ

-- `ResponsesList`: a response is the index of its pointer.
abbrev pub ResponsesList : Type 0
ResponsesList = List (ℕ × OutputData)

pub record DeferredPinned : Type 0 where
  pub pinned_memory : ℕ
  pub pinned_memory_size : ℕ
  pub responses : ResponsesList

pub record OutputApi (H : Type 0) : Type 1 where
  pub Request : Type 0
  pub Output : Type 0
  pub StateObject : Type 0
  -- What the pointer to the shape of an input is left at, after TRITONBACKEND_RequestInputByIndex
  -- with index 0, or TRITONBACKEND_RequestInput with a name, and TRITONBACKEND_InputProperties,
  -- whose errors are not looked at.
  pub first_input_shape : Request → List ℤ
  pub input_shape : Request → String → List ℤ
  -- TRITONBACKEND_RequestOutputCount, TRITONBACKEND_RequestOutputName
  pub output_count : Request → Result ℕ
  pub output_name : Request → ℕ → Result String
  -- TRITONBACKEND_ResponseOutput, of the response with an index
  pub response_output : H → ℕ → String → DataType → List ℤ → Result Output × H
  -- TRITONBACKEND_StateNew
  pub state_new : H → Request → String → DataType → List ℤ → Result StateObject × H
  -- TRITONBACKEND_OutputBuffer, TRITONBACKEND_StateBuffer: the size, and the place that is preferred
  pub output_buffer : H → Output → ℕ → Place → Result Block × H
  pub state_buffer : H → StateObject → ℕ → Place → Result Block × H
  -- TRITONBACKEND_MemoryManagerAllocate and TRITONBACKEND_MemoryManagerFree
  pub manager_allocate : H → MemoryType → ℕ → ℕ → Result ℕ × H
  pub manager_free : H → ℕ → MemoryType → ℕ → H
  -- TRITONSERVER_DataTypeByteSize
  pub data_type_byte_size : DataType → ℕ

-- The constant members, and the libraries called.
pub record Settings (H : Type 0) : Type 1 where
  pub first_dim_batching : Bool
  pub pinned_enabled : Bool
  pub copy_on_stream : Bool
  pub cuda : Cuda
  pub api : OutputApi H

pub record Responder (H : Type 0) : Type 0 where
  pub need_sync : Bool
  pub responses : Responses
  pub machine : Machine
  pub heap : H
  pub pending_pinned_byte_size : ℕ
  pub pending_pinned_offset : ℕ
  pub pending_pinned_outputs : ResponsesList
  pub deferred_pinned : List DeferredPinned
  pub pinned_memories : List ℕ

-- The tensor with the values of all responses.
pub record Tensor : Type 0 where
  pub buffer : ℕ
  pub place : Place

-- `*response != nullptr`
abbrev pub is_live : Responses → ℕ → Bool
is_live rs i = elim (get_elem? rs.live i) [ some true ↦ true | _ ↦ false ]
