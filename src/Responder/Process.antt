-- ===== src/Responder/Process.antt =====
-- `ProcessTensor`, `ProcessStateTensor` and `ProcessBatchOutput` of src/backend_output_responder.cc.
-- There is a request for each response.
pub mod Once
pub mod Short
pub mod Granted
pub mod Rows
pub mod Delivery
pub mod Arrival
use Prim.Native.String.{String}
use backend_radius_ai.Prelude.{
  ℕ, zero, suc, ◌+◌, Bool, true, false, not, ◌&&◌, List, [], ◌∷◌, ◌++◌, ltb, ◌==◌, if◌then◌else◌,
  get_or, set,
}
use backend_radius_ai.Prelude.Int.{ℤ, pos, negsuc, ◌+ℤ◌, ◌==ℤ◌, ltb_ℤ, wrap64, to_u64}
use backend_radius_ai.Prelude.Strings.{eq_string}
use backend_radius_ai.Triton.{DataType, MemoryType, cpu_pinned, Result, ok, err, unsupported}
use backend_radius_ai.Shape.{byte_size}
use backend_radius_ai.Responses.{Responses, respond, respond_if_error}
use backend_radius_ai.Collector.Tensor.{get_use_pinned_memory_type}
use backend_radius_ai.Responder.State.{Block, OutputApi, Settings, Responder, Tensor, is_live}
use backend_radius_ai.Responder.Flush.{add64, set_fixed_size_buffer, flush_pending_pinned, noting}

-- The shape in the caller's `batchn_shape`, and `batch_size_offset`.
pub record Split : Type 0 where
  pub shape : List ℤ
  pub batch_size_offset : ℤ

module _ {H : Type 0} (settings : Settings H) (tensor : Tensor) where
  open settings use {first_dim_batching, pinned_enabled, api}
  open api use {
    Request, StateObject, first_input_shape, input_shape, output_count, output_name,
    response_output, state_new, output_buffer, state_buffer, data_type_byte_size,
  }

  unfoldable pub use_pinned_memory_type : MemoryType
  unfolding get_use_pinned_memory_type
  use_pinned_memory_type =
      if pinned_enabled then get_use_pinned_memory_type tensor.place.memory_type else cpu_pinned

  -- The pending copies that a response's part of the tensor does not continue are made.
  unfoldable pub flush_before : ℕ → Responder H → Responder H
  flush_before tensor_offset r =
      if ltb 0 r.pending_pinned_byte_size
        && not (tensor_offset == add64 r.pending_pinned_byte_size r.pending_pinned_offset)
      then noting (flush_pending_pinned settings tensor r)
      else r

  -- The shape is overridden for this response, which fails where the tensor has too few elements
  -- for it.
  unfoldable pub split_shape : ℤ → ℕ → Request → Split → Responder H → Split × Responder H
  split_shape batchn_batch_size idx request s r =
      let n = get_or (first_input_shape request) 0 (pos 0) in
      let next = wrap64 (s.batch_size_offset +ℤ n) in
      let failed = record r { responses = respond r.responses idx unsupported } in
      if first_dim_batching
      then (
        record { shape = set s.shape 0 n; batch_size_offset = next },
        (if not (batchn_batch_size ==ℤ negsuc 0) && ltb_ℤ batchn_batch_size next
            then failed
            else r),
      )
      else (s, r)

  -- `GetByteSize`, as a `size_t`.
  unfoldable pub tensor_byte_size : DataType → List ℤ → ℕ
  unfolding byte_size to_u64
  tensor_byte_size datatype shape = to_u64 (byte_size data_type_byte_size datatype shape)

  -- The response's part of an output that the request asks for.
  unfoldable pub emit_output : String → DataType → ℕ → List ℤ → ℕ → ℕ → Responder H → Responder H
  unfolding use_pinned_memory_type
  emit_output name datatype idx shape size offset r =
      let (answer, h) = response_output r.heap idx name datatype shape in
      let r' = record r { heap = h; responses = respond_if_error r.responses idx answer } in
      elim answer [
        | err e ↦ r'
        | ok output ↦ noting (
            set_fixed_size_buffer settings (λ h. output_buffer h output size tensor.place) idx
              tensor size offset use_pinned_memory_type r')
      ]

  -- The loop over the `n` names from `output_idx` on, up to the tensor's.
  unfoldable pub find_output :
      String → DataType → ℕ → Request → List ℤ → ℕ → ℕ → ℕ → ℕ → Responder H → Responder H
  unfolding emit_output
  find_output name datatype idx request shape size offset zero output_idx r = r
  find_output name datatype idx request shape size offset (suc n) output_idx r =
      let answer = output_name request output_idx in
      let r' = record r { responses = respond_if_error r.responses idx answer } in
      let rest = find_output name datatype idx request shape size offset n (output_idx + 1) r' in
      let matches : Bool = elim answer [
        | ok found ↦ is_live r'.responses idx && eq_string name found
        | err e ↦ false
      ] in
      if matches then emit_output name datatype idx shape size offset r' else rest

  -- What `ProcessTensor` and `ProcessBatchOutput` do for one response.
  unfoldable pub respond_output :
      String → DataType → ℕ → Request → List ℤ → ℕ → ℕ → Responder H → Responder H
  unfolding find_output
  respond_output name datatype idx request shape size offset r =
      let answer = output_count request in
      let r' = record r { responses = respond_if_error r.responses idx answer } in
      let found : Responder H = elim answer [
        | ok n ↦ find_output name datatype idx request shape size offset n 0 r'
        | err e ↦ r'
      ] in
      if is_live r.responses idx then found else r

  -- What `ProcessStateTensor` does for one response, with the states made so far.
  unfoldable pub respond_state :
      String
      → DataType
      → ℕ
      → Request
      → List ℤ
      → ℕ
      → ℕ
      → List StateObject
      → Responder H
      → List StateObject × Responder H
  unfolding use_pinned_memory_type
  respond_state name datatype idx request shape size offset states r =
      let (answer, h) = state_new r.heap request name datatype shape in
      let r' = record r { heap = h; responses = respond_if_error r.responses idx answer } in
      let made : List StateObject × Responder H = elim answer [
        | err e ↦ (states, r')
        | ok state ↦ (
          states ++ state ∷ [],
          noting (
              set_fixed_size_buffer settings (λ h. state_buffer h state size tensor.place) idx
                tensor size offset use_pinned_memory_type r'),
        )
      ] in
      if is_live r.responses idx then made else (states, r)

  -- The loop of `ProcessTensor` from the response `idx` on.
  unfoldable pub tensor_loop :
      String → DataType → ℤ → List Request → ℕ → ℕ → Split → Responder H → Split × Responder H
  unfolding flush_before split_shape tensor_byte_size respond_output
  tensor_loop name datatype batch [] idx tensor_offset s r = (s, r)
  tensor_loop name datatype batch (request ∷ requests) idx tensor_offset s r =
      let (s', r') = split_shape batch idx request s (flush_before tensor_offset r) in
      let size = tensor_byte_size datatype s'.shape in
      tensor_loop name datatype batch requests (idx + 1) (add64 tensor_offset size) s'
        (respond_output name datatype idx request s'.shape size tensor_offset r')

  -- The result holds `batchn_shape` as it is left.
  unfoldable pub process_output_tensor :
      List Request → String → DataType → List ℤ → Responder H → List ℤ × Responder H
  unfolding tensor_loop
  process_output_tensor requests name datatype batchn_shape r =
      let batch = get_or batchn_shape 0 (pos 0) in
      let (s, r') =
        tensor_loop name datatype batch requests 0 0
          (record { shape = batchn_shape; batch_size_offset = pos 0 }) r in
      (s.shape, noting (flush_pending_pinned settings tensor r'))

  unfoldable pub state_loop :
      String
      → DataType
      → ℤ
      → List Request
      → ℕ
      → ℕ
      → Split
      → List StateObject
      → Responder H
      → Split × List StateObject × Responder H
  unfolding flush_before split_shape tensor_byte_size respond_state
  state_loop name datatype batch [] idx tensor_offset s states r = (s, states, r)
  state_loop name datatype batch (request ∷ requests) idx tensor_offset s states r =
      let (s', r') = split_shape batch idx request s (flush_before tensor_offset r) in
      let size = tensor_byte_size datatype s'.shape in
      let (states', r'') =
        respond_state name datatype idx request s'.shape size tensor_offset states r' in
      state_loop name datatype batch requests (idx + 1) (add64 tensor_offset size) s' states' r''

  -- The result holds `batchn_shape` as it is left, and the states.
  unfoldable pub process_state_tensor :
      List Request
      → String
      → DataType
      → List ℤ
      → Responder H
      → List ℤ × List StateObject × Responder H
  unfolding state_loop
  process_state_tensor requests name datatype batchn_shape r =
      let batch = get_or batchn_shape 0 (pos 0) in
      let (s, states, r') =
        state_loop name datatype batch requests 0 0
          (record { shape = batchn_shape; batch_size_offset = pos 0 }) [] r in
      (s.shape, states, noting (flush_pending_pinned settings tensor r'))

  -- The dynamic dimensions are those of the input, `k` dimensions on.
  unfoldable pub resolve_shape : List ℤ → List ℤ → List ℤ
  resolve_shape [] shape = []
  resolve_shape (d ∷ ds) [] = d ∷ ds
  resolve_shape (d ∷ ds) (n ∷ ns) = (if d ==ℤ negsuc 0 then n else d) ∷ resolve_shape ds ns

  unfoldable pub batch_loop :
      String → DataType → String → List ℤ → List Request → ℕ → ℕ → Responder H → Responder H
  unfolding flush_before resolve_shape tensor_byte_size respond_output
  batch_loop name datatype input output_shape [] idx tensor_offset r = r
  batch_loop name datatype input output_shape (request ∷ requests) idx tensor_offset r =
      let shape = resolve_shape output_shape (input_shape request input) in
      let size = tensor_byte_size datatype shape in
      batch_loop name datatype input output_shape requests (idx + 1) (add64 tensor_offset size) (
        respond_output name datatype idx request shape size tensor_offset
          (flush_before tensor_offset r))

  -- `ProcessBatchOutput` for BATCH_SCATTER_WITH_INPUT_SHAPE, the one kind there is.
  unfoldable pub process_batch_output :
      List Request → String → DataType → String → List ℤ → Responder H → Responder H
  unfolding batch_loop
  process_batch_output requests name datatype input output_shape r = noting (
      flush_pending_pinned settings tensor
        (batch_loop name datatype input output_shape requests 0 0 r))
