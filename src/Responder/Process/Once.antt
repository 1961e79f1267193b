-- ===== src/Responder/Process/Once.antt =====
-- Processing tensors and states sends no response twice.
use Prim.Native.String.{String}
use backend_radius_ai.Prelude.{
  ℕ, zero, suc, ◌+◌, ◌≡◌, List, [], ◌∷◌, get_or, if_both, Bool-cases, inl, inr,
}
use backend_radius_ai.Prelude.Int.{ℤ, pos}
use backend_radius_ai.Triton.{DataType, unsupported}
use backend_radius_ai.BackendMemory.Creation.{Result-cases}
use backend_radius_ai.Responses.Reached.{
  none_sent, more, ◌after◌, respond_if_error-Reached, load-Reached,
}
use backend_radius_ai.Responses.Once.{load}
use backend_radius_ai.Responder.State.{Settings, Responder, Tensor, is_live}
use backend_radius_ai.Responder.Once.{
  Leads, set_fixed_size_buffer-Leads, flush_pending_pinned-Leads, finalize-Leads,
}
use backend_radius_ai.Responder.Flush.{finalize}
use backend_radius_ai.Responder.Process.{
  Split, flush_before, split_shape, emit_output, find_output, respond_output, respond_state,
  tensor_loop, process_output_tensor, state_loop, process_state_tensor, batch_loop,
  process_batch_output,
}

module _ {H : Type 0} (settings : Settings H) (tensor : Tensor) where
  open settings use {api}
  open api use {Request, StateObject, input_shape}

  flush_before-Leads :
      (offset : ℕ) (r : Responder H) → Leads (flush_before settings tensor offset r) r
  unfolding flush_before
  flush_before-Leads offset r =
      if_both (λ (a : Responder H). Leads a r) _ (flush_pending_pinned-Leads settings tensor r)
        none_sent

  split_shape-Leads :
      (batch : ℤ) (idx : ℕ) (request : Request) (s : Split) (r : Responder H)
      → Leads (split_shape settings tensor batch idx request s r).1 r
  unfolding split_shape
  split_shape-Leads batch idx request s r =
      let failed = more r.responses idx unsupported none_sent in
      elim (Bool-cases settings.first_dim_batching) [
        | inl batching ↦ rw batching (if_both (λ (a : Responder H). Leads a r) _ failed none_sent)
        | inr whole ↦ rw whole none_sent
      ]

  emit_output-Leads :
      (name : String) (datatype : DataType) (idx : ℕ) (shape : List ℤ) (size offset : ℕ)
      (r : Responder H)
      → Leads (emit_output settings tensor name datatype idx shape size offset r) r
  unfolding emit_output
  emit_output-Leads name datatype idx shape size offset r =
      let answer = (settings.api.response_output r.heap idx name datatype shape).0 in
      let sent = respond_if_error-Reached r.responses idx answer in
      elim (Result-cases answer) [
        | inl (output, e) ↦
            rw (e, emit_output)
              (set_fixed_size_buffer-Leads settings _ idx tensor size offset _ _ after sent)
        | inr (x, e) ↦ rw (e, emit_output) sent
      ]

  find_output-Leads :
      (name : String) (datatype : DataType) (idx : ℕ) (request : Request) (shape : List ℤ)
      (size offset n output_idx : ℕ) (r : Responder H)
      → Leads
          (find_output settings tensor name datatype idx request shape size offset n output_idx r)
          r
  unfolding find_output
  find_output-Leads name datatype idx request shape size offset zero output_idx r = none_sent
  find_output-Leads name datatype idx request shape size offset (suc n) output_idx r =
      let answer = settings.api.output_name request output_idx in
      let sent = respond_if_error-Reached r.responses idx answer in
      if_both (λ (a : Responder H). Leads a r) _
        (emit_output-Leads name datatype idx shape size offset _ after sent)
        (find_output-Leads name datatype idx request shape size offset n (output_idx + 1) _
          after sent)

  pub respond_output-Leads :
      (name : String) (datatype : DataType) (idx : ℕ) (request : Request) (shape : List ℤ)
      (size offset : ℕ) (r : Responder H)
      → Leads (respond_output settings tensor name datatype idx request shape size offset r) r
  unfolding respond_output
  respond_output-Leads name datatype idx request shape size offset r =
      let answer = settings.api.output_count request in
      let sent = respond_if_error-Reached r.responses idx answer in
      elim (Bool-cases (is_live r.responses idx)) [
        | inl live ↦
            rw (live, respond_output)
              (elim (Result-cases answer) [
                | inl (n, e) ↦
                    rw (e, respond_output)
                      (find_output-Leads name datatype idx request shape size offset n 0 _
                        after sent)
                | inr (x, e) ↦ rw (e, respond_output) sent
              ])
        | inr dead ↦ rw dead none_sent
      ]

  respond_state-Leads :
      (name : String) (datatype : DataType) (idx : ℕ) (request : Request) (shape : List ℤ)
      (size offset : ℕ) (states : List StateObject) (r : Responder H)
      → Leads
          (respond_state settings tensor name datatype idx request shape size offset states r).1
          r
  unfolding respond_state
  respond_state-Leads name datatype idx request shape size offset states r =
      let answer = (settings.api.state_new r.heap request name datatype shape).0 in
      let sent = respond_if_error-Reached r.responses idx answer in
      elim (Bool-cases (is_live r.responses idx)) [
        | inl live ↦
            rw (live, respond_state)
              (elim (Result-cases answer) [
                | inl (output, e) ↦
                    rw (e, respond_state)
                      (set_fixed_size_buffer-Leads settings _ idx tensor size offset _ _ after sent)
                | inr (x, e) ↦ rw (e, respond_state) sent
              ])
        | inr dead ↦ rw dead none_sent
      ]

  pub tensor_loop-Leads :
      (name : String) (datatype : DataType) (batch : ℤ) (requests : List Request) (idx offset : ℕ)
      (s : Split) (r : Responder H)
      → Leads (tensor_loop settings tensor name datatype batch requests idx offset s r).1 r
  unfolding tensor_loop
  tensor_loop-Leads name datatype batch [] idx offset s r = none_sent
  tensor_loop-Leads name datatype batch (request ∷ requests) idx offset s r =
      tensor_loop-Leads name datatype batch requests (idx + 1) _ _ _
      after respond_output-Leads name datatype idx request _ _ offset _
      after split_shape-Leads batch idx request s (flush_before settings tensor offset r)
      after flush_before-Leads offset r

  state_loop-Leads :
      (name : String) (datatype : DataType) (batch : ℤ) (requests : List Request) (idx offset : ℕ)
      (s : Split) (states : List StateObject) (r : Responder H)
      → Leads (state_loop settings tensor name datatype batch requests idx offset s states r).2 r
  unfolding state_loop
  state_loop-Leads name datatype batch [] idx offset s states r = none_sent
  state_loop-Leads name datatype batch (request ∷ requests) idx offset s states r =
      state_loop-Leads name datatype batch requests (idx + 1) _ _ _ _
      after respond_state-Leads name datatype idx request _ _ offset states _
      after split_shape-Leads batch idx request s (flush_before settings tensor offset r)
      after flush_before-Leads offset r

  batch_loop-Leads :
      (name : String) (datatype : DataType) (input : String) (output_shape : List ℤ)
      (requests : List Request) (idx offset : ℕ) (r : Responder H)
      → Leads (batch_loop settings tensor name datatype input output_shape requests idx offset r) r
  unfolding batch_loop
  batch_loop-Leads name datatype input output_shape [] idx offset r = none_sent
  batch_loop-Leads name datatype input output_shape (request ∷ requests) idx offset r =
      batch_loop-Leads name datatype input output_shape requests (idx + 1) _ _
      after respond_output-Leads name datatype idx request _ _ offset _
      after flush_before-Leads offset r

  pub process_output_tensor-Leads :
      (requests : List Request) (name : String) (datatype : DataType) (shape : List ℤ)
      (r : Responder H)
      → Leads (process_output_tensor settings tensor requests name datatype shape r).1 r
  unfolding process_output_tensor
  process_output_tensor-Leads requests name datatype shape r =
      let batch = get_or shape 0 (pos 0) in
      let s : Split = record { shape = shape; batch_size_offset = pos 0 } in
      flush_pending_pinned-Leads settings tensor
        (tensor_loop settings tensor name datatype batch requests 0 0 s r).1
      after tensor_loop-Leads name datatype batch requests 0 0 s r

  process_state_tensor-Leads :
      (requests : List Request) (name : String) (datatype : DataType) (shape : List ℤ)
      (r : Responder H)
      → Leads (process_state_tensor settings tensor requests name datatype shape r).2 r
  unfolding process_state_tensor
  process_state_tensor-Leads requests name datatype shape r =
      let batch = get_or shape 0 (pos 0) in
      let s : Split = record { shape = shape; batch_size_offset = pos 0 } in
      flush_pending_pinned-Leads settings tensor
        (state_loop settings tensor name datatype batch requests 0 0 s [] r).2
      after state_loop-Leads name datatype batch requests 0 0 s [] r

  process_batch_output-Leads :
      (requests : List Request) (name : String) (datatype : DataType) (input : String)
      (shape : List ℤ) (r : Responder H)
      → Leads (process_batch_output settings tensor requests name datatype input shape r) r
  unfolding process_batch_output
  process_batch_output-Leads requests name datatype input shape r =
      flush_pending_pinned-Leads settings tensor
        (batch_loop settings tensor name datatype input shape requests 0 0 r)
      after batch_loop-Leads name datatype input shape requests 0 0 r

  -- Whatever the server and the copies answer, each of `ProcessTensor`, `ProcessStateTensor`,
  -- `ProcessBatchOutput` and `Finalize` leaves, for each index, the number of its live pointers and
  -- of the errors sent to it in sum as it was: no response is sent twice, and no pointer is given
  -- up without an error sent.
  pub responder-load :
      (requests : List Request) (name : String) (datatype : DataType) (shape : List ℤ)
      (input : String) (r : Responder H) (i : ℕ)
      → (load (process_output_tensor settings tensor requests name datatype shape r).1.responses i
          ≡ load r.responses i)
        × (load (process_state_tensor settings tensor requests name datatype shape r).2.responses i
            ≡ load r.responses i)
        × (load
              (process_batch_output settings tensor requests name datatype input shape r).responses
              i
            ≡ load r.responses i)
        × (load (finalize settings r).responses i ≡ load r.responses i)
  responder-load requests name datatype shape input r i = (
    load-Reached i (process_output_tensor-Leads requests name datatype shape r),
    load-Reached i (process_state_tensor-Leads requests name datatype shape r),
    load-Reached i (process_batch_output-Leads requests name datatype input shape r),
    load-Reached i (finalize-Leads settings r),
  )
