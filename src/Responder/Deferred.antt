-- ===== src/Responder/Deferred.antt =====
-- The steps by which a device tensor reaches host outputs, through pinned memory or directly.

use backend_radius_ai.Prelude.{
  ℕ, ◌+◌, ◌≡◌, ◌≢◌, refl, Bool, true, false, ◌||◌, [], ◌∷◌, ◌++◌, arith, append_assoc, append-nil,
  none, some, inl, inr, ◌⊎◌, ltb, ◌==◌, Bool-cases,
}
use backend_radius_ai.Triton.{cpu_pinned, gpu, ok}
use backend_radius_ai.BackendMemory.Creation.{Result-cases}
use backend_radius_ai.Machine.{Transfer, Machine, run_stream, synchronize, null}
use backend_radius_ai.Copy.{CudaCall, Place}
use backend_radius_ai.Copy.Effects.{copy_buffer_device}
use backend_radius_ai.Responses.{Responses, respond_if_error}
use backend_radius_ai.Responder.State.{ResponsesList, Settings, Responder, Tensor}
use backend_radius_ai.Responder.Flush.{
  copy_to_response, scatter, fail_outputs, allocate_pinned, defer, stage_pinned, clear_pinned,
  flush_pending_pinned, finalize_all, is_empty, finalize, pinned_place,
}
use backend_radius_ai.Responder.Scatter.{output_writes, HostOutputs, with_machine, scatter_host}

fail_outputs-ok : (outputs : ResponsesList) (rs : Responses) → fail_outputs outputs (ok tt) rs ≡ rs
unfolding fail_outputs respond_if_error
fail_outputs-ok [] rs = refl
fail_outputs-ok ((idx, o) ∷ outputs) rs = fail_outputs-ok outputs rs

or_true : (b : Bool) → (b || true) ≡ true
or_true true = refl
or_true false = refl

cpu_pinned≢gpu : cpu_pinned ≢ gpu
cpu_pinned≢gpu e = cc

module _ {H : Type 0} (settings : Settings H) (enabled : settings.cuda.enabled ≡ true)
    (launches : (m : Machine) (call : CudaCall) → settings.cuda.succeeds m call ≡ true) where
  open settings use {cuda, copy_on_stream, api}

  -- From a device, the copies of the outputs are put in the stream.
  pub scatter_device :
      (src_place : Place) (base : ℕ) (outputs : ResponsesList) (r : Responder H)
      → src_place.memory_type ≡ gpu
      → base ≢ null
      → HostOutputs outputs
      → (scatter settings src_place base outputs r).1
        ≡ with_machine r
            (record r.machine { stream = r.machine.stream ++ output_writes base outputs })
  unfolding scatter copy_to_response respond_if_error
  scatter_device src_place base [] r device valid all = rw append-nil
  scatter_device src_place base ((idx, o) ∷ outputs) r device valid all =
      let t : Transfer = record { dst = o.block.buffer; src = base; size = o.buffer_byte_size } in
      let here =
        copy_buffer_device cuda src_place o.block.place t copy_on_stream r.machine enabled
          (launches r.machine) device valid all.0 in
      let r' = with_machine r (record r.machine { stream = r.machine.stream ++ t ∷ [] }) in
      let rest =
        scatter_device src_place (base + o.buffer_byte_size) outputs r' device
          (λ e. omega (arith, valid)) all.2 in
      rw here (rw (rest, append_assoc))

  pub flush_direct :
      (tensor : Tensor) (r r' : Responder H)
      → allocate_pinned settings r ≡ (none, r')
      → (flush_pending_pinned settings tensor r).1
        ≡ clear_pinned
            (scatter settings tensor.place
              (tensor.buffer + r'.pending_pinned_offset)
              r'.pending_pinned_outputs
              r').1
  unfolding flush_pending_pinned
  flush_direct tensor r r' e = rw (e, flush_pending_pinned) (rw e refl)

  pub stage_deferred :
      (ptr : ℕ) (tensor : Tensor) (r : Responder H)
      → tensor.place.memory_type ≡ gpu
      → tensor.buffer ≢ null
      → ptr ≢ null
      → stage_pinned settings ptr tensor r ≡ (
          let t : Transfer = record {
            dst = ptr;
            src = tensor.buffer + r.pending_pinned_offset;
            size = r.pending_pinned_byte_size;
          } in
          (
            true,
            defer ptr (with_machine r (record r.machine { stream = r.machine.stream ++ t ∷ [] })),
          ))
  unfolding stage_pinned defer
  stage_deferred ptr tensor r device valid given =
      let t : Transfer = record {
        dst = ptr;
        src = tensor.buffer + r.pending_pinned_offset;
        size = r.pending_pinned_byte_size;
      } in
      let copied =
        copy_buffer_device cuda tensor.place pinned_place t copy_on_stream r.machine enabled
          (launches r.machine) device (λ e. omega (arith, valid)) given in
      rw (copied, fail_outputs-ok)

  pub flush_deferred :
      (tensor : Tensor) (r r' r'' : Responder H) (ptr : ℕ)
      → allocate_pinned settings r ≡ (some ptr, r')
      → stage_pinned settings ptr tensor r' ≡ (true, r'')
      → flush_pending_pinned settings tensor r
        ≡ (true, record (clear_pinned r'') { pinned_memories = r''.pinned_memories ++ ptr ∷ [] })
  unfolding flush_pending_pinned clear_pinned
  flush_deferred tensor r r' r'' ptr e f = rw (e, flush_pending_pinned) (rw e (rw f refl))

  pub allocate_pinned-cases :
      (r : Responder H)
      → ((h : H) × (allocate_pinned settings r ≡ (none, record r { heap = h })))
        ⊎ ((h : H) × (ptr : ℕ) × (ptr ≢ null)
            × ((api.manager_allocate r.heap cpu_pinned 0 r.pending_pinned_byte_size).0 ≡ ok ptr)
            × (allocate_pinned settings r ≡ (some ptr, record r { heap = h })))
  unfolding allocate_pinned
  allocate_pinned-cases r =
      let h = (api.manager_allocate r.heap cpu_pinned 0 r.pending_pinned_byte_size).1 in
      elim (Bool-cases (ltb 0 r.pending_pinned_byte_size)) [
        | inr nothing ↦ inl (r.heap, rw nothing)
        | inl some_bytes ↦
            elim (Result-cases
              (api.manager_allocate r.heap cpu_pinned 0 r.pending_pinned_byte_size).0) [
                | inr (e, failed) ↦ inl (h, rw (some_bytes, failed, allocate_pinned))
                | inl (ptr, made) ↦ elim (Bool-cases (ptr == 0)) [
                  | inl null_ptr ↦ inl (h, rw (some_bytes, made, null_ptr, allocate_pinned))
                  | inr given ↦
                      inr
                        (h, ptr, ground arith, made, rw (some_bytes, made, given, allocate_pinned))
                ]
              ]
      ]

  pub finalize_nothing :
      (r : Responder H) → r.deferred_pinned ≡ [] → (finalize settings r).machine ≡ r.machine
  unfolding finalize finalize_all is_empty
  finalize_nothing r none_deferred = rw (none_deferred, enabled)

  pub finalize_one :
      (r : Responder H) (ptr size : ℕ) (outputs : ResponsesList)
      → copy_on_stream ≡ false
      → r.need_sync ≡ true
      → r.deferred_pinned
        ≡ record { pinned_memory = ptr; pinned_memory_size = size; responses = outputs } ∷ []
      → ptr ≢ null
      → HostOutputs outputs
      → (finalize settings r).machine ≡ record {
        mem = run_stream (output_writes ptr outputs) (run_stream r.machine.stream r.machine.mem);
        stream = [];
      }
  unfolding finalize finalize_all is_empty synchronize
  finalize_one r ptr size outputs off synced deferred given host =
      let waited = record r {
        machine = synchronize r.machine;
        need_sync = false;
        deferred_pinned =
            record { pinned_memory = ptr; pinned_memory_size = size; responses = outputs } ∷ [];
      } in
      simp (deferred, synced, enabled)
        (rw (scatter_host settings pinned_place ptr outputs waited off cpu_pinned≢gpu given host))
