-- ===== src/Responder/Flush.antt =====
-- `SetFixedSizeBuffer`, `FlushPendingPinned`, `Finalize` and the destructor of
-- src/backend_output_responder.cc. A `size_t` has 64 bits. Waiting on the responder's event is
-- modelled as waiting on its stream.
use backend_radius_ai.Prelude.{
  ℕ, ◌+◌, ◌%◌, Bool, true, false, not, ◌&&◌, ◌||◌, Option, none, some, List, [], ◌∷◌, ◌++◌, ltb,
  ◌==◌, if◌then◌else◌,
}
use backend_radius_ai.Prelude.Int.{u64_mod}
use backend_radius_ai.Triton.{MemoryType, cpu_pinned, eq_memory, Result, ok, err}
use backend_radius_ai.Machine.{Transfer, synchronize}
use backend_radius_ai.Copy.{Place, copy_buffer}
use backend_radius_ai.Responses.{Responses, respond, respond_if_error}
use backend_radius_ai.Responder.State.{
  Block, ResponsesList, DeferredPinned, Settings, Responder, Tensor,
}

abbrev pub add64 : ℕ → ℕ → ℕ
add64 a b = (a + b) % u64_mod

abbrev pub pinned_place : Place
pinned_place = record { memory_type = cpu_pinned; memory_type_id = 0 }

-- An error goes to every response of a list.
unfoldable pub fail_outputs : ResponsesList → Result (Unit {0}) → Responses → Responses
fail_outputs [] answer rs = rs
fail_outputs ((idx, o) ∷ outputs) answer rs =
    fail_outputs outputs answer (respond_if_error rs idx answer)

pinned_of : Result ℕ → Option ℕ
pinned_of (ok ptr) = if ptr == 0 then none else some ptr
pinned_of (err e) = none

unfoldable pub is_empty : List DeferredPinned → Bool
is_empty [] = true
is_empty (d ∷ ds) = false

module _ {H : Type 0} where
  -- The output becomes one more pending pinned copy.
  unfoldable pub pend_output : ℕ → Block → ℕ → ℕ → Responder H → Responder H
  pend_output idx block size offset r = record r {
    pending_pinned_offset =
        if r.pending_pinned_byte_size == 0 then offset else r.pending_pinned_offset;
    pending_pinned_byte_size = add64 r.pending_pinned_byte_size size;
    pending_pinned_outputs =
        r.pending_pinned_outputs ++ (idx, record { block = block; buffer_byte_size = size }) ∷ [];
  }

  unfoldable pub defer : ℕ → Responder H → Responder H
  defer pinned r = record r {
    deferred_pinned =
        r.deferred_pinned
        ++ (record {
          pinned_memory = pinned;
          pinned_memory_size = r.pending_pinned_byte_size;
          responses = r.pending_pinned_outputs;
        })
          ∷ [];
  }

  unfoldable pub clear_pinned : Responder H → Responder H
  clear_pinned r = record r {
    pending_pinned_byte_size = 0;
    pending_pinned_offset = 0;
    pending_pinned_outputs = [];
  }

  -- `need_sync_ |= …`
  abbrev pub noting : Bool × Responder H → Responder H
  noting a = record a.1 { need_sync = a.1.need_sync || a.0 }

module _ {H : Type 0} (settings : Settings H) where
  open settings use {copy_on_stream, cuda, api}

  -- A copy, with its error sent to the response. The result is `cuda_used`.
  unfoldable pub copy_to_response : ℕ → Place → Place → Transfer → Responder H → Bool × Responder H
  copy_to_response idx src_place dst_place t r =
      let (answer, cuda_used, m) =
        copy_buffer cuda src_place dst_place t copy_on_stream r.machine in
      (cuda_used, record r { machine = m; responses = respond_if_error r.responses idx answer })

  -- What is done with the buffer of the output: pended, or copied into.
  unfoldable pub fill_block :
      ℕ → Tensor → ℕ → ℕ → MemoryType → Block → Responder H → Bool × Responder H
  unfolding copy_to_response pend_output
  fill_block idx tensor size offset use_pinned block r =
      if not (eq_memory use_pinned cpu_pinned) && eq_memory block.place.memory_type use_pinned
      then (false, pend_output idx block size offset r)
      else copy_to_response idx tensor.place block.place
          (record { dst = block.buffer; src = tensor.buffer + offset; size = size }) r

  -- `SetFixedSizeBuffer`, where `buffer_of` is the call for the buffer of the output or the state.
  unfoldable pub set_fixed_size_buffer :
      (H → Result Block × H) → ℕ → Tensor → ℕ → ℕ → MemoryType → Responder H → Bool × Responder H
  unfolding fill_block
  set_fixed_size_buffer buffer_of idx tensor size offset use_pinned r =
      let (answer, h) = buffer_of r.heap in
      elim answer [
        | err e ↦ (false, record r { heap = h; responses = respond r.responses idx e })
        | ok block ↦ fill_block idx tensor size offset use_pinned block (record r { heap = h })
      ]

  -- The loops that copy a row of outputs out of the bytes at `base`.
  unfoldable pub scatter : Place → ℕ → ResponsesList → Responder H → Bool × Responder H
  unfolding copy_to_response
  scatter src_place base [] r = (false, r)
  scatter src_place base ((idx, o) ∷ outputs) r =
      let (used, r') =
        copy_to_response idx src_place o.block.place
          (record { dst = o.block.buffer; src = base; size = o.buffer_byte_size }) r in
      let (used', r'') = scatter src_place (base + o.buffer_byte_size) outputs r' in
      (used || used', r'')

  unfoldable pub allocate_pinned : Responder H → Option ℕ × Responder H
  unfolding pinned_of
  allocate_pinned r =
      let (answer, h) = api.manager_allocate r.heap cpu_pinned 0 r.pending_pinned_byte_size in
      if ltb 0 r.pending_pinned_byte_size
      then (pinned_of answer, record r { heap = h })
      else (none, r)

  -- The branch with a pinned buffer.
  unfoldable pub stage_pinned : ℕ → Tensor → Responder H → Bool × Responder H
  unfolding scatter fail_outputs defer
  stage_pinned pinned tensor r =
      let t : Transfer = record {
        dst = pinned;
        src = tensor.buffer + r.pending_pinned_offset;
        size = r.pending_pinned_byte_size;
      } in
      let (answer, cuda_used, m) =
        copy_buffer cuda tensor.place pinned_place t copy_on_stream r.machine in
      let r' = record r {
        machine = m;
        responses = fail_outputs r.pending_pinned_outputs answer r.responses;
      } in
      if cuda_used
      then (true, defer pinned r')
      else scatter pinned_place pinned r.pending_pinned_outputs r'

  unfoldable pub flush_pending_pinned : Tensor → Responder H → Bool × Responder H
  unfolding allocate_pinned stage_pinned scatter clear_pinned
  flush_pending_pinned tensor r =
      let (pinned, r') = allocate_pinned r in
      let direct =
        scatter tensor.place (tensor.buffer + r'.pending_pinned_offset) r'.pending_pinned_outputs
          r' in
      elim pinned [
        | none ↦ (direct.0, clear_pinned direct.1)
        | some ptr ↦
            let (used, r'') = stage_pinned ptr tensor r' in
            (used, record (clear_pinned r'') { pinned_memories = r''.pinned_memories ++ ptr ∷ [] })
      ]

  unfoldable pub finalize_all : List DeferredPinned → Responder H → Responder H
  unfolding scatter
  finalize_all [] r = r
  finalize_all (d ∷ ds) r =
      finalize_all ds (noting (scatter pinned_place d.pinned_memory d.responses r))

  -- `Finalize`; its result is `need_sync` of the responder.
  unfoldable pub finalize : Responder H → Responder H
  unfolding finalize_all is_empty
  finalize r =
      let waited = record r { machine = synchronize r.machine; need_sync = false } in
      record (finalize_all r.deferred_pinned
        (if cuda.enabled && not (is_empty r.deferred_pinned) && r.need_sync then waited else r)) {
          deferred_pinned = [];
        }

  free_all : List ℕ → H → H
  free_all [] h = h
  free_all (ptr ∷ ptrs) h = free_all ptrs (api.manager_free h ptr cpu_pinned 0)

  -- The destructor.
  unfoldable pub destroy_responder : Responder H → H
  unfolding free_all
  destroy_responder r = free_all r.pinned_memories r.heap
