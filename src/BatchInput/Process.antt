-- ===== src/BatchInput/Process.antt =====
-- `BatchInputShape` and `ProcessBatchInput` of src/backend_input_collector.cc.
use Prim.Native.String.{String}
use backend_radius_ai.Prelude.{
  ℕ, ◌+◌, ◌-◌, ◌%◌, Bool, true, false, ◌||◌, Option, none, some, List, [], ◌∷◌, ◌++◌, ◌==◌,
  if◌then◌else◌, length, get_or,
}
use backend_radius_ai.Prelude.Int.{ℤ, pos, ◌+ℤ◌, ◌*ℤ◌, ltb_ℤ, wrap64, to_u64, u64_mod}
use backend_radius_ai.Triton.{DataType, fp32, gpu, eq_memory, Result, ok, err, ◌>>=◌, internal}
use backend_radius_ai.Machine.{Memory, Transfer, null}
use backend_radius_ai.Machine.Words.{store_u32, u32_mod}
use backend_radius_ai.Copy.{Place, copy_buffer}
use backend_radius_ai.BackendMemory.{
  BackendMemory, host, host_pinned_pool, create_any, destroy, alloc_type_to_memory_type,
}
use backend_radius_ai.Server.{Server, MemoryDesc}
use backend_radius_ai.Shape.{byte_size}
use backend_radius_ai.Collector.State.{Settings, Collector}
use backend_radius_ai.Collector.Contiguous.{allocate_allowed, desc_of}
use backend_radius_ai.BatchInput.{BatchInput, Kind}
use backend_radius_ai.BatchInput.Elements.{
  Written, shape_of, set_element_count, set_accumulated_element_count, set_batch_item_shape,
}
use backend_radius_ai.Shape

-- The answer, with the state as it is left.
abbrev pub Answer : Type 0 → Type 0 → Type 0
Answer A H = Result A × Collector H

module _ (server : Server) (policy : Option String) where
  open server use {Request}

  -- The loops over the requests: `step` is what the shape of each does to `*shape`.
  unfoldable pub shape_loop :
      String → (List ℤ → List ℤ → List ℤ) → List Request → List ℤ → Result (List ℤ)
  unfolding shape_of
  shape_loop source_input step [] shape = ok shape
  shape_loop source_input step (request ∷ requests) shape =
      elim (shape_of server policy source_input request) [
        | err e ↦ err e
        | ok dims ↦ shape_loop source_input step requests (step dims shape)
      ]

  unfoldable pub max_step : List ℤ → List ℤ → List ℤ
  max_step dims shape =
      let n = get_or shape 0 (pos 0) in
      let count = Shape.element_count dims in (if ltb_ℤ n count then count else n) ∷ []

  -- `dims_count - 1`, of `uint32_t`s
  abbrev pub item_dims : List ℤ → ℤ
  item_dims dims = pos ((length dims + u32_mod - 1) % u32_mod)

  unfoldable pub item_step : List ℤ → List ℤ → List ℤ
  unfolding wrap64 ◌+ℤ◌
  item_step dims shape =
      wrap64 (get_or shape 0 (pos 0) +ℤ get_or dims 0 (pos 0)) ∷ item_dims dims ∷ []

  unfoldable pub flatten_step : List ℤ → List ℤ → List ℤ
  unfolding wrap64 ◌+ℤ◌ ◌*ℤ◌
  flatten_step dims shape =
      wrap64 (get_or shape 0 (pos 0) +ℤ wrap64 (get_or dims 0 (pos 0) *ℤ item_dims dims)) ∷ []

  unfoldable pub batch_input_shape : BatchInput → List Request → Result (List ℤ)
  unfolding shape_loop max_step item_step flatten_step
  batch_input_shape b requests =
      let source = b.source_input in
      elim b.kind [
        | Kind.element_count ↦ ok (pos (length requests) ∷ [])
        | Kind.accumulated_element_count ↦ ok (pos (length requests) ∷ [])
        | Kind.accumulated_element_count_with_zero ↦ ok (pos (length requests + 1) ∷ [])
        | Kind.max_element_count_as_shape ↦ shape_loop source max_step requests (pos 0 ∷ [])
        | Kind.item_shape ↦ shape_loop source item_step requests (pos 0 ∷ pos 0 ∷ [])
        | Kind.item_shape_flatten ↦ shape_loop source flatten_step requests (pos 0 ∷ [])
      ]

  -- The `switch` that writes the elements into the `size` bytes at `buffer`. The bits of zero are
  -- zeros in both types.
  unfoldable pub write_elements : BatchInput → (ℤ → ℕ) → List Request → ℕ → ℕ → Memory → Written
  write_elements b bits requests buffer size mem =
      let source = b.source_input in
      let zeroed = store_u32 buffer 0 mem in
      elim b.kind [
        | Kind.element_count ↦ set_element_count server policy source bits buffer size requests mem
        | Kind.accumulated_element_count ↦
            set_accumulated_element_count server policy source bits buffer size requests mem
        | Kind.accumulated_element_count_with_zero ↦
            set_accumulated_element_count server policy source bits (buffer + 4)
              ((size + (u64_mod - 4)) % u64_mod) requests zeroed
        | Kind.max_element_count_as_shape ↦ (ok tt, mem)
        | Kind.item_shape ↦
            set_batch_item_shape server policy source bits buffer size requests zeroed
        | Kind.item_shape_flatten ↦
            set_batch_item_shape server policy source bits buffer size requests zeroed
      ]

-- The bits of an `int32_t` that a 64-bit integer is converted to.
unfoldable pub int32_bits : ℤ → ℕ
unfolding to_u64
int32_bits d = to_u64 d % u32_mod

-- `float_bits` are the bits of the `float` that an integer is converted to; the compiler gives them.
unfoldable pub element_bits : (ℤ → ℕ) → DataType → ℤ → ℕ
unfolding int32_bits
element_bits float_bits fp32 = float_bits
element_bits float_bits _ = int32_bits

-- The batch input is described by its shape, and `ProcessBatchInput` returns early.
abbrev pub is_shape_only : Kind → Bool
is_shape_only Kind.max_element_count_as_shape = true
is_shape_only _ = false

module _ {H : Type 0} (settings : Settings H) (float_bits : ℤ → ℕ)
    (data_type_byte_size : DataType → ℕ) (server : Server) (policy : Option String)
    (requests : List (Server.Request server)) where
  open settings use {alloc, cuda, copy_on_stream}

  unfoldable pub with_memory : Memory → Collector H → Collector H
  with_memory mem c = record c { machine = record c.machine { mem = mem } }

  -- The elements are written into `d` itself.
  unfoldable pub write_here : BatchInput → MemoryDesc → Collector H → Answer MemoryDesc H
  unfolding write_elements element_bits with_memory
  write_here b d c =
      let (answer, mem) =
        write_elements server policy b (element_bits float_bits b.data_type) requests d.buffer
          d.byte_size c.machine.mem in
      ((answer >>= λ u. ok d), with_memory mem c)

  -- The object of a buffer that is left goes out of scope.
  unfoldable pub drop_memory : BackendMemory → Collector H → Collector H
  drop_memory m c = record c { heap = destroy alloc c.heap m }

  -- The copy of the staging buffer to the device.
  unfoldable pub send_internal : BackendMemory → MemoryDesc → Collector H → Answer MemoryDesc H
  unfolding drop_memory
  send_internal staging d c =
      let src : Place = record {
        memory_type = alloc_type_to_memory_type staging.alloc_type;
        memory_type_id = staging.memory_type_id;
      } in
      let dst : Place = record { memory_type = d.memory_type; memory_type_id = d.memory_type_id } in
      let t : Transfer = record { dst = d.buffer; src = staging.buffer; size = d.byte_size } in
      let (answer, used, m) = copy_buffer cuda src dst t copy_on_stream c.machine in
      let c' = record c { machine = m } in
      elim answer [
        | err e ↦ (err e, drop_memory staging c')
        | ok u ↦ (
          ok d,
          record c' {
            in_use_memories = c.in_use_memories ++ staging ∷ [];
            need_sync = c.need_sync || used;
          },
        )
      ]

  -- The elements are written into a buffer of the host's.
  unfoldable pub write_internal :
      BatchInput → BackendMemory → MemoryDesc → Collector H → Answer MemoryDesc H
  unfolding write_elements element_bits with_memory drop_memory send_internal
  write_internal b staging d c =
      let (answer, mem) =
        write_elements server policy b (element_bits float_bits b.data_type) requests staging.buffer
          d.byte_size c.machine.mem in
      let c' = with_memory mem c in
      let sent = send_internal staging d c' in
      elim answer [
        | err e ↦ (err e, drop_memory staging c')
        | ok u ↦ if is_shape_only b.kind then (ok d, drop_memory staging c') else sent
      ]

  -- What is done with the buffer of the tensor.
  unfoldable pub fill_batch_input : BatchInput → MemoryDesc → Collector H → Answer MemoryDesc H
  unfolding write_here write_internal
  fill_batch_input b d c =
      let (answer, h) = create_any alloc c.heap (host_pinned_pool ∷ host ∷ []) 0 d.byte_size in
      let c' = record c { heap = h } in
      let through : Answer MemoryDesc H = elim answer [
        | err e ↦ (err e, c')
        | ok staging ↦ write_internal b staging d c'
      ] in
      if eq_memory d.memory_type gpu then through else write_here b d c

  -- The branch without a buffer of the caller's.
  unfoldable pub allocate_batch_input : BatchInput → List Place → Collector H → Answer MemoryDesc H
  unfolding batch_input_shape byte_size to_u64 allocate_allowed desc_of fill_batch_input
  allocate_batch_input b allowed c = elim (batch_input_shape server policy b requests) [
    | err e ↦ (err e, c)
    | ok shape ↦
        let size = to_u64 (byte_size data_type_byte_size b.data_type shape) in
        let (memory, c') = allocate_allowed settings allowed size c in
        elim memory [ none ↦ (err internal, c') | some m ↦ fill_batch_input b (desc_of m) c' ]
  ]

  -- The result holds the `dst_` outputs.
  unfoldable pub process_batch_input :
      BatchInput → ℕ → ℕ → List Place → Collector H → Answer MemoryDesc H
  unfolding allocate_batch_input fill_batch_input
  process_batch_input b buffer buffer_byte_size [] c = (err internal, c)
  process_batch_input b buffer buffer_byte_size (p ∷ ps) c =
      let allocated = allocate_batch_input b (p ∷ ps) c in
      let given =
        fill_batch_input b
          (record {
            buffer = buffer;
            byte_size = buffer_byte_size;
            memory_type = p.memory_type;
            memory_type_id = p.memory_type_id;
          })
          c in
      if buffer == null then allocated else if length ps == 0 then given else (err internal, c)
