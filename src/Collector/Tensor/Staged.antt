-- ===== src/Collector/Tensor/Staged.antt =====
-- Copies that are staged through pinned memory.
use backend_radius_ai.Prelude.{
  ℕ, ◌+◌, ◌<◌, ◌≡◌, ◌≢◌, refl, ap, ◌∙◌, true, false, ltb, ◌==◌, some, List, [], ◌∷◌, ◌++◌, arith,
  sym,
}
use backend_radius_ai.Triton.{cpu_pinned, gpu, ok}
use backend_radius_ai.Machine.{Machine, Transfer, synchronize, null}
use backend_radius_ai.Machine.Bytes.{bytes_at, bytes_at-transfer}
use backend_radius_ai.Copy.{copy_buffer}
use backend_radius_ai.Copy.Effects.{copy_buffer-off_stream}
use backend_radius_ai.BackendMemory.{BackendMemory, host_pinned, host_pinned_pool, create_any}
use backend_radius_ai.Collector.Iterator.{ContiguousBuffer}
use backend_radius_ai.Collector.State.{Target, Settings, Collector, fail_inputs_if_error}
use backend_radius_ai.Collector.Tensor.{
  set_input_tensors, flush_pending_pinned, allocate_pinned, stage_pinned, copy_from_pinned,
  clear_pinned, pinned_place,
}
use backend_radius_ai.Collector.Tensor.Direct.{with_mem, set_input_tensors_host}
use backend_radius_ai.Collector.Process.Writes.{
  write_inputs, total_size, input_bytes, bytes_at-write_inputs,
}
use backend_radius_ai.Collector.Process.Payload.{AllInputs, AllInputs-AllApart}

cpu_pinned≢gpu : cpu_pinned ≢ gpu
cpu_pinned≢gpu e = cc

module _ {H : Type 0} (settings : Settings H) where
  allocate_pinned-some :
      (c : Collector H) (b : BackendMemory) (h : H)
      → 0 < c.pending_pinned_byte_size
      → create_any settings.alloc c.heap
          (host_pinned_pool ∷ host_pinned ∷ [])
          0
          c.pending_pinned_byte_size
        ≡ (ok b, h)
      → b.buffer ≢ null
      → allocate_pinned settings c ≡ (some b, record c { heap = h })
  unfolding allocate_pinned
  allocate_pinned-some c b h some_bytes made nonnull =
      let pending : ltb 0 c.pending_pinned_byte_size ≡ true = ground arith in
      let given : (b.buffer == 0) ≡ false = ground (arith, nonnull) in
      rw (made, pending, given, allocate_pinned)

  copy_from_pinned-ok :
      (inputs : List ContiguousBuffer) (pinned size : ℕ) (target : Target) (offset : ℕ)
      (c : Collector H)
      → (let t : Transfer = record { dst = target.buffer + offset; src = pinned; size = size } in
          (copy_buffer settings.cuda pinned_place target.place t settings.copy_on_stream
            c.machine).0
          ≡ ok tt)
      → (let t : Transfer = record { dst = target.buffer + offset; src = pinned; size = size } in
          (copy_from_pinned settings inputs pinned size target offset settings.copy_on_stream c).1
          ≡ record c {
            machine =
                (copy_buffer settings.cuda pinned_place target.place t settings.copy_on_stream
                  c.machine).2;
          })
  unfolding copy_from_pinned fail_inputs_if_error
  copy_from_pinned-ok inputs pinned size target offset c fine = rw fine refl

  stage_pinned-ok :
      (pinned : ℕ) (target : Target) (c : Collector H) (m : Machine)
      → settings.copy_on_stream ≡ false
      → pinned ≢ null
      → c.pending_pinned_byte_size ≡ total_size c.pending_pinned_input_buffers
      → AllInputs pinned c.pending_pinned_byte_size c.pending_pinned_input_buffers
      → m ≡ record c.machine {
        mem = write_inputs c.pending_pinned_input_buffers pinned c.machine.mem;
      }
      → (let t : Transfer = record {
        dst = target.buffer + c.pending_pinned_offset;
        src = pinned;
        size = c.pending_pinned_byte_size;
      } in
          (copy_buffer settings.cuda pinned_place target.place t settings.copy_on_stream m).0
            ≡ ok tt
          → (stage_pinned settings pinned target c).1 ≡ record c {
            machine =
                (copy_buffer settings.cuda pinned_place target.place t settings.copy_on_stream m).2;
          })
  unfolding stage_pinned
  stage_pinned-ok pinned target c m off nonnull size readable written fine =
      let inputs = c.pending_pinned_input_buffers in
      let staging : Target = record {
        buffer = pinned;
        byte_size = c.pending_pinned_byte_size;
        place = pinned_place;
      } in
      let start : pinned + 0 ≡ pinned = omega arith in
      let copied : set_input_tensors settings inputs staging 0 c
          ≡ (false, record c { machine = m }) =
        set_input_tensors_host settings off staging cpu_pinned≢gpu nonnull
          c.pending_pinned_byte_size inputs 0 c readable (omega (arith, size))
        ∙ ap (λ p. (false, with_mem c (write_inputs inputs p c.machine.mem))) start
        ∙ ap (λ (m : Machine). (false, record c { machine = m })) (sym written) in
      rw copied (
        copy_from_pinned-ok inputs pinned c.pending_pinned_byte_size target c.pending_pinned_offset
          (record c { machine = m }) fine)

  flush_pending_pinned-some :
      (target : Target) (c c' : Collector H) (b : BackendMemory)
      → allocate_pinned settings c ≡ (some b, c')
      → (let c'' = (stage_pinned settings b.buffer target c').1 in
          (flush_pending_pinned settings target c).1
          ≡ record (clear_pinned settings c'') { in_use_memories = c''.in_use_memories ++ b ∷ [] })
  unfolding flush_pending_pinned
  flush_pending_pinned-some target c c' b e = rw (e, flush_pending_pinned) (rw e refl)

  -- Host copies made at once, no copy in the stream, and pending inputs at valid pointers in host
  -- memory that share no byte with the pinned buffer, which is allocated at a valid pointer for the
  -- size of them all: where the copy out of the pinned buffer succeeds, then after a synchronization
  -- the tensor holds the bytes of the pending inputs in order from the pending offset on, nothing is
  -- pending for pinned memory any more, and the responses are as they were.
  pub flush_pending_pinned-bytes :
      (target : Target) (c : Collector H) (b : BackendMemory) (h : H) (t : Transfer) (m : Machine)
      → settings.copy_on_stream ≡ false
      → c.machine.stream ≡ []
      → 0 < c.pending_pinned_byte_size
      → c.pending_pinned_byte_size ≡ total_size c.pending_pinned_input_buffers
      → create_any settings.alloc c.heap
          (host_pinned_pool ∷ host_pinned ∷ [])
          0
          c.pending_pinned_byte_size
        ≡ (ok b, h)
      → b.buffer ≢ null
      → AllInputs b.buffer c.pending_pinned_byte_size c.pending_pinned_input_buffers
      → t ≡ record {
        dst = target.buffer + c.pending_pinned_offset;
        src = b.buffer;
        size = c.pending_pinned_byte_size;
      }
      → m ≡ record c.machine {
        mem = write_inputs c.pending_pinned_input_buffers b.buffer c.machine.mem;
      }
      → (copy_buffer settings.cuda pinned_place target.place t settings.copy_on_stream m).0 ≡ ok tt
      → (bytes_at
            (synchronize (flush_pending_pinned settings target c).1.machine).mem
            (target.buffer + c.pending_pinned_offset)
            c.pending_pinned_byte_size
          ≡ input_bytes c.machine.mem c.pending_pinned_input_buffers)
        × ((flush_pending_pinned settings target c).1.pending_pinned_byte_size ≡ 0)
        × ((flush_pending_pinned settings target c).1.responses ≡ c.responses)
  unfolding clear_pinned
  flush_pending_pinned-bytes target c b h t m off empty some_bytes size made nonnull readable copy
        written fine =
      let inputs = c.pending_pinned_input_buffers in
      let staged =
        stage_pinned-ok b.buffer target (record c { heap = h }) m off nonnull size readable written
          (rw copy at fine) in
      let synced =
        copy_buffer-off_stream settings.cuda pinned_place target.place t settings.copy_on_stream m
          off (rw written empty) fine in
      let flushed =
        flush_pending_pinned-some target c (record c { heap = h }) b
          (allocate_pinned-some c b h some_bytes made nonnull) in
      let held : bytes_at m.mem b.buffer c.pending_pinned_byte_size
          ≡ input_bytes c.machine.mem inputs =
        rw (written, size)
          (bytes_at-write_inputs inputs b.buffer c.machine.mem
            (AllInputs-AllApart b.buffer (total_size inputs) inputs (rw size at readable))) in
      rw (flushed, staged, ← copy, synced)
        (
          rw copy (
              bytes_at-transfer m.mem (record {
                dst = target.buffer + c.pending_pinned_offset;
                src = b.buffer;
                size = c.pending_pinned_byte_size;
              })
              ∙ held),
          refl,
          refl,
        )
