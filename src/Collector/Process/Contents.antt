-- ===== src/Collector/Process/Contents.antt =====
-- What `ProcessTensor` leaves in the tensor, where every copy is a direct one between host buffers.

use backend_radius_ai.Prelude.{
  ℕ, suc, ◌+◌, ◌≤◌, ◌<◌, ◌≡◌, ◌≢◌, refl, ap, ◌∙◌, Bool, true, some, List, [], arith, length,
}
use backend_radius_ai.Triton.{cpu_pinned, gpu}
use backend_radius_ai.Machine.{Machine, Transfer, null}
use backend_radius_ai.Machine.Bytes.{bytes_at, Apart}
use backend_radius_ai.Server.{Server, MemoryDesc}
use backend_radius_ai.Collector.Iterator.{ContiguousBuffer, Source}
use backend_radius_ai.Collector.Iterator.Coalesce.{Indexed, from_request, coalesce}
use backend_radius_ai.Collector.Iterator.Served.{Serves}
use backend_radius_ai.Collector.State.{Target, Settings, Collector}
use backend_radius_ai.Collector.Process.{flush_all, use_pinned_memory_type, process_tensor}
use backend_radius_ai.Collector.Process.Writes.{
  write_inputs, bytes_at-write_inputs, write_inputs-Apart,
}
use backend_radius_ai.Collector.Process.Payload.{
  payload, payload_size, AllReadable, coalesce-AllInputs, coalesce-size, coalesce-bytes,
  AllInputs-AllApart,
}
use backend_radius_ai.Collector.Process.Run.{process_inputs, process_tensor-coalesce}
use backend_radius_ai.Collector.Process.Direct.{
  Idle, IsDirect, process_inputs_direct, flush_all-Idle,
}
use backend_radius_ai.Collector.Tensor.Direct.{with_mem}

module _ {H : Type 0} (settings : Settings H) (launches : Machine → List Transfer → Bool)
    {server : Server} (src : Source server) (junk : MemoryDesc) (handle : ℕ → Server.Input server)
    (buffers : ℕ → List MemoryDesc) (s : Serves src handle buffers) where
  never_pinned :
      (target : Target)
      → IsDirect settings
      → use_pinned_memory_type settings launches target ≡ cpu_pinned
  unfolding use_pinned_memory_type
  never_pinned target d = rw (IsDirect.no_pinned d) refl

  processed :
      (l : Indexed) (target : Target) (c : Collector H)
      → IsDirect settings
      → Idle c
      → target.place.memory_type ≢ gpu
      → target.buffer ≢ null
      → payload_size l ≤ target.byte_size
      → AllReadable target.buffer (payload_size l) l
      → process_inputs settings launches target
          (use_pinned_memory_type settings launches target)
          0
          (coalesce l)
          c
        ≡ with_mem c (write_inputs (coalesce l) target.buffer c.machine.mem)
  processed l target c d idle host valid room apart =
      let start : target.buffer + 0 ≡ target.buffer = omega arith in
      rw (never_pinned target d) (
        process_inputs_direct settings launches d target host valid (payload_size l) (coalesce l) 0
          c idle (coalesce-AllInputs target.buffer (payload_size l) l apart)
          (omega (arith, coalesce-size l))
        ∙ ap (λ p. with_mem c (write_inputs (coalesce l) p c.machine.mem)) start)

  -- Over at least one request whose inputs the server delivers, with coalescing and a buffer in
  -- the first request; no pinned memory, copy kernel or copies on the stream, and no copy
  -- pending; host buffers at valid pointers that share no byte with the tensor, a host buffer at
  -- a valid pointer that is large enough: `ProcessTensor` returns after a round for each buffer
  -- and one more at most, the tensor holds the bytes of all requests' buffers in order, no byte
  -- apart from it has changed, and the responses are as they were.
  pub process_tensor-bytes :
      (first : Server.Input server) (count : ℕ) (input : ContiguousBuffer) (target : Target)
      (c : Collector H) (l : Indexed)
      → l ≡ from_request buffers (length src.requests) 0
      → 0 < length src.requests
      → src.coalesce_request_input ≡ true
      → buffers 0 ≢ []
      → IsDirect settings
      → Idle c
      → target.place.memory_type ≢ gpu
      → target.buffer ≢ null
      → payload_size l ≤ target.byte_size
      → AllReadable target.buffer (payload_size l) l
      → (c' : Collector H) × (process_tensor settings launches src junk
            (suc (length l))
            first
            count
            input
            target
            c
          ≡ some c')
        × (bytes_at c'.machine.mem target.buffer (payload_size l) ≡ payload c.machine.mem l)
        × ((p n : ℕ)
            → Apart p n target.buffer (payload_size l)
            → bytes_at c'.machine.mem p n ≡ bytes_at c.machine.mem p n)
        × (c'.responses ≡ c.responses)
  process_tensor-bytes first count input target c l all some_request joins nonempty d idle host
        valid room apart =
      let inputs = coalesce l in
      let written = write_inputs inputs target.buffer c.machine.mem in
      let c₁ = with_mem c written in
      let idle₁ : Idle c₁ = record {
        no_pinned = idle.no_pinned;
        no_pinned_inputs = idle.no_pinned_inputs;
        no_kernel = idle.no_kernel;
        no_kernel_inputs = idle.no_kernel_inputs;
      } in
      let (machine, responses) = flush_all-Idle settings launches d target host valid c₁ idle₁ in
      let readable = coalesce-AllInputs target.buffer (payload_size l) l apart in
      let size = coalesce-size l in
      let returned : process_tensor settings launches src junk (suc (length l)) first count input
            target c
          ≡ some (
              flush_all settings launches target (
                process_inputs settings launches target
                  (use_pinned_memory_type settings launches target) 0 (coalesce l) c)) =
        rw all (
          process_tensor-coalesce settings launches src junk handle buffers s first count input
            target c some_request joins nonempty) in
      (
        flush_all settings launches target c₁,
        returned
            ∙ ap (λ (c : Collector H). some (flush_all settings launches target c))
                (processed l target c d idle host valid room apart),
        rw (machine, ← size)
            (bytes_at-write_inputs inputs target.buffer c.machine.mem
                (rw size (AllInputs-AllApart target.buffer (payload_size l) inputs readable))
              ∙ coalesce-bytes c.machine.mem l),
        (λ p n h.
            rw machine (write_inputs-Apart inputs target.buffer c.machine.mem p n (rw size h))),
        responses,
      )
