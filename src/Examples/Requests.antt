-- ===== src/Examples/Requests.antt =====
-- The iterator and `ProcessTensor` on two requests.

use backend_radius_ai.Prelude.{ℕ, ◌≡◌, ◌≢◌, refl, some, [], ◌∷◌, arith}
use backend_radius_ai.Triton.{cpu, gpu}
use backend_radius_ai.Machine.Bytes.{bytes_at, Apart}
use backend_radius_ai.Collector.Iterator.{start, all_inputs}
use backend_radius_ai.Collector.Iterator.Coalesce.{single, Indexed}
use backend_radius_ai.Collector.Iterator.Run.{all_inputs-coalesce, all_inputs_empty_first}
use backend_radius_ai.Collector.State.{Collector}
use backend_radius_ai.Collector.Process.{process_tensor, flush_all, use_pinned_memory_type}
use backend_radius_ai.Collector.Process.Once.{process_tensor-SameLoad}
use backend_radius_ai.Collector.Process.Payload.{AllReadable}
use backend_radius_ai.Collector.Process.Run.{process_inputs, process_tensor-coalesce}
use backend_radius_ai.Collector.Process.Contents.{process_tensor-bytes}
use backend_radius_ai.Collector.Process.Direct.{Idle, IsDirect}
use backend_radius_ai.Collector.Tensor.Once.{SameLoad}
use backend_radius_ai.Examples.Setting.{
  host_buffer, two_requests, empty_first, source, source-Serves, responses, junk, settings,
  launches, collector, tensor,
}

all_inputs-coalesce_example :
    all_inputs
      (source two_requests)
      4
      junk
      (single 0 junk)
      (start (source two_requests) 7 9 responses)
    ≡ some (single 0 (host_buffer 100 6) ∷ single 1 (host_buffer 200 3) ∷ [])
all_inputs-coalesce_example =
    all_inputs-coalesce (source two_requests) (λ i. i) two_requests (source-Serves two_requests)
      (omega arith) 7 9 responses junk (single 0 junk) refl (λ e. cc)

all_inputs_empty_first_example :
    all_inputs
      (source empty_first)
      4
      junk
      (single 0 junk)
      (start (source empty_first) 7 9 responses)
    ≡ some []
all_inputs_empty_first_example =
    all_inputs_empty_first (source empty_first) (λ i. i) empty_first (source-Serves empty_first)
      (omega arith) 7 9 responses junk (single 0 junk) 3 refl

abbrev processed : Collector ℕ
processed = flush_all settings launches tensor (
    process_inputs settings launches tensor (use_pinned_memory_type settings launches tensor) 0
      (single 0 (host_buffer 100 6) ∷ single 1 (host_buffer 200 3) ∷ []) collector)

process_tensor-coalesce_run :
    process_tensor settings launches
      (source two_requests)
      junk
      4
      7
      9
      (single 0 junk)
      tensor
      collector
    ≡ some processed
process_tensor-coalesce_run =
    process_tensor-coalesce settings launches (source two_requests) junk (λ i. i) two_requests
      (source-Serves two_requests) 7 9 (single 0 junk) tensor collector (omega arith) refl (λ e. cc)

process_tensor-coalesce_example :
    process_tensor settings launches
      (source two_requests)
      junk
      4
      7
      9
      (single 0 junk)
      tensor
      collector
    ≡ some processed
process_tensor-coalesce_example =
    process_tensor-coalesce settings launches (source two_requests) junk (λ i. i) two_requests
      (source-Serves two_requests) 7 9 (single 0 junk) tensor collector (omega arith) refl (λ e. cc)

process_tensor-SameLoad_example : SameLoad 1 processed collector
process_tensor-SameLoad_example =
    process_tensor-SameLoad settings launches 1 (source two_requests) junk 4 7 9 (single 0 junk)
      tensor collector processed process_tensor-coalesce_run

collector-Idle : Idle collector
collector-Idle = record {
  no_pinned = refl;
  no_pinned_inputs = refl;
  no_kernel = refl;
  no_kernel_inputs = refl;
}

settings-IsDirect : IsDirect settings
settings-IsDirect = record { no_pinned = refl; no_kernel = refl; no_stream = refl }

abbrev all_buffers : Indexed
all_buffers = (0, host_buffer 100 4) ∷ (0, host_buffer 104 2) ∷ (1, host_buffer 200 3) ∷ []

cpu≢gpu : cpu ≢ gpu
cpu≢gpu e = cc

all_buffers-AllReadable : AllReadable 1000 9 all_buffers
all_buffers-AllReadable = (
  (cpu≢gpu, (λ e. omega (arith, e)), λ a p q r s. omega arith),
  (
    (cpu≢gpu, (λ e. omega (arith, e)), λ a p q r s. omega arith),
    ((cpu≢gpu, (λ e. omega (arith, e)), λ a p q r s. omega arith), tt),
  ),
)

process_tensor-bytes_example :
    (c' : Collector ℕ) × (process_tensor settings launches
        (source two_requests)
        junk
        4
        7
        9
        (single 0 junk)
        tensor
        collector
      ≡ some c')
    × (bytes_at c'.machine.mem 1000 9 ≡ 100 ∷ 101 ∷ 102 ∷ 103 ∷ 104 ∷ 105 ∷ 200 ∷ 201 ∷ 202 ∷ [])
    × ((p n : ℕ)
        → Apart p n 1000 9
        → bytes_at c'.machine.mem p n ≡ bytes_at collector.machine.mem p n)
    × (c'.responses ≡ responses)
process_tensor-bytes_example =
    process_tensor-bytes settings launches (source two_requests) junk (λ i. i) two_requests
      (source-Serves two_requests) 7 9 (single 0 junk) tensor collector all_buffers refl
      (omega arith) refl (λ e. cc) settings-IsDirect collector-Idle cpu≢gpu (λ e. omega (arith, e))
      (omega arith) all_buffers-AllReadable
