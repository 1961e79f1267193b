-- ===== src/Examples/Found.antt =====
-- A request whose input lies in one piece.

use backend_radius_ai.Prelude.{ℕ, zero, suc, ◌≡◌, refl, true, some, List, [], ◌∷◌, arith}
use backend_radius_ai.Triton.{cpu, ok}
use backend_radius_ai.Copy.{Place}
use backend_radius_ai.Server.{MemoryDesc}
use backend_radius_ai.Collector.Iterator.Coalesce.{single}
use backend_radius_ai.Examples.Setting.{
  host_buffer, server, source, source-Serves, responses, junk, settings, launches, collector,
}
use backend_radius_ai.Collector.Contiguous.{
  Stale, is_allowed, get_input_buffer_if_contiguous, process_tensor_allowed,
}
use backend_radius_ai.Collector.Contiguous.Verdict.{contiguous-coalesce}
use backend_radius_ai.Collector.Contiguous.NoCopy.{process_tensor_allowed-no_copy}

abbrev one_piece : ℕ → List MemoryDesc
one_piece zero = host_buffer 100 4 ∷ []
one_piece (suc zero) = host_buffer 104 2 ∷ []
one_piece (suc (suc i)) = []

abbrev stale : Stale (server one_piece)
stale = record { input = λ i. 7; count = λ i. 9; desc = λ i k. junk }

abbrev host_place : Place
host_place = record { memory_type = cpu; memory_type_id = 0 }

contiguous-coalesce_example :
    (let r = get_input_buffer_if_contiguous (source one_piece) stale host_place responses in
      (r.0 ≡ responses) × (r.1.contiguous ≡ true) × (r.1.found ≡ host_buffer 100 6))
contiguous-coalesce_example =
    contiguous-coalesce (source one_piece) stale (λ i. i) one_piece (source-Serves one_piece)
      host_place responses 0 (host_buffer 100 4) ((1, host_buffer 104 2) ∷ []) refl refl
      (λ e. omega (arith, e))

host_place-allowed : is_allowed (host_buffer 100 4) (host_place ∷ []) ≡ true
unfolding is_allowed
host_place-allowed = refl

process_tensor_allowed-no_copy_example :
    process_tensor_allowed settings launches
      (source one_piece)
      junk
      stale
      3
      7
      9
      (single 0 junk)
      0
      0
      (host_place ∷ [])
      host_place
      collector
    ≡ some (ok (host_buffer 100 6), collector)
process_tensor_allowed-no_copy_example =
    process_tensor_allowed-no_copy settings launches (source one_piece) junk stale (λ i. i)
      one_piece (source-Serves one_piece) 3 7 9 (single 0 junk) 0 (host_place ∷ []) host_place
      collector 0 (host_buffer 100 4) ((1, host_buffer 104 2) ∷ []) refl refl
      (λ e. omega (arith, e)) refl (λ e. omega (arith, e)) host_place-allowed
