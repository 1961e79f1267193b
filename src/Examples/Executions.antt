-- ===== src/Examples/Executions.antt =====
-- The minimal backend on two requests.
use backend_radius_ai.Prelude.{ℕ, zero, suc, ◌≡◌, ap, false, some, [], ◌∷◌, arith}
use backend_radius_ai.Prelude.Int.{pos}
use backend_radius_ai.Triton.{Result, ok}
use backend_radius_ai.Server.{Properties}
use backend_radius_ai.Collector.Iterator.Ends.{Bounded}
use backend_radius_ai.Server.{MemoryDesc}
use backend_radius_ai.Machine.{null}
use backend_radius_ai.Collector.State.{Collector}
use backend_radius_ai.Collector.Contiguous.{process_tensor_allowed}
use backend_radius_ai.Collector.Contiguous.Ends.{process_tensor_allowed-ends}
use backend_radius_ai.Minimal.{
  Calls, Uninitialized, Executed, execute, new_responses, allowed_input_types, source,
  collector_settings,
}
use backend_radius_ai.Minimal.Execution.{Owed, execute-Owed}
use backend_radius_ai.Examples.Setting.{server, two_requests, junk, collector, allocators, launches}
use backend_radius_ai.Examples.Outputs.{api}

abbrev calls : Calls (server two_requests) ℕ
calls = record {
  cuda = record { enabled = false; succeeds = λ m call. false };
  alloc = allocators;
  launches = launches;
  outputs = api;
  output_request = λ r. r;
  instance_state = ok (pos 8);
  response_new = λ h r. (ok tt, h);
  response_send = λ h i. h;
  request_release = λ h r. h;
}

abbrev uninitialized : Uninitialized (server two_requests)
uninitialized = record {
  desc = junk;
  stale = record { input = λ i. i; count = λ i. 0; desc = λ i k. junk };
  first = 0;
  count = 0;
  input = record { memory_desc = junk; start_request_idx = 0; end_request_idx = 0 };
  place = record { memory_type = junk.memory_type; memory_type_id = 0 };
  input_buffer = junk;
}

properties_inv : (p q : Properties) → ok p ≡ ok q → p.buffer_count ≡ q.buffer_count
properties_inv p q e = let same : p ≡ q = cc in ap (λ (r : Properties). r.buffer_count) same

two_buffers : Bounded (server two_requests) 2
two_buffers zero policy p e = omega (arith, properties_inv _ p e)
two_buffers (suc zero) policy p e = omega (arith, properties_inv _ p e)
two_buffers (suc (suc i)) policy p e = omega (arith, properties_inv _ p e)

execute-Owed_example :
    (r : Result (Unit {0})) × (x : Executed ℕ) × (execute calls uninitialized 9
        (0 ∷ 1 ∷ [])
        collector.machine
        5000
      ≡ some (r, x))
    × (r ≡ ok tt)
    × Owed {A = ℕ} (0 ∷ 1 ∷ []) r x
unfolding new_responses
execute-Owed_example =
    execute-Owed calls uninitialized 2 two_buffers (omega arith) 9 (0 ∷ 1 ∷ []) (omega arith)
      collector.machine 5000

process_tensor_allowed-ends_example :
    (r : Result MemoryDesc × Collector ℕ) × (process_tensor_allowed
        (collector_settings calls)
        launches
        (source calls (0 ∷ 1 ∷ []))
        junk
        uninitialized.stale
        9
        0
        0
        uninitialized.input
        null
        0
        allowed_input_types
        uninitialized.place
        collector
      ≡ some r)
process_tensor_allowed-ends_example =
    process_tensor_allowed-ends (collector_settings calls) launches (source calls (0 ∷ 1 ∷ [])) junk
      uninitialized.stale 2 two_buffers 9 0 0 uninitialized.input (omega arith) (omega arith) null 0
      allowed_input_types uninitialized.place collector
