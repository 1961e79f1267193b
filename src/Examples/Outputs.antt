-- ===== src/Examples/Outputs.antt =====
-- Two responses with the rows of one output tensor.
use backend_radius_ai.Prelude.{ℕ, ◌+◌, ◌≡◌, ◌≢◌, refl, inl, true, false, List, [], ◌∷◌, arith}
use backend_radius_ai.Prelude.Int.{pos}
use backend_radius_ai.Prelude.Strings.{eq_string}
use backend_radius_ai.Shape.{element_count}
use backend_radius_ai.Triton.{cpu, cpu_pinned, gpu, int32, ok}
use backend_radius_ai.Machine.{synchronize}
use backend_radius_ai.Copy.{Place}
use backend_radius_ai.Responses.Once.{load, live_count, sent_count}
use backend_radius_ai.Responder.State.{ResponsesList, OutputApi, Settings, Responder, Tensor}
use backend_radius_ai.Responder.Flush.{flush_pending_pinned, finalize, noting}
use backend_radius_ai.Responder.Scatter.{output_bytes, AwayFrom}
use backend_radius_ai.Responder.Delivered.{flush_pending_pinned-finalize}
use backend_radius_ai.Responder.Process.{
  process_output_tensor, process_state_tensor, process_batch_output, tensor_byte_size,
}
use backend_radius_ai.Responder.Process.Once.{responder-load}
use backend_radius_ai.Responder.Process.Arrival.{process_output_tensor-bytes}
use backend_radius_ai.Responder.Process.Short.{process_output_tensor-short}
use backend_radius_ai.Examples.Setting.{responses}

abbrev pub place : Place
place = record { memory_type = cpu; memory_type_id = 0 }

-- The server's state is the next address that it gives.
abbrev pub api : OutputApi ℕ
api = record {
  Request = ℕ;
  Output = ℕ;
  StateObject = ℕ;
  first_input_shape = λ r. pos 2 ∷ pos 1 ∷ [];
  input_shape = λ r name. pos 2 ∷ pos 1 ∷ [];
  output_count = λ r. ok 1;
  output_name = λ r k. ok "OUTPUT0";
  response_output = λ h idx name datatype shape. (ok idx, h);
  state_new = λ h r name datatype shape. (ok r, h);
  output_buffer = λ h o n p. (ok (record { buffer = h; place = place }), h + n);
  state_buffer = λ h o n p. (ok (record { buffer = h; place = place }), h + n);
  manager_allocate = λ h t id n. (ok 64, h);
  manager_free = λ h p t id. h;
  data_type_byte_size = λ t. 4;
}

abbrev settings : Settings ℕ
settings = record {
  first_dim_batching = true;
  pinned_enabled = true;
  copy_on_stream = false;
  cuda = record { enabled = true; succeeds = λ m call. true };
  api = api;
}

abbrev responder : Responder ℕ
responder = record {
  need_sync = false;
  responses = responses;
  machine = record { mem = λ a. a; stream = [] };
  heap = 5000;
  pending_pinned_byte_size = 0;
  pending_pinned_offset = 0;
  pending_pinned_outputs = [];
  deferred_pinned = [];
  pinned_memories = [];
}

abbrev tensor : Tensor
tensor = record { buffer = 1000; place = record { memory_type = gpu; memory_type_id = 0 } }

abbrev requests : List ℕ
requests = 0 ∷ 1 ∷ []

responder-load_example :
    (load
        (process_output_tensor settings tensor requests "OUTPUT0" int32
          (pos 4 ∷ pos 1 ∷ [])
          responder).1.responses
        1
      ≡ 1)
    × (load
          (process_state_tensor settings tensor requests "OUTPUT0" int32
            (pos 4 ∷ pos 1 ∷ [])
            responder).2.responses
          1
        ≡ 1)
    × (load
          (process_batch_output settings tensor requests "OUTPUT0" int32 "INPUT0"
            (pos 4 ∷ pos 1 ∷ [])
            responder).responses
          1
        ≡ 1)
    × (load (finalize settings responder).responses 1 ≡ 1)
responder-load_example =
    responder-load settings tensor requests "OUTPUT0" int32 (pos 4 ∷ pos 1 ∷ []) "INPUT0" responder
      1

-- The second response's two rows are more than the third row that is left.
process_output_tensor-short_example :
    (live_count 1
        (process_output_tensor settings tensor requests "OUTPUT0" int32
          (pos 3 ∷ pos 1 ∷ [])
          responder).1.responses.live
      ≡ 0)
    × (sent_count 1
          (process_output_tensor settings tensor requests "OUTPUT0" int32
            (pos 3 ∷ pos 1 ∷ [])
            responder).1.responses.sent
        ≡ 1)
process_output_tensor-short_example =
    process_output_tensor-short settings tensor refl 3 "OUTPUT0" int32 requests (2 ∷ 2 ∷ []) 1
      (pos 3 ∷ pos 1 ∷ []) responder _ refl (refl, (refl, tt)) (omega arith) (omega arith)
      (omega arith) refl

abbrev pending : Responder ℕ
pending = record responder {
  pending_pinned_byte_size = 5;
  pending_pinned_offset = 2;
  pending_pinned_outputs =
      (0, record { block = record { buffer = 100; place = place }; buffer_byte_size = 3 })
      ∷ (1, record { block = record { buffer = 200; place = place }; buffer_byte_size = 2 })
      ∷ [];
}

cpu≢gpu : cpu ≢ gpu
cpu≢gpu e = cc

pinned_away :
    (ptr : ℕ)
    → (api.manager_allocate pending.heap cpu_pinned 0 pending.pending_pinned_byte_size).0 ≡ ok ptr
    → AwayFrom ptr pending.pending_pinned_byte_size pending.pending_pinned_outputs
pinned_away ptr e =
    let here : 64 ≡ ptr = cc in
    rw (← here) ((λ a p q r s. omega arith), ((λ a p q r s. omega arith), tt))

flush_pending_pinned-finalize_example :
    output_bytes
      (synchronize
        (finalize settings (noting (flush_pending_pinned settings tensor pending))).machine).mem
      pending.pending_pinned_outputs
    ≡ 1002 ∷ 1003 ∷ 1004 ∷ 1005 ∷ 1006 ∷ []
flush_pending_pinned-finalize_example =
    flush_pending_pinned-finalize settings refl (λ m call. refl) tensor refl (λ e. omega (arith, e))
      pending refl refl ((λ e. omega (arith, e)), cpu≢gpu, ((λ e. omega (arith, e)), cpu≢gpu, tt))
      refl refl (((λ a p q r s. omega arith), tt), (tt, tt))
      ((λ a p q r s. omega arith), ((λ a p q r s. omega arith), tt)) pinned_away

-- The buffers for the two rows of each response.
abbrev granted : ResponsesList
granted =
    (0, record { block = record { buffer = 5000; place = place }; buffer_byte_size = 8 })
    ∷ (1, record { block = record { buffer = 5008; place = place }; buffer_byte_size = 8 })
    ∷ []

granted_away :
    (ptr : ℕ) → (api.manager_allocate 5016 cpu_pinned 0 16).0 ≡ ok ptr → AwayFrom ptr 16 granted
granted_away ptr e =
    let here : 64 ≡ ptr = cc in
    rw (← here) ((λ a p q r s. omega arith), ((λ a p q r s. omega arith), tt))

two_rows : 8 ≡ tensor_byte_size settings tensor int32 (pos 2 ∷ pos 1 ∷ [])
unfolding tensor_byte_size element_count
two_rows = refl

process_output_tensor-bytes_example :
    output_bytes
      (synchronize
        (finalize settings
          (process_output_tensor settings tensor requests "OUTPUT0" int32
            (pos 4 ∷ pos 1 ∷ [])
            responder).1).machine).mem
      granted
    ≡ 1000 ∷ 1001 ∷ 1002 ∷ 1003 ∷ 1004 ∷ 1005 ∷ 1006 ∷ 1007 ∷ 1008 ∷ 1009 ∷ 1010 ∷ 1011 ∷ 1012
      ∷ 1013 ∷ 1014 ∷ 1015 ∷ []
unfolding eq_string
process_output_tensor-bytes_example =
    process_output_tensor-bytes settings refl (λ m call. refl) refl refl refl tensor refl
      (λ e. omega (arith, e)) "OUTPUT0" int32 requests (2 ∷ 2 ∷ []) 4 (pos 1 ∷ []) responder 5016
      granted refl refl refl refl refl (omega arith) (omega arith) (refl, (refl, tt))
      (
        5008,
        (1, 0, 5000, refl, refl, ("OUTPUT0", refl, inl refl), refl, refl, refl, two_rows, refl),
        (
          5016,
          (1, 1, 5008, refl, refl, ("OUTPUT0", refl, inl refl), refl, refl, refl, two_rows, refl),
          refl,
        ),
      )
      (omega arith) ((λ e. omega (arith, e)), cpu≢gpu, ((λ e. omega (arith, e)), cpu≢gpu, tt))
      (((λ a p q r s. omega arith), tt), (tt, tt))
      ((λ a p q r s. omega arith), ((λ a p q r s. omega arith), tt)) granted_away
