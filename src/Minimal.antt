-- ===== src/Minimal.antt =====
-- `TRITONBACKEND_ModelInstanceExecute` of examples/backends/minimal/src/minimal.cc. A response is
-- the index of its request. What the calls that send or release answer is only logged.
pub mod Once
pub mod Execution
use backend_radius_ai.Prelude.{
  ℕ, zero, suc, ◌+◌, Bool, true, false, Option, none, some, List, [], ◌∷◌, ◌++◌, map, if◌then◌else◌,
  length,
}
use backend_radius_ai.Prelude.Int.{ℤ, pos, negsuc}
use backend_radius_ai.Triton.{cpu, cpu_pinned, int32, Result, ok, err, ErrorCode}
use backend_radius_ai.Machine.{Machine, Transfer, null}
use backend_radius_ai.Copy.{Cuda, Place}
use backend_radius_ai.BackendMemory.{Allocators}
use backend_radius_ai.Server.{Server, MemoryDesc}
use backend_radius_ai.Responses.{Responses, respond_all_if_error}
use backend_radius_ai.Collector.Iterator.{ContiguousBuffer, Source, result_or}
use backend_radius_ai.Collector.State.{Settings as CollectorSettings, Collector}
use backend_radius_ai.Collector.Process.{finalize as finalize_collector}
use backend_radius_ai.Collector.Contiguous.{Stale, process_tensor_allowed}
use backend_radius_ai.Responder.State.{OutputApi, Settings as ResponderSettings, Responder, Tensor}
use backend_radius_ai.Responder.Flush.{finalize as finalize_responder}
use backend_radius_ai.Responder.Process.{process_output_tensor}
use backend_radius_ai.Model.{supports_first_dim_batching}

-- The server's calls and the libraries, in a state of the server. `output_request` is a request as
-- the calls on outputs take it.
pub record Calls (server : Server) (H : Type 0) : Type 1 where
  pub cuda : Cuda
  pub alloc : Allocators H
  pub launches : Machine → List Transfer → Bool
  pub outputs : OutputApi H
  pub output_request : Server.Request server → OutputApi.Request outputs
  -- TRITONBACKEND_ModelInstanceState, with the `max_batch_size` of its model
  pub instance_state : Result ℤ
  -- TRITONBACKEND_ResponseNew
  pub response_new : H → Server.Request server → Result (Unit {0}) × H
  -- TRITONBACKEND_ResponseSend with no error, of the response with an index
  pub response_send : H → ℕ → H
  -- TRITONBACKEND_RequestRelease
  pub request_release : H → Server.Request server → H

-- What the uninitialized variables hold; `input_buffer` also after an error of `ProcessTensor`.
pub record Uninitialized (server : Server) : Type 0 where
  pub desc : MemoryDesc
  pub stale : Stale server
  pub first : Server.Input server
  pub count : ℕ
  pub input : ContiguousBuffer
  pub place : Place
  pub input_buffer : MemoryDesc

-- The responses with the errors sent to them, the responses sent with no error, the requests
-- released, and the memory.
pub record Executed (H : Type 0) : Type 0 where
  pub responses : Responses
  pub completed : List ℕ
  pub released : List ℕ
  pub machine : Machine
  pub heap : H

abbrev pub live_responses : {A : Type 0} → List A → Responses
live_responses requests = record { live = map (λ _. true) requests; sent = [] }

abbrev pub new_collector : {H : Type 0} → Responses → Machine → H → Collector H
new_collector responses machine heap = record {
  need_sync = false;
  responses = responses;
  machine = machine;
  heap = heap;
  pending_pinned_byte_size = 0;
  pending_pinned_offset = 0;
  pending_pinned_input_buffers = [];
  pending_copy_kernel_buffer_byte_size = 0;
  pending_copy_kernel_buffer_offset = 0;
  pending_copy_kernel_input_buffer_counts = 0;
  pending_copy_kernel_input_buffers = [];
  deferred_pinned = [];
  in_use_memories = [];
}

abbrev new_responder : {H : Type 0} → Responses → Machine → H → Responder H
new_responder responses machine heap = record {
  need_sync = false;
  responses = responses;
  machine = machine;
  heap = heap;
  pending_pinned_byte_size = 0;
  pending_pinned_offset = 0;
  pending_pinned_outputs = [];
  deferred_pinned = [];
  pinned_memories = [];
}

abbrev pub allowed_input_types : List Place
allowed_input_types =
    record { memory_type = cpu_pinned; memory_type_id = 0 }
    ∷ record { memory_type = cpu; memory_type_id = 0 }
    ∷ []

-- [ -1, 4 ], or [ 4 ] where the model does not batch.
abbrev output_batch_shape : Bool → List ℤ
output_batch_shape supports = if supports then negsuc 0 ∷ pos 4 ∷ [] else pos 4 ∷ []

module _ {server : Server} {H : Type 0} (calls : Calls server H) where
  open server use {Request}
  open calls use {
    cuda, alloc, launches, outputs, output_request, instance_state, response_new, response_send,
    request_release,
  }

  abbrev pub collector_settings : CollectorSettings H
  collector_settings = record {
    pinned_enabled = false;
    kernel_buffer_threshold = 0;
    copy_on_stream = false;
    cuda = cuda;
    alloc = alloc;
  }

  -- The loop that makes the responses, up to the first error.
  unfoldable pub new_responses : List Request → H → Result (Unit {0}) × H
  new_responses [] h = (ok tt, h)
  new_responses (request ∷ requests) h =
      let (answer, h') = response_new h request in
      elim answer [ err e ↦ (err e, h') | ok _ ↦ new_responses requests h' ]

  -- The loop that sends the responses from `i` on that are left.
  unfoldable pub send_responses : ℕ → List Bool → List ℕ × H → List ℕ × H
  send_responses i [] s = s
  send_responses i (live ∷ lives) (completed, h) =
      send_responses (i + 1) lives
        (if live then (completed ++ i ∷ [], response_send h i) else (completed, h))

  -- The loop that releases the requests from `i` on.
  unfoldable pub release_requests : ℕ → List Request → List ℕ × H → List ℕ × H
  release_requests i [] s = s
  release_requests i (request ∷ requests) (released, h) =
      release_requests (i + 1) requests (released ++ i ∷ [], request_release h request)

  abbrev responder_settings : Bool → ResponderSettings H
  responder_settings supports = record {
    first_dim_batching = supports;
    pinned_enabled = false;
    copy_on_stream = false;
    cuda = cuda;
    api = outputs;
  }

  abbrev pub source : List Request → Source server
  source requests = record {
    requests = requests;
    input_name = "IN0";
    host_policy = none;
    coalesce_request_input = false;
  }

  -- The batched IN0 returned as OUT0. `d` is the input buffer.
  unfoldable pub respond_input : ℤ → List Request → MemoryDesc → Collector H → Responder H
  unfolding supports_first_dim_batching
  respond_input max_batch_size requests d c =
      let answer = supports_first_dim_batching max_batch_size in
      let supports = result_or answer false in
      let tensor : Tensor = record {
        buffer = d.buffer;
        place = record { memory_type = d.memory_type; memory_type_id = d.memory_type_id };
      } in
      let r =
        new_responder (respond_all_if_error c.responses (length requests) answer) c.machine
          c.heap in
      finalize_responder (responder_settings supports)
        (process_output_tensor (responder_settings supports) tensor (map output_request requests)
          "OUT0" int32 (output_batch_shape supports) r).1

  -- The end of the function.
  unfoldable pub send_and_release : List Request → Responder H → Executed H
  unfolding send_responses release_requests
  send_and_release requests r =
      let (completed, h) = send_responses 0 r.responses.live ([], r.heap) in
      let (released, h') = release_requests 0 requests ([], h) in
      record {
        responses = r.responses;
        completed = completed;
        released = released;
        machine = r.machine;
        heap = h';
      }

  module _ (u : Uninitialized server) (fuel : ℕ) where
    open u use {desc, stale, first, count, input, place, input_buffer}

    -- From the collector on, where the responses have been made; `none` means that the fuel ran
    -- out.
    pub collect_and_respond : ℤ → List Request → Machine → H → Option (Executed H)
    unfolding respond_input send_and_release
    collect_and_respond max_batch_size requests m h =
        elim (process_tensor_allowed collector_settings launches (source requests) desc stale fuel
          first count input null 0 allowed_input_types place
          (new_collector (live_responses requests) m h)) [
            | none ↦ none
            | some (answer, c) ↦
                let answered = record c {
                  responses = respond_all_if_error c.responses (length requests) answer;
                } in
                some (
                  send_and_release requests (
                    respond_input max_batch_size requests (result_or answer input_buffer)
                      (finalize_collector collector_settings launches answered)))
          ]

    abbrev pub nothing_done : Machine → H → Executed H
    nothing_done m h = record {
      responses = record { live = []; sent = [] };
      completed = [];
      released = [];
      machine = m;
      heap = h;
    }

    -- The rest of the function after the instance's state.
    unfoldable pub execute_model :
        Result ℤ → List Request → Machine → H → Option (Result (Unit {0}) × Executed H)
    unfolding new_responses collect_and_respond
    execute_model (err e) requests m h = some (err e, nothing_done m h)
    execute_model (ok max_batch_size) requests m h =
        let (created, h') = new_responses requests h in
        elim created [
          | err e ↦ some (err e, nothing_done m h')
          | ok _ ↦ elim (collect_and_respond max_batch_size requests m h') [
            | none ↦ none
            | some x ↦ some (ok tt, x)
          ]
        ]

    -- `TRITONBACKEND_ModelInstanceExecute`, with what it returns.
    unfoldable pub execute : List Request → Machine → H → Option (Result (Unit {0}) × Executed H)
    unfolding execute_model
    execute requests m h = execute_model instance_state requests m h
