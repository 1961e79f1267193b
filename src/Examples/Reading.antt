-- ===== src/Examples/Reading.antt =====
-- An input read into a buffer, and an error sent to all responses.
use backend_radius_ai.Prelude.{
  ℕ, zero, suc, ◌+◌, Bool, List, ◌≡◌, ◌≢◌, refl, true, false, none, [], ◌∷◌, arith,
}
use backend_radius_ai.Triton.{cpu, gpu, ok, err, internal, unavailable, Result}
use backend_radius_ai.Machine.{Machine}
use backend_radius_ai.Machine.Bytes.{bytes_at}
use backend_radius_ai.Copy.{Place}
use backend_radius_ai.Server.{Server}
use backend_radius_ai.Responses.Requests.{
  ResponseApi, Answered, is_ok, requests_respond_with_error, requests_respond_with_error-sent,
}
use backend_radius_ai.Reader.{read_input_tensor}
use backend_radius_ai.Reader.Contents.{read_input_tensor-bytes}
use backend_radius_ai.Collector.Iterator.Served.{Serves}
use backend_radius_ai.Examples.Setting.{host_buffer, two_requests, server, source-Serves, settings}

abbrev host_place : Place
host_place = record { memory_type = cpu; memory_type_id = 0 }

-- The server's answers with the byte size filled in.
abbrev sized_server : Server
sized_server = record (server two_requests) {
  input_properties = λ i policy. ok (record { shape = []; byte_size = 6; buffer_count = 2 });
}

abbrev machine : Machine
machine = record { mem = λ a. a; stream = [] }

cpu≢gpu : cpu ≢ gpu
cpu≢gpu e = cc

read_input_tensor-bytes_example :
    (m' : Machine) × (read_input_tensor settings.cuda sized_server none host_place false 0 "INPUT0"
        1000 8 false machine
      ≡ (ok 6, false, m'))
    × (bytes_at m'.mem 1000 6 ≡ 100 ∷ 101 ∷ 102 ∷ 103 ∷ 104 ∷ 105 ∷ [])
read_input_tensor-bytes_example =
    read_input_tensor-bytes settings.cuda sized_server none host_place cpu≢gpu 0
      (host_buffer 100 4 ∷ host_buffer 104 2 ∷ []) (Serves.reads (source-Serves two_requests) 0) 0
      "INPUT0" (record { shape = []; byte_size = 6; buffer_count = 2 }) 1000 8 machine refl refl
      refl refl (omega arith) (λ e. omega (arith, e))
      (
        (cpu≢gpu, (λ e. omega (arith, e)), λ a p q r s. omega arith),
        ((cpu≢gpu, (λ e. omega (arith, e)), λ a p q r s. omega arith), tt),
      )

-- The server creates a response for the requests but 0.
abbrev creates : ℕ → Bool
creates zero = false
creates (suc n) = true

abbrev new_response : ℕ → Result ℕ
new_response zero = err unavailable
new_response (suc n) = ok n

new_response-is_ok : (request : ℕ) → is_ok (new_response request) ≡ creates request
new_response-is_ok zero = refl
new_response-is_ok (suc n) = refl

abbrev response_api : ResponseApi ℕ
response_api = record {
  Request = ℕ;
  Response = ℕ;
  response_new = λ h request. (new_response request, h + 1);
  response_send = λ h response e. h + 1;
  request_release = λ h request. h + 1;
}

abbrev unanswered : Answered ℕ
unanswered = record { heap = 0; sent = []; released = [] }

abbrev asked : List ℕ
asked = 5 ∷ 0 ∷ 6 ∷ []

requests_respond_with_error-sent_example :
    ((requests_respond_with_error response_api internal true asked unanswered).1.sent
      ≡ (0, internal) ∷ (2, internal) ∷ [])
    × ((requests_respond_with_error response_api internal true asked unanswered).1.released
        ≡ 0 ∷ 1 ∷ 2 ∷ [])
    × ((requests_respond_with_error response_api internal true asked unanswered).0
        ≡ none ∷ none ∷ none ∷ [])
requests_respond_with_error-sent_example =
    requests_respond_with_error-sent response_api internal true creates
      (λ h request. new_response-is_ok request) asked unanswered
