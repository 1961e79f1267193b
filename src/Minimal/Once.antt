-- ===== src/Minimal/Once.antt =====
-- The minimal backend answers and releases each request once.
use backend_radius_ai.Prelude.{
  ℕ, zero, suc, ◌+◌, ◌-◌, ◌≡◌, ◌==◌, refl, ◌∙◌, sym, Bool, true, false, List, [], ◌∷◌, ◌++◌, map,
  length, ltb, leb, if◌then◌else◌, arith, append_assoc, append-nil, Bool-cases, inl, inr,
}
use backend_radius_ai.Prelude.Int.{ℤ}
use backend_radius_ai.Triton.{Result, ok, err}
use backend_radius_ai.Server.{Server, MemoryDesc}
use backend_radius_ai.Responses.{Responses, respond_all_if_error}
use backend_radius_ai.Responses.Once.{load, live_count, sent_count, load-respond_range}
use backend_radius_ai.Responses.Reached.{load-Reached}
use backend_radius_ai.Responses.Requests.{indices}
use backend_radius_ai.Collector.State.{Collector}
use backend_radius_ai.Responder.State.{Responder}
use backend_radius_ai.Responder.Once.{finalize-Leads}
use backend_radius_ai.Responder.Process.Once.{process_output_tensor-Leads}
use backend_radius_ai.Minimal.{
  Calls, send_responses, release_requests, respond_input, send_and_release,
}

-- How often a number stands in a list.
abbrev pub count : ℕ → List ℕ → ℕ
count i [] = 0
count i (j ∷ js) = (if j == i then 1 else 0) + count i js

count-append : (i : ℕ) (js ks : List ℕ) → count i (js ++ ks) ≡ count i js + count i ks
count-append i [] ks = omega arith
count-append i (j ∷ js) ks = omega (arith, count-append i js ks)

pub live_count-map :
    {A : Type 0} (i : ℕ) (requests : List A)
    → live_count i (map (λ _. true) requests) ≡ (if ltb i (length requests) then 1 else 0)
live_count-map i [] = ground arith
live_count-map zero (r ∷ rs) = ground arith
live_count-map (suc i) (r ∷ rs) = ground (arith, live_count-map i rs)

-- The response at `k` and those behind it.
live_count_from :
    (i k : ℕ) (live : Bool) (lives : List Bool)
    → (if leb k i then live_count (i - k) (live ∷ lives) else 0)
      ≡ (if k == i then (if live then 1 else 0) else 0)
        + (if leb (k + 1) i then live_count (i - (k + 1)) lives else 0)
live_count_from i k live lives = elim (Bool-cases (k == i)) [
  | inl same ↦
      let here : i ≡ k = ground arith in
      let start : k - k ≡ 0 = omega arith in
      rw (here, start)
        (elim (Bool-cases live) [
          | inl yes' ↦ rw yes' (ground arith)
          | inr no' ↦ rw no' (ground arith)
        ])
  | inr other ↦ elim (Bool-cases (leb (k + 1) i)) [
    | inl later ↦
        let next : i - k ≡ suc (i - (k + 1)) = ground arith in
        rw (next, later, other) (ground arith)
    | inr before ↦ ground arith
  ]
]

pub load-respond_all :
    {A : Type 0} (rs : Responses) (n : ℕ) (answer : Result A) (i : ℕ)
    → load (respond_all_if_error rs n answer) i ≡ load rs i
unfolding respond_all_if_error
load-respond_all rs n (ok a) i = refl
load-respond_all rs n (err e) i = load-respond_range n 0 e rs i

module _ {server : Server} {H : Type 0} (calls : Calls server H) where
  open server use {Request}

  send_responses-count :
      (i k : ℕ) (lives : List Bool) (s : List ℕ × H)
      → count i (send_responses calls k lives s).0
        ≡ count i s.0 + (if leb k i then live_count (i - k) lives else 0)
  unfolding send_responses
  send_responses-count i k [] (done, h) = ground arith
  send_responses-count i k (true ∷ lives) (done, h) =
      let s' : List ℕ × H = (done ++ k ∷ [], calls.response_send h k) in
      send_responses-count i (k + 1) lives s'
      ∙ ground (arith, count-append i done (k ∷ []), live_count_from i k true lives)
  send_responses-count i k (false ∷ lives) (done, h) =
      send_responses-count i (k + 1) lives (done, h)
      ∙ ground (arith, live_count_from i k false lives)

  release_requests-indices :
      (k : ℕ) (requests : List Request) (s : List ℕ × H)
      → (release_requests calls k requests s).0 ≡ s.0 ++ indices (λ _. true) k requests
  unfolding release_requests
  release_requests-indices k [] (released, h) = sym (append-nil released)
  release_requests-indices k (request ∷ requests) (released, h) =
      release_requests-indices (k + 1) requests _
      ∙ append_assoc released (k ∷ []) (indices (λ _. true) (k + 1) requests)

  pub respond_input-load :
      (max_batch_size : ℤ) (requests : List Request) (d : MemoryDesc) (c : Collector H) (i : ℕ)
      → load (respond_input calls max_batch_size requests d c).responses i ≡ load c.responses i
  unfolding respond_input
  respond_input-load max_batch_size requests d c i =
      load-Reached i (finalize-Leads _ _)
      ∙ load-Reached i (process_output_tensor-Leads _ _ _ _ _ _ _)
      ∙ load-respond_all c.responses (length requests) _ i

  pub send_and_release-released :
      (requests : List Request) (r : Responder H)
      → (send_and_release calls requests r).released ≡ indices (λ _. true) 0 requests
  unfolding send_and_release
  send_and_release-released requests r = release_requests-indices 0 requests _

  -- What is sent with no error are the responses that are left.
  pub send_and_release-completed :
      (requests : List Request) (r : Responder H) (i : ℕ)
      → count i (send_and_release calls requests r).completed
          + sent_count i (send_and_release calls requests r).responses.sent
        ≡ load r.responses i
  unfolding send_and_release
  send_and_release-completed requests r i =
      let whole : i - 0 ≡ i = omega arith in
      let counted = send_responses-count i 0 r.responses.live ([], r.heap) in
      rw (counted, whole) (ground arith)
