-- ===== src/Responses/Requests.antt =====
-- `RequestsRespondWithError` of src/backend_common.cc.
use backend_radius_ai.Prelude.{
  ℕ, ◌+◌, ◌≡◌, refl, ap, ◌∙◌, sym, Bool, true, false, Option, none, some, List, [], ◌∷◌, ◌++◌, map,
  append_assoc, append-nil, if◌then◌else◌, Bool-cases, inl, inr,
}
use backend_radius_ai.BackendMemory.Creation.{Result-cases}
use backend_radius_ai.Triton.{ErrorCode, Result, ok, err}

-- The server's calls, in a state of its own; what a call that sends or releases answers is logged.
pub record ResponseApi (H : Type 0) : Type 1 where
  pub Request : Type 0
  pub Response : Type 0
  pub response_new : H → Request → Result Response × H
  pub response_send : H → Response → ErrorCode → H
  pub request_release : H → Request → H

-- The server's state, the errors sent, and the requests released, both by the request's index.
pub record Answered (H : Type 0) : Type 0 where
  pub heap : H
  pub sent : List (ℕ × ErrorCode)
  pub released : List ℕ

abbrev pub is_ok : {A : Type 0} → Result A → Bool
is_ok (ok a) = true
is_ok (err _) = false

-- The indices from `i` on of the members that have a property.
abbrev pub indices : {A : Type 0} → (A → Bool) → ℕ → List A → List ℕ
indices has i [] = []
indices has i (a ∷ as') = if has a then i ∷ indices has (i + 1) as' else indices has (i + 1) as'

append_if :
    (c : Bool) (i : ℕ) (before rest : List ℕ)
    → (if c then before ++ i ∷ [] else before) ++ rest ≡ before ++ (if c then i ∷ rest else rest)
append_if true i before rest = append_assoc before (i ∷ []) rest
append_if false i before rest = refl

module _ {H : Type 0} (api : ResponseApi H) (e : ErrorCode) (release_request : Bool) where
  open api use {Request, Response, response_new, response_send, request_release}

  -- The error response for the request with index `i`, where one is created.
  unfoldable pub respond_request : ℕ → Request → Answered H → Answered H
  respond_request i request s =
      let (answer, h) = response_new s.heap request in
      elim answer [
        | err _ ↦ record s { heap = h }
        | ok response ↦ record s { heap = response_send h response e; sent = s.sent ++ (i, e) ∷ [] }
      ]

  unfoldable pub release_one : ℕ → Request → Answered H → Answered H
  release_one i request s =
      if release_request
      then record s { heap = request_release s.heap request; released = s.released ++ i ∷ [] }
      else s

  -- The loop from the index `i` on. The result holds the request pointers as they are left.
  unfoldable pub answer_requests :
      ℕ → List Request → Answered H → List (Option Request) × Answered H
  unfolding respond_request release_one
  answer_requests i [] s = ([], s)
  answer_requests i (request ∷ requests) s =
      let (left, s') =
        answer_requests (i + 1) requests (release_one i request (respond_request i request s)) in
      ((if release_request then none else some request) ∷ left, s')

  -- `RequestsRespondWithError`
  unfoldable pub requests_respond_with_error :
      List Request → Answered H → List (Option Request) × Answered H
  unfolding answer_requests
  requests_respond_with_error requests s = answer_requests 0 requests s

  abbrev error_at : ℕ → ℕ × ErrorCode
  error_at i = (i, e)

  release_one-sent :
      (i : ℕ) (request : Request) (s : Answered H) → (release_one i request s).sent ≡ s.sent
  unfolding release_one
  release_one-sent i request s = elim (Bool-cases release_request) [
    | inl does ↦ rw does refl
    | inr fails ↦ rw fails refl
  ]

  respond_request-released :
      (i : ℕ) (request : Request) (s : Answered H)
      → (respond_request i request s).released ≡ s.released
  unfolding respond_request
  respond_request-released i request s = elim (Result-cases (response_new s.heap request).0) [
    | inl (response, given) ↦ rw (given, respond_request) refl
    | inr (c, failed) ↦ rw (failed, respond_request) refl
  ]

  release_one-released :
      (i : ℕ) (request : Request) (s : Answered H)
      → (release_one i request s).released
        ≡ (if release_request then s.released ++ i ∷ [] else s.released)
  unfolding release_one
  release_one-released i request s = elim (Bool-cases release_request) [
    | inl does ↦ rw does refl
    | inr fails ↦ rw fails refl
  ]

  -- Every request is released, or none.
  answer_requests-released :
      (i : ℕ) (requests : List Request) (s : Answered H)
      → (answer_requests i requests s).1.released
        ≡ s.released ++ indices (λ _. release_request) i requests
  unfolding answer_requests
  answer_requests-released i [] s = sym (append-nil s.released)
  answer_requests-released i (request ∷ requests) s =
      let s' = respond_request i request s in
      let rest = indices {A = Request} (λ _. release_request) (i + 1) requests in
      answer_requests-released (i + 1) requests (release_one i request s')
      ∙ ap (λ before. before ++ rest) (release_one-released i request s')
      ∙ ap (λ before. (if release_request then before ++ i ∷ [] else before) ++ rest)
          (respond_request-released i request s)
      ∙ append_if release_request i s.released rest

  answer_requests-left :
      (i : ℕ) (requests : List Request) (s : Answered H)
      → (answer_requests i requests s).0
        ≡ map (λ request. if release_request then none else some request) requests
  unfolding answer_requests
  answer_requests-left i [] s = refl
  answer_requests-left i (request ∷ requests) s =
      ap (λ left. (if release_request then none else some request) ∷ left)
        (answer_requests-left (i + 1) requests _)

  module _ (creates : Request → Bool)
      (answers : (h : H) (request : Request)
        → is_ok (response_new h request).0 ≡ creates request) where
    respond_request-sent :
        (i : ℕ) (request : Request) (s : Answered H)
        → (respond_request i request s).sent
          ≡ s.sent ++ (if creates request then (i, e) ∷ [] else [])
    unfolding respond_request
    respond_request-sent i request s = elim (Result-cases (response_new s.heap request).0) [
      | inl (response, given) ↦
          let created : true ≡ creates request = rw given at (answers s.heap request) in
          rw (given, respond_request) (rw (← created) refl)
      | inr (c, failed) ↦
          let refused : false ≡ creates request = rw failed at (answers s.heap request) in
          rw (failed, respond_request) (rw (← refused, append-nil) refl)
    ]

    answer_requests-sent :
        (i : ℕ) (requests : List Request) (s : Answered H)
        → (answer_requests i requests s).1.sent
          ≡ s.sent ++ map error_at (indices creates i requests)
    unfolding answer_requests
    answer_requests-sent i [] s = sym (append-nil s.sent)
    answer_requests-sent i (request ∷ requests) s =
        let later =
          answer_requests-sent (i + 1) requests
            (release_one i request (respond_request i request s)) in
        let first =
          release_one-sent i request (respond_request i request s)
          ∙ respond_request-sent i request s in
        later
        ∙ rw first (elim (Bool-cases (creates request)) [
          | inl does ↦ rw does (append_assoc s.sent ((i, e) ∷ []) _)
          | inr fails ↦ rw (fails, append-nil) refl
        ])

    -- In every state the server creates a response for exactly the requests that have some
    -- property. Then `RequestsRespondWithError` sends one error for each of these requests and none
    -- for another, and where it is to release the requests it releases each of them once and sets
    -- its pointer to null, also where no response was created; else it releases none and leaves the
    -- pointers.
    pub requests_respond_with_error-sent :
        (requests : List Request) (s : Answered H)
        → ((requests_respond_with_error requests s).1.sent
            ≡ s.sent ++ map error_at (indices creates 0 requests))
          × ((requests_respond_with_error requests s).1.released
              ≡ s.released ++ indices (λ _. release_request) 0 requests)
          × ((requests_respond_with_error requests s).0
              ≡ map (λ request. if release_request then none else some request) requests)
    unfolding requests_respond_with_error
    requests_respond_with_error-sent requests s = (
      answer_requests-sent 0 requests s,
      answer_requests-released 0 requests s,
      answer_requests-left 0 requests s,
    )
