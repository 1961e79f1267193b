-- ===== src/Responses.antt =====
-- The response vector that a collector and a responder share: which pointers are not null, and the
-- error responses sent so far (include/triton/backend/backend_common.h,
-- src/backend_common.cc).
pub mod Once
pub mod Reached
pub mod Requests
use backend_radius_ai.Prelude.{
  ℕ, zero, suc, ◌+◌, Bool, true, false, Option, none, some, List, [], ◌∷◌, ◌++◌, get_elem?, set,
}
use backend_radius_ai.Triton.{ErrorCode, Result, ok, err}

pub record Responses : Type 0 where
  pub live : List Bool
  pub sent : List (ℕ × ErrorCode)

-- Sends the error and sets the pointer to null.
send_error : Responses → ℕ → ErrorCode → Responses
send_error r i e = record { live = set r.live i false; sent = r.sent ++ (i, e) ∷ [] }

-- The body of RESPOND_AND_SET_NULL_IF_ERROR where there is an error.
unfoldable pub respond : Responses → ℕ → ErrorCode → Responses
unfolding send_error
respond r i e = elim (get_elem? r.live i) [ some true ↦ send_error r i e | _ ↦ r ]

-- RESPOND_AND_SET_NULL_IF_ERROR
unfoldable pub respond_if_error {ℓ} : {A : Type ℓ} → Responses → ℕ → Result A → Responses
unfolding respond
respond_if_error r i (ok a) = r
respond_if_error r i (err e) = respond r i e

-- The loop over the responses `i`, `i + 1`, … of a contiguous buffer, for `n` of them.
unfoldable pub respond_range : ℕ → ℕ → ErrorCode → Responses → Responses
unfolding respond
respond_range zero i e r = r
respond_range (suc n) i e r = respond_range n (i + 1) e (respond r i e)

-- `SendErrorForResponses`: every response that is not null gets the error.
unfoldable pub send_error_for_responses : ℕ → ErrorCode → Responses → Responses
unfolding respond_range
send_error_for_responses response_count e r = respond_range response_count 0 e r

-- RESPOND_ALL_AND_SET_NULL_IF_ERROR
unfoldable pub respond_all_if_error {ℓ} : {A : Type ℓ} → Responses → ℕ → Result A → Responses
unfolding respond_range
respond_all_if_error r responses_count (ok a) = r
respond_all_if_error r responses_count (err e) = respond_range responses_count 0 e r
