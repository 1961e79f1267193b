-- ===== src/Responses/Once.antt =====
-- No response is sent twice.
use backend_radius_ai.Prelude.{
  ℕ, zero, suc, ◌+◌, ◌≤◌, ◌<◌, ◌≡◌, refl, Bool, true, false, some, List, [], ◌∷◌, ◌++◌, get_elem?,
  set, arith, Bool-cases, if◌then◌else◌, ◌==◌, ◌∙◌, inl, inr,
}
use backend_radius_ai.Triton.{ErrorCode, Result, ok, err}
use backend_radius_ai.Responses.{
  Responses, respond, respond_if_error, respond_range, send_error_for_responses,
}

-- How often `i` stands in the list of errors sent.
abbrev pub sent_count : ℕ → List (ℕ × ErrorCode) → ℕ
sent_count i [] = 0
sent_count i ((j, e) ∷ sent) = (if j == i then 1 else 0) + sent_count i sent

abbrev pub live_count : ℕ → List Bool → ℕ
live_count i live = elim (get_elem? live i) [ some true ↦ 1 | _ ↦ 0 ]

-- The responses that index `i` may still send, and those that it has sent.
abbrev pub load : Responses → ℕ → ℕ
load r i = live_count i r.live + sent_count i r.sent

sent_count-append :
    (i j : ℕ) (e : ErrorCode) (sent : List (ℕ × ErrorCode))
    → sent_count i (sent ++ (j, e) ∷ []) ≡ sent_count i sent + (if j == i then 1 else 0)
sent_count-append i j e [] = omega arith
sent_count-append i j e ((k, d) ∷ sent) = omega (arith, sent_count-append i j e sent)

live_count-set :
    (i j : ℕ) (live : List Bool)
    → get_elem? live j ≡ some true
    → live_count i (set live j false) + (if j == i then 1 else 0) ≡ live_count i live
live_count-set i j [] h = cc
live_count-set zero zero (b ∷ live) h = ground arith
live_count-set zero (suc j) (b ∷ live) h = ground arith
live_count-set (suc i) zero (b ∷ live) h = ground arith
live_count-set (suc i) (suc j) (b ∷ live) h = ground (arith, live_count-set i j live h)

-- An error response takes from an index what it adds to the errors sent, and touches no other.
pub load-respond :
    (r : Responses) (j : ℕ) (e : ErrorCode) (i : ℕ) → load (respond r j e) i ≡ load r i
unfolding respond
load-respond r j e i = ground (arith, live_count-set i j r.live, sent_count-append i j e r.sent)

pub load-respond_if_error {ℓ} :
    {A : Type ℓ} (r : Responses) (j : ℕ) (x : Result A) (i : ℕ)
    → load (respond_if_error r j x) i ≡ load r i
unfolding respond_if_error
load-respond_if_error r j (ok a) i = refl
load-respond_if_error r j (err e) i = load-respond r j e i

pub load-respond_range :
    (n j : ℕ) (e : ErrorCode) (r : Responses) (i : ℕ) → load (respond_range n j e r) i ≡ load r i
unfolding respond_range
load-respond_range zero j e r i = refl
load-respond_range (suc n) j e r i =
    load-respond_range n (j + 1) e (respond r j e) i ∙ load-respond r j e i

pub respond-dead : (r : Responses) (i : ℕ) (e : ErrorCode) → live_count i (respond r i e).live ≡ 0
unfolding respond
respond-dead r i e = ground (arith, live_count-set i i r.live)

pub respond_keeps_dead :
    (r : Responses) (i j : ℕ) (e : ErrorCode)
    → live_count i r.live ≡ 0
    → live_count i (respond r j e).live ≡ 0
unfolding respond
respond_keeps_dead r i j e dead = ground (arith, live_count-set i j r.live, dead)

range_keeps_dead :
    (n j : ℕ) (e : ErrorCode) (r : Responses) (i : ℕ)
    → live_count i r.live ≡ 0
    → live_count i (respond_range n j e r).live ≡ 0
unfolding respond_range
range_keeps_dead zero j e r i dead = dead
range_keeps_dead (suc n) j e r i dead =
    range_keeps_dead n (j + 1) e (respond r j e) i (respond_keeps_dead r i j e dead)

range-dead :
    (n j : ℕ) (e : ErrorCode) (r : Responses) (i : ℕ)
    → j ≤ i
    → i < j + n
    → live_count i (respond_range n j e r).live ≡ 0
unfolding respond_range
range-dead zero j e r i lo hi = omega arith
range-dead (suc n) j e r i lo hi = elim (Bool-cases (j == i)) [
  | inl same ↦
      let here : i ≡ j = ground arith in
      range_keeps_dead n (j + 1) e (respond r j e) i (rw here (respond-dead r j e))
  | inr other ↦ range-dead n (j + 1) e (respond r j e) i (ground arith) (omega arith)
]

-- `SendErrorForResponses` leaves no pointer of the first `n` live: each that was live has been sent
-- exactly one more error, and the others none.
send_error_for_responses-sent :
    (n : ℕ) (e : ErrorCode) (r : Responses) (i : ℕ)
    → i < n
    → (live_count i (send_error_for_responses n e r).live ≡ 0)
      × (sent_count i (send_error_for_responses n e r).sent
          ≡ live_count i r.live + sent_count i r.sent)
unfolding send_error_for_responses
send_error_for_responses-sent n e r i h =
    let dead = range-dead n 0 e r i (omega arith) (omega arith) in
    (dead, omega (arith, dead, load-respond_range n 0 e r i))
