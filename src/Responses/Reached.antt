-- ===== src/Responses/Reached.antt =====
-- The responses that sending errors can lead to.
use backend_radius_ai.Prelude.{ℕ, ◌≡◌, refl, ◌∙◌}
use backend_radius_ai.Triton.{ErrorCode, Result, ok, err}
use backend_radius_ai.Responses.{Responses, respond, respond_if_error}
use backend_radius_ai.Responses.Once.{load, load-respond, live_count, respond_keeps_dead}

-- Responses that arise from `rs` by any number of calls of RESPOND_AND_SET_NULL_IF_ERROR.
pub data Reached (rs : Responses) : Responses → Type 0 where
  none_sent : Reached rs rs
  more : (rs' : Responses) (i : ℕ) (e : ErrorCode) → Reached rs rs' → Reached rs (respond rs' i e)

-- Two stretches, the later one first.
infixr 50 ◌after◌
pub ◌after◌ : {a b c : Responses} → Reached b c → Reached a b → Reached a c
none_sent after q = q
more rs' i e p after q = more rs' i e (p after q)

pub respond_if_error-Reached {ℓ} :
    {A : Type ℓ} (rs : Responses) (i : ℕ) (answer : Result A)
    → Reached rs (respond_if_error rs i answer)
unfolding respond_if_error
respond_if_error-Reached rs i (ok a) = none_sent
respond_if_error-Reached rs i (err e) = more rs i e none_sent

-- The live pointers of an index and the errors sent to it are in sum what they were.
pub load-Reached : {rs rs' : Responses} (i : ℕ) → Reached rs rs' → load rs' i ≡ load rs i
load-Reached i none_sent = refl
load-Reached i (more rs' j e p) = load-respond rs' j e i ∙ load-Reached i p

-- A pointer that is null stays so.
pub Reached-dead :
    {rs rs' : Responses} (i : ℕ)
    → Reached rs rs'
    → live_count i rs.live ≡ 0
    → live_count i rs'.live ≡ 0
Reached-dead i none_sent dead = dead
Reached-dead i (more rs' j e p) dead = respond_keeps_dead rs' i j e (Reached-dead i p dead)
