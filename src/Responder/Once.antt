-- ===== src/Responder/Once.antt =====
-- The responder changes its responses by sending errors only.

use backend_radius_ai.Prelude.{ℕ, ◌+◌, Bool, List, [], ◌∷◌, if_both, Option-cases, inl, inr, Option}
use backend_radius_ai.Triton.{MemoryType, Result}
use backend_radius_ai.BackendMemory.Creation.{Result-cases}
use backend_radius_ai.Copy.{Place}
use backend_radius_ai.Machine.{Transfer}
use backend_radius_ai.Responses.{Responses, respond_if_error}
use backend_radius_ai.Responses.Reached.{
  Reached, none_sent, more, ◌after◌, respond_if_error-Reached,
}
use backend_radius_ai.Responder.State.{
  Block, ResponsesList, Settings, Responder, Tensor, DeferredPinned,
}
use backend_radius_ai.Responder.Flush.{
  copy_to_response, pend_output, fill_block, set_fixed_size_buffer, scatter, fail_outputs,
  allocate_pinned, defer, stage_pinned, clear_pinned, flush_pending_pinned, finalize_all, finalize,
}

-- The second state's responses arise from the first's by sending errors.
abbrev pub Leads : {H : Type 0} → Responder H → Responder H → Type 0
Leads r' r = Reached r.responses r'.responses

fail_outputs-Reached :
    (outputs : ResponsesList) (answer : Result (Unit {0})) (rs : Responses)
    → Reached rs (fail_outputs outputs answer rs)
unfolding fail_outputs
fail_outputs-Reached [] answer rs = none_sent
fail_outputs-Reached ((idx, o) ∷ outputs) answer rs =
    fail_outputs-Reached outputs answer (respond_if_error rs idx answer)
    after respond_if_error-Reached rs idx answer

module _ {H : Type 0} (settings : Settings H) where
  copy_to_response-Leads :
      (idx : ℕ) (src dst : Place) (t : Transfer) (r : Responder H)
      → Leads (copy_to_response settings idx src dst t r).1 r
  unfolding copy_to_response
  copy_to_response-Leads idx src dst t r = respond_if_error-Reached r.responses idx _

  fill_block-Leads :
      (idx : ℕ) (tensor : Tensor) (size offset : ℕ) (use_pinned : MemoryType) (block : Block)
      (r : Responder H)
      → Leads (fill_block settings idx tensor size offset use_pinned block r).1 r
  unfolding fill_block pend_output
  fill_block-Leads idx tensor size offset use_pinned block r =
      if_both (λ (a : Bool × Responder H). Leads a.1 r) _ none_sent
        (copy_to_response-Leads idx tensor.place block.place _ r)

  pub set_fixed_size_buffer-Leads :
      (buffer_of : H → Result Block × H) (idx : ℕ) (tensor : Tensor) (size offset : ℕ)
      (use_pinned : MemoryType) (r : Responder H)
      → Leads (set_fixed_size_buffer settings buffer_of idx tensor size offset use_pinned r).1 r
  unfolding set_fixed_size_buffer
  set_fixed_size_buffer-Leads buffer_of idx tensor size offset use_pinned r =
      elim (Result-cases (buffer_of r.heap).0) [
        | inl (block, e) ↦
            rw (e, set_fixed_size_buffer)
              (fill_block-Leads idx tensor size offset use_pinned block _)
        | inr (x, e) ↦ rw (e, set_fixed_size_buffer) (more r.responses idx x none_sent)
      ]

  scatter-Leads :
      (src : Place) (base : ℕ) (outputs : ResponsesList) (r : Responder H)
      → Leads (scatter settings src base outputs r).1 r
  unfolding scatter
  scatter-Leads src base [] r = none_sent
  scatter-Leads src base ((idx, o) ∷ outputs) r =
      scatter-Leads src (base + o.buffer_byte_size) outputs _
      after copy_to_response-Leads idx src o.block.place _ r

  stage_pinned-Leads :
      (pinned : ℕ) (tensor : Tensor) (r : Responder H)
      → Leads (stage_pinned settings pinned tensor r).1 r
  unfolding stage_pinned defer
  stage_pinned-Leads pinned tensor r =
      let failed = fail_outputs-Reached r.pending_pinned_outputs _ r.responses in
      if_both (λ (a : Bool × Responder H). Leads a.1 r) _ failed
        (scatter-Leads _ pinned r.pending_pinned_outputs _ after failed)

  allocate_pinned-Leads : (r : Responder H) → Leads (allocate_pinned settings r).1 r
  unfolding allocate_pinned
  allocate_pinned-Leads r =
      if_both (λ (a : Option ℕ × Responder H). Leads a.1 r) _ none_sent none_sent

  pub flush_pending_pinned-Leads :
      (tensor : Tensor) (r : Responder H) → Leads (flush_pending_pinned settings tensor r).1 r
  unfolding flush_pending_pinned clear_pinned
  flush_pending_pinned-Leads tensor r =
      let allocated = allocate_pinned-Leads r in
      let r' = (allocate_pinned settings r).1 in
      elim (Option-cases (allocate_pinned settings r).0) [
        | inl e ↦
            rw (e, flush_pending_pinned)
              (scatter-Leads tensor.place (tensor.buffer + r'.pending_pinned_offset)
                  r'.pending_pinned_outputs r'
                after allocated)
        | inr (ptr, e) ↦
            rw (e, flush_pending_pinned) (stage_pinned-Leads ptr tensor r' after allocated)
      ]

  finalize_all-Leads :
      (ds : List DeferredPinned) (r : Responder H) → Leads (finalize_all settings ds r) r
  unfolding finalize_all
  finalize_all-Leads [] r = none_sent
  finalize_all-Leads (d ∷ ds) r =
      finalize_all-Leads ds _ after scatter-Leads _ d.pinned_memory d.responses r

  pub finalize-Leads : (r : Responder H) → Leads (finalize settings r) r
  unfolding finalize
  finalize-Leads r =
      finalize_all-Leads r.deferred_pinned _
      after if_both (λ (a : Responder H). Leads a r) _ none_sent none_sent
