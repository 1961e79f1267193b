-- ===== src/Collector/Tensor/Once.antt =====
-- Copying inputs, directly or through pinned memory, sends no response twice.
use backend_radius_ai.Prelude.{
  ℕ, ◌+◌, ◌≡◌, refl, ◌∙◌, Bool, false, Option, List, [], ◌∷◌, if_both, Bool-cases, ltb,
  Option-cases, inl, inr,
}
use backend_radius_ai.Triton.{MemoryType, Result, ok, err, ErrorCode, invalid_arg, cpu_pinned}
use backend_radius_ai.BackendMemory.{BackendMemory}
use backend_radius_ai.Responses.Once.{load, load-respond_range}
use backend_radius_ai.Collector.Iterator.{ContiguousBuffer}
use backend_radius_ai.Collector.State.{
  Target, Settings, Collector, fail_input, fail_inputs, fail_inputs_if_error,
}
use backend_radius_ai.Collector.Tensor.{
  takes_pinned, takes_kernel, set_input_tensor, set_input_tensors, copy_from_pinned, stage_pinned,
  allocate_pinned, flush_pending_pinned, clear_pinned, defer,
}

-- The load of index `i` is the same in both states.
abbrev pub SameLoad : {H : Type 0} → ℕ → Collector H → Collector H → Type 0
SameLoad i c' c = load c'.responses i ≡ load c.responses i

module _ {H : Type 0} (i : ℕ) where
  fail_input-SameLoad :
      (input : ContiguousBuffer) (e : ErrorCode) (c : Collector H)
      → SameLoad i (fail_input input e c) c
  unfolding fail_input
  fail_input-SameLoad input e c = load-respond_range _ input.start_request_idx e c.responses i

  fail_inputs-SameLoad :
      (inputs : List ContiguousBuffer) (e : ErrorCode) (c : Collector H)
      → SameLoad i (fail_inputs inputs e c) c
  unfolding fail_inputs
  fail_inputs-SameLoad [] e c = refl
  fail_inputs-SameLoad (input ∷ inputs) e c =
      fail_inputs-SameLoad inputs e (fail_input input e c) ∙ fail_input-SameLoad input e c

  fail_inputs_if_error-SameLoad :
      (inputs : List ContiguousBuffer) (r : Result (Unit {0})) (c : Collector H)
      → SameLoad i (fail_inputs_if_error inputs r c) c
  unfolding fail_inputs_if_error
  fail_inputs_if_error-SameLoad inputs (ok _) c = refl
  fail_inputs_if_error-SameLoad inputs (err e) c = fail_inputs-SameLoad inputs e c

module _ {H : Type 0} (settings : Settings H) (i : ℕ) where
  pub set_input_tensor-SameLoad :
      (input : ContiguousBuffer) (target : Target) (offset : ℕ) (use_pinned : MemoryType)
      (use_kernel : Bool) (c : Collector H)
      → SameLoad i (set_input_tensor settings input target offset use_pinned use_kernel c).1 c
  unfolding set_input_tensor
  set_input_tensor-SameLoad input target offset use_pinned use_kernel c =
      elim (Bool-cases (ltb target.byte_size (offset + input.memory_desc.byte_size))) [
        | inl large ↦ rw large (fail_input-SameLoad i input invalid_arg c)
        | inr fits ↦ elim (Bool-cases (takes_pinned settings input use_pinned)) [
          | inl pinned ↦ rw (fits, pinned)
          | inr unpinned ↦ elim (Bool-cases (takes_kernel settings input target use_kernel)) [
            | inl kernel ↦ rw (fits, unpinned, kernel)
            | inr direct ↦
                rw (fits, unpinned, direct) (fail_inputs_if_error-SameLoad i (input ∷ []) _ _)
          ]
        ]
      ]

  pub set_input_tensors-SameLoad :
      (inputs : List ContiguousBuffer) (target : Target) (offset : ℕ) (c : Collector H)
      → SameLoad i (set_input_tensors settings inputs target offset c).1 c
  unfolding set_input_tensors
  set_input_tensors-SameLoad [] target offset c = refl
  set_input_tensors-SameLoad (input ∷ inputs) target offset c =
      set_input_tensors-SameLoad inputs target (offset + input.memory_desc.byte_size) _
      ∙ set_input_tensor-SameLoad input target offset cpu_pinned false c

  pub copy_from_pinned-SameLoad :
      (inputs : List ContiguousBuffer) (pinned size : ℕ) (target : Target) (offset : ℕ)
      (on_stream : Bool) (c : Collector H)
      → SameLoad i (copy_from_pinned settings inputs pinned size target offset on_stream c).1 c
  unfolding copy_from_pinned
  copy_from_pinned-SameLoad inputs pinned size target offset on_stream c =
      fail_inputs_if_error-SameLoad i inputs _ _

  stage_pinned-SameLoad :
      (pinned : ℕ) (target : Target) (c : Collector H)
      → SameLoad i (stage_pinned settings pinned target c).1 c
  unfolding stage_pinned defer
  stage_pinned-SameLoad pinned target c =
      let staged = set_input_tensors-SameLoad c.pending_pinned_input_buffers _ 0 c in
      if_both (λ (r : Bool × Collector H). SameLoad i r.1 c) _ staged
        (copy_from_pinned-SameLoad c.pending_pinned_input_buffers pinned _ target _ _ _ ∙ staged)

  allocate_pinned-SameLoad : (c : Collector H) → SameLoad i (allocate_pinned settings c).1 c
  unfolding allocate_pinned
  allocate_pinned-SameLoad c =
      if_both (λ (r : Option BackendMemory × Collector H). SameLoad i r.1 c) _ refl refl

  -- A flush of the pending pinned copies.
  pub flush_pending_pinned-SameLoad :
      (target : Target) (c : Collector H) → SameLoad i (flush_pending_pinned settings target c).1 c
  unfolding flush_pending_pinned clear_pinned
  flush_pending_pinned-SameLoad target c =
      let allocated = allocate_pinned-SameLoad c in
      let c' = (allocate_pinned settings c).1 in
      elim (Option-cases (allocate_pinned settings c).0) [
        | inl e ↦
            rw (e, flush_pending_pinned)
              (set_input_tensors-SameLoad c'.pending_pinned_input_buffers target
                  c'.pending_pinned_offset c'
                ∙ allocated)
        | inr (b, e) ↦
            rw (e, flush_pending_pinned) (stage_pinned-SameLoad b.buffer target c' ∙ allocated)
      ]
