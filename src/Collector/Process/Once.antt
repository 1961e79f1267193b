-- ===== src/Collector/Process/Once.antt =====
-- Processing a tensor, and finalizing, sends no response twice.
use backend_radius_ai.Prelude.{
  ℕ, zero, suc, ◌+◌, ◌*◌, not, ◌≡◌, ◌≢◌, refl, ◌∙◌, Bool, false, none, some, List, [], ◌∷◌, if_both,
  Option-cases, Bool-cases, inl, inr, leb, ◌==◌, length,
}
use backend_radius_ai.Triton.{MemoryType, Result, ok, err}
use backend_radius_ai.Machine.{Machine, Transfer}
use backend_radius_ai.BackendMemory.{create_any}
use backend_radius_ai.BackendMemory.Creation.{Result-cases}
use backend_radius_ai.Server.{Server, MemoryDesc}
use backend_radius_ai.Collector.Iterator.{
  ContiguousBuffer, Source, Iterator, start, get_next_contiguous_input,
}
use backend_radius_ai.Collector.Iterator.Once.{load-start, load-get_next}
use backend_radius_ai.Collector.State.{Target, DeferredPinned, Settings, Collector}
use backend_radius_ai.Collector.Tensor.{flush_pending_pinned}
use backend_radius_ai.Collector.Tensor.Once.{
  SameLoad, set_input_tensor-SameLoad, set_input_tensors-SameLoad, copy_from_pinned-SameLoad,
  flush_pending_pinned-SameLoad,
}
use backend_radius_ai.Collector.Process.{
  alloc_types, and_then, kernel_array, run_gather, launch_copy_kernel, clear_copy_kernel,
  kernel_fallback, flush_pending_copy_kernel, noting, flush_pinned_before, flush_kernel_before,
  flush_before, process_input, flush_all, use_pinned_memory_type, process_loop, process_tensor,
  finalize_deferred, finalize_all, finalize,
}

none≢some : {A : Type 0} {a : A} → none ≢ some a
none≢some h = cc

module _ {H : Type 0} (settings : Settings H) (launches : Machine → List Transfer → Bool)
    (i : ℕ) where
  kernel_array-SameLoad :
      (target : Target) (c : Collector H) → SameLoad i (kernel_array settings launches target c).1 c
  unfolding kernel_array
  kernel_array-SameLoad target c =
      elim (Result-cases
        (create_any settings.alloc c.heap (alloc_types target.place.memory_type)
          target.place.memory_type_id (c.pending_copy_kernel_input_buffer_counts * 8)).0) [
            | inl (b, e) ↦
                rw (e, kernel_array)
                  (if_both (λ (r : Result (Unit {0}) × Collector H). SameLoad i r.1 c) _ refl refl)
            | inr (x, e) ↦ rw (e, kernel_array)
          ]

  run_gather-SameLoad :
      (target : Target) (c : Collector H) → SameLoad i (run_gather settings launches target c).1 c
  unfolding run_gather
  run_gather-SameLoad target c =
      if_both (λ (r : Result (Unit {0}) × Collector H). SameLoad i r.1 c) _ refl refl

  and_then-SameLoad :
      (r : Result (Unit {0}) × Collector H) (next : Collector H → Result (Unit {0}) × Collector H)
      (c : Collector H)
      → SameLoad i r.1 c
      → ((c' : Collector H) → SameLoad i (next c').1 c')
      → SameLoad i (and_then r next).1 c
  and_then-SameLoad (ok _, c') next c h k = k c' ∙ h
  and_then-SameLoad (err e, c') next c h k = h

  launch_copy_kernel-SameLoad :
      (target : Target) (c : Collector H)
      → SameLoad i (launch_copy_kernel settings launches target c).1 c
  unfolding launch_copy_kernel
  launch_copy_kernel-SameLoad target c = elim (Bool-cases settings.cuda.enabled) [
    | inr off ↦ rw off
    | inl on ↦
        let array = kernel_array settings launches target in
        let pointers = array c in
        let sizes = and_then pointers array in
        let offsets = and_then sizes array in
        rw on (
          and_then-SameLoad offsets (run_gather settings launches target) c
            (and_then-SameLoad sizes array c
              (and_then-SameLoad pointers array c (kernel_array-SameLoad target c)
                (kernel_array-SameLoad target))
              (kernel_array-SameLoad target))
            (run_gather-SameLoad target))
  ]

  kernel_fallback-SameLoad :
      (target : Target) (c : Collector H)
      → SameLoad i (kernel_fallback settings launches target c).1 c
  unfolding kernel_fallback
  kernel_fallback-SameLoad target c =
      set_input_tensors-SameLoad settings i c.pending_copy_kernel_input_buffers target
        c.pending_copy_kernel_buffer_offset c

  flush_pending_copy_kernel-SameLoad :
      (target : Target) (c : Collector H)
      → SameLoad i (flush_pending_copy_kernel settings launches target c).1 c
  unfolding flush_pending_copy_kernel clear_copy_kernel
  flush_pending_copy_kernel-SameLoad target c =
      let launched = launch_copy_kernel-SameLoad target c in
      let c₁ = (launch_copy_kernel settings launches target c).1 in
      elim (Bool-cases (length c.pending_copy_kernel_input_buffers == 0)) [
        | inl empty ↦ rw empty
        | inr some_input ↦
            elim (Bool-cases
              (leb settings.kernel_buffer_threshold c.pending_copy_kernel_input_buffer_counts)) [
                | inr few ↦ rw (some_input, few) (kernel_fallback-SameLoad target c)
                | inl many ↦ elim (Result-cases (launch_copy_kernel settings launches target c).0) [
                  | inl (u, e) ↦ rw (some_input, many, e, flush_pending_copy_kernel) launched
                  | inr (x, e) ↦
                      rw (some_input, many, e, flush_pending_copy_kernel)
                        (kernel_fallback-SameLoad target c₁ ∙ launched)
                ]
              ]
      ]

  flush_pinned_before-SameLoad :
      (target : Target) (offset : ℕ) (c : Collector H)
      → SameLoad i (flush_pinned_before settings launches target offset c) c
  unfolding flush_pinned_before
  flush_pinned_before-SameLoad target offset c =
      if_both (λ (r : Collector H). SameLoad i r c) _
        (flush_pending_pinned-SameLoad settings i target c) refl

  flush_kernel_before-SameLoad :
      (target : Target) (offset : ℕ) (c : Collector H)
      → SameLoad i (flush_kernel_before settings launches target offset c) c
  unfolding flush_kernel_before
  flush_kernel_before-SameLoad target offset c =
      if_both (λ (r : Collector H). SameLoad i r c) _ (flush_pending_copy_kernel-SameLoad target c)
        refl

  flush_before-SameLoad :
      (target : Target) (offset : ℕ) (c : Collector H)
      → SameLoad i (flush_before settings launches target offset c) c
  unfolding flush_before
  flush_before-SameLoad target offset c =
      flush_kernel_before-SameLoad target offset
        (flush_pinned_before settings launches target offset c)
      ∙ flush_pinned_before-SameLoad target offset c

  process_input-SameLoad :
      (target : Target) (use_pinned : MemoryType) (offset : ℕ) (input : ContiguousBuffer)
      (c : Collector H)
      → SameLoad i (process_input settings launches target use_pinned offset input c) c
  unfolding process_input
  process_input-SameLoad target use_pinned offset input c =
      let flushed = flush_before settings launches target offset c in
      set_input_tensor-SameLoad settings i input target offset use_pinned
        (not (settings.kernel_buffer_threshold == 0)) flushed
      ∙ flush_before-SameLoad target offset c

  flush_all-SameLoad :
      (target : Target) (c : Collector H) → SameLoad i (flush_all settings launches target c) c
  unfolding flush_all
  flush_all-SameLoad target c =
      flush_pending_copy_kernel-SameLoad target
        (noting settings launches (flush_pending_pinned settings target c))
      ∙ flush_pending_pinned-SameLoad settings i target c

  finalize_all-SameLoad :
      (ds : List DeferredPinned) (c : Collector H)
      → SameLoad i (finalize_all settings launches ds c) c
  unfolding finalize_all finalize_deferred
  finalize_all-SameLoad [] c = refl
  finalize_all-SameLoad (d ∷ ds) c =
      finalize_all-SameLoad ds (noting settings launches (finalize_deferred settings launches d c))
      ∙ copy_from_pinned-SameLoad settings i d.requests d.pinned_memory d.pinned_memory_size
          d.target d.tensor_buffer_offset false c

  -- `Finalize` too leaves, for each index, the number of its live pointers and of the errors
  -- sent to it as it was in sum.
  pub finalize-SameLoad : (c : Collector H) → SameLoad i (finalize settings launches c) c
  unfolding finalize
  finalize-SameLoad c =
      finalize_all-SameLoad c.deferred_pinned _
      ∙ if_both (λ (r : Collector H). SameLoad i r c) _ refl refl

  module _ {server : Server} (src : Source server) (junk : MemoryDesc) where
    process_loop-SameLoad :
        (fuel : ℕ) (target : Target) (offset : ℕ) (input : ContiguousBuffer) (it : Iterator server)
        (c c' : Collector H)
        → process_loop settings launches src junk fuel target offset input it c ≡ some c'
        → SameLoad i c' c
    unfolding process_loop
    process_loop-SameLoad zero target offset input it c c' e = cc
    process_loop-SameLoad (suc fuel) target offset input it c c' e =
        elim (Option-cases
          (get_next_contiguous_input src junk input (record it { responses = c.responses }))) [
            | inl done ↦
                let same : some c ≡ some c' = rw (done, process_loop) at e in
                let back : c ≡ c' = cc in rw (← back) refl
            | inr ((next, it'), more) ↦
                let rest = rw (more, process_loop) at e in
                process_loop-SameLoad fuel target (offset + next.memory_desc.byte_size) next it' _
                  c' rest
                ∙ process_input-SameLoad target (use_pinned_memory_type settings launches target)
                    offset next (record c { responses = it'.responses })
                ∙ load-get_next src i junk input next (record it { responses = c.responses }) it'
                    more
          ]

    -- Where `ProcessTensor` returns, then for each index the number of its live pointers and of
    -- the errors sent to it is in sum what it was before, whichever path was taken.
    pub process_tensor-SameLoad :
        (fuel : ℕ) (first : Server.Input server) (count : ℕ) (input : ContiguousBuffer)
        (target : Target) (c c' : Collector H)
        → process_tensor settings launches src junk fuel first count input target c ≡ some c'
        → SameLoad i c' c
    unfolding process_tensor
    process_tensor-SameLoad fuel first count input target c c' e =
        let it = start src first count c.responses in
        let c₀ = record c { responses = it.responses } in
        elim (Option-cases (process_loop settings launches src junk fuel target 0 input it c₀)) [
          | inl out ↦ absurd (none≢some (rw (out, process_tensor) at e))
          | inr (c₁, ran) ↦
              let same : some (flush_all settings launches target c₁) ≡ some c' =
                rw (ran, process_tensor) at e in
              let back : flush_all settings launches target c₁ ≡ c' = cc in
              rw (← back) (
                flush_all-SameLoad target c₁
                ∙ process_loop-SameLoad fuel target 0 input it c₀ c₁ ran
                ∙ load-start src i first count c.responses)
        ]
