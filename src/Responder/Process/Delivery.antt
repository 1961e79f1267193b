-- ===== src/Responder/Process/Delivery.antt =====
-- `ProcessTensor` brings the rows of a device tensor to the outputs of their requests.
use Prim.Native.String.{String}
use native.Mathlib.Nat.{add-zero, zero-add, add_assoc, mod-eq_of_lt}
use backend_radius_ai.Prelude.{
  ℕ, ◌+◌, ◌≤◌, ◌<◌, ◌≡◌, refl, ap, ◌∙◌, sym, true, List, [], ◌∷◌, ◌++◌, append_assoc, append-nil,
  arith,
}
use backend_radius_ai.Prelude.Int.{ℤ, pos, u64_mod, i64_half}
use backend_radius_ai.Triton.{DataType, gpu}
use backend_radius_ai.Responder.State.{OutputData, ResponsesList, Settings, Responder, Tensor}
use backend_radius_ai.Responder.Flush.{add64, flush_pending_pinned, noting}
use backend_radius_ai.Responder.Scatter.{output_size}
use backend_radius_ai.Responder.Process.{
  Split, flush_before, split_shape, tensor_byte_size, respond_output, tensor_loop,
  process_output_tensor,
}
use backend_radius_ai.Responder.Process.Short.{total_rows}
use backend_radius_ai.Responder.Process.Rows.{
  Granted, LiveFrom, flush_before-contiguous, split_shape-enough, respond_output-Grant,
}

module _ {H : Type 0} (settings : Settings H) (tensor : Tensor) (name : String)
    (datatype : DataType) where
  open settings use {api, pinned_enabled, first_dim_batching, copy_on_stream}
  open api use {Request}

  -- The responder with further pending outputs.
  abbrev with_pending : Responder H → H → ResponsesList → Responder H
  with_pending r h outs = record r {
    heap = h;
    pending_pinned_byte_size = r.pending_pinned_byte_size + output_size outs;
    pending_pinned_outputs = r.pending_pinned_outputs ++ outs;
  }

  with_pending-cons :
      (r : Responder H) (mid h : H) (size i : ℕ) (o : OutputData) (outs : ResponsesList)
      → o.buffer_byte_size ≡ size
      → with_pending
          (record r {
            heap = mid;
            pending_pinned_byte_size = r.pending_pinned_byte_size + size;
            pending_pinned_outputs = r.pending_pinned_outputs ++ (i, o) ∷ [];
          })
          h
          outs
        ≡ with_pending r h ((i, o) ∷ outs)
  with_pending-cons r mid h size i o outs sized =
      rw
        (
          append_assoc r.pending_pinned_outputs ((i, o) ∷ []) outs,
          sized,
          add_assoc r.pending_pinned_byte_size size (output_size outs),
        )
        refl

  tensor_loop-cons :
      (batch : ℤ) (request : Request) (requests : List Request) (idx offset offset' : ℕ)
      (s s' : Split) (r flushed split next : Responder H)
      → flush_before settings tensor offset r ≡ flushed
      → split_shape settings tensor batch idx request s flushed ≡ (s', split)
      → respond_output settings tensor name datatype idx request s'.shape
          (tensor_byte_size settings tensor datatype s'.shape)
          offset
          split
        ≡ next
      → add64 offset (tensor_byte_size settings tensor datatype s'.shape) ≡ offset'
      → tensor_loop settings tensor name datatype batch (request ∷ requests) idx offset s r
        ≡ tensor_loop settings tensor name datatype batch requests (idx + 1) offset' s' next
  unfolding tensor_loop
  tensor_loop-cons batch request requests idx offset offset' s s' r flushed split next is_flushed
        is_split is_next is_offset =
      let after : Split → Responder H → Split × Responder H = λ a c.
        tensor_loop settings tensor name datatype batch requests (idx + 1)
          (add64 offset (tensor_byte_size settings tensor datatype a.shape)) a c in
      let emit : Split × Responder H → Split × Responder H = λ a. after a.0 (
        respond_output settings tensor name datatype idx request a.0.shape
          (tensor_byte_size settings tensor datatype a.0.shape) offset a.1) in
      ap (λ a. emit (split_shape settings tensor batch idx request s a)) is_flushed
      ∙ ap emit is_split
      ∙ ap (after s') is_next
      ∙ ap (λ a. tensor_loop settings tensor name datatype batch requests (idx + 1) a s' next)
          is_offset

  module _ (device : tensor.place.memory_type ≡ gpu) (pinned : pinned_enabled ≡ true)
      (batching : first_dim_batching ≡ true) (b : ℕ) (b_fits : b < i64_half) where
    tensor_loop-Granted :
        (requests : List Request) (ns : List ℕ) (idx m : ℕ) (x : ℤ) (ds : List ℤ) (r : Responder H)
        (h : H) (outs : ResponsesList)
        → m + total_rows ns ≤ b
        → LiveFrom settings tensor name datatype r.responses idx requests
        → Granted settings tensor name datatype requests ns idx ds r.heap h outs
        → r.pending_pinned_offset ≡ 0
        → r.pending_pinned_byte_size + output_size outs < u64_mod
        → (tensor_loop settings tensor name datatype
            (pos b)
            requests
            idx
            r.pending_pinned_byte_size
            (record { shape = x ∷ ds; batch_size_offset = pos m })
            r).1
          ≡ with_pending r h outs
    unfolding tensor_loop
    tensor_loop-Granted [] [] idx m x ds r h [] room live grants at_start small =
        rw (← grants, add-zero, append-nil) refl
    tensor_loop-Granted (request ∷ requests) (n ∷ ns) idx m x ds r h ((i, o) ∷ outs) room live
          grants at_start small =
        let size = tensor_byte_size settings tensor datatype (pos n ∷ ds) in
        let p = r.pending_pinned_byte_size in
        let (mid, grant, rest) = grants in
        let (count, output, h1, rows, counted, finds, made, given, host, sized, here) = grant in
        let whole : p + (size + output_size outs) < u64_mod = rw sized at small in
        let small' : p + size + output_size outs < u64_mod = omega arith in
        let next = record r {
          heap = mid;
          pending_pinned_byte_size = p + size;
          pending_pinned_outputs = r.pending_pinned_outputs ++ (i, o) ∷ [];
        } in
        let flushed =
          flush_before-contiguous settings tensor name datatype p r refl at_start (omega arith) in
        let split =
          split_shape-enough settings tensor name datatype b idx m n request x ds r batching rows
            (omega arith) b_fits in
        let emitted =
          respond_output-Grant settings tensor name datatype request n idx ds size mid (i, o) r
            device pinned live.0 grant at_start refl (omega arith) in
        let later =
          tensor_loop-Granted requests ns (idx + 1) (m + n) (pos n) ds next h outs (omega arith)
            live.1 rest at_start small' in
        ap (λ a. a.1)
          (tensor_loop-cons (pos b) request requests idx p (p + size)
            (record { shape = x ∷ ds; batch_size_offset = pos m })
            (record { shape = pos n ∷ ds; batch_size_offset = pos (m + n) }) r r r next flushed
            split emitted (mod-eq_of_lt {n = p + size} {m = u64_mod} (omega arith)))
        ∙ later
        ∙ with_pending-cons r mid h size i o outs sized
    tensor_loop-Granted [] (n ∷ ns) idx m x ds r h outs room live grants at_start small =
        elim grants [ ]
    tensor_loop-Granted [] [] idx m x ds r h (out ∷ outs) room live grants at_start small =
        elim grants [ ]
    tensor_loop-Granted (request ∷ requests) [] idx m x ds r h outs room live grants at_start
          small =
        elim grants [ ]
    tensor_loop-Granted (request ∷ requests) (n ∷ ns) idx m x ds r h [] room live grants at_start
          small =
        elim grants [ ]

  -- The responder when the loop is done, where nothing was pending before it.
  abbrev pub all_pending : Responder H → H → ResponsesList → Responder H
  all_pending r h outs = record r {
    heap = h;
    pending_pinned_byte_size = output_size outs;
    pending_pinned_outputs = outs;
  }

  with_pending-first :
      (r : Responder H) (h : H) (outs : ResponsesList)
      → r.pending_pinned_byte_size ≡ 0
      → r.pending_pinned_outputs ≡ []
      → with_pending r h outs ≡ all_pending r h outs
  with_pending-first r h outs nothing none_yet =
      rw (nothing, none_yet, zero-add (output_size outs)) refl

  pub process_output_tensor-Granted :
      (requests : List Request) (ns : List ℕ) (b : ℕ) (ds : List ℤ) (r : Responder H) (h : H)
      (outs : ResponsesList)
      → tensor.place.memory_type ≡ gpu
      → pinned_enabled ≡ true
      → first_dim_batching ≡ true
      → b < i64_half
      → total_rows ns ≤ b
      → LiveFrom settings tensor name datatype r.responses 0 requests
      → Granted settings tensor name datatype requests ns 0 ds r.heap h outs
      → r.pending_pinned_offset ≡ 0
      → r.pending_pinned_byte_size ≡ 0
      → r.pending_pinned_outputs ≡ []
      → output_size outs < u64_mod
      → (process_output_tensor settings tensor requests name datatype (pos b ∷ ds) r).1
        ≡ noting (flush_pending_pinned settings tensor (all_pending r h outs))
  unfolding process_output_tensor
  process_output_tensor-Granted requests ns b ds r h outs device pinned batching b_fits room live
        grants at_start nothing none_yet small =
      let small' : r.pending_pinned_byte_size + output_size outs < u64_mod =
        omega (arith, nothing) in
      let start : Split = record { shape = pos b ∷ ds; batch_size_offset = pos 0 } in
      ap (λ a. noting (flush_pending_pinned settings tensor a))
        (ap (λ a. (tensor_loop settings tensor name datatype (pos b) requests 0 a start r).1)
            (sym nothing)
          ∙ tensor_loop-Granted device pinned batching b b_fits requests ns 0 0 (pos b) ds r h outs
              (omega arith) live grants at_start small'
          ∙ with_pending-first r h outs nothing none_yet)
