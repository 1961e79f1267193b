-- ===== src/Responder/Process/Rows.antt =====
-- `ProcessTensor` over requests whose outputs are all granted.
use Prim.Native.String.{String}
use native.Mathlib.Nat.{add-zero, mod-eq_of_lt}
use backend_radius_ai.Prelude.{
  ℕ, ◌+◌, ◌%◌, ◌≤◌, ◌<◌, ◌≡◌, refl, ◌∙◌, sym, true, false, not, ◌&&◌, List, [], ◌∷◌, ◌++◌, ltb,
  ◌==◌, if◌then◌else◌, arith, get_or, Bool-cases, inl, inr,
}
use backend_radius_ai.Prelude.Int.{ℤ, pos, negsuc, ◌==ℤ◌, ltb_ℤ, u64_mod, i64_half}
use backend_radius_ai.Triton.{DataType, cpu, gpu, ok}
use backend_radius_ai.Responses.{Responses}
use backend_radius_ai.Responder.State.{
  OutputData, ResponsesList, Settings, Responder, Tensor, is_live,
}
use backend_radius_ai.Responder.Flush.{add64, pend_output}
use backend_radius_ai.Responder.Process.{
  flush_before, split_shape, tensor_byte_size, respond_output,
}
use backend_radius_ai.Responder.Process.Short.{wrap64-pos-add}
use backend_radius_ai.Responder.Process.Granted.{Finds, respond_output-Finds, emit_output-granted}

enough : (b k : ℕ) → k ≤ b → (not (pos b ==ℤ negsuc 0) && ltb_ℤ (pos b) (pos k)) ≡ false
enough b k h = ground arith

module _ {H : Type 0} (settings : Settings H) (tensor : Tensor) (name : String)
    (datatype : DataType) where
  open settings use {api, pinned_enabled, first_dim_batching}
  open api use {Request, Output, first_input_shape, output_count, response_output, output_buffer}

  -- The request with index `idx` has `n` rows and asks for the tensor, and in the state `h` the
  -- server gives it a buffer for them in host memory and is left in `h'`.
  abbrev pub Grant : Request → ℕ → ℕ → List ℤ → H → H → ℕ × OutputData → Type 0
  Grant request n idx ds h h' (i, o) =
      (count : ℕ) × (output : Output) × (mid : H) × (get_or (first_input_shape request) 0 (pos 0)
        ≡ pos n)
      × (output_count request ≡ ok count)
      × Finds settings tensor name datatype request count 0
      × (response_output h idx name datatype (pos n ∷ ds) ≡ (ok output, mid))
      × (output_buffer mid output o.buffer_byte_size tensor.place ≡ (ok o.block, h'))
      × (o.block.place.memory_type ≡ cpu)
      × (o.buffer_byte_size ≡ tensor_byte_size settings tensor datatype (pos n ∷ ds))
      × (i ≡ idx)

  abbrev pub Granted : List Request → List ℕ → ℕ → List ℤ → H → H → ResponsesList → Type 0
  Granted [] [] idx ds h h' [] = h ≡ h'
  Granted (request ∷ requests) (n ∷ ns) idx ds h h' (out ∷ outs) =
      (mid : H) × Grant request n idx ds h mid out × Granted requests ns (idx + 1) ds mid h' outs
  Granted _ _ idx ds h h' _ = ⊥

  abbrev pub LiveFrom : Responses → ℕ → List Request → Type 0
  LiveFrom rs idx [] = Unit {0}
  LiveFrom rs idx (request ∷ requests) = (is_live rs idx ≡ true) × LiveFrom rs (idx + 1) requests

  pub flush_before-contiguous :
      (offset : ℕ) (r : Responder H)
      → offset ≡ r.pending_pinned_byte_size
      → r.pending_pinned_offset ≡ 0
      → offset < u64_mod
      → flush_before settings tensor offset r ≡ r
  unfolding flush_before
  flush_before-contiguous offset r at_size at_start small =
      let same : (offset == add64 r.pending_pinned_byte_size r.pending_pinned_offset) ≡ true =
        rw (at_start, ← at_size, add-zero, mod-eq_of_lt {n = offset} {m = u64_mod} small)
          (ground arith) in
      let quiet : (ltb 0 r.pending_pinned_byte_size
            && not (offset == add64 r.pending_pinned_byte_size r.pending_pinned_offset))
          ≡ false =
        rw same
          (elim (Bool-cases (ltb 0 r.pending_pinned_byte_size)) [ inl e ↦ rw e | inr e ↦ rw e ]) in
      rw quiet

  pub split_shape-enough :
      (b idx m n : ℕ) (request : Request) (x : ℤ) (ds : List ℤ) (r : Responder H)
      → first_dim_batching ≡ true
      → get_or (first_input_shape request) 0 (pos 0) ≡ pos n
      → m + n ≤ b
      → b < i64_half
      → split_shape settings tensor
          (pos b)
          idx
          request
          (record { shape = x ∷ ds; batch_size_offset = pos m })
          r
        ≡ (record { shape = pos n ∷ ds; batch_size_offset = pos (m + n) }, r)
  unfolding split_shape
  split_shape-enough b idx m n request x ds r batching rows room small =
      rw (batching, rows, wrap64-pos-add m n (omega arith), enough b (m + n) room) refl

  pend_output-start :
      (idx size : ℕ) (o : OutputData) (r : Responder H)
      → o.buffer_byte_size ≡ size
      → r.pending_pinned_offset ≡ 0
      → r.pending_pinned_byte_size + size < u64_mod
      → pend_output idx o.block size r.pending_pinned_byte_size r ≡ record r {
        pending_pinned_byte_size = r.pending_pinned_byte_size + size;
        pending_pinned_outputs = r.pending_pinned_outputs ++ (idx, o) ∷ [];
      }
  unfolding pend_output
  pend_output-start idx size o r at_size at_start small =
      let p = r.pending_pinned_byte_size in
      let sum : (p + size) % u64_mod ≡ p + size = mod-eq_of_lt {n = p + size} {m = u64_mod} small in
      let still : (if p == 0 then p else r.pending_pinned_offset) ≡ r.pending_pinned_offset =
        ground (arith, at_start) in
      rw (sum, still, ← at_size) refl

  -- The part of the tensor for one request becomes pending behind the others.
  pub respond_output-Grant :
      (request : Request) (n idx : ℕ) (ds : List ℤ) (size : ℕ) (mid : H) (out : ℕ × OutputData)
      (r : Responder H)
      → tensor.place.memory_type ≡ gpu
      → pinned_enabled ≡ true
      → is_live r.responses idx ≡ true
      → Grant request n idx ds r.heap mid out
      → r.pending_pinned_offset ≡ 0
      → size ≡ tensor_byte_size settings tensor datatype (pos n ∷ ds)
      → r.pending_pinned_byte_size + size < u64_mod
      → respond_output settings tensor name datatype idx request
          (pos n ∷ ds)
          size
          r.pending_pinned_byte_size
          r
        ≡ record r {
          heap = mid;
          pending_pinned_byte_size = r.pending_pinned_byte_size + size;
          pending_pinned_outputs = r.pending_pinned_outputs ++ out ∷ [];
        }
  respond_output-Grant request n idx ds size mid (i, o) r device pinned live grant at_start is_size
        small =
      let (count, output, h, rows, counted, finds, made, given, host, sized, here) = grant in
      let same : o.buffer_byte_size ≡ size = sized ∙ sym is_size in
      respond_output-Finds settings tensor name datatype idx request (pos n ∷ ds) size
        r.pending_pinned_byte_size count r live counted finds
      ∙ emit_output-granted settings tensor name datatype idx (pos n ∷ ds) size
          r.pending_pinned_byte_size r output o.block h mid device pinned made (rw same at given)
          host
      ∙ pend_output-start idx size o (record r { heap = mid }) same at_start small
      ∙ rw here refl
