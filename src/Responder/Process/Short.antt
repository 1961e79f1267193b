-- ===== src/Responder/Process/Short.antt =====
-- A response whose rows are not in the model's output gets an error.
use Prim.Native.String.{String}
use native.Mathlib.Nat.{zero-add}
use backend_radius_ai.Prelude.{
  ℕ, zero, suc, ◌+◌, ◌<◌, ◌≡◌, refl, true, List, [], ◌∷◌, get_or, arith, not, ◌&&◌, length,
}
use backend_radius_ai.Prelude.Int.{
  ℤ, pos, negsuc, ◌+ℤ◌, ◌==ℤ◌, ltb_ℤ, wrap64, i64_half, to_u64, of_u64,
}
use backend_radius_ai.Triton.{DataType, unsupported}
use backend_radius_ai.Responses.Reached.{load-Reached, Reached-dead}
use backend_radius_ai.Responses.Once.{load, live_count, sent_count, respond-dead}
use backend_radius_ai.Responder.State.{Settings, Responder, Tensor}
use backend_radius_ai.Responder.Process.{
  Split, flush_before, split_shape, tensor_loop, process_output_tensor,
}
use backend_radius_ai.Responder.Once.{flush_pending_pinned-Leads}
use backend_radius_ai.Responder.Process.Once.{
  respond_output-Leads, tensor_loop-Leads, process_output_tensor-Leads,
}

-- The sum of the first `k` + 1 numbers.
abbrev pub rows_through : ℕ → List ℕ → ℕ
rows_through k [] = 0
rows_through zero (n ∷ ns) = n
rows_through (suc k) (n ∷ ns) = n + rows_through k ns

abbrev pub total_rows : List ℕ → ℕ
total_rows [] = 0
total_rows (n ∷ ns) = n + total_rows ns

pub wrap64-pos-add : (m n : ℕ) → m + n < i64_half → wrap64 (pos m +ℤ pos n) ≡ pos (m + n)
unfolding wrap64 ◌+ℤ◌ to_u64 of_u64
wrap64-pos-add m n h = ground arith

too_few : (b k : ℕ) → b < k → (not (pos b ==ℤ negsuc 0) && ltb_ℤ (pos b) (pos k)) ≡ true
too_few b k h = ground arith

module _ {H : Type 0} (settings : Settings H) (tensor : Tensor) where
  open settings use {api}
  open api use {Request, first_input_shape}

  -- The first dimensions of the requests' first inputs.
  abbrev pub Rows : List Request → List ℕ → Type 0
  Rows [] [] = Unit {0}
  Rows (request ∷ requests) (n ∷ ns) =
      (get_or (first_input_shape request) 0 (pos 0) ≡ pos n) × Rows requests ns
  Rows _ _ = ⊥

  module _ (batching : settings.first_dim_batching ≡ true) (b : ℕ) where
    split_shape-offset :
        (batch : ℤ) (idx m n : ℕ) (request : Request) (s : Split) (r : Responder H)
        → s.batch_size_offset ≡ pos m
        → get_or (first_input_shape request) 0 (pos 0) ≡ pos n
        → m + n < i64_half
        → (split_shape settings tensor batch idx request s r).0.batch_size_offset ≡ pos (m + n)
    unfolding split_shape
    split_shape-offset batch idx m n request s r at_m rows small =
        rw (batching, at_m, rows) (wrap64-pos-add m n small)

    split_shape-short :
        (idx m n : ℕ) (request : Request) (s : Split) (r : Responder H)
        → s.batch_size_offset ≡ pos m
        → get_or (first_input_shape request) 0 (pos 0) ≡ pos n
        → m + n < i64_half
        → b < m + n
        → live_count idx (split_shape settings tensor (pos b) idx request s r).1.responses.live ≡ 0
    unfolding split_shape
    split_shape-short idx m n request s r at_m rows small short =
        rw (batching, at_m, rows, wrap64-pos-add m n small, too_few b (m + n) short)
          (respond-dead r.responses idx unsupported)

    loop-short :
        (name : String) (datatype : DataType) (requests : List Request) (ns : List ℕ)
        (idx offset m k : ℕ) (s : Split) (r : Responder H)
        → s.batch_size_offset ≡ pos m
        → Rows requests ns
        → m + total_rows ns < i64_half
        → k < length ns
        → b < m + rows_through k ns
        → live_count
            (idx + k)
            (tensor_loop settings tensor name datatype
              (pos b)
              requests
              idx
              offset
              s
              r).1.responses.live
          ≡ 0
    unfolding tensor_loop
    loop-short name datatype [] [] idx offset m k s r at_m rows small inside short = omega arith
    loop-short name datatype [] (n ∷ ns) idx offset m k s r at_m rows small inside short =
        elim rows [ ]
    loop-short name datatype (request ∷ requests) [] idx offset m k s r at_m rows small inside
          short =
        elim rows [ ]
    loop-short name datatype (request ∷ requests) (n ∷ ns) idx offset m zero s r at_m rows small
          inside short =
        let flushed = flush_before settings tensor offset r in
        let split = split_shape settings tensor (pos b) idx request s flushed in
        let here : idx + 0 ≡ idx = omega arith in
        rw here (
          Reached-dead idx
            (tensor_loop-Leads settings tensor name datatype (pos b) requests (idx + 1) _ split.0 _)
            (Reached-dead idx
              (respond_output-Leads settings tensor name datatype idx request split.0.shape _ offset
                split.1)
              (split_shape-short idx m n request s flushed at_m rows.0 (omega arith) short)))
    loop-short name datatype (request ∷ requests) (n ∷ ns) idx offset m (suc k) s r at_m rows small
          inside short =
        let flushed = flush_before settings tensor offset r in
        let next : idx + suc k ≡ idx + 1 + k = omega arith in
        rw next (
          loop-short name datatype requests ns (idx + 1) _ (m + n) k
            (split_shape settings tensor (pos b) idx request s flushed).0 _
            (split_shape-offset (pos b) idx m n request s flushed at_m rows.0 (omega arith)) rows.1
            (omega arith) (omega arith) (omega arith))

    -- With first-dimension batching, let the model's output have `b` rows, and the requests the
    -- numbers of rows `ns`, whose sum fits an `int64_t`. Where the rows of the requests up to the
    -- one with index `k` are more than `b`, `ProcessTensor` leaves the response of that request
    -- null, and where it was live it has been sent exactly one more error.
    pub process_output_tensor-short :
        (name : String) (datatype : DataType) (requests : List Request) (ns : List ℕ) (k : ℕ)
        (shape : List ℤ) (r r' : Responder H)
        → get_or shape 0 (pos 0) ≡ pos b
        → Rows requests ns
        → total_rows ns < i64_half
        → k < length ns
        → b < rows_through k ns
        → (process_output_tensor settings tensor requests name datatype shape r).1 ≡ r'
        → (live_count k r'.responses.live ≡ 0)
          × (sent_count k r'.responses.sent
              ≡ live_count k r.responses.live + sent_count k r.responses.sent)
    unfolding process_output_tensor
    process_output_tensor-short name datatype requests ns k shape r r' model rows small inside short
          run =
        let s : Split = record { shape = shape; batch_size_offset = pos 0 } in
        let ran = tensor_loop settings tensor name datatype (pos b) requests 0 0 s r in
        let looped =
          loop-short name datatype requests ns 0 0 0 k s r refl rows (omega arith) inside
            (omega arith) in
        let dead : live_count k r'.responses.live ≡ 0 =
          rw (← run, model)
            (Reached-dead k (flush_pending_pinned-Leads settings tensor ran.1)
              (rw zero-add at looped)) in
        let same : load r'.responses k ≡ load r.responses k = rw (← run) (
          load-Reached k
            (process_output_tensor-Leads settings tensor requests name datatype shape r)) in
        (dead, omega (arith, dead, same))
