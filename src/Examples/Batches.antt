-- ===== src/Examples/Batches.antt =====
-- Batches by volume, of requests with one input each.
use backend_radius_ai.Prelude.{
  ℕ, zero, suc, ◌+◌, ◌≡◌, refl, true, some, [], ◌∷◌, get_elem?, ltb, if◌then◌else◌, arith,
}
use backend_radius_ai.Triton.{ok}
use backend_radius_ai.Batching.Volume.{RequestApi, include_request, batch_initialize}
use backend_radius_ai.Batching.Volume.Bound.{
  HasSizes, include_request_wraps, form_batch, form_batch-volume, volume,
}

-- A request is the size of its input.
abbrev api : RequestApi
api = record {
  Request = ℕ;
  Input = ℕ;
  input_count = λ r. ok 1;
  input_by_index = λ r k. ok r;
  input_byte_size = λ i. ok i;
}

one_input : (size : ℕ) → HasSizes api size (size ∷ [])
one_input size = record { counts = refl; reads = read }
  where
    read :
        (k n : ℕ)
        → get_elem? (size ∷ []) k ≡ some n
        → (input : ℕ) × (ok size ≡ ok input) × (ok input ≡ ok n)
    read zero n e = (size, refl, cc)
    read (suc k) n e = cc

include_request_wraps_example : include_request api 4294967296 0 ≡ (ok tt, true, 0)
include_request_wraps_example =
    include_request_wraps api 4294967296 (4294967296 ∷ []) 0 1 (one_input 4294967296) (omega arith)

-- Requests of at most 900 bytes.
abbrev small_api : RequestApi
small_api = record api { input_byte_size = λ i. ok (if ltb i 900 then i else 900) }

abbrev small_size : ℕ → ℕ
small_size i = if ltb i 900 then i else 900

small_input : (i : ℕ) → HasSizes small_api i (small_size i ∷ [])
small_input i = record { counts = refl; reads = read }
  where
    read :
        (k n : ℕ)
        → get_elem? (small_size i ∷ []) k ≡ some n
        → (input : ℕ) × (ok i ≡ ok input) × (ok (small_size input) ≡ ok n)
    read zero n e = (i, refl, cc)
    read (suc k) n e = cc

form_batch-volume_example :
    (let r = form_batch small_api (300 ∷ 800 ∷ 700 ∷ []) (batch_initialize 1000) in
      volume small_api (λ i. small_size i ∷ []) r.0 + r.1 ≡ 1000)
form_batch-volume_example =
    form_batch-volume small_api (λ i. small_size i ∷ []) (300 ∷ 800 ∷ 700 ∷ []) 1000 small_input
      (λ i. ground arith)
