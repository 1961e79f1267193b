-- ===== src/Batching/Volume/Bound.antt =====
-- Which volume a batch can reach.
use backend_radius_ai.Prelude.{
  ℕ, ◌+◌, ◌-◌, ◌*◌, ◌%◌, ◌<◌, ◌≡◌, ap, ◌∙◌, true, false, some, List, [], ◌∷◌, ◌++◌, leb,
  if◌then◌else◌, length, length-append, get_elem?, leb→le, arith, append_assoc, Bool-cases, inl,
  inr,
}
use backend_radius_ai.Triton.{ok}
use backend_radius_ai.Collector.Iterator.Served.{get_elem?-append}
use backend_radius_ai.Batching.Volume.{
  RequestApi, u32_mod, input_volume, pending_volume_loop, include_request, batch_initialize,
}

abbrev pub sum : List ℕ → ℕ
sum [] = 0
sum (n ∷ ns) = n + sum ns

module _ (api : RequestApi) where
  -- The server has all inputs of the request, of these sizes.
  pub record HasSizes (request : RequestApi.Request api) (sizes : List ℕ) : Type 0 where
    pub counts : api.input_count request ≡ ok (length sizes)
    pub reads :
        (k n : ℕ)
        → get_elem? sizes k ≡ some n
        → (input : RequestApi.Input api) × (api.input_by_index request k ≡ ok input)
          × (api.input_byte_size input ≡ ok n)

  loop-sum :
      (request : RequestApi.Request api) (pre sizes : List ℕ) (v : ℕ)
      → HasSizes request (pre ++ sizes)
      → v < u32_mod
      → pending_volume_loop api request (length sizes) (length pre) v
        ≡ ok ((v + sum sizes) % u32_mod)
  unfolding pending_volume_loop input_volume
  loop-sum request pre [] v h small = ap ok (omega (arith, small))
  loop-sum request pre (n ∷ sizes) v h small =
      let (input, e, f) = HasSizes.reads h (length pre) n (get_elem?-append pre n sizes) in
      let next : length pre + 1 ≡ length (pre ++ n ∷ []) =
        omega (arith, length-append pre (n ∷ [])) in
      let v' = (v + n % u32_mod) % u32_mod in
      rw (e, f, next)
        (loop-sum request (pre ++ n ∷ []) sizes v' (rw (append_assoc pre (n ∷ []) sizes) h)
            (omega arith)
          ∙ ap ok (omega arith))

  -- Where the server has all inputs of a request, their sizes' sum modulo 2 ^ 32 decides: the
  -- request is included exactly if that much is left of the batch, and then so much less is
  -- left.
  include_request-sum :
      (request : RequestApi.Request api) (sizes : List ℕ) (remaining : ℕ)
      → HasSizes request sizes
      → include_request api request remaining ≡ (
          if leb (sum sizes % u32_mod) remaining
          then (ok tt, true, remaining - sum sizes % u32_mod)
          else (ok tt, false, remaining))
  unfolding include_request
  include_request-sum request sizes remaining h =
      let start : 0 + sum sizes ≡ sum sizes = omega arith in
      rw (include_request, HasSizes.counts h, loop-sum request [] sizes 0 h (omega arith), start)

  -- The requests that are included, of a row of them, and what is left.
  abbrev pub form_batch : List (RequestApi.Request api) → ℕ → List (RequestApi.Request api) × ℕ
  form_batch [] remaining = ([], remaining)
  form_batch (request ∷ requests) remaining =
      let (answer, included, remaining') = include_request api request remaining in
      let (batch, left) = form_batch requests remaining' in
      if included then (request ∷ batch, left) else (batch, left)

  abbrev pub volume : (RequestApi.Request api → List ℕ) → List (RequestApi.Request api) → ℕ
  volume sizes [] = 0
  volume sizes (request ∷ requests) = sum (sizes request) + volume sizes requests

  form_batch-left :
      (sizes : RequestApi.Request api → List ℕ) (requests : List (RequestApi.Request api))
      (remaining : ℕ)
      → ((request : RequestApi.Request api) → HasSizes request (sizes request))
      → ((request : RequestApi.Request api) → sum (sizes request) < u32_mod)
      → volume sizes (form_batch requests remaining).0 + (form_batch requests remaining).1
        ≡ remaining
  form_batch-left sizes [] remaining h small = omega arith
  form_batch-left sizes (request ∷ requests) remaining h small =
      let n = sum (sizes request) in
      let exact : n % u32_mod ≡ n = omega (arith, small request) in
      let answer = include_request-sum request (sizes request) remaining (h request) in
      elim (Bool-cases (leb (n % u32_mod) remaining)) [
        | inl fits ↦
            rw (answer, fits)
              (omega (
                arith,
                exact,
                leb→le _ _ fits,
                form_batch-left sizes requests (remaining - n % u32_mod) h small,
              ))
        | inr large ↦ rw (answer, large) (form_batch-left sizes requests remaining h small)
      ]

  -- Where the server has the inputs of every request, and each request is smaller than 2 ^ 32
  -- bytes in all, the requests of a batch and what is left of it make up the batcher's volume:
  -- no batch is larger.
  pub form_batch-volume :
      (sizes : RequestApi.Request api → List ℕ) (requests : List (RequestApi.Request api))
      (batcher : ℕ)
      → ((request : RequestApi.Request api) → HasSizes request (sizes request))
      → ((request : RequestApi.Request api) → sum (sizes request) < u32_mod)
      → (let r = form_batch requests (batch_initialize batcher) in volume sizes r.0 + r.1 ≡ batcher)
  unfolding batch_initialize
  form_batch-volume sizes requests batcher h small = form_batch-left sizes requests batcher h small

  -- A request whose inputs the server has, and whose size is a multiple of 2 ^ 32 bytes, is
  -- included in any batch and takes nothing from it.
  pub include_request_wraps :
      (request : RequestApi.Request api) (sizes : List ℕ) (remaining k : ℕ)
      → HasSizes request sizes
      → sum sizes ≡ u32_mod * k
      → include_request api request remaining ≡ (ok tt, true, remaining)
  include_request_wraps request sizes remaining k h whole =
      let none_counted : sum sizes % u32_mod ≡ 0 = omega (arith, whole) in
      let enough : leb 0 remaining ≡ true = ground arith in
      include_request-sum request sizes remaining h
      ∙ (rw (none_counted, enough) (ap (λ n. (ok tt, true, n)) (omega arith)))
