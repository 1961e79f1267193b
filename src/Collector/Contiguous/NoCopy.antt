-- ===== src/Collector/Contiguous/NoCopy.antt =====
-- Where the `ProcessTensor` that finds its own buffer copies nothing.
use backend_radius_ai.Prelude.{
  ℕ, ◌≡◌, ◌≢◌, refl, ◌∙◌, Bool, true, not, some, List, [], ◌∷◌, ◌==◌, length, arith,
}
use backend_radius_ai.Triton.{ok}
use backend_radius_ai.Machine.{null, Machine, Transfer}
use backend_radius_ai.Collector.State.{Settings, Collector}
use backend_radius_ai.Copy.{Place}
use backend_radius_ai.Server.{Server, MemoryDesc}
use backend_radius_ai.Collector.Iterator.{ContiguousBuffer, Source}
use backend_radius_ai.Collector.Iterator.Coalesce.{Indexed, from_request, coalesce}
use backend_radius_ai.Collector.Iterator.Served.{Serves}
use backend_radius_ai.Collector.Process.Payload.{payload_size}
use backend_radius_ai.Collector.Contiguous.{
  Stale, get_input_buffer_if_contiguous, is_allowed, process_found, process_tensor_allowed,
}
use backend_radius_ai.Collector.Contiguous.Verdict.{is_single, contiguous-coalesce}

is_allowed_size :
    (d : MemoryDesc) (n : ℕ) (allowed : List Place)
    → is_allowed (record d { byte_size = n }) allowed ≡ is_allowed d allowed
unfolding is_allowed
is_allowed_size d n [] = refl
is_allowed_size d n (p ∷ ps) = rw (is_allowed_size d n ps)

module _ {H : Type 0} (settings : Settings H) (launches : Machine → List Transfer → Bool)
    {server : Server} (src : Source server) (junk : MemoryDesc) (stale : Stale server)
    (handle : ℕ → Server.Input server) (buffers : ℕ → List MemoryDesc)
    (s : Serves src handle buffers) (fuel : ℕ) (first : Server.Input server) (count : ℕ)
    (input : ContiguousBuffer) where
  found_no_copy :
      (place : Place) (allowed : List Place) (c : Collector H) (d : MemoryDesc)
      → (get_input_buffer_if_contiguous src stale place c.responses).0 ≡ c.responses
      → (get_input_buffer_if_contiguous src stale place c.responses).1.contiguous ≡ true
      → (get_input_buffer_if_contiguous src stale place c.responses).1.found ≡ d
      → d.byte_size ≢ 0
      → is_allowed d allowed ≡ true
      → process_found settings launches src junk stale fuel first count input place allowed c
        ≡ some (ok d, c)
  unfolding process_found
  found_no_copy place allowed c d same whole found some_bytes ok_type =
      let bytes : not (d.byte_size == 0) ≡ true = ground (arith, some_bytes) in
      rw (same, whole, found, bytes, ok_type, process_found)

  -- Over requests whose inputs the server delivers, with coalescing: where the first buffer is
  -- at a valid pointer, all buffers coalesce into one, of some bytes and in a memory that the
  -- caller allows, `ProcessTensor` without a buffer of the caller's returns that memory itself:
  -- nothing is allocated or copied, and the collector is as it was.
  pub process_tensor_allowed-no_copy :
      (size : ℕ) (allowed : List Place) (place : Place) (c : Collector H) (i : ℕ) (d : MemoryDesc)
      (l : Indexed)
      → src.coalesce_request_input ≡ true
      → from_request buffers (length src.requests) 0 ≡ (i, d) ∷ l
      → d.buffer ≢ null
      → is_single (coalesce ((i, d) ∷ l)) ≡ true
      → payload_size ((i, d) ∷ l) ≢ 0
      → is_allowed d allowed ≡ true
      → process_tensor_allowed settings launches src junk stale fuel first count input null size
          allowed place c
        ≡ some (ok (record d { byte_size = payload_size ((i, d) ∷ l) }), c)
  unfolding process_tensor_allowed
  process_tensor_allowed-no_copy size [] place c i d l joins all valid one some_bytes ok_type =
      absurd cc
  process_tensor_allowed-no_copy size (p ∷ ps) place c i d l joins all valid one some_bytes
        ok_type =
      let (same, whole, found) =
        contiguous-coalesce src stale handle buffers s place c.responses i d l joins all valid in
      found_no_copy place (p ∷ ps) c (record d { byte_size = payload_size ((i, d) ∷ l) }) same
        (whole ∙ one) found (λ e. some_bytes e)
        (is_allowed_size d (payload_size ((i, d) ∷ l)) (p ∷ ps) ∙ ok_type)
