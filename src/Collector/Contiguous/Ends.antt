-- ===== src/Collector/Contiguous/Ends.antt =====
-- The `ProcessTensor` that finds its own buffer comes to an end, whatever the server answers.
use backend_radius_ai.Prelude.{
  ℕ, suc, ◌+◌, ◌*◌, ◌≤◌, ◌<◌, ◌≡◌, ◌==◌, refl, some, length, Option, Option-cases, Bool-cases, inl,
  inr, List, [], ◌∷◌, not, ◌&&◌, Bool, if_both,
}
use backend_radius_ai.Triton.{Result, ok, err, internal}
use backend_radius_ai.Machine.{Machine, Transfer, null}
use backend_radius_ai.Copy.{Place}
use backend_radius_ai.Server.{Server, MemoryDesc}
use backend_radius_ai.Collector.Iterator.{ContiguousBuffer, Source}
use backend_radius_ai.Collector.Iterator.Ends.{Bounded}
use backend_radius_ai.Collector.State.{Target, Settings, Collector}
use backend_radius_ai.Collector.Process.Ends.{process_tensor-ends}
use backend_radius_ai.Collector.Contiguous.{
  Stale, is_allowed, allocate_allowed, get_input_buffer_if_contiguous, desc_of, process_into,
  process_separate, process_found, process_tensor_allowed,
}

abbrev Returns : {A : Type 0} → Option A → Type 0
Returns {A} o = (a : A) × (o ≡ some a)

module _ {H : Type 0} (settings : Settings H) (launches : Machine → List Transfer → Bool)
    {server : Server} (src : Source server) (junk : MemoryDesc) (stale : Stale server) (bound : ℕ)
    (bounded : Bounded server bound) (fuel : ℕ) (first : Server.Input server) (count : ℕ)
    (input : ContiguousBuffer) (small : count ≤ bound)
    (enough : length src.requests * suc bound + bound < fuel) where
  process_into-ends :
      (buffer : ℕ) (d : MemoryDesc) (c : Collector H)
      → Returns (process_into settings launches src junk stale fuel first count input buffer d c)
  unfolding process_into
  process_into-ends buffer d c =
      let target : Target = record {
        buffer = buffer;
        byte_size = d.byte_size;
        place = record { memory_type = d.memory_type; memory_type_id = d.memory_type_id };
      } in
      let (c', ran) =
        process_tensor-ends settings launches src junk bound bounded fuel first count input target c
          small enough in
      elim (Bool-cases (d.byte_size == 0)) [
        | inl nothing ↦ ((ok d, c), rw nothing refl)
        | inr bytes ↦ ((ok d, c'), rw (bytes, ran, process_into) refl)
      ]

  process_separate-ends :
      (allowed : List Place) (n : ℕ) (c : Collector H)
      → Returns
          (process_separate settings launches src junk stale fuel first count input allowed n c)
  unfolding process_separate
  process_separate-ends allowed n c =
      let (memory, c') = allocate_allowed settings allowed n c in
      elim (Option-cases memory) [
        | inl e ↦ ((err internal, c'), rw (e, process_separate) refl)
        | inr (b, e) ↦
            let (r, ran) = process_into-ends b.buffer (desc_of b) c' in
            (r, rw (e, process_separate) ran)
      ]

  process_found-ends :
      (place : Place) (allowed : List Place) (c : Collector H)
      → Returns
          (process_found settings launches src junk stale fuel first count input place allowed c)
  unfolding process_found
  process_found-ends place allowed c =
      let (rs, s) = get_input_buffer_if_contiguous src stale place c.responses in
      let c' = record c { responses = rs } in
      if_both Returns (s.contiguous && not (s.found.byte_size == 0) && is_allowed s.found allowed)
        ((ok s.found, c'), refl) (process_separate-ends allowed s.found.byte_size c')

  -- Let no input have more buffers than the bound, and the uninitialized count be no more. Then
  -- with a round for each buffer that there can be, and one more for each request, the
  -- `ProcessTensor` that finds its own buffer returns, whatever the server and the allocators
  -- answer.
  pub process_tensor_allowed-ends :
      (buffer n : ℕ) (allowed : List Place) (place : Place) (c : Collector H)
      → (r : Result MemoryDesc × Collector H) × (process_tensor_allowed settings launches src junk
            stale fuel first count input buffer n allowed place c
          ≡ some r)
  unfolding process_tensor_allowed
  process_tensor_allowed-ends buffer n [] place c = ((err internal, c), refl)
  process_tensor_allowed-ends buffer n (p ∷ ps) place c =
      if_both Returns (buffer == null) (process_found-ends place (p ∷ ps) c)
        (if_both Returns (length ps == 0) (process_into-ends buffer _ c) ((err internal, c), refl))
