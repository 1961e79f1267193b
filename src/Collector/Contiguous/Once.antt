-- ===== src/Collector/Contiguous/Once.antt =====
-- The `ProcessTensor` that finds its own buffer sends no response twice.
use backend_radius_ai.Prelude.{
  ℕ, zero, suc, ◌+◌, ◌≡◌, ◌==◌, refl, ◌∙◌, some, none, length, Option, Option-cases, Bool-cases,
  inl, inr, List, [], ◌∷◌, not, ◌&&◌, Bool, if_both,
}
use backend_radius_ai.Triton.{Result, ok, err, internal}
use backend_radius_ai.BackendMemory.{create_any}
use backend_radius_ai.BackendMemory.Creation.{Result-cases}
use backend_radius_ai.Machine.{Machine, Transfer, null}
use backend_radius_ai.Copy.{Place}
use backend_radius_ai.Server.{Server, MemoryDesc}
use backend_radius_ai.Responses.{Responses, respond_if_error}
use backend_radius_ai.Responses.Once.{load, load-respond_if_error}
use backend_radius_ai.Collector.Iterator.{ContiguousBuffer, Source, result_or}
use backend_radius_ai.Collector.State.{Target, Settings, Collector}
use backend_radius_ai.Collector.Process.{alloc_types, process_tensor}
use backend_radius_ai.Collector.Process.Once.{process_tensor-SameLoad}
use backend_radius_ai.Collector.Tensor.Once.{SameLoad}
use backend_radius_ai.Collector.Contiguous.{
  Scan, Stale, scan_input, scan_request, scan_all, is_allowed, allocate_allowed,
  get_input_buffer_if_contiguous, desc_of, process_into, process_separate, process_found,
  process_tensor_allowed,
}

module _ {server : Server} (src : Source server) (stale : Stale server) (i : ℕ) where
  load-scan_input :
      (idx : ℕ) (input : Server.Input server) (n k : ℕ) (a : Responses × Scan)
      → load (scan_input src stale idx input n k a).0 i ≡ load a.0 i
  unfolding scan_input
  load-scan_input idx input zero k (rs, s) = refl
  load-scan_input idx input (suc n) k (rs, s) =
      load-scan_input idx input n (k + 1) _ ∙ load-respond_if_error rs idx _ i

  load-scan_request :
      (idx : ℕ) (request : Server.Request server) (a : Responses × Scan)
      → load (scan_request src stale idx request a).0 i ≡ load a.0 i
  unfolding scan_request
  load-scan_request idx request (rs, s) =
      let opened = server.request_input request src.input_name in
      let handle = result_or opened (stale.input idx) in
      let answer = server.input_properties handle src.host_policy in
      let count : ℕ = elim answer [ ok p ↦ p.buffer_count | err e ↦ stale.count idx ] in
      let opened_rs = respond_if_error rs idx opened in
      load-scan_input idx handle count 0 (respond_if_error opened_rs idx answer, s)
      ∙ load-respond_if_error opened_rs idx answer i
      ∙ load-respond_if_error rs idx opened i

  load-scan_all :
      (idx : ℕ) (requests : List (Server.Request server)) (a : Responses × Scan)
      → load (scan_all src stale idx requests a).0 i ≡ load a.0 i
  unfolding scan_all
  load-scan_all idx [] a = refl
  load-scan_all idx (request ∷ requests) a =
      load-scan_all (idx + 1) requests _ ∙ load-scan_request idx request a

  load-get_input_buffer :
      (place : Place) (rs : Responses)
      → load (get_input_buffer_if_contiguous src stale place rs).0 i ≡ load rs i
  unfolding get_input_buffer_if_contiguous
  load-get_input_buffer place rs = load-scan_all 0 src.requests _

module _ {H : Type 0} (settings : Settings H) (i : ℕ) where
  allocate_allowed-SameLoad :
      (allowed : List Place) (n : ℕ) (c : Collector H)
      → SameLoad i (allocate_allowed settings allowed n c).1 c
  unfolding allocate_allowed
  allocate_allowed-SameLoad [] n c = refl
  allocate_allowed-SameLoad (p ∷ ps) n c =
      elim (Result-cases
        (create_any settings.alloc c.heap (alloc_types p.memory_type) p.memory_type_id n).0) [
          | inl (b, e) ↦ rw (e, allocate_allowed) refl
          | inr (x, e) ↦ rw (e, allocate_allowed) (allocate_allowed-SameLoad ps n _)
        ]

-- Where there is an outcome, its collector has the loads of the one before.
Keeps : {H : Type 0} → ℕ → Collector H → Option (Result MemoryDesc × Collector H) → Type 0
Keeps {H} i c o = (r : Result MemoryDesc) (c' : Collector H) → o ≡ some (r, c') → SameLoad i c' c

module _ {H : Type 0} (settings : Settings H) (launches : Machine → List Transfer → Bool)
    {server : Server} (src : Source server) (junk : MemoryDesc) (stale : Stale server) (fuel : ℕ)
    (first : Server.Input server) (count : ℕ) (input : ContiguousBuffer) (i : ℕ) where
  some-Keeps :
      (r : Result MemoryDesc) (c' c : Collector H) → SameLoad i c' c → Keeps i c (some (r, c'))
  unfolding Keeps
  some-Keeps r c' c same r₁ c₁ e = let here : c' ≡ c₁ = cc in rw (← here) same

  Keeps-trans :
      (c c₁ : Collector H) (o : Option (Result MemoryDesc × Collector H))
      → SameLoad i c₁ c
      → Keeps i c₁ o
      → Keeps i c o
  unfolding Keeps
  Keeps-trans c c₁ o same keeps r c' e = keeps r c' e ∙ same

  none-Keeps : (c : Collector H) → Keeps i c none
  unfolding Keeps
  none-Keeps c r c' e = cc

  process_into-Keeps :
      (buffer : ℕ) (d : MemoryDesc) (c : Collector H)
      → Keeps i c (process_into settings launches src junk stale fuel first count input buffer d c)
  unfolding process_into
  process_into-Keeps buffer d c =
      let target : Target = record {
        buffer = buffer;
        byte_size = d.byte_size;
        place = record { memory_type = d.memory_type; memory_type_id = d.memory_type_id };
      } in
      elim (Bool-cases (d.byte_size == 0)) [
        | inl nothing ↦ rw nothing (some-Keeps (ok d) c c refl)
        | inr bytes ↦
            elim (Option-cases
              (process_tensor settings launches src junk fuel first count input target c)) [
                | inl out ↦ rw (bytes, out, process_into) (none-Keeps c)
                | inr (c', ran) ↦
                    rw (bytes, ran, process_into)
                      (some-Keeps (ok d) c' c (
                        process_tensor-SameLoad settings launches i src junk fuel first count input
                          target c c' ran))
              ]
      ]

  process_separate-Keeps :
      (allowed : List Place) (n : ℕ) (c : Collector H)
      → Keeps i c
          (process_separate settings launches src junk stale fuel first count input allowed n c)
  unfolding process_separate
  process_separate-Keeps allowed n c =
      let same = allocate_allowed-SameLoad settings i allowed n c in
      elim (Option-cases (allocate_allowed settings allowed n c).0) [
        | inl e ↦ rw (e, process_separate) (some-Keeps (err internal) _ c same)
        | inr (b, e) ↦
            rw (e, process_separate)
              (Keeps-trans c _ _ same (process_into-Keeps b.buffer (desc_of b) _))
      ]

  process_found-Keeps :
      (place : Place) (allowed : List Place) (c : Collector H)
      → Keeps i c
          (process_found settings launches src junk stale fuel first count input place allowed c)
  unfolding process_found
  process_found-Keeps place allowed c =
      let (rs, s) = get_input_buffer_if_contiguous src stale place c.responses in
      let c' = record c { responses = rs } in
      let same = load-get_input_buffer src stale i place c.responses in
      if_both (Keeps i c)
        (s.contiguous && not (s.found.byte_size == 0) && is_allowed s.found allowed)
        (some-Keeps (ok s.found) c' c same)
        (Keeps-trans c c' _ same (process_separate-Keeps allowed s.found.byte_size c'))

  -- Where the `ProcessTensor` that finds its own buffer returns, then for each index the number of
  -- its live pointers and of the errors sent to it is in sum what it was before.
  pub process_tensor_allowed-SameLoad :
      (buffer n : ℕ) (allowed : List Place) (place : Place) (c c' : Collector H)
      (r : Result MemoryDesc)
      → process_tensor_allowed settings launches src junk stale fuel first count input buffer n
          allowed place c
        ≡ some (r, c')
      → SameLoad i c' c
  unfolding process_tensor_allowed Keeps
  process_tensor_allowed-SameLoad buffer n [] place c c' r e =
      some-Keeps (err internal) c c refl r c' e
  process_tensor_allowed-SameLoad buffer n (p ∷ ps) place c c' r e =
      if_both (Keeps i c) (buffer == null) (process_found-Keeps place (p ∷ ps) c)
        (if_both (Keeps i c) (length ps == 0) (process_into-Keeps buffer _ c)
          (some-Keeps (err internal) c c refl))
        r c' e
