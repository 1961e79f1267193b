-- ===== src/Minimal/Execution.antt =====
-- An execution of the minimal backend answers and releases each request once.
use backend_radius_ai.Prelude.{
  ℕ, suc, ◌+◌, ◌*◌, ◌≤◌, ◌<◌, ◌≡◌, refl, ◌∙◌, true, some, List, [], length, ltb, if◌then◌else◌,
  arith, inl, inr,
}
use backend_radius_ai.Prelude.Int.{ℤ}
use backend_radius_ai.Triton.{Result, ok, err, ◌>>=◌}
use backend_radius_ai.BackendMemory.Creation.{Result-cases}
use backend_radius_ai.Machine.{Machine, null}
use backend_radius_ai.Server.{Server}
use backend_radius_ai.Responses.{respond_all_if_error}
use backend_radius_ai.Responses.Once.{load, sent_count}
use backend_radius_ai.Responses.Requests.{indices}
use backend_radius_ai.Collector.Iterator.{result_or}
use backend_radius_ai.Collector.Process.{finalize}
use backend_radius_ai.Collector.Iterator.Ends.{Bounded}
use backend_radius_ai.Collector.Process.Once.{finalize-SameLoad}
use backend_radius_ai.Collector.Contiguous.Once.{process_tensor_allowed-SameLoad}
use backend_radius_ai.Collector.Contiguous.Ends.{process_tensor_allowed-ends}
use backend_radius_ai.Minimal.{
  Calls, Uninitialized, Executed, live_responses, new_responses, allowed_input_types, new_collector,
  collector_settings, source, respond_input, send_and_release, collect_and_respond, nothing_done,
  execute_model, execute,
}
use backend_radius_ai.Minimal.Once.{
  count, live_count-map, load-respond_all, respond_input-load, send_and_release-released,
  send_and_release-completed,
}

-- What is owed to the requests where `TRITONBACKEND_ModelInstanceExecute` succeeds, and where it
-- returns an error.
abbrev pub Owed : {A H : Type 0} → List A → Result (Unit {0}) → Executed H → Type 0
Owed requests (ok _) x =
    (x.released ≡ indices (λ _. true) 0 requests)
    × ((i : ℕ)
        → count i x.completed + sent_count i x.responses.sent
          ≡ (if ltb i (length requests) then 1 else 0))
Owed requests (err e) x = (x.released ≡ []) × (x.completed ≡ []) × (x.responses.sent ≡ [])

module _ {server : Server} {H : Type 0} (calls : Calls server H) (u : Uninitialized server)
    (bound : ℕ) (bounded : Bounded server bound) (small : u.count ≤ bound) (fuel : ℕ)
    (requests : List (Server.Request server))
    (enough : length requests * suc bound + bound < fuel) where
  collect_and_respond-once :
      (max_batch_size : ℤ) (m : Machine) (h : H)
      → (x : Executed H) × (collect_and_respond calls u fuel max_batch_size requests m h ≡ some x)
        × (x.released ≡ indices (λ _. true) 0 requests)
        × ((i : ℕ)
            → count i x.completed + sent_count i x.responses.sent
              ≡ (if ltb i (length requests) then 1 else 0))
  unfolding collect_and_respond
  collect_and_respond-once max_batch_size m h =
      let c₀ = new_collector (live_responses requests) m h in
      let ((answer, c), ran) =
        process_tensor_allowed-ends (collector_settings calls) calls.launches
          (source calls requests) u.desc u.stale bound bounded fuel u.first u.count u.input small
          enough null 0 allowed_input_types u.place c₀ in
      let answered = record c {
        responses = respond_all_if_error c.responses (length requests) answer;
      } in
      let collected = finalize (collector_settings calls) calls.launches answered in
      let d = result_or answer u.input_buffer in
      let r = respond_input calls max_batch_size requests d collected in
      let same : (i : ℕ) → load r.responses i ≡ (if ltb i (length requests) then 1 else 0) = λ i.
        respond_input-load calls max_batch_size requests d collected i
        ∙ finalize-SameLoad (collector_settings calls) calls.launches i answered
        ∙ load-respond_all c.responses (length requests) answer i
        ∙ process_tensor_allowed-SameLoad (collector_settings calls) calls.launches
            (source calls requests) u.desc u.stale fuel u.first u.count u.input i null 0
            allowed_input_types u.place c₀ c answer ran
        ∙ omega (arith, live_count-map i requests) in
      (
        send_and_release calls requests r,
        rw (ran, collect_and_respond) refl,
        send_and_release-released calls requests r,
        λ i. omega (arith, send_and_release-completed calls requests r i, same i),
      )

  execute_model-Owed :
      (state : Result ℤ) (m : Machine) (h : H)
      → (r : Result (Unit {0})) × (x : Executed H) × (execute_model calls u fuel state requests m h
          ≡ some (r, x))
        × (r ≡ state >>= λ _. (new_responses calls requests h).0)
        × Owed requests r x
  unfolding execute_model
  execute_model-Owed (err e) m h = (err e, _, refl, refl, (refl, refl, refl))
  execute_model-Owed (ok max_batch_size) m h =
      elim (Result-cases (new_responses calls requests h).0) [
        | inr (e, failed) ↦ (
          err e,
          nothing_done calls u fuel m (new_responses calls requests h).1,
          rw (failed, execute_model) refl,
          rw failed refl,
          (refl, refl, refl),
        )
        | inl (_, made) ↦
            let (x, ran, released, once) =
              collect_and_respond-once max_batch_size m (new_responses calls requests h).1 in
            (
              ok tt,
              x,
              rw (made, execute_model) (rw (ran, execute_model) refl),
              rw made refl,
              (released, once),
            )
      ]

  -- Let no input have more buffers than the bound, and the fuel be a round for each buffer that
  -- there can be and one more for each request. Then `TRITONBACKEND_ModelInstanceExecute` of the
  -- minimal backend returns, whatever the server, the allocators and the copies answer. It returns
  -- an error exactly if the instance's state or one of the responses could not be had, and then
  -- has sent and released nothing. Otherwise it has sent exactly one response for each request,
  -- with an error or without, no response for another index, and has released each request once.
  pub execute-Owed :
      (m : Machine) (h : H)
      → (r : Result (Unit {0})) × (x : Executed H) × (execute calls u fuel requests m h
          ≡ some (r, x))
        × (r ≡ calls.instance_state >>= λ _. (new_responses calls requests h).0)
        × Owed requests r x
  unfolding execute
  execute-Owed m h = execute_model-Owed calls.instance_state m h
