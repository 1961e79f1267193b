-- ===== src/Collector/Process/Run.antt =====
-- Over requests that the server delivers, `ProcessTensor` runs its loop's body on each coalesced
-- input in order, and then makes the copies that are left.
use backend_radius_ai.Prelude.{
  ℕ, zero, suc, ◌+◌, ◌<◌, ◌≡◌, ◌≢◌, refl, ap, ◌∙◌, Bool, true, some, List, [], ◌∷◌, arith, length,
}
use backend_radius_ai.Triton.{MemoryType}
use backend_radius_ai.Machine.{Machine, Transfer}
use backend_radius_ai.Server.{Server, MemoryDesc}
use backend_radius_ai.Responses.{Responses}
use backend_radius_ai.Collector.Iterator.{ContiguousBuffer, Source, Iterator, start}
use backend_radius_ai.Collector.Iterator.Coalesce.{Indexed, from_request, single, absorb, coalesce}
use backend_radius_ai.Collector.Iterator.Served.{Serves, Pending}
use backend_radius_ai.Collector.Iterator.Run.{
  next-Pending, next-none, start-Pending, coalesce-absorb, length-absorb,
}
use backend_radius_ai.Collector.State.{Target, Settings, Collector}
use backend_radius_ai.Collector.Process.{
  process_input, flush_all, use_pinned_memory_type, process_loop, process_tensor,
}

module _ {H : Type 0} (settings : Settings H) (launches : Machine → List Transfer → Bool) where
  -- The loop's body on a row of inputs, from `offset` on.
  abbrev pub process_inputs :
      Target → MemoryType → ℕ → List ContiguousBuffer → Collector H → Collector H
  process_inputs target use_pinned offset [] c = c
  process_inputs target use_pinned offset (input ∷ inputs) c =
      process_inputs target use_pinned (offset + input.memory_desc.byte_size) inputs
        (process_input settings launches target use_pinned offset input c)

  module _ {server : Server} (src : Source server) (junk : MemoryDesc)
      (handle : ℕ → Server.Input server) (buffers : ℕ → List MemoryDesc)
      (s : Serves src handle buffers) where
    -- What is pending does not depend on the responses.
    with_responses :
        (rs rs' : Responses) (it : Iterator server) (l : Indexed)
        → Pending src handle buffers s rs it l
        → Pending src handle buffers s rs' (record it { responses = rs' }) l
    with_responses rs rs' it l (Pending.done end same) = Pending.done end refl
    with_responses rs rs' it l (Pending.more i n pre d ds h e at_it same) =
        Pending.more i n pre d ds h e
          (ap (λ (it : Iterator server). record it { responses = rs' }) at_it) same

    responses-Pending :
        (rs : Responses) (it : Iterator server) (l : Indexed)
        → Pending src handle buffers s rs it l
        → it.responses ≡ rs
    responses-Pending rs it l (Pending.done end same) = same
    responses-Pending rs it l (Pending.more i n pre d ds h e at_it same) =
        ap (λ (it : Iterator server). it.responses) at_it

    process_loop-Pending :
        (fuel : ℕ) (target : Target) (offset : ℕ) (input : ContiguousBuffer) (rs : Responses)
        (it : Iterator server) (l : Indexed) (c : Collector H)
        → src.coalesce_request_input ≡ true
        → length l < fuel
        → Pending src handle buffers s rs it l
        → process_loop settings launches src junk fuel target offset input it c
          ≡ some (
              process_inputs target
                (use_pinned_memory_type settings launches target)
                offset
                (coalesce l)
                c)
    unfolding process_loop
    process_loop-Pending zero target offset input rs it l c joins h p = elim h [ ]
    process_loop-Pending (suc fuel) target offset input rs it [] c joins h p = rw (
      next-none src handle buffers s joins c.responses junk input
          (record it { responses = c.responses }) (with_responses rs c.responses it [] p),
      process_loop,
    )
    process_loop-Pending (suc fuel) target offset input rs it ((i, d) ∷ l) c joins h p =
        let rs' = c.responses in
        let (it', e, rest) =
          next-Pending src handle buffers s joins rs' junk input (record it { responses = rs' }) i d
            l (with_responses rs rs' it ((i, d) ∷ l) p) in
        let a = absorb (single i d) l in
        let shorter : length a.1 < fuel = omega (arith, length-absorb (single i d) l) in
        rw (e, process_loop, responses-Pending rs' it' a.1 rest, coalesce-absorb (single i d) l)
          (process_loop-Pending fuel target (offset + a.0.memory_desc.byte_size) a.0 rs' it' a.1 _
            joins shorter rest)

    process_tensor_after :
        (fuel : ℕ) (first : Server.Input server) (count : ℕ) (input : ContiguousBuffer)
        (target : Target) (c c' : Collector H)
        → (let it = start src first count c.responses in
            process_loop settings launches src junk fuel target 0 input it
              (record c { responses = it.responses })
            ≡ some c')
        → process_tensor settings launches src junk fuel first count input target c
          ≡ some (flush_all settings launches target c')
    unfolding process_tensor
    process_tensor_after fuel first count input target c c' ran = rw (ran, process_tensor)

    -- Over at least one request whose inputs the server delivers, with coalescing and a buffer
    -- in the first request: `ProcessTensor` returns, after a round for each buffer and one more
    -- at most, and has run the body of its loop on the coalesced inputs in order, each at the
    -- offset behind the one before it, and then made the pending copies.
    pub process_tensor-coalesce :
        (first : Server.Input server) (count : ℕ) (input : ContiguousBuffer) (target : Target)
        (c : Collector H)
        → 0 < length src.requests
        → src.coalesce_request_input ≡ true
        → buffers 0 ≢ []
        → (let l = from_request buffers (length src.requests) 0 in
            process_tensor settings launches src junk (suc (length l)) first count input target c
            ≡ some (
                flush_all settings launches target (
                  process_inputs target
                    (use_pinned_memory_type settings launches target)
                    0
                    (coalesce l)
                    c)))
    process_tensor-coalesce first count input target c some_request joins nonempty =
        let l = from_request buffers (length src.requests) 0 in
        let p = start-Pending src handle buffers s some_request first count c.responses nonempty in
        let it = start src first count c.responses in
        process_tensor_after (suc (length l)) first count input target c _ (
          process_loop-Pending (suc (length l)) target 0 input c.responses it l
            (record c { responses = it.responses }) joins (omega arith) p)
        ∙ ap
            (λ (rs : Responses). some (
              flush_all settings launches target (
                process_inputs target (use_pinned_memory_type settings launches target) 0
                  (coalesce l) (record c { responses = rs }))))
            (responses-Pending c.responses it l p)
