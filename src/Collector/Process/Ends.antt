-- ===== src/Collector/Process/Ends.antt =====
-- `ProcessTensor` comes to an end, whatever the server answers.
use backend_radius_ai.Prelude.{
  ℕ, zero, suc, ◌+◌, ◌*◌, ◌≤◌, ◌<◌, ◌≡◌, refl, some, arith, length, Option-cases, inl, inr, List,
  Bool,
}
use backend_radius_ai.Machine.{Machine, Transfer}
use backend_radius_ai.Server.{Server, MemoryDesc}
use backend_radius_ai.Collector.Iterator.{
  ContiguousBuffer, Source, Iterator, start, get_next_contiguous_input,
}
use backend_radius_ai.Collector.Iterator.Ends.{Bounded, Fits, left, next-left, start-Fits}
use backend_radius_ai.Collector.State.{Target, Settings, Collector}
use backend_radius_ai.Collector.Process.{
  process_input, flush_all, use_pinned_memory_type, process_loop, process_tensor,
}

module _ {H : Type 0} (settings : Settings H) (launches : Machine → List Transfer → Bool)
    {server : Server} (src : Source server) (junk : MemoryDesc) (bound : ℕ)
    (bounded : Bounded server bound) where
  process_loop-ends :
      (fuel : ℕ) (target : Target) (offset : ℕ) (input : ContiguousBuffer) (it : Iterator server)
      (c : Collector H)
      → Fits src bound it
      → left src bound it < fuel
      → (c' : Collector H) × (process_loop settings launches src junk fuel target offset input it c
          ≡ some c')
  unfolding process_loop
  process_loop-ends zero target offset input it c fits h = elim h [ ]
  process_loop-ends (suc fuel) target offset input it c fits h =
      elim (Option-cases
        (get_next_contiguous_input src junk input (record it { responses = c.responses }))) [
          | inl done ↦ (c, rw (done, process_loop) refl)
          | inr ((next, it'), more) ↦
              let (fits', fewer) =
                next-left src bound bounded junk input next (record it { responses = c.responses })
                  it' fits more in
              let (c', ran) =
                process_loop-ends fuel target (offset + next.memory_desc.byte_size) next it'
                  (process_input settings launches target
                    (use_pinned_memory_type settings launches target) offset next
                    (record c { responses = it'.responses }))
                  fits' (omega (arith, fewer)) in
              (c', rw (more, process_loop) ran)
        ]

  -- Let no input have more buffers than the bound, and the uninitialized count be no more. Then
  -- with a round for each buffer that there can be, and one more for each request, `ProcessTensor`
  -- returns, whatever errors the server answers.
  pub process_tensor-ends :
      (fuel : ℕ) (first : Server.Input server) (count : ℕ) (input : ContiguousBuffer)
      (target : Target) (c : Collector H)
      → count ≤ bound
      → length src.requests * suc bound + bound < fuel
      → (c' : Collector H) × (process_tensor settings launches src junk fuel first count input
            target c
          ≡ some c')
  unfolding process_tensor
  process_tensor-ends fuel first count input target c small enough =
      let it = start src first count c.responses in
      let (fits, room) = start-Fits src bound bounded first count c.responses small in
      let (c', ran) =
        process_loop-ends fuel target 0 input it (record c { responses = it.responses }) fits
          (omega (arith, room)) in
      (flush_all settings launches target c', rw (ran, process_tensor) refl)
