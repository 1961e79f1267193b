-- ===== src/Collector/Iterator/Once.antt =====
-- The iterator sends no response twice.
use backend_radius_ai.Prelude.{
  ℕ, zero, suc, ◌+◌, ◌-◌, ◌≡◌, refl, ◌∙◌, Bool, some, arith, length, get_elem?, Option-cases, inl,
  inr, if_both,
}
use backend_radius_ai.Server.{Server, MemoryDesc}
use backend_radius_ai.Responses.{Responses}
use backend_radius_ai.Responses.Once.{load, load-respond_if_error}
use backend_radius_ai.Collector.Iterator.{
  ContiguousBuffer, is_next, extend, read_buffer, Source, Iterator, read_count, open_request,
  open_current, start, scan_buffers, advance, scan_requests, step_single, get_next_contiguous_input,
}

module _ {server : Server} (src : Source server) (i : ℕ) where
  load-open_request :
      (it : Iterator server) (r : Server.Request server)
      → load (open_request src it r).responses i ≡ load it.responses i
  unfolding open_request read_count
  load-open_request it r =
      load-respond_if_error _ it.curr_request_idx _ i
      ∙ load-respond_if_error it.responses it.curr_request_idx _ i

  load-open_current :
      (it : Iterator server) → load (open_current src it).responses i ≡ load it.responses i
  unfolding open_current
  load-open_current it = elim (Option-cases (get_elem? src.requests it.curr_request_idx)) [
    | inl e ↦ rw (e, open_current)
    | inr (r, e) ↦ rw (e, open_current) (load-open_request it r)
  ]

  pub load-start :
      (input : Server.Input server) (count : ℕ) (rs : Responses)
      → load (start src input count rs).responses i ≡ load rs i
  unfolding start
  load-start input count rs = load-open_current _

  load-advance : (it : Iterator server) → load (advance src it).responses i ≡ load it.responses i
  unfolding advance
  load-advance it =
      ground (arith, load-open_current (record it { curr_request_idx = it.curr_request_idx + 1 }))

  load-scan_buffers :
      (n : ℕ) (junk : MemoryDesc) (c : ContiguousBuffer) (it : Iterator server)
      → load (scan_buffers src n junk c it).2.responses i ≡ load it.responses i
  unfolding scan_buffers
  load-scan_buffers zero junk c it = refl
  load-scan_buffers (suc n) junk c it =
      if_both
        (λ (r : Bool × ContiguousBuffer × Iterator server).
          load r.2.responses i ≡ load it.responses i)
        (is_next c.memory_desc (read_buffer src it junk))
        (load-scan_buffers n junk (extend c it.curr_request_idx (read_buffer src it junk))
          (record it { curr_buffer_idx = it.curr_buffer_idx + 1 }))
        refl

  load-scan_requests :
      (n : ℕ) (junk : MemoryDesc) (c : ContiguousBuffer) (it : Iterator server)
      → load (scan_requests src n junk c it).1.responses i ≡ load it.responses i
  unfolding scan_requests
  load-scan_requests zero junk c it =
      let scanned = load-scan_buffers (it.curr_buffer_cnt - it.curr_buffer_idx) junk c it in
      if_both
        (λ (r : ContiguousBuffer × Iterator server). load r.1.responses i ≡ load it.responses i) _
        scanned (load-advance _ ∙ scanned)
  load-scan_requests (suc n) junk c it =
      let scanned = load-scan_buffers (it.curr_buffer_cnt - it.curr_buffer_idx) junk c it in
      if_both
        (λ (r : ContiguousBuffer × Iterator server). load r.1.responses i ≡ load it.responses i) _
        scanned (load-scan_requests n junk _ _ ∙ load-advance _ ∙ scanned)

  load-step_single :
      (it : Iterator server) → load (step_single src it).responses i ≡ load it.responses i
  unfolding step_single
  load-step_single it = ground (arith, load-advance it)

  -- One call of the iterator.
  pub load-get_next :
      (junk : MemoryDesc) (input c : ContiguousBuffer) (it it' : Iterator server)
      → get_next_contiguous_input src junk input it ≡ some (c, it')
      → load it'.responses i ≡ load it.responses i
  unfolding get_next_contiguous_input
  load-get_next junk input c it it' e = ground (
    arith,
    e,
    load-step_single (record it { curr_buffer_idx = it.curr_buffer_idx + 1 }),
    load-scan_requests (length src.requests - 1 - it.curr_request_idx) junk
        (record {
          memory_desc = read_buffer src it input.memory_desc;
          start_request_idx = it.curr_request_idx;
          end_request_idx = it.curr_request_idx;
        })
        (record it { curr_buffer_idx = it.curr_buffer_idx + 1 }),
  )
