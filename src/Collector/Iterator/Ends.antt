-- ===== src/Collector/Iterator/Ends.antt =====
-- The iterator comes to an end, whatever the server answers.
use Prim.Native.String.{String}
use backend_radius_ai.Prelude.{
  ℕ, zero, suc, ◌+◌, ◌-◌, ◌*◌, ◌≤◌, ◌<◌, ◌≡◌, refl, Bool, false, some, arith, length, get_elem?,
  Option-cases, Bool-cases, inl, inr, if_both, ltb, leb, Option,
}
use backend_radius_ai.Triton.{ok}
use backend_radius_ai.BackendMemory.Creation.{Result-cases}
use backend_radius_ai.Server.{Server, MemoryDesc, Properties}
use backend_radius_ai.Responses.{Responses}
use backend_radius_ai.Collector.Iterator.{
  ContiguousBuffer, is_next, extend, read_buffer, Source, Iterator, read_count, open_request,
  open_current, start, scan_buffers, advance, scan_requests, step_single, get_next_contiguous_input,
}

-- No input has more buffers than the bound.
abbrev pub Bounded : Server → ℕ → Type 0
Bounded server bound =
    (input : Server.Input server) (policy : Option String) (p : Properties)
    → server.input_properties input policy ≡ ok p
    → p.buffer_count ≤ bound

module _ {server : Server} (src : Source server) (bound : ℕ) where
  -- The buffers that are left at most.
  abbrev pub left : Iterator server → ℕ
  left it =
      (length src.requests - it.curr_request_idx) * suc bound
      + (it.curr_buffer_cnt - it.curr_buffer_idx)

  abbrev pub Fits : Iterator server → Type 0
  Fits it = it.curr_buffer_cnt ≤ bound

module _ {server : Server} (src : Source server) (bound : ℕ) (bounded : Bounded server bound) where
  open_request-Fits :
      (it : Iterator server) (r : Server.Request server)
      → Fits src bound it
      → Fits src bound (open_request src it r)
        × ((open_request src it r).curr_request_idx ≡ it.curr_request_idx)
  unfolding open_request read_count
  open_request-Fits it r fits =
      let input = (open_request src it r).curr_input in
      elim (Result-cases (server.input_properties input src.host_policy)) [
        | inl (p, e) ↦ rw (e, open_request) (bounded input src.host_policy p e, refl)
        | inr (x, e) ↦ rw (e, open_request) (fits, refl)
      ]

  open_current-Fits :
      (it : Iterator server)
      → Fits src bound it
      → Fits src bound (open_current src it)
        × ((open_current src it).curr_request_idx ≡ it.curr_request_idx)
  unfolding open_current
  open_current-Fits it fits = elim (Option-cases (get_elem? src.requests it.curr_request_idx)) [
    | inl e ↦ rw (e, open_current) (fits, refl)
    | inr (r, e) ↦ rw (e, open_current) (open_request-Fits it r fits)
  ]

  rounds_suc : (a : ℕ) → suc a * suc bound ≡ suc bound + a * suc bound
  rounds_suc a = grind arith

  advance-left :
      (it : Iterator server)
      → Fits src bound it
      → Fits src bound (advance src it) × (left src bound (advance src it) ≤ left src bound it)
  unfolding advance
  advance-left it fits =
      let n = length src.requests in
      let r = it.curr_request_idx in
      let (opens, same) = open_current-Fits (record it { curr_request_idx = r + 1 }) fits in
      elim (Bool-cases (ltb (r + 1) n)) [
        | inl more ↦
            let one : n - r ≡ suc (n - (r + 1)) = ground (arith, more) in
            let step : (n - r) * suc bound ≡ suc bound + (n - (r + 1)) * suc bound =
              rw one (rounds_suc (n - (r + 1))) in
            rw (more, same) (opens, omega (arith, step, opens))
        | inr last ↦
            let none_left : n - (r + 1) ≡ 0 = ground (arith, last) in
            rw (last, none_left) (fits, omega arith)
      ]

  scan_buffers-left :
      (n : ℕ) (junk : MemoryDesc) (c : ContiguousBuffer) (it : Iterator server)
      → Fits src bound it
      → Fits src bound (scan_buffers src n junk c it).2
        × (left src bound (scan_buffers src n junk c it).2 ≤ left src bound it)
  unfolding scan_buffers
  scan_buffers-left zero junk c it fits = (fits, omega arith)
  scan_buffers-left (suc n) junk c it fits =
      let next = read_buffer src it junk in
      let rest =
        scan_buffers-left n junk (extend c it.curr_request_idx next)
          (record it { curr_buffer_idx = it.curr_buffer_idx + 1 }) fits in
      if_both
        (λ (r : Bool × ContiguousBuffer × Iterator server).
          Fits src bound r.2 × (left src bound r.2 ≤ left src bound it))
        (is_next c.memory_desc next) (rest.0, omega (arith, rest.1)) (fits, omega arith)

  scan_requests-left :
      (n : ℕ) (junk : MemoryDesc) (c : ContiguousBuffer) (it : Iterator server)
      → Fits src bound it
      → Fits src bound (scan_requests src n junk c it).1
        × (left src bound (scan_requests src n junk c it).1 ≤ left src bound it)
  unfolding scan_requests
  scan_requests-left zero junk c it fits =
      let scanned = scan_buffers-left (it.curr_buffer_cnt - it.curr_buffer_idx) junk c it fits in
      let advanced = advance-left _ scanned.0 in
      if_both
        (λ (r : ContiguousBuffer × Iterator server).
          Fits src bound r.1 × (left src bound r.1 ≤ left src bound it))
        _ scanned (advanced.0, omega (arith, scanned.1, advanced.1))
  scan_requests-left (suc n) junk c it fits =
      let scanned = scan_buffers-left (it.curr_buffer_cnt - it.curr_buffer_idx) junk c it fits in
      let advanced = advance-left _ scanned.0 in
      let rest = scan_requests-left n junk _ _ advanced.0 in
      if_both
        (λ (r : ContiguousBuffer × Iterator server).
          Fits src bound r.1 × (left src bound r.1 ≤ left src bound it))
        _ scanned (rest.0, omega (arith, scanned.1, advanced.1, rest.1))

  step_single-left :
      (it : Iterator server)
      → Fits src bound it
      → Fits src bound (step_single src it)
        × (left src bound (step_single src it) ≤ left src bound it)
  unfolding step_single
  step_single-left it fits =
      let advanced = advance-left it fits in
      let kept : Fits src bound it × (left src bound it ≤ left src bound it) =
        (fits, omega arith) in
      if_both (λ (r : Iterator server). Fits src bound r × (left src bound r ≤ left src bound it))
        (leb it.curr_buffer_cnt it.curr_buffer_idx)
        (if_both
          (λ (r : Iterator server). Fits src bound r × (left src bound r ≤ left src bound it))
          (ltb (advance src it).curr_request_idx (length src.requests)) advanced advanced)
        kept

  -- One call of the iterator that returns an input leaves fewer buffers.
  pub next-left :
      (junk : MemoryDesc) (input c : ContiguousBuffer) (it it' : Iterator server)
      → Fits src bound it
      → get_next_contiguous_input src junk input it ≡ some (c, it')
      → Fits src bound it' × (left src bound it' < left src bound it)
  unfolding get_next_contiguous_input
  next-left junk input c it it' fits e = ground (
    arith,
    e,
    step_single-left (record it { curr_buffer_idx = it.curr_buffer_idx + 1 }) fits,
    scan_requests-left (length src.requests - 1 - it.curr_request_idx) junk
        (record {
          memory_desc = read_buffer src it input.memory_desc;
          start_request_idx = it.curr_request_idx;
          end_request_idx = it.curr_request_idx;
        })
        (record it { curr_buffer_idx = it.curr_buffer_idx + 1 }) fits,
  )

  pub start-Fits :
      (input : Server.Input server) (count : ℕ) (rs : Responses)
      → count ≤ bound
      → Fits src bound (start src input count rs)
        × (left src bound (start src input count rs) ≤ length src.requests * suc bound + bound)
  unfolding start
  start-Fits input count rs fits =
      let (opens, same) =
        open_current-Fits
          (record {
            curr_input = input;
            curr_request_idx = 0;
            curr_buffer_idx = 0;
            curr_buffer_cnt = count;
            reach_end = false;
            responses = rs;
          })
          fits in
      let whole : length src.requests - 0 ≡ length src.requests = omega arith in
      (opens, rw (same, whole) (omega (arith, opens)))
