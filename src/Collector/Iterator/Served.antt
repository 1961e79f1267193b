-- ===== src/Collector/Iterator/Served.antt =====
-- The iterator over requests whose inputs the server delivers: it returns the coalesced buffers.

use backend_radius_ai.Prelude.{
  ℕ, zero, suc, ◌+◌, ◌-◌, ◌<◌, ◌≡◌, refl, ap, sym, ◌∙◌, true, false, some, List, [], ◌∷◌, ◌++◌,
  arith, length, length-append, get_elem?, if◌then◌else◌, Bool-cases, inl, inr, append_assoc,
  append-nil, lt→ltb, ltb,
}
use backend_radius_ai.Triton.{ok}
use backend_radius_ai.Server.{Server, MemoryDesc, Properties}
use backend_radius_ai.Responses.{Responses, respond_if_error}
use backend_radius_ai.Collector.Iterator.{
  ContiguousBuffer, is_next, extend, Source, Iterator, read_count, open_request, open_current,
  read_buffer, scan_buffers, advance, scan_requests,
}
use backend_radius_ai.Collector.Iterator.Coalesce.{Indexed, indexed, from_request, absorb}

-- The server has the input of every request: `handle i` with the buffers `buffers i`.
pub record Serves {server : Server} (src : Source server) (handle : ℕ → Server.Input server)
    (buffers : ℕ → List MemoryDesc) : Type 0 where
  pub opens :
      (i : ℕ) (r : Server.Request server)
      → get_elem? src.requests i ≡ some r
      → server.request_input r src.input_name ≡ ok (handle i)
  pub counts :
      (i : ℕ)
      → i < length src.requests
      → (p : Properties) × (server.input_properties (handle i) src.host_policy ≡ ok p)
        × (p.buffer_count ≡ length (buffers i))
  pub reads :
      (i k : ℕ) (d : MemoryDesc)
      → get_elem? (buffers i) k ≡ some d
      → server.input_buffer (handle i) src.host_policy k ≡ ok d

pub get_elem?-append {ℓ} :
    {A : Type ℓ} (pre : List A) (x : A) (post : List A)
    → get_elem? (pre ++ x ∷ post) (length pre) ≡ some x
get_elem?-append [] x post = refl
get_elem?-append (y ∷ pre) x post = get_elem?-append pre x post

get_elem?-total {ℓ} :
    {A : Type ℓ} (i : ℕ) (xs : List A) → i < length xs → (x : A) × (get_elem? xs i ≡ some x)
get_elem?-total i [] h = elim h [ ]
get_elem?-total zero (x ∷ xs) h = (x, refl)
get_elem?-total (suc i) (x ∷ xs) h = get_elem?-total i xs (omega arith)

module _ {server : Server} (src : Source server) (handle : ℕ → Server.Input server)
    (buffers : ℕ → List MemoryDesc) (s : Serves src handle buffers) (rs : Responses) where
  -- The iterator at buffer `k` of request `i`.
  abbrev pub at : ℕ → ℕ → Iterator server
  at i k = record {
    curr_input = handle i;
    curr_request_idx = i;
    curr_buffer_idx = k;
    curr_buffer_cnt = length (buffers i);
    reach_end = false;
    responses = rs;
  }

  pub open_current-eq :
      (input : Server.Input server) (i k n : ℕ)
      → i < length src.requests
      → open_current src (record {
        curr_input = input;
        curr_request_idx = i;
        curr_buffer_idx = k;
        curr_buffer_cnt = n;
        reach_end = false;
        responses = rs;
      })
        ≡ at i k
  unfolding open_current open_request read_count respond_if_error
  open_current-eq input i k n h =
      let (r, e) = get_elem?-total i src.requests h in
      let (p, f, g) = s.counts i h in ground (arith, e, s.opens i r e, f, g)

  pub read_buffer-eq :
      (i : ℕ) (pre : List MemoryDesc) (d : MemoryDesc) (ds : List MemoryDesc) (junk : MemoryDesc)
      → buffers i ≡ pre ++ d ∷ ds
      → read_buffer src (at i (length pre)) junk ≡ d
  unfolding read_buffer
  read_buffer-eq i pre d ds junk e =
      rw (s.reads i (length pre) d (rw e (get_elem?-append pre d ds)))

  abbrev left : ℕ → ℕ → ℕ
  left i k = length (buffers i) - k

  -- One round of the `for` loop.
  scan_buffers-eq :
      (i : ℕ) (pre : List MemoryDesc) (d : MemoryDesc) (ds : List MemoryDesc) (junk : MemoryDesc)
      (c : ContiguousBuffer)
      → buffers i ≡ pre ++ d ∷ ds
      → scan_buffers src (left i (length pre)) junk c (at i (length pre)) ≡ (
          if is_next c.memory_desc d
          then scan_buffers src
              (left i (length pre + 1))
              junk
              (extend c i d)
              (at i (length pre + 1))
          else (true, c, at i (length pre)))
  unfolding scan_buffers
  scan_buffers-eq i pre d ds junk c e =
      let rounds : left i (length pre) ≡ suc (left i (length pre + 1)) =
        omega (arith, ap length e, length-append pre (d ∷ ds)) in
      rw rounds (rw (read_buffer-eq i pre d ds junk e))

  scan_requests-buffer :
      (n i : ℕ) (pre : List MemoryDesc) (d : MemoryDesc) (ds : List MemoryDesc) (junk : MemoryDesc)
      (c : ContiguousBuffer)
      → buffers i ≡ pre ++ d ∷ ds
      → scan_requests src n junk c (at i (length pre)) ≡ (
          if is_next c.memory_desc d
          then scan_requests src n junk (extend c i d) (at i (length pre + 1))
          else (c, at i (length pre)))
  unfolding scan_requests
  scan_requests-buffer zero i pre d ds junk c e = elim (Bool-cases (is_next c.memory_desc d)) [
    | inl on ↦ rw (on, scan_buffers-eq i pre d ds junk c e) (rw on)
    | inr stop ↦ rw (stop, scan_buffers-eq i pre d ds junk c e) (rw stop)
  ]
  scan_requests-buffer (suc n) i pre d ds junk c e = elim (Bool-cases (is_next c.memory_desc d)) [
    | inl on ↦ rw (on, scan_buffers-eq i pre d ds junk c e) (rw on)
    | inr stop ↦ rw (stop, scan_buffers-eq i pre d ds junk c e) (rw stop)
  ]

  scan_buffers-end :
      (i : ℕ) (junk : MemoryDesc) (c : ContiguousBuffer)
      → scan_buffers src (left i (length (buffers i))) junk c (at i (length (buffers i)))
        ≡ (false, c, at i (length (buffers i)))
  unfolding scan_buffers
  scan_buffers-end i junk c =
      let none_left : left i (length (buffers i)) ≡ 0 = omega arith in rw none_left

  advance-next :
      (i : ℕ) → i + 1 < length src.requests → advance src (at i (length (buffers i))) ≡ at (i + 1) 0
  unfolding advance
  advance-next i h = rw (lt→ltb _ _ h) (
      ap (λ (it : Iterator server). record it { curr_buffer_idx = 0 })
        (open_current-eq (handle i) (i + 1) (length (buffers i)) (length (buffers i)) h))

  -- The end of a request's buffers, with requests behind it and without.
  scan_requests-next :
      (n i : ℕ) (junk : MemoryDesc) (c : ContiguousBuffer)
      → i + suc (suc n) ≡ length src.requests
      → scan_requests src (suc n) junk c (at i (length (buffers i)))
        ≡ scan_requests src n junk c (at (i + 1) 0)
  unfolding scan_requests
  scan_requests-next n i junk c h =
      rw (scan_buffers-end i junk c) (rw (advance-next i (omega arith)))

  at_end : ℕ → Iterator server
  at_end i = record (at i (length (buffers i))) { curr_request_idx = i + 1; reach_end = true }

  scan_requests-end :
      (i : ℕ) (junk : MemoryDesc) (c : ContiguousBuffer)
      → i + 1 ≡ length src.requests
      → scan_requests src zero junk c (at i (length (buffers i))) ≡ (c, at_end i)
  unfolding scan_requests advance at_end
  scan_requests-end i junk c h =
      let last : ltb (i + 1) (length src.requests) ≡ false = ground (arith, h) in
      rw (scan_buffers-end i junk c) (rw last)

  -- What the iterator has still to return.
  pub data Pending : Iterator server → Indexed → Type 0 where
    done : {it : Iterator server} → it.reach_end ≡ true → it.responses ≡ rs → Pending it []
    more :
        {it : Iterator server} {l : Indexed} (i n : ℕ) (pre : List MemoryDesc) (d : MemoryDesc)
        (ds : List MemoryDesc)
        → i + suc n ≡ length src.requests
        → buffers i ≡ pre ++ d ∷ ds
        → it ≡ at i (length pre)
        → l ≡ (i, d) ∷ (indexed i ds ++ from_request buffers n (i + 1))
        → Pending it l

  -- From any buffer on, the loops absorb what continues the input, and stop before the rest.
  pub scan_requests-absorb :
      (n i : ℕ) (pre ds : List MemoryDesc) (junk : MemoryDesc) (c : ContiguousBuffer)
      → i + suc n ≡ length src.requests
      → buffers i ≡ pre ++ ds
      → (let r = scan_requests src n junk c (at i (length pre)) in
          let a = absorb c (indexed i ds ++ from_request buffers n (i + 1)) in
          (r.0 ≡ a.0) × Pending r.1 a.1)
  scan_requests-absorb zero i pre [] junk c h e =
      let full : pre ≡ buffers i = sym (e ∙ append-nil pre) in
      rw (full, scan_requests-end i junk c (omega arith)) (refl, unfold at_end in done refl refl)
  scan_requests-absorb (suc n) i pre [] junk c h e =
      let full : pre ≡ buffers i = sym (e ∙ append-nil pre) in
      rw (full, scan_requests-next n i junk c h)
        (scan_requests-absorb n (i + 1) [] (buffers (i + 1)) junk c (omega arith) refl)
  scan_requests-absorb n i pre (d ∷ ds) junk c h e = elim (Bool-cases (is_next c.memory_desc d)) [
    | inl on ↦
        let next : length pre + 1 ≡ length (pre ++ d ∷ []) =
          omega (arith, length-append pre (d ∷ [])) in
        rw (scan_requests-buffer n i pre d ds junk c e) (
          rw (on, next)
            (scan_requests-absorb n i (pre ++ d ∷ []) ds junk (extend c i d) h
              (e ∙ sym (append_assoc pre (d ∷ []) ds))))
    | inr stop ↦
        rw (scan_requests-buffer n i pre d ds junk c e)
          (rw stop (refl, more i n pre d ds h e refl refl))
  ]
