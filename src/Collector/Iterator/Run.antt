-- ===== src/Collector/Iterator/Run.antt =====
-- A whole run of the iterator, and where it stops too early.
use mathlib.Core.Option
use mathlib.Core.Path.{subst}
use backend_radius_ai.Prelude.{
  ℕ, zero, suc, ◌+◌, ◌-◌, ◌≤◌, ◌<◌, ◌≡◌, ◌≢◌, refl, ap, sym, ◌∙◌, true, false, none, some, List, [],
  ◌∷◌, ◌++◌, arith, length, length-append, Bool-cases, inl, inr, leb, append_assoc,
}
use backend_radius_ai.Server.{Server, MemoryDesc}
use backend_radius_ai.Responses.{Responses}
use backend_radius_ai.Collector.Iterator.{
  ContiguousBuffer, is_next, extend, Source, Iterator, start, scan_requests,
  get_next_contiguous_input, all_inputs,
}
use backend_radius_ai.Collector.Iterator.Coalesce.{
  Indexed, indexed, from_request, single, absorb, coalesce, coalesce_onto,
}
use backend_radius_ai.Collector.Iterator.Served.{
  Serves, Pending, at, scan_requests-absorb, read_buffer-eq, open_current-eq,
}

pub length-absorb : (c : ContiguousBuffer) (l : Indexed) → length (absorb c l).1 ≤ length l
length-absorb c [] = omega arith
length-absorb c ((i, d) ∷ l) = ground (arith, length-absorb (extend c i d) l)

pub coalesce-absorb :
    (c : ContiguousBuffer) (l : Indexed)
    → coalesce_onto c l ≡ (absorb c l).0 ∷ coalesce (absorb c l).1
coalesce-absorb c [] = refl
coalesce-absorb c ((i, d) ∷ l) = elim (Bool-cases (is_next c.memory_desc d)) [
  | inl on ↦ rw on (coalesce-absorb (extend c i d) l)
  | inr stop ↦ rw stop
]

module _ {server : Server} (src : Source server) (handle : ℕ → Server.Input server)
    (buffers : ℕ → List MemoryDesc) (s : Serves src handle buffers)
    (joins : src.coalesce_request_input ≡ true) where
  next-at :
      (rs : Responses) (junk : MemoryDesc) (input : ContiguousBuffer) (i n : ℕ)
      (pre : List MemoryDesc) (d : MemoryDesc) (ds : List MemoryDesc)
      → i + suc n ≡ length src.requests
      → buffers i ≡ pre ++ d ∷ ds
      → (let a = absorb (single i d) (indexed i ds ++ from_request buffers n (i + 1)) in
          (it' : Iterator server) × (get_next_contiguous_input src junk input
              (at src handle buffers s rs i (length pre))
            ≡ some (a.0, it'))
          × Pending src handle buffers s rs it' a.1)
  unfolding get_next_contiguous_input
  next-at rs junk input i n pre d ds h e =
      let unread : leb (length (buffers i)) (length pre) ≡ false =
        ground (arith, ap length e, length-append pre (d ∷ ds)) in
      let rounds : length src.requests - 1 - i ≡ n = omega (arith, h) in
      let next : length pre + 1 ≡ length (pre ++ d ∷ []) =
        omega (arith, length-append pre (d ∷ [])) in
      let (same, pending) =
        scan_requests-absorb src handle buffers s rs n i (pre ++ d ∷ []) ds junk (single i d) h
          (e ∙ sym (append_assoc pre (d ∷ []) ds)) in
      let it' =
        (scan_requests src n junk (single i d)
          (at src handle buffers s rs i (length (pre ++ d ∷ [])))).1 in
      (
        it',
        rw
            (
              unread,
              joins,
              rounds,
              next,
              read_buffer-eq src handle buffers s rs i pre d ds input.memory_desc e,
            )
            (ap (λ c. some (c, it')) same),
        pending,
      )

  -- The iterator returns the first pending buffer, joined with all that continue it.
  pub next-Pending :
      (rs : Responses) (junk : MemoryDesc) (input : ContiguousBuffer) (it : Iterator server) (i : ℕ)
      (d : MemoryDesc) (l : Indexed)
      → Pending src handle buffers s rs it ((i, d) ∷ l)
      → (it' : Iterator server) × (get_next_contiguous_input src junk input it
          ≡ some ((absorb (single i d) l).0, it'))
        × Pending src handle buffers s rs it' (absorb (single i d) l).1
  next-Pending rs junk input it i d l (Pending.more j n pre d' ds h e at_it same) =
      let eq_i : j ≡ i = cc in
      let eq_d : d' ≡ d = cc in
      let eq_l : indexed j ds ++ from_request buffers n (j + 1) ≡ l = cc in
      let (it', f, p) = next-at rs junk input j n pre d' ds h e in
      let eq_a : absorb (single j d') (indexed j ds ++ from_request buffers n (j + 1))
          ≡ absorb (single i d) l =
        rw (eq_l, eq_i, eq_d) in
      (
        it',
        rw at_it (f ∙ ap (λ (a : ContiguousBuffer × Indexed). some (a.0, it')) eq_a),
        subst (λ (a : ContiguousBuffer × Indexed). Pending src handle buffers s rs it' a.1) eq_a p,
      )

  -- It returns false where nothing is pending.
  pub next-none :
      (rs : Responses) (junk : MemoryDesc) (input : ContiguousBuffer) (it : Iterator server)
      → Pending src handle buffers s rs it []
      → get_next_contiguous_input src junk input it ≡ none
  unfolding get_next_contiguous_input
  next-none rs junk input it (Pending.done end same) = rw end
  next-none rs junk input it (Pending.more j n pre d' ds h e at_it same) = absurd cc

  all_inputs-Pending :
      (fuel : ℕ) (rs : Responses) (junk : MemoryDesc) (input : ContiguousBuffer)
      (it : Iterator server) (l : Indexed)
      → length l < fuel
      → Pending src handle buffers s rs it l
      → all_inputs src fuel junk input it ≡ some (coalesce l)
  unfolding all_inputs
  all_inputs-Pending zero rs junk input it l h p = elim h [ ]
  all_inputs-Pending (suc fuel) rs junk input it [] h p =
      rw (next-none rs junk input it p, all_inputs)
  all_inputs-Pending (suc fuel) rs junk input it ((i, d) ∷ l) h p =
      let (it', e, rest) = next-Pending rs junk input it i d l p in
      let shorter : length (absorb (single i d) l).1 < fuel =
        omega (arith, length-absorb (single i d) l) in
      rw (e, all_inputs)
        (rw
          (
            all_inputs-Pending fuel rs junk (absorb (single i d) l).0 it' (absorb (single i d) l).1
                shorter rest,
            Option.map,
          )
          (ap some (sym (coalesce-absorb (single i d) l))))

module _ {server : Server} (src : Source server) (handle : ℕ → Server.Input server)
    (buffers : ℕ → List MemoryDesc) (s : Serves src handle buffers)
    (some_request : 0 < length src.requests) where
  start-at :
      (input : Server.Input server) (count : ℕ) (rs : Responses)
      → start src input count rs ≡ at src handle buffers s rs 0 0
  unfolding start
  start-at input count rs = open_current-eq src handle buffers s rs input 0 0 count some_request

  pub start-Pending :
      (input : Server.Input server) (count : ℕ) (rs : Responses)
      → buffers 0 ≢ []
      → Pending src handle buffers s rs
          (start src input count rs)
          (from_request buffers (length src.requests) 0)
  start-Pending input count rs first = go (buffers 0) refl
    where
      requests : length src.requests ≡ suc (length src.requests - 1)
      requests = omega arith

      go :
          (ds : List MemoryDesc)
          → buffers 0 ≡ ds
          → Pending src handle buffers s rs
              (start src input count rs)
              (from_request buffers (length src.requests) 0)
      go [] e = absurd (first e)
      go (d ∷ ds) e =
          Pending.more 0 (length src.requests - 1) [] d ds (omega arith) e (start-at input count rs)
            (ap (λ k. from_request buffers k 0) requests
              ∙ ap (λ bs. indexed 0 bs ++ from_request buffers (length src.requests - 1) (0 + 1)) e)

  -- Over at least one request whose inputs the server delivers, with coalescing and a buffer in
  -- the first request: a run over the iterator returns the buffers of all requests in order,
  -- those that continue one another in memory joined. What the uninitialized variables hold does
  -- not matter, and a round for each buffer and one more are enough.
  pub all_inputs-coalesce :
      (input : Server.Input server) (count : ℕ) (rs : Responses) (junk : MemoryDesc)
      (c : ContiguousBuffer)
      → src.coalesce_request_input ≡ true
      → buffers 0 ≢ []
      → (let l = from_request buffers (length src.requests) 0 in
          all_inputs src (suc (length l)) junk c (start src input count rs) ≡ some (coalesce l))
  all_inputs-coalesce input count rs junk c joins first =
      all_inputs-Pending src handle buffers s joins
        (suc (length (from_request buffers (length src.requests) 0))) rs junk c _ _ (omega arith)
        (start-Pending input count rs first)

  -- Over at least one request whose inputs the server delivers, where the input of the first
  -- request has no buffer: a run over the iterator returns nothing, whatever the other requests
  -- hold.
  pub all_inputs_empty_first :
      (input : Server.Input server) (count : ℕ) (rs : Responses) (junk : MemoryDesc)
      (c : ContiguousBuffer) (fuel : ℕ)
      → buffers 0 ≡ []
      → all_inputs src (suc fuel) junk c (start src input count rs) ≡ some []
  unfolding all_inputs get_next_contiguous_input
  all_inputs_empty_first input count rs junk c fuel first = rw (start-at input count rs) (rw first)
