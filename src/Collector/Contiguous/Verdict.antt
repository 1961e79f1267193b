-- ===== src/Collector/Contiguous/Verdict.antt =====
-- What `GetInputBufferIfContiguous` finds.
use backend_radius_ai.Prelude.{
  ℕ, ◌+◌, ◌≡◌, ◌≢◌, refl, ap, sym, ◌∙◌, Bool, true, false, not, List, [], ◌∷◌, ◌++◌, ◌==◌, length,
  arith, Bool-cases, inl, inr, length-append, append_assoc,
}
use backend_radius_ai.Machine.{null}
use backend_radius_ai.Copy.{Place}
use backend_radius_ai.Server.{Server, MemoryDesc}
use backend_radius_ai.Responses.{Responses, respond_if_error}
use backend_radius_ai.Collector.Iterator.{ContiguousBuffer, Source, is_next, extend}
use backend_radius_ai.Collector.Iterator.Coalesce.{
  Indexed, indexed, from_request, single, coalesce, coalesce_onto,
}
use backend_radius_ai.Collector.Iterator.Served.{Serves, get_elem?-append}
use backend_radius_ai.Collector.Process.Payload.{payload_size}
use backend_radius_ai.Collector.Contiguous.{
  Scan, scan_buffer, Stale, scan_input, scan_request, scan_all, get_input_buffer_if_contiguous,
}

-- The updates for all buffers of a list.
abbrev pub scan_list : Bool → Indexed → Scan → Scan
scan_list coalesces [] s = s
scan_list coalesces ((i, d) ∷ l) s = scan_list coalesces l (scan_buffer coalesces d s)

-- One input.
abbrev pub is_single : List ContiguousBuffer → Bool
is_single (c ∷ []) = true
is_single _ = false

abbrev pub AllPointers : Indexed → Type 0
AllPointers [] = Unit {0}
AllPointers ((i, d) ∷ l) = (d.buffer ≢ null) × AllPointers l

scan_list-append :
    (b : Bool) (l l' : Indexed) (s : Scan)
    → scan_list b (l ++ l') s ≡ scan_list b l' (scan_list b l s)
scan_list-append b [] l' s = refl
scan_list-append b ((i, d) ∷ l) l' s = scan_list-append b l l' (scan_buffer b d s)

-- Once false, `contiguous` stays so.
scan_list_broken :
    (b : Bool) (l : Indexed) (s : Scan)
    → s.contiguous ≡ false
    → (scan_list b l s).contiguous ≡ false
scan_list_broken b [] s h = h
scan_list_broken b ((i, d) ∷ l) s h =
    scan_list_broken b l (scan_buffer b d s) (unfold scan_buffer in ground (arith, h))

is_single-cons :
    (c c' : ContiguousBuffer) (l : Indexed) → is_single (c ∷ coalesce_onto c' l) ≡ false
is_single-cons c c' [] = refl
is_single-cons c c' ((i, d) ∷ l) = elim (Bool-cases (is_next c'.memory_desc d)) [
  | inl on ↦ rw on (is_single-cons c (extend c' i d) l)
  | inr stop ↦ rw stop
]

-- From a state in which `c` is what was found, the buffers are contiguous if they all join it.
scan_list-coalesce :
    (c : ContiguousBuffer) (l : Indexed) (s : Scan)
    → s.contiguous ≡ true
    → s.found.buffer ≢ null
    → s.expected_next_buffer ≡ c.memory_desc.buffer + c.memory_desc.byte_size
    → s.found.memory_type ≡ c.memory_desc.memory_type
    → s.found.memory_type_id ≡ c.memory_desc.memory_type_id
    → (scan_list true l s).contiguous ≡ is_single (coalesce_onto c l)
scan_list-coalesce c [] s whole valid next type id = whole
scan_list-coalesce c ((i, d) ∷ l) s whole valid next type id =
    elim (Bool-cases (is_next c.memory_desc d)) [
      | inl on ↦ rw on (
          scan_list-coalesce (extend c i d) l (scan_buffer true d s)
            (unfold scan_buffer in ground (arith, on, whole, next, type, id))
            (unfold scan_buffer in ground (arith, valid))
            (unfold scan_buffer in ground (arith, on, next, type, id, valid))
            (unfold scan_buffer in ground (arith, type, valid))
            (unfold scan_buffer in ground (arith, id, valid)))
      | inr stop ↦ rw stop (
          scan_list_broken true l (scan_buffer true d s)
            (unfold scan_buffer in ground (arith, stop, next, type, id, valid))
          ∙ sym (is_single-cons c (single i d) l))
    ]

scan_buffer-found :
    (b : Bool) (d : MemoryDesc) (s : Scan)
    → s.found.buffer ≢ null
    → (scan_buffer b d s).found ≡ record s.found { byte_size = s.found.byte_size + d.byte_size }
unfolding scan_buffer
scan_buffer-found b d s valid =
    let seen : not (s.found.buffer == null) ≡ true = ground (arith, valid) in rw seen

scan_list-found :
    (b : Bool) (l : Indexed) (s : Scan)
    → s.found.buffer ≢ null
    → (scan_list b l s).found ≡ record s.found { byte_size = s.found.byte_size + payload_size l }
scan_list-found b [] s valid = ap (λ n. record s.found { byte_size = n }) (omega arith)
scan_list-found b ((i, d) ∷ l) s valid =
    let here = scan_buffer-found b d s valid in
    let same : (scan_buffer b d s).found.buffer ≡ s.found.buffer =
      ap (λ (f : MemoryDesc). f.buffer) here in
    scan_list-found b l (scan_buffer b d s) (λ e. valid (sym same ∙ e))
    ∙ ap (λ (f : MemoryDesc). record f { byte_size = f.byte_size + payload_size l }) here
    ∙ ap (λ n. record s.found { byte_size = n }) (omega arith)

abbrev pub unread : Place → Scan
unread place = record {
  found = record {
    buffer = null;
    byte_size = 0;
    memory_type = place.memory_type;
    memory_type_id = place.memory_type_id;
  };
  expected_next_buffer = null;
  contiguous = true;
}

module _ {server : Server} (src : Source server) (stale : Stale server)
    (handle : ℕ → Server.Input server) (buffers : ℕ → List MemoryDesc)
    (s : Serves src handle buffers) where
  scan_input-eq :
      (i : ℕ) (pre ds : List MemoryDesc) (rs : Responses) (r : Scan)
      → buffers i ≡ pre ++ ds
      → scan_input src stale i (handle i) (length ds) (length pre) (rs, r)
        ≡ (rs, scan_list src.coalesce_request_input (indexed i ds) r)
  unfolding scan_input respond_if_error
  scan_input-eq i pre [] rs r e = refl
  scan_input-eq i pre (d ∷ ds) rs r e =
      let next : length pre + 1 ≡ length (pre ++ d ∷ []) =
        omega (arith, length-append pre (d ∷ [])) in
      rw (scan_input, s.reads i (length pre) d (rw e (get_elem?-append pre d ds)), next)
        (scan_input-eq i (pre ++ d ∷ []) ds rs (scan_buffer src.coalesce_request_input d r)
          (e ∙ sym (append_assoc pre (d ∷ []) ds)))

  scan_all-eq :
      (pre requests : List (Server.Request server)) (rs : Responses) (r : Scan)
      → src.requests ≡ pre ++ requests
      → scan_all src stale (length pre) requests (rs, r) ≡ (
        rs,
        scan_list src.coalesce_request_input
            (from_request buffers (length requests) (length pre))
            r,
      )
  unfolding scan_all scan_request respond_if_error
  scan_all-eq pre [] rs r e = refl
  scan_all-eq pre (q ∷ requests) rs r e =
      let i = length pre in
      let next : i + 1 ≡ length (pre ++ q ∷ []) = omega (arith, length-append pre (q ∷ [])) in
      let (p, f, g) = s.counts i (omega (arith, ap length e, length-append pre (q ∷ requests))) in
      rw
        (
          s.opens i q (rw e (get_elem?-append pre q requests)),
          f,
          g,
          scan_input-eq i [] (buffers i) rs r refl,
          next,
        )
        (scan_all-eq (pre ++ q ∷ []) requests rs _ (e ∙ sym (append_assoc pre (q ∷ []) requests))
          ∙ ap (λ (x : Scan). (rs, x))
              (sym (
                scan_list-append src.coalesce_request_input (indexed i (buffers i))
                  (from_request buffers (length requests) (length (pre ++ q ∷ []))) r)))

  scanned :
      (place : Place) (rs : Responses)
      → get_input_buffer_if_contiguous src stale place rs ≡ (
        rs,
        scan_list src.coalesce_request_input
            (from_request buffers (length src.requests) 0)
            (unread place),
      )
  unfolding get_input_buffer_if_contiguous
  scanned place rs = scan_all-eq [] src.requests rs (unread place) refl

  -- Over requests whose inputs the server delivers, with coalescing and at least one buffer, the
  -- first at a valid pointer: the answer is that the input is contiguous exactly if the buffers
  -- of all requests coalesce into one. In both cases the buffer returned is the first one, with
  -- the size of all of them, and the responses are as they were.
  pub contiguous-coalesce :
      (place : Place) (rs : Responses) (i : ℕ) (d : MemoryDesc) (l : Indexed)
      → src.coalesce_request_input ≡ true
      → from_request buffers (length src.requests) 0 ≡ (i, d) ∷ l
      → d.buffer ≢ null
      → (let r = get_input_buffer_if_contiguous src stale place rs in
          (r.0 ≡ rs)
          × (r.1.contiguous ≡ is_single (coalesce ((i, d) ∷ l)))
          × (r.1.found ≡ record d { byte_size = payload_size ((i, d) ∷ l) }))
  unfolding scan_buffer
  contiguous-coalesce place rs i d l joins all valid =
      let s₁ : Scan = record {
        found = d;
        expected_next_buffer = d.buffer + d.byte_size;
        contiguous = true;
      } in
      rw (scanned place rs, joins, all)
        (
          refl,
          scan_list-coalesce (single i d) l s₁ refl valid refl refl refl,
          scan_list-found true l s₁ valid,
        )
