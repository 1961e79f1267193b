-- ===== src/Collector/Iterator.antt =====
-- `BackendInputCollector::InputIterator` of src/backend_input_collector.cc.
pub mod Coalesce
pub mod Served
pub mod Run
pub mod Once
pub mod Ends
use Prim.Native.String.{String}
use mathlib.Core.Option
use backend_radius_ai.Prelude.{
  ℕ, zero, suc, ◌+◌, ◌-◌, Bool, true, false, not, ◌&&◌, ◌||◌, Option, none, some, List, [], ◌∷◌,
  ltb, leb, ◌==◌, if◌then◌else◌, length, get_elem?,
}
use backend_radius_ai.Triton.{Result, ok, err, eq_memory}
use backend_radius_ai.Server.{Server, MemoryDesc, Properties}
use backend_radius_ai.Responses.{Responses, respond_if_error}

pub record ContiguousBuffer : Type 0 where
  pub memory_desc : MemoryDesc
  pub start_request_idx : ℕ
  pub end_request_idx : ℕ

-- The test on which `GetNextContiguousInput` goes on: the next buffer starts where the input ends,
-- in the same memory.
abbrev pub is_next : MemoryDesc → MemoryDesc → Bool
is_next d next =
    (d.buffer + d.byte_size == next.buffer)
    && eq_memory d.memory_type next.memory_type
    && (d.memory_type_id == next.memory_type_id)

-- The input, longer by the next buffer, which is of request `idx`.
abbrev pub extend : ContiguousBuffer → ℕ → MemoryDesc → ContiguousBuffer
extend c idx next = record {
  memory_desc = record c.memory_desc { byte_size = c.memory_desc.byte_size + next.byte_size };
  start_request_idx = c.start_request_idx;
  end_request_idx = idx;
}

abbrev pub result_or {ℓ} : {A : Type ℓ} → Result A → A → A
result_or (ok a) d = a
result_or (err e) d = d

module _ (server : Server) where
  open server use {Request, Input, request_input, input_properties, input_buffer}

  -- The constant members of the iterator. `requests` holds `request_count` pointers, of which the
  -- code assumes that there is one.
  pub record Source : Type 0 where
    pub requests : List Request
    pub input_name : String
    pub host_policy : Option String
    pub coalesce_request_input : Bool

  -- Its variable members, with the responses that it writes to.
  pub record Iterator : Type 0 where
    pub curr_input : Input
    pub curr_request_idx : ℕ
    pub curr_buffer_idx : ℕ
    pub curr_buffer_cnt : ℕ
    pub reach_end : Bool
    pub responses : Responses

module _ {server : Server} (src : Source server) where
  open server use {Request, Input, request_input, input_properties, input_buffer}

  -- TRITONBACKEND_InputPropertiesForHostPolicy on `curr_input_`, into `curr_buffer_cnt_`.
  pub read_count : Iterator server → Iterator server
  read_count it =
      let answer = input_properties it.curr_input src.host_policy in
      record it {
        curr_buffer_cnt = elim answer [ ok p ↦ p.buffer_count | err e ↦ it.curr_buffer_cnt ];
        responses = respond_if_error it.responses it.curr_request_idx answer;
      }

  -- The two calls that make the request at `curr_request_idx_` the current one.
  pub open_request : Iterator server → Request → Iterator server
  open_request it request =
      let answer = request_input request src.input_name in
      read_count (record it {
        curr_input = result_or answer it.curr_input;
        responses = respond_if_error it.responses it.curr_request_idx answer;
      })

  -- `requests_[curr_request_idx_]`; the code never reads past the last one.
  pub open_current : Iterator server → Iterator server
  open_current it = elim (get_elem? src.requests it.curr_request_idx) [
    | none ↦ it
    | some request ↦ open_request it request
  ]

  -- The constructor. `curr_input_` and `curr_buffer_cnt_` are not initialized by it: `input` and
  -- `count` are what happens to stand there.
  unfoldable pub start : Input → ℕ → Responses → Iterator server
  unfolding open_current open_request read_count
  start input count responses = open_current (record {
    curr_input = input;
    curr_request_idx = 0;
    curr_buffer_idx = 0;
    curr_buffer_cnt = count;
    reach_end = false;
    responses = responses;
  })

  -- TRITONBACKEND_InputBufferForHostPolicy, whose error is not looked at; `d` is what stands in the
  -- output variables.
  pub read_buffer : Iterator server → MemoryDesc → MemoryDesc
  read_buffer it d = result_or (input_buffer it.curr_input src.host_policy it.curr_buffer_idx) d

  -- The `for` loop over the `n` buffers that are left of the current request. It returns whether it
  -- met a buffer that does not continue the input.
  pub scan_buffers :
      ℕ
      → MemoryDesc
      → ContiguousBuffer
      → Iterator server
      → Bool × ContiguousBuffer × Iterator server
  scan_buffers zero junk c it = (false, c, it)
  scan_buffers (suc n) junk c it =
      let next = read_buffer it junk in
      let rest =
        scan_buffers n junk (extend c it.curr_request_idx next)
          (record it { curr_buffer_idx = it.curr_buffer_idx + 1 }) in
      if is_next c.memory_desc next then rest else (true, c, it)

  -- `++curr_request_idx_`, and the next request opened if there is one.
  pub advance : Iterator server → Iterator server
  advance it =
      let it' = record it { curr_request_idx = it.curr_request_idx + 1 } in
      if ltb (it.curr_request_idx + 1) (length src.requests)
      then record (open_current it') { curr_buffer_idx = 0 }
      else it'

  -- The `do … while (curr_request_idx_ < request_count_)` loop, over the `n + 1` requests left.
  pub scan_requests :
      ℕ → MemoryDesc → ContiguousBuffer → Iterator server → ContiguousBuffer × Iterator server
  scan_requests zero junk c it =
      let (stopped, c', it') = scan_buffers (it.curr_buffer_cnt - it.curr_buffer_idx) junk c it in
      if stopped then (c', it') else (c', record (advance it') { reach_end = true })
  scan_requests (suc n) junk c it =
      let (stopped, c', it') = scan_buffers (it.curr_buffer_cnt - it.curr_buffer_idx) junk c it in
      let rest = scan_requests n junk c' (advance it') in if stopped then (c', it') else rest

  -- The branch without coalescing.
  pub step_single : Iterator server → Iterator server
  step_single it =
      let it' = advance it in
      let next =
        if ltb it'.curr_request_idx (length src.requests)
        then it'
        else record it' { reach_end = true } in
      if leb it.curr_buffer_cnt it.curr_buffer_idx then next else it

  -- `input` is the caller's buffer, `junk` the uninitialized variables of the `for` loop. The
  -- result is `none` where the code returns false.
  unfoldable pub get_next_contiguous_input :
      MemoryDesc → ContiguousBuffer → Iterator server → Option (ContiguousBuffer × Iterator server)
  unfolding read_buffer scan_buffers scan_requests step_single advance open_current open_request
      read_count
  get_next_contiguous_input junk input it =
      if it.reach_end || leb it.curr_buffer_cnt it.curr_buffer_idx
      then none
      else let c : ContiguousBuffer = record {
        memory_desc = read_buffer it input.memory_desc;
        start_request_idx = it.curr_request_idx;
        end_request_idx = it.curr_request_idx;
      } in
        let it' = record it { curr_buffer_idx = it.curr_buffer_idx + 1 } in
        if src.coalesce_request_input
        then some (scan_requests (length src.requests - 1 - it.curr_request_idx) junk c it')
        else some (c, step_single it')

  -- The inputs that a `while (ii.GetNextContiguousInput(&input))` loop sees, for `fuel - 1` rounds
  -- at most; `none` means that the fuel ran out.
  unfoldable pub all_inputs :
      ℕ → MemoryDesc → ContiguousBuffer → Iterator server → Option (List ContiguousBuffer)
  unfolding get_next_contiguous_input
  all_inputs zero junk input it = none
  all_inputs (suc fuel) junk input it = elim (get_next_contiguous_input junk input it) [
    | none ↦ some []
    | some (c, it') ↦ Option.map (◌∷◌ c) (all_inputs fuel junk c it')
  ]
