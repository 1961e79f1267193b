-- ===== src/Collector/Contiguous.antt =====
-- `GetInputBufferIfContiguous` and the `ProcessTensor` that finds its own buffer, of
-- src/backend_input_collector.cc. The variables that a failed call leaves uninitialized are read from
-- `Stale`: what happens to stand there in the round of a request, and of a buffer.
pub mod Verdict
pub mod NoCopy
pub mod Ends
pub mod Once
use backend_radius_ai.Prelude.{
  ℕ, zero, suc, ◌+◌, Bool, true, false, not, ◌&&◌, Option, none, some, List, [], ◌∷◌, ◌++◌, ◌==◌,
  if◌then◌else◌, length,
}
use backend_radius_ai.Triton.{MemoryType, eq_memory, Result, ok, err, ErrorCode, internal}
use backend_radius_ai.Machine.{Machine, Transfer, null}
use backend_radius_ai.Copy.{Place}
use backend_radius_ai.BackendMemory.{BackendMemory, create_any, alloc_type_to_memory_type}
use backend_radius_ai.Server.{Server, MemoryDesc, Properties}
use backend_radius_ai.Responses.{Responses, respond_if_error}
use backend_radius_ai.Collector.Iterator.{ContiguousBuffer, Source, result_or}
use backend_radius_ai.Collector.State.{Target, Settings, Collector}
use backend_radius_ai.Collector.Process.{alloc_types, process_tensor}

-- `*buffer`, `*buffer_byte_size`, `*memory_type`, `*memory_type_id` and the two local variables.
pub record Scan : Type 0 where
  pub found : MemoryDesc
  pub expected_next_buffer : ℕ
  pub contiguous : Bool

-- The test and the updates for one buffer.
unfoldable pub scan_buffer : Bool → MemoryDesc → Scan → Scan
scan_buffer coalesces d s =
    let joins =
      coalesces
      && (s.expected_next_buffer == d.buffer)
      && eq_memory s.found.memory_type d.memory_type
      && (s.found.memory_type_id == d.memory_type_id) in
    if not (s.found.buffer == null)
    then record {
      found = record s.found { byte_size = s.found.byte_size + d.byte_size };
      expected_next_buffer =
          if joins then s.expected_next_buffer + d.byte_size else s.expected_next_buffer;
      contiguous = if joins then s.contiguous else false;
    }
    else record {
      found = d;
      expected_next_buffer = d.buffer + d.byte_size;
      contiguous = s.contiguous;
    }

pub record Stale (server : Server) : Type 0 where
  pub input : ℕ → Server.Input server
  pub count : ℕ → ℕ
  pub desc : ℕ → ℕ → MemoryDesc

module _ {server : Server} (src : Source server) (stale : Stale server) where
  open server use {Request, Input, request_input, input_properties, input_buffer}

  -- The buffers of request `idx` from `k` on, for `n` of them.
  pub scan_input : ℕ → Input → ℕ → ℕ → Responses × Scan → Responses × Scan
  scan_input idx input zero k (rs, s) = (rs, s)
  scan_input idx input (suc n) k (rs, s) =
      let answer = input_buffer input src.host_policy k in
      scan_input idx input n (k + 1) (
        respond_if_error rs idx answer,
        scan_buffer src.coalesce_request_input (result_or answer (stale.desc idx k)) s,
      )

  -- The body of the loop over the requests.
  pub scan_request : ℕ → Request → Responses × Scan → Responses × Scan
  unfolding scan_input
  scan_request idx request (rs, s) =
      let opened = request_input request src.input_name in
      let input = result_or opened (stale.input idx) in
      let answer = input_properties input src.host_policy in
      let count : ℕ = elim answer [ ok p ↦ p.buffer_count | err e ↦ stale.count idx ] in
      scan_input idx input count 0 (respond_if_error (respond_if_error rs idx opened) idx answer, s)

  pub scan_all : ℕ → List Request → Responses × Scan → Responses × Scan
  unfolding scan_request
  scan_all idx [] r = r
  scan_all idx (request ∷ requests) r = scan_all (idx + 1) requests (scan_request idx request r)

  -- `place` is what stands in `*memory_type` and `*memory_type_id`.
  unfoldable pub get_input_buffer_if_contiguous : Place → Responses → Responses × Scan
  unfolding scan_all scan_request scan_input
  get_input_buffer_if_contiguous place rs = scan_all 0 src.requests (
    rs,
    record {
      found = record {
        buffer = null;
        byte_size = 0;
        memory_type = place.memory_type;
        memory_type_id = place.memory_type_id;
      };
      expected_next_buffer = null;
      contiguous = true;
    },
  )

unfoldable pub is_allowed : MemoryDesc → List Place → Bool
is_allowed d [] = false
is_allowed d (p ∷ ps) =
    let rest = is_allowed d ps in
    if eq_memory d.memory_type p.memory_type && (d.memory_type_id == p.memory_type_id)
    then true
    else rest

-- The description of an allocated buffer.
unfoldable pub desc_of : BackendMemory → MemoryDesc
unfolding alloc_type_to_memory_type
desc_of b = record {
  buffer = b.buffer;
  byte_size = b.byte_size;
  memory_type = alloc_type_to_memory_type b.alloc_type;
  memory_type_id = b.memory_type_id;
}

module _ {H : Type 0} (settings : Settings H) where
  -- The loop that allocates a buffer of one of the allowed types.
  unfoldable pub allocate_allowed :
      List Place → ℕ → Collector H → Option BackendMemory × Collector H
  allocate_allowed [] n c = (none, c)
  allocate_allowed (p ∷ ps) n c =
      let (answer, h) =
        create_any settings.alloc c.heap (alloc_types p.memory_type) p.memory_type_id n in
      let rest = allocate_allowed ps n (record c { heap = h }) in
      elim answer [
        | ok b ↦ (some b, record c { heap = h; in_use_memories = c.in_use_memories ++ b ∷ [] })
        | err e ↦ rest
      ]

module _ {H : Type 0} (settings : Settings H) (launches : Machine → List Transfer → Bool) where
  module _ {server : Server} (src : Source server) (junk : MemoryDesc) (stale : Stale server)
      (fuel : ℕ) (first : Server.Input server) (count : ℕ) (input : ContiguousBuffer) where
    -- The call of the other `ProcessTensor`, where there is a byte to copy.
    pub process_into : ℕ → MemoryDesc → Collector H → Option (Result MemoryDesc × Collector H)
    process_into buffer d c =
        let target : Target = record {
          buffer = buffer;
          byte_size = d.byte_size;
          place = record { memory_type = d.memory_type; memory_type_id = d.memory_type_id };
        } in
        if d.byte_size == 0
        then some (ok d, c)
        else elim (process_tensor settings launches src junk fuel first count input target c) [
          | none ↦ none
          | some c' ↦ some (ok d, c')
        ]

    -- The branch in which a separate buffer is needed, of `n` bytes.
    pub process_separate : List Place → ℕ → Collector H → Option (Result MemoryDesc × Collector H)
    unfolding allocate_allowed desc_of process_into
    process_separate allowed n c =
        let (memory, c') = allocate_allowed settings allowed n c in
        elim memory [
          | none ↦ some (err internal, c')
          | some b ↦ process_into b.buffer (desc_of b) c'
        ]

    -- The branch without a buffer of the caller's.
    pub process_found : Place → List Place → Collector H → Option (Result MemoryDesc × Collector H)
    unfolding process_separate is_allowed
    process_found place allowed c =
        let (rs, s) = get_input_buffer_if_contiguous src stale place c.responses in
        let c' = record c { responses = rs } in
        let separate = process_separate allowed s.found.byte_size c' in
        if s.contiguous && not (s.found.byte_size == 0) && is_allowed s.found allowed
        then some (ok s.found, c')
        else separate

    -- The result holds the `dst_` outputs, in the place of `place` what stood in the last two of
    -- them; `none` means that the fuel ran out.
    unfoldable pub process_tensor_allowed :
        ℕ → ℕ → List Place → Place → Collector H → Option (Result MemoryDesc × Collector H)
    unfolding process_found process_into
    process_tensor_allowed buffer buffer_byte_size [] place c = some (err internal, c)
    process_tensor_allowed buffer buffer_byte_size (p ∷ ps) place c =
        let found = process_found place (p ∷ ps) c in
        let given =
          process_into buffer
            (record {
              buffer = buffer;
              byte_size = buffer_byte_size;
              memory_type = p.memory_type;
              memory_type_id = p.memory_type_id;
            })
            c in
        if buffer == null then found else if length ps == 0 then given else some (err internal, c)
