-- ===== src/Tracker/Usage.antt =====
-- `MemoryUsage`: the bytes that are allocated, and their merging and serialization.
use backend_radius_ai.Prelude.{
  ℕ, ◌+◌, Bool, true, List, [], ◌∷◌, ◌++◌, leb, if◌then◌else◌, length, get_or, replicate,
}
use backend_radius_ai.Prelude.Int.{ℤ, pos, ◌+ℤ◌, ◌==ℤ◌, wrap64, to_u64}
use backend_radius_ai.Triton.{MemoryType, cpu, cpu_pinned, gpu, Result, ok, err, internal}

-- The C struct `cupti_tracker_` points into the vectors, so that only its `valid_` is kept apart.
pub record MemoryUsage : Type 0 where
  pub system : List ℤ
  pub pinned : List ℤ
  pub cuda : List ℤ
  pub valid : Bool

-- The constructor, with the number of CUDA devices.
unfoldable pub fresh_usage : ℕ → MemoryUsage
fresh_usage device_count = record {
  system = pos 0 ∷ [];
  pinned = pos 0 ∷ [];
  cuda = replicate device_count (pos 0);
  valid = true;
}

-- `std::transform` of two ranges into the second one.
unfoldable pub add_onto : List ℤ → List ℤ → List ℤ
unfolding wrap64 ◌+ℤ◌
add_onto [] ys = ys
add_onto (x ∷ xs) [] = []
add_onto (x ∷ xs) (y ∷ ys) = wrap64 (x +ℤ y) ∷ add_onto xs ys

-- `operator+=`
unfoldable pub merge : MemoryUsage → MemoryUsage → MemoryUsage
unfolding add_onto
merge lhs rhs = record lhs {
  system = add_onto rhs.system lhs.system;
  pinned = add_onto rhs.pinned lhs.pinned;
  cuda = add_onto rhs.cuda lhs.cuda;
}

-- The server's calls on buffer attributes, on a state `H` of its own. The calls on an attribute
-- object get its address.
pub record AttributesApi (H : Type 0) : Type 0 where
  -- TRITONSERVER_BufferAttributesNew
  pub attributes_new : H → Result ℕ × H
  -- TRITONSERVER_BufferAttributesSetMemoryType, …SetMemoryTypeId, …SetByteSize
  pub set_memory_type : H → ℕ → MemoryType → Result (Unit {0}) × H
  pub set_memory_type_id : H → ℕ → ℕ → Result (Unit {0}) × H
  pub set_byte_size : H → ℕ → ℕ → Result (Unit {0}) × H

-- `buffer_attributes_`, `usage_idx` and the server.
pub record Serial (H : Type 0) : Type 0 where
  pub attributes : List ℕ
  pub usage_idx : ℕ
  pub heap : H

module _ {H : Type 0} (api : AttributesApi H) where
  open api use {attributes_new, set_memory_type, set_memory_type_id, set_byte_size}

  abbrev pub Step : Type 0
  Step = Result (Unit {0}) × Serial H

  -- RETURN_IF_ERROR on a call that takes and leaves the server.
  unfoldable pub call : (H → Result (Unit {0}) × H) → (Serial H → Step) → Serial H → Step
  call f next s =
      let (answer, h) = f s.heap in
      let s' = record s { heap = h } in elim answer [ ok u ↦ next s' | err e ↦ (err e, s') ]

  -- A new entry, null until the server gives one.
  unfoldable pub grow : Serial H → Step
  grow s =
      let (answer, h) = attributes_new s.heap in
      elim answer [
        | ok ptr ↦ (ok tt, record s { attributes = s.attributes ++ ptr ∷ []; heap = h })
        | err e ↦ (err e, record s { attributes = s.attributes ++ 0 ∷ []; heap = h })
      ]

  -- The calls on the entry `usage_idx`.
  unfoldable pub describe : MemoryType → ℕ → ℤ → Serial H → Step
  unfolding call to_u64
  describe mem_type idx bytes s =
      let entry = get_or s.attributes s.usage_idx 0 in
      call (λ h. set_memory_type h entry mem_type)
        (call (λ h. set_memory_type_id h entry idx)
          (call (λ h. set_byte_size h entry (to_u64 bytes))
            (λ s'. (ok tt, record s' { usage_idx = s'.usage_idx + 1 }))))
        s

  -- The body of the loop for a device with an allocation.
  unfoldable pub add_entry : MemoryType → ℕ → ℤ → Serial H → Step
  unfolding grow describe
  add_entry mem_type idx bytes s =
      let grown : Step = if leb (length s.attributes) s.usage_idx then grow s else (ok tt, s) in
      elim grown.0 [ err e ↦ (err e, grown.1) | ok u ↦ describe mem_type idx bytes grown.1 ]

  -- `set_attributes_for_device_fn`, from the device `idx` on.
  unfoldable pub add_devices : List ℤ → MemoryType → ℕ → Serial H → Step
  unfolding add_entry
  add_devices [] mem_type idx s = (ok tt, s)
  add_devices (bytes ∷ devices) mem_type idx s =
      let skipped = add_devices devices mem_type (idx + 1) s in
      let (answer, s') = add_entry mem_type idx bytes s in
      let added : Step = elim answer [
        | err e ↦ (err e, s')
        | ok u ↦ add_devices devices mem_type (idx + 1) s'
      ] in
      if bytes ==ℤ pos 0 then skipped else added

  unfoldable pub and_then : Step → (Serial H → Step) → Step
  and_then (ok u, s) next = next s
  and_then (err e, s) next = (err e, s)

  -- The answer is `*usage_size`; `*usage` is the vector of attributes.
  unfoldable pub serialize : MemoryUsage → List ℕ → H → Result ℕ × List ℕ × H
  unfolding add_devices and_then
  serialize usage attributes h =
      let s : Serial H = record { attributes = attributes; usage_idx = 0; heap = h } in
      let (answer, s') =
        and_then
          (and_then (add_devices usage.system cpu 0 s) (add_devices usage.pinned cpu_pinned 0))
          (add_devices usage.cuda gpu 0) in
      let size : Result ℕ = elim answer [ ok u ↦ ok s'.usage_idx | err e ↦ err e ] in
      if usage.valid then (size, s'.attributes, s'.heap) else (err internal, attributes, h)
