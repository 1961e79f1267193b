-- ===== src/Tracker/Serialized.antt =====
-- `SerializeToBufferAttributes` gives one entry for each device with an allocation.
use native.Mathlib.Nat.{zero-add}
use backend_radius_ai.Prelude.{
  ℕ, ◌+◌, ◌≤◌, ◌≡◌, refl, ap, ◌∙◌, true, List, [], ◌∷◌, ◌++◌, leb, max, if◌then◌else◌, length,
  length-append, get_or, Bool-cases, inl, inr, arith,
}
use backend_radius_ai.Prelude.Int.{ℤ, pos, ◌==ℤ◌, to_u64}
use backend_radius_ai.Triton.{MemoryType, cpu, cpu_pinned, gpu, Result, ok}
use backend_radius_ai.Tracker.Usage.{
  MemoryUsage, AttributesApi, Serial, Step, call, grow, describe, add_entry, add_devices, and_then,
  serialize,
}

-- The devices with an allocation.
abbrev pub used_devices : List ℤ → ℕ
used_devices [] = 0
used_devices (bytes ∷ devices) = (if bytes ==ℤ pos 0 then 0 else 1) + used_devices devices

-- The server's calls succeed.
pub record Succeeds {H : Type 0} (api : AttributesApi H) : Type 0 where
  pub pointer : H → ℕ
  pub creates : (h : H) → (AttributesApi.attributes_new api h).0 ≡ ok (pointer h)
  pub sets_type :
      (h : H) (p : ℕ) (m : MemoryType) → (AttributesApi.set_memory_type api h p m).0 ≡ ok tt
  pub sets_id : (h : H) (p id : ℕ) → (AttributesApi.set_memory_type_id api h p id).0 ≡ ok tt
  pub sets_size : (h : H) (p n : ℕ) → (AttributesApi.set_byte_size api h p n).0 ≡ ok tt

module _ {H : Type 0} (api : AttributesApi H) (calls : Succeeds api) where
  open api use {attributes_new, set_memory_type, set_memory_type_id, set_byte_size}
  open calls use {pointer, creates, sets_type, sets_id, sets_size}

  -- A step that succeeds and adds `n` entries.
  abbrev Adds : ℕ → Serial H → Step api → Type 0
  Adds n s step =
      (step.0 ≡ ok tt)
      × (step.1.usage_idx ≡ s.usage_idx + n)
      × (length step.1.attributes ≡ max (length s.attributes) (s.usage_idx + n))

  call_ok :
      (f : H → Result (Unit {0}) × H) (next : Serial H → Step api) (s : Serial H)
      → (f s.heap).0 ≡ ok tt
      → call api f next s ≡ next (record s { heap = (f s.heap).1 })
  unfolding call
  call_ok f next s e = rw (e, call)

  describe_ok :
      (m : MemoryType) (idx : ℕ) (bytes : ℤ) (s : Serial H)
      → (h : H) × (describe api m idx bytes s
          ≡ (ok tt, record s { usage_idx = s.usage_idx + 1; heap = h }))
  unfolding describe
  describe_ok m idx bytes s =
      let entry = get_or s.attributes s.usage_idx 0 in
      let size = to_u64 bytes in
      let types = λ (h : H). set_memory_type h entry m in
      let ids = λ (h : H). set_memory_type_id h entry idx in
      let sizes = λ (h : H). set_byte_size h entry size in
      let last : Serial H → Step api = λ s'. (ok tt, record s' { usage_idx = s'.usage_idx + 1 }) in
      let h₁ = (types s.heap).1 in
      let h₂ = (ids h₁).1 in
      let h₃ = (sizes h₂).1 in
      (
        h₃,
        call_ok types (call api ids (call api sizes last)) s (sets_type s.heap entry m)
            ∙ call_ok ids (call api sizes last) (record s { heap = h₁ }) (sets_id h₁ entry idx)
            ∙ call_ok sizes last (record s { heap = h₂ }) (sets_size h₂ entry size),
      )

  grow_ok :
      (s : Serial H)
      → (h : H) × (grow api s
          ≡ (ok tt, record s { attributes = s.attributes ++ pointer s.heap ∷ []; heap = h }))
  unfolding grow
  grow_ok s = ((attributes_new s.heap).1, rw (creates s.heap, grow))

  add_entry-Adds :
      (m : MemoryType) (idx : ℕ) (bytes : ℤ) (s : Serial H)
      → s.usage_idx ≤ length s.attributes
      → Adds 1 s (add_entry api m idx bytes s)
  unfolding add_entry
  add_entry-Adds m idx bytes s room = elim (Bool-cases (leb (length s.attributes) s.usage_idx)) [
    | inr inside ↦
        let here = (describe_ok m idx bytes s).1 in
        rw (inside, add_entry) (rw inside (rw here (refl, refl, ground arith)))
    | inl full ↦
        let (h, grown) = grow_ok s in
        let s' = record s { attributes = s.attributes ++ pointer s.heap ∷ []; heap = h } in
        let here = (describe_ok m idx bytes s').1 in
        let longer = length-append s.attributes (pointer s.heap ∷ []) in
        rw (full, grown, add_entry)
          (rw full (rw grown (rw here (refl, refl, ground (arith, longer)))))
  ]

  add_devices-Adds :
      (devices : List ℤ) (m : MemoryType) (idx : ℕ) (s : Serial H)
      → s.usage_idx ≤ length s.attributes
      → Adds (used_devices devices) s (add_devices api devices m idx s)
  unfolding add_devices
  add_devices-Adds [] m idx s room = (refl, omega arith, omega arith)
  add_devices-Adds (bytes ∷ devices) m idx s room = elim (Bool-cases (bytes ==ℤ pos 0)) [
    | inl unused ↦
        let rest = add_devices-Adds devices m (idx + 1) s room in rw (unused, zero-add) rest
    | inr used ↦
        let added = add_entry-Adds m idx bytes s room in
        let s' = (add_entry api m idx bytes s).1 in
        let rest = add_devices-Adds devices m (idx + 1) s' (omega (arith, added.1, added.2)) in
        rw (used, added.0, add_devices)
          (rest.0, omega (arith, rest.1, added.1), omega (arith, rest.2, added.1, added.2))
  ]

  and_then-Adds :
      (n k : ℕ) (s : Serial H) (step : Step api) (next : Serial H → Step api)
      → Adds n s step
      → Adds k step.1 (next step.1)
      → Adds (n + k) s (and_then api step next)
  unfolding and_then
  and_then-Adds n k s step next first second =
      rw (first.0, and_then)
        (second.0, omega (arith, first.1, second.1), omega (arith, first.1, first.2, second.2))

  -- Let the object be valid and the server's calls succeed. Then `SerializeToBufferAttributes`
  -- succeeds; the size that it gives is the number of devices, over the three kinds of memory, whose
  -- bytes are not 0; and the vector of attributes has grown only as far as that number.
  pub serialize-used :
      (usage : MemoryUsage) (attributes : List ℕ) (h : H) (n : ℕ)
      → usage.valid ≡ true
      → n ≡ used_devices usage.system + used_devices usage.pinned + used_devices usage.cuda
      → ((serialize api usage attributes h).0 ≡ ok n)
        × (length (serialize api usage attributes h).1 ≡ max (length attributes) n)
  unfolding serialize
  serialize-used usage attributes h n valid count =
      let s : Serial H = record { attributes = attributes; usage_idx = 0; heap = h } in
      let first = add_devices api usage.system cpu 0 s in
      let pinned_next = add_devices api usage.pinned cpu_pinned 0 in
      let cuda_next = add_devices api usage.cuda gpu 0 in
      let a = add_devices-Adds usage.system cpu 0 s (omega arith) in
      let b =
        and_then-Adds (used_devices usage.system) (used_devices usage.pinned) s first pinned_next a
          (add_devices-Adds usage.pinned cpu_pinned 0 first.1 (omega (arith, a.1, a.2))) in
      let second = and_then api first pinned_next in
      let c =
        and_then-Adds (used_devices usage.system + used_devices usage.pinned)
          (used_devices usage.cuda) s second cuda_next b
          (add_devices-Adds usage.cuda gpu 0 second.1 (omega (arith, b.1, b.2))) in
      let size : (and_then api second cuda_next).1.usage_idx ≡ n = omega (arith, c.1, count) in
      rw (valid, c.0, serialize) (ap ok size, omega (arith, c.2, count))
