-- ===== src/Tracker/Balanced.antt =====
-- The balance of a CUDA device over all the records of an object.
use native.Mathlib.Nat.{add-zero}
use backend_radius_ai.Prelude.{
  ℕ, ◌+◌, ◌%◌, ◌<◌, ◌≡◌, refl, ◌∙◌, true, false, List, [], ◌∷◌, length, get_or, length-set, arith,
}
use backend_radius_ai.Prelude.Int.{pos, to_u64, u64_mod}
use backend_radius_ai.Tracker.Usage.{MemoryUsage}
use backend_radius_ai.Tracker.Activity.{
  Operation, allocation, release, other_operation, MemoryKind, device, pinned, pageable, other_kind,
  MemoryRecord, charge, charge_record,
}
use backend_radius_ai.Tracker.Attribution.{charge_all}
use backend_radius_ai.Tracker.Balance.{
  cuda_allocated, cuda_released, all_allocated, all_released, Room, AllRoom, Sized, update-Room,
  updated-balance,
}

abbrev recorded : ℕ → MemoryUsage → ℕ
recorded d usage = to_u64 (get_or usage.cuda d (pos 0))

-- What one record does to the balance of device `d`.
abbrev Step : ℕ → ℕ → ℕ → ℕ → MemoryRecord → MemoryUsage → Type 0
Step s p c d r usage =
    Sized s p c (charge_record r usage)
    × ((recorded d (charge_record r usage) + cuda_released d r) % u64_mod
        ≡ (recorded d usage + cuda_allocated d r) % u64_mod)

abbrev record_of : ℕ → Operation → MemoryKind → ℕ → ℕ → MemoryRecord
record_of id operation kind device_id bytes = record {
  correlation_id = id;
  operation = operation;
  kind = kind;
  device_id = device_id;
  bytes = bytes;
}

module _ (id i bytes s p c d : ℕ) (usage : MemoryUsage) (sized : Sized s p c usage) where
  on_device :
      (operation : Operation) → i < c → Step s p c d (record_of id operation device i bytes) usage
  unfolding charge_record charge
  on_device other_operation room = rw sized.0 ((refl, sized.1, sized.2, sized.3), refl)
  on_device allocation room =
      let r = record_of id allocation device i bytes in
      let inside : i < length usage.cuda = rw sized.3 room in
      rw (sized.0, update-Room r true usage.cuda inside)
        (
          (refl, sized.1, sized.2, length-set usage.cuda i _ ∙ sized.3),
          rw add-zero (updated-balance r usage.cuda d inside).0,
        )
  on_device release room =
      let r = record_of id release device i bytes in
      let inside : i < length usage.cuda = rw sized.3 room in
      rw (sized.0, update-Room r false usage.cuda inside)
        (
          (refl, sized.1, sized.2, length-set usage.cuda i _ ∙ sized.3),
          rw add-zero (updated-balance r usage.cuda d inside).1,
        )

  on_pinned :
      (operation : Operation) → i < p → Step s p c d (record_of id operation pinned i bytes) usage
  unfolding charge_record charge
  on_pinned other_operation room = rw sized.0 ((refl, sized.1, sized.2, sized.3), refl)
  on_pinned allocation room =
      let r = record_of id allocation pinned i bytes in
      rw (sized.0, update-Room r true usage.pinned (rw sized.2 room))
        ((refl, sized.1, length-set usage.pinned i _ ∙ sized.2, sized.3), refl)
  on_pinned release room =
      let r = record_of id release pinned i bytes in
      rw (sized.0, update-Room r false usage.pinned (rw sized.2 room))
        ((refl, sized.1, length-set usage.pinned i _ ∙ sized.2, sized.3), refl)

  on_pageable :
      (operation : Operation) → i < s → Step s p c d (record_of id operation pageable i bytes) usage
  unfolding charge_record charge
  on_pageable other_operation room = rw sized.0 ((refl, sized.1, sized.2, sized.3), refl)
  on_pageable allocation room =
      let r = record_of id allocation pageable i bytes in
      rw (sized.0, update-Room r true usage.system (rw sized.1 room))
        ((refl, length-set usage.system i _ ∙ sized.1, sized.2, sized.3), refl)
  on_pageable release room =
      let r = record_of id release pageable i bytes in
      rw (sized.0, update-Room r false usage.system (rw sized.1 room))
        ((refl, length-set usage.system i _ ∙ sized.1, sized.2, sized.3), refl)

  on_kind :
      (operation : Operation) (kind : MemoryKind)
      → Room s p c (record_of id operation kind i bytes)
      → Step s p c d (record_of id operation kind i bytes) usage
  on_kind operation device room = on_device operation room
  on_kind operation pinned room = on_pinned operation room
  on_kind operation pageable room = on_pageable operation room
  on_kind operation other_kind room = elim room [ ]

-- Let an object be valid, and each record charged to it be for a device that has an entry. Then it
-- stays valid, and on each CUDA device the bytes that are recorded in the end, with those that the
-- records release there, are those recorded at first, with those that the records allocate there,
-- as 64-bit numbers.
pub charge_all-balance :
    (s p c d : ℕ) (rs : List MemoryRecord) (usage usage' : MemoryUsage)
    → Sized s p c usage
    → AllRoom s p c rs
    → charge_all rs usage ≡ usage'
    → (usage'.valid ≡ true)
      × ((to_u64 (get_or usage'.cuda d (pos 0)) + all_released d rs) % u64_mod
          ≡ (to_u64 (get_or usage.cuda d (pos 0)) + all_allocated d rs) % u64_mod)
charge_all-balance s p c d [] usage usage' sized room run = rw (← run) (sized.0, refl)
charge_all-balance s p c d (r ∷ rs) usage usage' sized room run =
    let step =
      on_kind r.correlation_id r.device_id r.bytes s p c d usage sized r.operation r.kind room.0 in
    let rest = charge_all-balance s p c d rs (charge_record r usage) usage' step.0 room.1 run in
    (rest.0, omega (arith, rest.1, step.1))
