-- ===== src/Tracker/Balance.antt =====
-- The bytes that are recorded for a device are those allocated less those released.
use native.Mathlib.Nat.{add-zero}
use backend_radius_ai.Prelude.{
  ℕ, zero, suc, ◌+◌, ◌-◌, ◌%◌, ◌<◌, ◌≡◌, refl, Bool, true, false, List, [], ◌∷◌, ◌==◌, leb,
  if◌then◌else◌, length, get_or, set, Bool-cases, inl, inr, arith,
}
use backend_radius_ai.Prelude.Int.{ℤ, pos, to_u64, of_u64, u64_mod}
use backend_radius_ai.Shape.Counts.{to_u64-of_u64}
use backend_radius_ai.Tracker.Usage.{MemoryUsage}
use backend_radius_ai.Tracker.Activity.{
  allocation, release, device, pinned, pageable, other_kind, MemoryRecord, update_memory_type_usage,
}

-- The bytes that a record allocates on the CUDA device `d`, and those that it releases.
abbrev pub cuda_allocated : ℕ → MemoryRecord → ℕ
cuda_allocated d r = elim r.kind [
  | device ↦ elim r.operation [
    | allocation ↦ if r.device_id == d then r.bytes % u64_mod else 0
    | _ ↦ 0
  ]
  | _ ↦ 0
]

abbrev pub cuda_released : ℕ → MemoryRecord → ℕ
cuda_released d r = elim r.kind [
  | device ↦ elim r.operation [
    | release ↦ if r.device_id == d then r.bytes % u64_mod else 0
    | _ ↦ 0
  ]
  | _ ↦ 0
]

abbrev pub all_allocated : ℕ → List MemoryRecord → ℕ
all_allocated d [] = 0
all_allocated d (r ∷ rs) = cuda_allocated d r + all_allocated d rs

abbrev pub all_released : ℕ → List MemoryRecord → ℕ
all_released d [] = 0
all_released d (r ∷ rs) = cuda_released d r + all_released d rs

-- The device of a record has an entry, where the arrays have the lengths `s`, `p` and `c`.
abbrev pub Room : ℕ → ℕ → ℕ → MemoryRecord → Type 0
Room s p c r = elim r.kind [
  | device ↦ r.device_id < c
  | pinned ↦ r.device_id < p
  | pageable ↦ r.device_id < s
  | other_kind ↦ ⊥
]

abbrev pub AllRoom : ℕ → ℕ → ℕ → List MemoryRecord → Type 0
AllRoom s p c [] = Unit {0}
AllRoom s p c (r ∷ rs) = Room s p c r × AllRoom s p c rs

-- A valid object whose arrays have these lengths.
abbrev pub Sized : ℕ → ℕ → ℕ → MemoryUsage → Type 0
Sized s p c usage =
    (usage.valid ≡ true)
    × (length usage.system ≡ s)
    × (length usage.pinned ≡ p)
    × (length usage.cuda ≡ c)

get_or-set_self : (xs : List ℤ) (i : ℕ) (v d : ℤ) → i < length xs → get_or (set xs i v) i d ≡ v
get_or-set_self [] i v d h = elim h [ ]
get_or-set_self (x ∷ xs) zero v d h = refl
get_or-set_self (x ∷ xs) (suc i) v d h = get_or-set_self xs i v d (omega arith)

get_or-set_other :
    (xs : List ℤ) (i j : ℕ) (v d : ℤ) → (i == j) ≡ false → get_or (set xs i v) j d ≡ get_or xs j d
get_or-set_other [] i j v d h = refl
get_or-set_other (x ∷ xs) zero zero v d h = ground (arith, h)
get_or-set_other (x ∷ xs) zero (suc j) v d h = refl
get_or-set_other (x ∷ xs) (suc i) zero v d h = refl
get_or-set_other (x ∷ xs) (suc i) (suc j) v d h = get_or-set_other xs i j v d (ground (arith, h))

-- The entry after an update in range.
abbrev pub updated : MemoryRecord → Bool → List ℤ → List ℤ
updated r is_alloc usage =
    let before = to_u64 (get_or usage r.device_id (pos 0)) in
    let bytes = r.bytes % u64_mod in
    set usage r.device_id (
      if is_alloc
      then of_u64 ((before + bytes) % u64_mod)
      else of_u64 ((before + (u64_mod - bytes)) % u64_mod))

pub update-Room :
    (r : MemoryRecord) (is_alloc : Bool) (usage : List ℤ)
    → r.device_id < length usage
    → update_memory_type_usage r is_alloc usage ≡ (true, updated r is_alloc usage)
unfolding update_memory_type_usage
update-Room r is_alloc usage h =
    let inside : leb (length usage) r.device_id ≡ false = ground arith in rw inside

entry_at :
    (usage : List ℤ) (i d : ℕ) (v : ℤ)
    → i < length usage
    → get_or (set usage i v) d (pos 0) ≡ (if i == d then v else get_or usage d (pos 0))
entry_at usage i d v h = elim (Bool-cases (i == d)) [
  | inr other ↦ rw other (get_or-set_other usage i d v (pos 0) other)
  | inl here ↦
      let same : d ≡ i = ground arith in rw here (rw same (get_or-set_self usage i v (pos 0) h))
]

added : (b n : ℕ) → to_u64 (of_u64 ((b + n) % u64_mod)) % u64_mod ≡ (b + n) % u64_mod
added b n = rw (to_u64-of_u64 ((b + n) % u64_mod) (omega arith)) (omega arith)

taken :
    (b n : ℕ)
    → n < u64_mod
    → (to_u64 (of_u64 ((b + (u64_mod - n)) % u64_mod)) + n) % u64_mod ≡ b % u64_mod
taken b n h = rw (to_u64-of_u64 ((b + (u64_mod - n)) % u64_mod) (omega arith)) (omega arith)

pub updated-balance :
    (r : MemoryRecord) (usage : List ℤ) (d : ℕ)
    → r.device_id < length usage
    → (to_u64 (get_or (updated r true usage) d (pos 0)) % u64_mod
        ≡ (to_u64 (get_or usage d (pos 0)) + (if r.device_id == d then r.bytes % u64_mod else 0))
          % u64_mod)
      × ((to_u64 (get_or (updated r false usage) d (pos 0))
              + (if r.device_id == d then r.bytes % u64_mod else 0))
            % u64_mod
          ≡ to_u64 (get_or usage d (pos 0)) % u64_mod)
updated-balance r usage d h =
    let b = to_u64 (get_or usage r.device_id (pos 0)) in
    let n = r.bytes % u64_mod in
    let on = entry_at usage r.device_id d (of_u64 ((b + n) % u64_mod)) h in
    let off = entry_at usage r.device_id d (of_u64 ((b + (u64_mod - n)) % u64_mod)) h in
    rw (on, off)
      (elim (Bool-cases (r.device_id == d)) [
        | inr other ↦ rw other (rw add-zero (refl, refl))
        | inl here ↦
            let same : d ≡ r.device_id = ground arith in
            rw here (rw same (added b n, taken b n (omega arith)))
      ])
