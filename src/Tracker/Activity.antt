-- ===== src/Tracker/Activity.antt =====
-- `TrackActivityInternal` and `UpdateMemoryTypeUsage`, and the tracking of threads.
use backend_radius_ai.Prelude.{
  ℕ, ◌+◌, ◌-◌, ◌%◌, Bool, true, false, not, ◌||◌, Option, none, some, List, [], ◌∷◌, ◌==◌, leb,
  if◌then◌else◌, length, get_or, set,
}
use backend_radius_ai.Prelude.Int.{ℤ, pos, to_u64, of_u64, u64_mod}
use backend_radius_ai.Machine.{null}
use backend_radius_ai.Tracker.Usage.{MemoryUsage}

pub data Operation : Type 0 where
  allocation release other_operation : Operation

pub data MemoryKind : Type 0 where
  device pinned pageable other_kind : MemoryKind

-- `CUpti_ActivityMemory3`, its fields that are read.
pub record MemoryRecord : Type 0 where
  pub correlation_id : ℕ
  pub operation : Operation
  pub kind : MemoryKind
  pub device_id : ℕ
  pub bytes : ℕ

-- `CUpti_Activity`. Of an external correlation it is said whether its kind is UNKNOWN, then come its
-- correlation id and its external id.
pub data Activity : Type 0 where
  memory : MemoryRecord → Activity
  external_correlation : Bool → ℕ → ℕ → Activity
  runtime unexpected : Activity

-- `activity_to_memory_usage_`, the last entry for an id first, and the tracked objects by the
-- address of their C struct.
pub record Tracker : Type 0 where
  pub activity_to_memory_usage : List (ℕ × ℕ)
  pub usages : ℕ → MemoryUsage

unfoldable pub find : ℕ → List (ℕ × ℕ) → Option ℕ
find id [] = none
find id ((k, v) ∷ entries) = let rest = find id entries in if k == id then some v else rest

unfoldable pub erase : ℕ → List (ℕ × ℕ) → List (ℕ × ℕ)
erase id [] = []
erase id ((k, v) ∷ entries) = let rest = erase id entries in if k == id then rest else (k, v) ∷ rest

abbrev pub is_allocation : Operation → Bool
is_allocation allocation = true
is_allocation _ = false

abbrev pub is_release : Operation → Bool
is_release release = true
is_release _ = false

-- `UpdateMemoryTypeUsage`: whether the device is in range, and the array. A sum with a `uint64_t`
-- is made in 64 unsigned bits.
unfoldable pub update_memory_type_usage : MemoryRecord → Bool → List ℤ → Bool × List ℤ
unfolding to_u64 of_u64
update_memory_type_usage r is_alloc usage =
    let before = to_u64 (get_or usage r.device_id (pos 0)) in
    let bytes = r.bytes % u64_mod in
    let after =
      if is_alloc
      then of_u64 ((before + bytes) % u64_mod)
      else of_u64 ((before + (u64_mod - bytes)) % u64_mod) in
    if leb (length usage) r.device_id then (false, usage) else (true, set usage r.device_id after)

-- The `switch` on the kind of memory.
unfoldable pub charge : MemoryRecord → Bool → MemoryUsage → MemoryUsage
unfolding update_memory_type_usage
charge r is_alloc usage = elim r.kind [
  | device ↦
      let (valid, cuda) = update_memory_type_usage r is_alloc usage.cuda in
      record usage { cuda = cuda; valid = valid }
  | pinned ↦
      let (valid, pinned_usage) = update_memory_type_usage r is_alloc usage.pinned in
      record usage { pinned = pinned_usage; valid = valid }
  | pageable ↦
      let (valid, system) = update_memory_type_usage r is_alloc usage.system in
      record usage { system = system; valid = valid }
  | other_kind ↦ record usage { valid = false }
]

-- A record of one of the two operations is charged to a valid object.
unfoldable pub charge_record : MemoryRecord → MemoryUsage → MemoryUsage
unfolding charge
charge_record r usage =
    if not usage.valid || not (is_allocation r.operation || is_release r.operation)
    then usage
    else charge r (is_allocation r.operation) usage

unfoldable pub store : ℕ → MemoryUsage → (ℕ → MemoryUsage) → ℕ → MemoryUsage
store p usage usages q = if p == q then usage else usages q

-- The entry of the record is taken out of the map; a null pointer is not charged.
unfoldable pub track_memory : MemoryRecord → Tracker → Tracker
unfolding find erase charge_record store
track_memory r t = elim (find r.correlation_id t.activity_to_memory_usage) [
  | none ↦ t
  | some p ↦ record {
    activity_to_memory_usage = erase r.correlation_id t.activity_to_memory_usage;
    usages = if p == null then t.usages else store p (charge_record r (t.usages p)) t.usages;
  }
]

unfoldable pub track_activity : Activity → Tracker → Tracker
unfolding track_memory erase
track_activity (memory r) t = track_memory r t
track_activity (external_correlation is_unknown correlation_id external_id) t =
    if is_unknown
    then record t {
      activity_to_memory_usage =
          (correlation_id, external_id) ∷ erase correlation_id t.activity_to_memory_usage;
    }
    else t
track_activity runtime t = t
track_activity unexpected t = t

-- The records of a buffer, in the order in which CUPTI gives them.
unfoldable pub track_all : List Activity → Tracker → Tracker
unfolding track_activity
track_all [] t = t
track_all (a ∷ activities) t = track_all activities (track_activity a t)
