-- ===== src/Examples/Tracking.antt =====
-- Two objects that are tracked at once.
use backend_radius_ai.Prelude.{ℕ, ◌+◌, ◌%◌, ◌≡◌, refl, true, List, [], ◌∷◌, get_or, length, arith}
use backend_radius_ai.Prelude.Int.{pos, to_u64, u64_mod}
use backend_radius_ai.Triton.{ok}
use backend_radius_ai.Tracker.Usage.{MemoryUsage, AttributesApi, serialize}
use backend_radius_ai.Tracker.Activity.{
  Operation, MemoryKind, MemoryRecord, Activity, find, erase, memory, external_correlation, Tracker,
  track_all,
}
use backend_radius_ai.Tracker.Attribution.{charge_all, track_all-records_of}
use backend_radius_ai.Tracker.Balanced.{charge_all-balance}
use backend_radius_ai.Tracker.Serialized.{Succeeds, serialize-used}

abbrev two_devices : MemoryUsage
two_devices = record {
  system = pos 0 ∷ [];
  pinned = pos 0 ∷ [];
  cuda = pos 0 ∷ pos 0 ∷ [];
  valid = true;
}

abbrev allocated : ℕ → ℕ → MemoryRecord
allocated id n = record {
  correlation_id = id;
  operation = Operation.allocation;
  kind = MemoryKind.device;
  device_id = 1;
  bytes = n;
}

abbrev released : ℕ → ℕ → MemoryRecord
released id n = record (allocated id n) { operation = Operation.release }

abbrev tracker : Tracker
tracker = record { activity_to_memory_usage = []; usages = λ p. two_devices }

-- The objects at 500 and 600 are charged in turn, and the first of the releases has no object.
abbrev activities : List Activity
activities =
    external_correlation true 7 500
    ∷ external_correlation true 8 600
    ∷ memory (released 9 64)
    ∷ memory (allocated 8 100)
    ∷ memory (allocated 7 30)
    ∷ external_correlation true 10 500
    ∷ memory (released 10 10)
    ∷ []

track_all-records_of_example :
    (track_all activities tracker).usages 500
    ≡ charge_all (allocated 7 30 ∷ released 10 10 ∷ []) two_devices
unfolding find erase
track_all-records_of_example = track_all-records_of 500 activities tracker

charge_all-balance_example :
    ((charge_all (allocated 7 30 ∷ released 10 10 ∷ []) two_devices).valid ≡ true)
    × ((to_u64 (
              get_or (charge_all (allocated 7 30 ∷ released 10 10 ∷ []) two_devices).cuda 1 (pos 0))
            + 10)
          % u64_mod
        ≡ (to_u64 (pos 0) + 30) % u64_mod)
charge_all-balance_example =
    charge_all-balance 1 1 2 1 (allocated 7 30 ∷ released 10 10 ∷ []) two_devices _
      (refl, refl, refl, refl) (omega arith, (omega arith, tt)) refl

-- The server's state is the next address that it gives.
abbrev api : AttributesApi ℕ
api = record {
  attributes_new = λ h. (ok h, h + 1);
  set_memory_type = λ h p m. (ok tt, h);
  set_memory_type_id = λ h p id. (ok tt, h);
  set_byte_size = λ h p n. (ok tt, h);
}

api-Succeeds : Succeeds api
api-Succeeds = record {
  pointer = λ h. h;
  creates = λ h. refl;
  sets_type = λ h p m. refl;
  sets_id = λ h p id. refl;
  sets_size = λ h p n. refl;
}

abbrev used : MemoryUsage
used = record two_devices { pinned = pos 7 ∷ []; cuda = pos 0 ∷ pos 20 ∷ [] }

serialize-used_example :
    ((serialize api used (900 ∷ []) 901).0 ≡ ok 2)
    × (length (serialize api used (900 ∷ []) 901).1 ≡ 2)
serialize-used_example = serialize-used api api-Succeeds used (900 ∷ []) 901 2 refl refl
