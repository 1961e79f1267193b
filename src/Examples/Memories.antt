-- ===== src/Examples/Memories.antt =====
-- Memory objects, over allocators whose state is the current device.
use backend_radius_ai.Prelude.{ℕ, ◌≡◌, ◌≢◌, ◌↔◌, refl, true, some, none, [], ◌∷◌}
use backend_radius_ai.Triton.{ok, err, unavailable}
use backend_radius_ai.BackendMemory.{
  BackendMemory, Allocators, host, host_pinned, device, create, create_any,
}
use backend_radius_ai.BackendMemory.Creation.{
  Fits, AllFail, create_any-Fits, create_any-unavailable,
}

abbrev allocators : Allocators ℕ
allocators = record {
  enabled = true;
  manager_allocate = λ h t id n. (ok 64, h);
  manager_free = λ h p t id. h;
  host_alloc = λ h n. (none, h);
  free_host = λ h p. h;
  get_device = λ h. some h;
  set_device = λ h d. (true, d);
  malloc = λ h n. (none, h);
  free = λ h p. h;
}

abbrev host_memory : BackendMemory
host_memory = record {
  alloc_type = host;
  memory_type_id = 0;
  buffer = 64;
  byte_size = 32;
  owns_buffer = true;
}

second_works : (create_any allocators 0 (host_pinned ∷ host ∷ []) 0 32).0 ≡ ok host_memory
unfolding create_any create
second_works = refl

create_any-Fits_example : Fits (host_pinned ∷ host ∷ []) 0 32 host_memory
create_any-Fits_example =
    create_any-Fits allocators (host_pinned ∷ host ∷ []) 0 0 32 host_memory second_works

create_any-unavailable_example :
    (create_any allocators 0 (host_pinned ∷ device ∷ []) 1 32 ≡ (err unavailable, 0))
    ↔ ((host_pinned ∷ device ∷ [] ≢ []) × AllFail allocators 0 (host_pinned ∷ device ∷ []) 1 32 0)
create_any-unavailable_example =
    create_any-unavailable allocators (host_pinned ∷ device ∷ []) 0 0 1 32
