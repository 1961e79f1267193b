-- ===== src/BackendMemory.antt =====
-- `BackendMemory` of src/backend_memory.cc and include/triton/backend/backend_memory.h. The server's
-- memory manager and the CUDA runtime are parameters: calls on a state `H` of theirs.
pub mod Creation
pub mod Device
use backend_radius_ai.Prelude.{
  ℕ, Bool, true, false, not, Option, none, some, List, [], ◌∷◌, ◌==◌, if◌then◌else◌,
}
use backend_radius_ai.Triton.{
  MemoryType, cpu, cpu_pinned, gpu, Result, ok, err, ErrorCode, internal, unavailable, unsupported,
  invalid_arg,
}

pub data AllocationType : Type 0 where
  host host_pinned device host_pinned_pool device_pool : AllocationType

-- `enabled` is the build's TRITON_ENABLE_GPU. The addresses that the calls return may be null.
pub record Allocators (H : Type 0) : Type 0 where
  pub enabled : Bool
  -- TRITONBACKEND_MemoryManagerAllocate, with the memory type, its id and the size
  pub manager_allocate : H → MemoryType → ℕ → ℕ → Result ℕ × H
  -- TRITONBACKEND_MemoryManagerFree
  pub manager_free : H → ℕ → MemoryType → ℕ → H
  -- cudaHostAlloc, cudaFreeHost
  pub host_alloc : H → ℕ → Option ℕ × H
  pub free_host : H → ℕ → H
  -- cudaGetDevice, cudaSetDevice
  pub get_device : H → Option ℕ
  pub set_device : H → ℕ → Bool × H
  -- cudaMalloc, cudaFree
  pub malloc : H → ℕ → Option ℕ × H
  pub free : H → ℕ → H

pub record BackendMemory : Type 0 where
  pub alloc_type : AllocationType
  pub memory_type_id : ℕ
  pub buffer : ℕ
  pub byte_size : ℕ
  pub owns_buffer : Bool

unfoldable pub alloc_type_to_memory_type : AllocationType → MemoryType
alloc_type_to_memory_type host = cpu
alloc_type_to_memory_type host_pinned = cpu_pinned
alloc_type_to_memory_type host_pinned_pool = cpu_pinned
alloc_type_to_memory_type device = gpu
alloc_type_to_memory_type device_pool = gpu

-- The three-argument constructor's default: the object owns its buffer.
pub owned : AllocationType → ℕ → ℕ → ℕ → BackendMemory
owned a id byte_size ptr = record {
  alloc_type = a;
  memory_type_id = id;
  buffer = ptr;
  byte_size = byte_size;
  owns_buffer = true;
}

pub or_unavailable : Option ℕ → Result ℕ
or_unavailable none = err unavailable
or_unavailable (some ptr) = ok ptr

module _ {H : Type 0} (alloc : Allocators H) where
  open alloc use {
    enabled, manager_allocate, manager_free, host_alloc, free_host, get_device, set_device, malloc,
    free,
  }

  -- `cudaMalloc` on the device that is current, then the first device again if it was changed; the
  -- status of that last call is only logged.
  pub malloc_on : H → Bool → ℕ → ℕ → Result ℕ × H
  malloc_on h overridden current byte_size =
      let (ptr, h') = malloc h byte_size in
      (or_unavailable ptr, (if overridden then (set_device h' current).1 else h'))

  pub device_alloc : H → ℕ → ℕ → Result ℕ × H
  device_alloc h id byte_size = elim (get_device h) [
    | none ↦ (err internal, h)
    | some current ↦
        let (changed, h') = set_device h id in
        if current == id
        then malloc_on h false current byte_size
        else if changed
        then malloc_on h' true current byte_size
        else (err internal, h')
  ]

  -- The `switch` of `Create`: the pointer, or the error.
  pub allocate : H → AllocationType → ℕ → ℕ → Result ℕ × H
  allocate h host_pinned id byte_size =
      let (ptr, h') = host_alloc h byte_size in
      if enabled then (or_unavailable ptr, h') else (err unsupported, h)
  allocate h device id byte_size =
      if enabled then device_alloc h id byte_size else (err unsupported, h)
  allocate h host id byte_size = manager_allocate h cpu id byte_size
  allocate h host_pinned_pool id byte_size = manager_allocate h cpu_pinned id byte_size
  allocate h device_pool id byte_size = manager_allocate h gpu id byte_size

  pub of_pointer : AllocationType → ℕ → ℕ → Result ℕ → Result BackendMemory
  of_pointer a id byte_size (ok ptr) = ok (owned a id byte_size ptr)
  of_pointer a id byte_size (err e) = err e

  -- `Create` with one allocation type.
  unfoldable pub create : H → AllocationType → ℕ → ℕ → Result BackendMemory × H
  unfolding malloc_on device_alloc allocate of_pointer owned or_unavailable
  create h a id byte_size =
      let (ptr, h') = allocate h a id byte_size in (of_pointer a id byte_size ptr, h')

  -- The `for` loop of `Create` over several; the errors of the attempts only make up its message.
  pub create_loop : H → List AllocationType → ℕ → ℕ → Result BackendMemory × H
  create_loop h [] id byte_size = (err unavailable, h)
  create_loop h (a ∷ as') id byte_size =
      let (mem, h') = create h a id byte_size in
      let rest = create_loop h' as' id byte_size in elim mem [ ok b ↦ (ok b, h') | err e ↦ rest ]

  unfoldable pub create_any : H → List AllocationType → ℕ → ℕ → Result BackendMemory × H
  unfolding create_loop
  create_any h [] id byte_size = (err invalid_arg, h)
  create_any h (a ∷ as') id byte_size = create_loop h (a ∷ as') id byte_size

  -- `Create` on a buffer that exists: the object does not own it.
  unfoldable pub create_from_buffer : AllocationType → ℕ → ℕ → ℕ → BackendMemory
  create_from_buffer a id buffer byte_size = record {
    alloc_type = a;
    memory_type_id = id;
    buffer = buffer;
    byte_size = byte_size;
    owns_buffer = false;
  }

  release : H → AllocationType → ℕ → ℕ → H
  release h host_pinned id buffer =
      if not enabled then h else if buffer == 0 then h else free_host h buffer
  release h device id buffer = if not enabled then h else if buffer == 0 then h else free h buffer
  release h host id buffer = manager_free h buffer cpu id
  release h host_pinned_pool id buffer = manager_free h buffer cpu_pinned id
  release h device_pool id buffer = manager_free h buffer gpu id

  -- The destructor.
  unfoldable pub destroy : H → BackendMemory → H
  unfolding release
  destroy h m = if m.owns_buffer then release h m.alloc_type m.memory_type_id m.buffer else h
