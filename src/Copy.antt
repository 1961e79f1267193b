-- ===== src/Copy.antt =====
-- `CopyBuffer` of src/backend_common.cc, in the builds with and without TRITON_ENABLE_GPU. The CUDA
-- runtime is a parameter: whether a call succeeds. A call that does launches its copy.
pub mod Effects
use backend_radius_ai.Prelude.{
  ℕ, ◌+◌, Bool, true, false, not, ◌&&◌, ◌||◌, List, [], ◌∷◌, ◌++◌, ltb, ◌==◌, if◌then◌else◌,
}
use backend_radius_ai.Triton.{MemoryType, gpu, eq_memory, Result, ok, err, internal}
use backend_radius_ai.Machine.{Transfer, Machine, transfer, null}

pub data CopyKind : Type 0 where
  host_to_device device_to_host device_to_device : CopyKind

pub data CudaCall : Type 0 where
  -- `cudaLaunchHostFunc(stream, MemcpyHost, params)`
  launch_host : Transfer → CudaCall
  -- `cudaMemcpyPeerAsync`, with the two devices
  memcpy_peer : Transfer → ℕ → ℕ → CudaCall
  memcpy_async : CopyKind → Transfer → CudaCall

-- `enabled` is the build's TRITON_ENABLE_GPU.
pub record Cuda : Type 0 where
  pub enabled : Bool
  pub succeeds : Machine → CudaCall → Bool

-- A buffer's memory type and memory type id.
pub record Place : Type 0 where
  pub memory_type : MemoryType
  pub memory_type_id : ℕ

-- The error, `*cuda_used`, and the machine afterwards.
abbrev pub Copied : Type 0
Copied = Result (Unit {0}) × Bool × Machine

enqueue : Machine → Transfer → Machine
enqueue m t = record m { stream = m.stream ++ t ∷ [] }

-- The copy between host buffers. The status of the launch is not looked at.
host_copy : Cuda → Bool → Transfer → Machine → Copied
unfolding enqueue
host_copy cuda copy_on_stream t m =
    if cuda.enabled && copy_on_stream
    then (ok tt, true, (if cuda.succeeds m (launch_host t) then enqueue m t else m))
    else (ok tt, false, record m { mem = transfer t m.mem })

copy_kind : MemoryType → MemoryType → CopyKind
copy_kind src_type dst_type =
    if not (eq_memory src_type gpu)
    then host_to_device
    else if not (eq_memory dst_type gpu)
    then device_to_host
    else device_to_device

is_peer : CopyKind → Bool
is_peer device_to_device = true
is_peer _ = false

-- A copy from or to a device.
device_copy : Cuda → Place → Place → Transfer → Machine → Copied
unfolding copy_kind is_peer enqueue
device_copy cuda src_place dst_place t m =
    let kind = copy_kind src_place.memory_type dst_place.memory_type in
    let call =
      if not (src_place.memory_type_id == dst_place.memory_type_id) && is_peer kind
      then memcpy_peer t dst_place.memory_type_id src_place.memory_type_id
      else memcpy_async kind t in
    if cuda.enabled
    then if cuda.succeeds m call then (ok tt, true, enqueue m t) else (err internal, false, m)
    else (err internal, false, m)

unfoldable pub copy_buffer : Cuda → Place → Place → Transfer → Bool → Machine → Copied
unfolding host_copy device_copy
copy_buffer cuda src_place dst_place t copy_on_stream m =
    if ltb 0 t.size && (t.src == null || t.dst == null)
    then (err internal, false, m)
    else if not (eq_memory src_place.memory_type gpu) && not (eq_memory dst_place.memory_type gpu)
    then host_copy cuda copy_on_stream t m
    else device_copy cuda src_place dst_place t m
