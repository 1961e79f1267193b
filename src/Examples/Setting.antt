-- ===== src/Examples/Setting.antt =====
-- Two requests whose input has the buffers of 4 and 2 bytes at 100, which continue one another, and
-- the one of 3 bytes at 200; others of which the first has none; and a collector for them.

use backend_radius_ai.Prelude.{
  ℕ, zero, suc, ◌≡◌, refl, Bool, true, false, some, none, List, [], ◌∷◌, get_elem?, length,
}
use backend_radius_ai.Triton.{cpu, ok, err, not_found}
use backend_radius_ai.Machine.{Machine, Transfer}
use backend_radius_ai.BackendMemory.{Allocators}
use backend_radius_ai.Server.{Server, MemoryDesc}
use backend_radius_ai.Responses.{Responses}
use backend_radius_ai.Collector.Iterator.{Source}
use backend_radius_ai.Collector.Iterator.Served.{Serves}
use backend_radius_ai.Collector.State.{Target, Settings, Collector}

abbrev pub host_buffer : ℕ → ℕ → MemoryDesc
host_buffer p n = record { buffer = p; byte_size = n; memory_type = cpu; memory_type_id = 0 }

abbrev pub two_requests : ℕ → List MemoryDesc
two_requests zero = host_buffer 100 4 ∷ host_buffer 104 2 ∷ []
two_requests (suc zero) = host_buffer 200 3 ∷ []
two_requests (suc (suc i)) = []

abbrev pub empty_first : ℕ → List MemoryDesc
empty_first zero = []
empty_first (suc i) = host_buffer 200 3 ∷ []

-- Requests and inputs are their indices.
abbrev pub server : (ℕ → List MemoryDesc) → Server
server buffers = record {
  Request = ℕ;
  Input = ℕ;
  request_input = λ r name. ok r;
  input_properties =
      λ i policy. ok (record { shape = []; byte_size = 0; buffer_count = length (buffers i) });
  input_buffer =
      λ i policy k. elim (get_elem? (buffers i) k) [ some d ↦ ok d | none ↦ err not_found ];
}

abbrev pub source : (buffers : ℕ → List MemoryDesc) → Source (server buffers)
source buffers = record {
  requests = 0 ∷ 1 ∷ [];
  input_name = "INPUT0";
  host_policy = none;
  coalesce_request_input = true;
}

pub source-Serves : (buffers : ℕ → List MemoryDesc) → Serves (source buffers) (λ i. i) buffers
source-Serves buffers = record {
  opens = opened;
  counts =
      λ i h. (record { shape = []; byte_size = 0; buffer_count = length (buffers i) }, refl, refl);
  reads = λ i k d e. rw (e, server);
}
  where
    opened : (i r : ℕ) → get_elem? (0 ∷ 1 ∷ []) i ≡ some r → ok r ≡ ok i
    opened zero r e = cc
    opened (suc zero) r e = cc
    opened (suc (suc i)) r e = cc

abbrev pub responses : Responses
responses = record { live = true ∷ true ∷ []; sent = [] }

abbrev pub junk : MemoryDesc
junk = host_buffer 0 0

abbrev pub allocators : Allocators ℕ
allocators = record {
  enabled = false;
  manager_allocate = λ h t id n. (ok 64, h);
  manager_free = λ h p t id. h;
  host_alloc = λ h n. (none, h);
  free_host = λ h p. h;
  get_device = λ h. some h;
  set_device = λ h d. (true, d);
  malloc = λ h n. (none, h);
  free = λ h p. h;
}

abbrev pub settings : Settings ℕ
settings = record {
  pinned_enabled = false;
  kernel_buffer_threshold = 0;
  copy_on_stream = false;
  cuda = record { enabled = false; succeeds = λ m call. false };
  alloc = allocators;
}

abbrev pub launches : Machine → List Transfer → Bool
launches m ts = false

abbrev pub collector : Collector ℕ
collector = record {
  need_sync = false;
  responses = responses;
  machine = record { mem = λ a. a; stream = [] };
  heap = 0;
  pending_pinned_byte_size = 0;
  pending_pinned_offset = 0;
  pending_pinned_input_buffers = [];
  pending_copy_kernel_buffer_byte_size = 0;
  pending_copy_kernel_buffer_offset = 0;
  pending_copy_kernel_input_buffer_counts = 0;
  pending_copy_kernel_input_buffers = [];
  deferred_pinned = [];
  in_use_memories = [];
}

abbrev pub tensor : Target
tensor = record {
  buffer = 1000;
  byte_size = 9;
  place = record { memory_type = cpu; memory_type_id = 0 };
}
