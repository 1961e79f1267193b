-- ===== src/Machine.antt =====
-- Memory, `memcpy`, and a CUDA stream as the queue of the copies that it has still to make.
-- Host and device share one address space, as under CUDA's unified virtual addressing.
pub mod Bytes
pub mod Words
use backend_radius_ai.Prelude.{ℕ, ◌+◌, ◌-◌, Bool, ◌&&◌, List, [], ◌∷◌, ltb, leb, if◌then◌else◌}

-- From addresses to bytes; 0 is the null pointer.
abbrev pub Memory : Type 0
Memory = ℕ → ℕ

abbrev pub null : ℕ
null = 0

pub record Transfer : Type 0 where
  pub dst : ℕ
  pub src : ℕ
  pub size : ℕ

-- `memcpy(dst, src, size)`
unfoldable pub transfer : Transfer → Memory → Memory
transfer t mem a =
    if leb t.dst a && ltb a (t.dst + t.size) then mem (t.src + (a - t.dst)) else mem a

-- `stream` holds the copies that were launched and not yet waited for, the oldest first.
pub record Machine : Type 0 where
  pub mem : Memory
  pub stream : List Transfer

unfoldable pub run_stream : List Transfer → Memory → Memory
unfolding transfer
run_stream [] mem = mem
run_stream (t ∷ ts) mem = run_stream ts (transfer t mem)

-- `cudaStreamSynchronize`: everything launched so far has been done.
unfoldable pub synchronize : Machine → Machine
unfolding run_stream
synchronize m = record { mem = run_stream m.stream m.mem; stream = [] }
