-- ===== src/Reader.antt =====
-- `ReadInputTensor` of src/backend_common.cc.
pub mod Contents
use Prim.Native.String.{String}
use backend_radius_ai.Prelude.{ℕ, zero, suc, ◌+◌, Bool, false, Option, List, leb}
use backend_radius_ai.Triton.{Result, ok, err, ◌>>=◌, ◌>>◌, ensure, invalid_arg}
use backend_radius_ai.Machine.{Machine, Transfer}
use backend_radius_ai.Copy.{Cuda, Place, copy_buffer}
use backend_radius_ai.Server.{Server, MemoryDesc, Properties}
use backend_radius_ai.Collector.Tensor.{place_of}

-- The error or `*buffer_byte_size`, then `*cuda_used`, and the machine.
abbrev pub Read : Type 0 → Type 0
Read A = Result A × Bool × Machine

module _ (cuda : Cuda) (server : Server) (policy : Option String) (place : Place)
    (copy_on_stream : Bool) where
  open server use {Request, Input, request_input, input_properties, input_buffer}

  -- The loop from buffer `b` on, for `n` of them, into the bytes at `dst`.
  pub read_loop : Input → ℕ → ℕ → ℕ → Bool → Machine → Read (Unit {0})
  read_loop input zero b dst used m = (ok tt, used, m)
  read_loop input (suc n) b dst used m = elim (input_buffer input policy b) [
    | err e ↦ (err e, used, m)
    | ok d ↦
        let t : Transfer = record { dst = dst; src = d.buffer; size = d.byte_size } in
        let (answer, used', m') = copy_buffer cuda (place_of d) place t copy_on_stream m in
        let rest = read_loop input n (b + 1) (dst + d.byte_size) used' m' in
        elim answer [ ok _ ↦ rest | err e ↦ (err e, used', m') ]
  ]

  -- What is done before the loop: the input, its byte size and the number of its buffers.
  pub open_input : Request → String → ℕ → Result (Input × Properties)
  open_input request name buffer_byte_size = request_input request name >>= λ input.
      (input_properties input policy >>= λ p.
      (ensure (leb p.byte_size buffer_byte_size) invalid_arg >> ok (input, p)))

  -- `used` is what stands in `*cuda_used` before.
  unfoldable pub read_input_tensor : Request → String → ℕ → ℕ → Bool → Machine → Read ℕ
  unfolding read_loop open_input
  read_input_tensor request name buffer buffer_byte_size used m =
      elim (open_input request name buffer_byte_size) [
        | err e ↦ (err e, used, m)
        | ok (input, p) ↦
            let (answer, used', m') = read_loop input p.buffer_count 0 buffer used m in
            ((answer >> ok p.byte_size), used', m')
      ]
