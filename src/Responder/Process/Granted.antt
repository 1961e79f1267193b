-- ===== src/Responder/Process/Granted.antt =====
-- Rows of a device tensor whose outputs the server grants in host memory.
use Prim.Native.String.{String}
use backend_radius_ai.Prelude.{
  ℕ, zero, suc, ◌+◌, ◌≡◌, refl, ap, Bool, true, false, ◌||◌, ◌⊎◌, inl, inr, List,
}
use backend_radius_ai.Prelude.Int.{ℤ}
use backend_radius_ai.Prelude.Strings.{eq_string}
use backend_radius_ai.Triton.{DataType, cpu, gpu, Result, ok}
use backend_radius_ai.Responses.{respond_if_error}
use backend_radius_ai.Collector.Tensor.{get_use_pinned_memory_type}
use backend_radius_ai.Responder.State.{Block, Settings, Responder, Tensor, is_live}
use backend_radius_ai.Responder.Flush.{pend_output, fill_block, set_fixed_size_buffer}
use backend_radius_ai.Responder.Process.{
  use_pinned_memory_type, emit_output, find_output, respond_output,
}

or_false : (b : Bool) → (b || false) ≡ b
or_false true = refl
or_false false = refl

module _ {H : Type 0} (settings : Settings H) (tensor : Tensor) (name : String)
    (datatype : DataType) where
  open settings use {api, pinned_enabled}
  open api use {Request, Output, output_count, output_name, response_output, output_buffer}

  -- The tensor's name stands among the `n` outputs of a request from `k` on.
  abbrev pub Finds : Request → ℕ → ℕ → Type 0
  Finds request zero k = ⊥
  Finds request (suc n) k =
      (found : String) × (output_name request k ≡ ok found)
      × ((eq_string name found ≡ true) ⊎ ((eq_string name found ≡ false) × Finds request n (k + 1)))

  find_output-Finds :
      (idx : ℕ) (request : Request) (shape : List ℤ) (size offset n k : ℕ) (r : Responder H)
      → is_live r.responses idx ≡ true
      → Finds request n k
      → find_output settings tensor name datatype idx request shape size offset n k r
        ≡ emit_output settings tensor name datatype idx shape size offset r
  unfolding find_output respond_if_error
  find_output-Finds idx request shape size offset zero k r live finds = elim finds [ ]
  find_output-Finds idx request shape size offset (suc n) k r live (found, named, inl here) =
      rw (named, find_output) (rw named (rw (live, here) refl))
  find_output-Finds idx request shape size offset (suc n) k r live
        (found, named, inr (other, later)) =
      rw (named, find_output)
        (rw named (
          rw (live, other)
            (find_output-Finds idx request shape size offset n (k + 1) r live later)))

  pub respond_output-Finds :
      (idx : ℕ) (request : Request) (shape : List ℤ) (size offset n : ℕ) (r : Responder H)
      → is_live r.responses idx ≡ true
      → output_count request ≡ ok n
      → Finds request n 0
      → respond_output settings tensor name datatype idx request shape size offset r
        ≡ emit_output settings tensor name datatype idx shape size offset r
  unfolding respond_output respond_if_error
  respond_output-Finds idx request shape size offset n r live counted finds =
      rw (counted, live, respond_output)
        (rw counted (find_output-Finds idx request shape size offset n 0 r live finds))

  -- A buffer in host memory makes the output pending.
  set_fixed_size_buffer-pend :
      (buffer_of : H → Result Block × H) (idx size offset : ℕ) (r : Responder H) (block : Block)
      → (buffer_of r.heap).0 ≡ ok block
      → block.place.memory_type ≡ cpu
      → set_fixed_size_buffer settings buffer_of idx tensor size offset cpu r
        ≡ (false, pend_output idx block size offset (record r { heap = (buffer_of r.heap).1 }))
  unfolding set_fixed_size_buffer fill_block
  set_fixed_size_buffer-pend buffer_of idx size offset r block given host =
      rw (given, set_fixed_size_buffer) (rw host refl)

  use_pinned_device :
      tensor.place.memory_type ≡ gpu
      → pinned_enabled ≡ true
      → use_pinned_memory_type settings tensor ≡ cpu
  unfolding use_pinned_memory_type get_use_pinned_memory_type
  use_pinned_device device pinned = rw (device, pinned)

  pub emit_output-granted :
      (idx : ℕ) (shape : List ℤ) (size offset : ℕ) (r : Responder H) (output : Output)
      (block : Block) (h h' : H)
      → tensor.place.memory_type ≡ gpu
      → pinned_enabled ≡ true
      → response_output r.heap idx name datatype shape ≡ (ok output, h)
      → output_buffer h output size tensor.place ≡ (ok block, h')
      → block.place.memory_type ≡ cpu
      → emit_output settings tensor name datatype idx shape size offset r
        ≡ pend_output idx block size offset (record r { heap = h' })
  unfolding emit_output respond_if_error pend_output
  emit_output-granted idx shape size offset r output block h h' device pinned made given host =
      let pended =
        set_fixed_size_buffer-pend (λ x. output_buffer x output size tensor.place) idx size offset
          (record r { heap = h }) block (ap (λ a. a.0) given) host in
      rw (ap (λ a. a.0) made, emit_output)
        (rw (made, use_pinned_device device pinned, pended, given, or_false) refl)
