-- ===== src/BatchInput/Elements.antt =====
-- `SetElementCount`, `SetAccumulatedElementCount` and `SetBatchItemShape` of
-- src/backend_input_collector.cc. The type `T` of the elements has four bytes; `bits` are those that
-- the conversion to it gives. No buffer reaches the end of the address space, so that an offset in
-- it does not wrap around.
use Prim.Native.String.{String}
use backend_radius_ai.Prelude.{
  ℕ, zero, suc, ◌+◌, ◌-◌, ◌*◌, ◌/◌, ◌%◌, Option, List, [], ◌∷◌, ltb, if◌then◌else◌, length, get_or,
  drop,
}
use backend_radius_ai.Prelude.Int.{ℤ, pos, pos_part, to_u64, u64_mod}
use backend_radius_ai.Triton.{Result, ok, err, ◌>>=◌, invalid_arg}
use backend_radius_ai.Machine.{Memory, transfer}
use backend_radius_ai.Machine.Words.{store_u32, u32_mod}
use backend_radius_ai.Shape.{element_count}
use backend_radius_ai.Server.{Server}

-- The error, and memory afterwards.
abbrev pub Written : Type 0
Written = Result (Unit {0}) × Memory

-- The loop that sets the rest of a buffer: `n` elements have room.
unfoldable pub fill_elements : ℕ → ℕ → ℕ → Memory → Memory
fill_elements zero p w mem = mem
fill_elements (suc n) p w mem = fill_elements n (p + 4) w (store_u32 p w mem)

-- The elements one behind the other.
unfoldable pub store_dims : (ℤ → ℕ) → List ℤ → ℕ → Memory → Memory
store_dims bits [] p mem = mem
store_dims bits (d ∷ ds) p mem = store_dims bits ds (p + 4) (store_u32 p (bits d) mem)

-- The loop of `memcpy`, for `n` further items of `size` bytes each behind the one at `p`.
unfoldable pub repeat_item : ℕ → ℕ → ℕ → ℕ → Memory → Memory
repeat_item zero p size k mem = mem
repeat_item (suc n) p size k mem =
    repeat_item n p size (k + 1)
      (transfer (record { dst = p + k * size; src = p; size = size }) mem)

-- `sizeof(T) * (dims_count - 1)`, where the difference is of `uint32_t`s.
abbrev pub item_size : List ℤ → ℕ
item_size shape = 4 * ((length shape + u32_mod - 1) % u32_mod)

-- The items of one request, and the buffer behind them.
unfoldable pub write_items : (ℤ → ℕ) → List ℤ → ℕ → Memory → Memory
unfolding store_dims repeat_item
write_items bits shape p mem =
    repeat_item (pos_part (get_or shape 0 (pos 0)) - 1) p (item_size shape) 1
      (store_dims bits (drop 1 shape) p mem)

module _ (server : Server) (policy : Option String) (source_input : String) where
  open server use {Request, request_input, input_properties}

  -- The two calls that give the shape of a request's input.
  unfoldable pub shape_of : Request → Result (List ℤ)
  shape_of request = request_input request source_input >>= λ input.
      (input_properties input policy >>= λ p. ok p.shape)

module _ (server : Server) (policy : Option String) (source_input : String) (bits : ℤ → ℕ)
    (buffer buffer_byte_size : ℕ) where
  open server use {Request}

  unfoldable pub count_loop : List Request → ℕ → Memory → Written
  count_loop [] offset mem =
      (ok tt, fill_elements ((buffer_byte_size - offset) / 4) (buffer + offset) (bits (pos 0)) mem)
  count_loop (request ∷ requests) offset mem =
      let next : Written = elim (shape_of server policy source_input request) [
        | err e ↦ (err e, mem)
        | ok shape ↦
            count_loop requests (offset + 4)
              (store_u32 (buffer + offset) (bits (element_count shape)) mem)
      ] in
      if ltb buffer_byte_size (offset + 4) then (err invalid_arg, mem) else next

  unfoldable pub set_element_count : List Request → Memory → Written
  unfolding count_loop
  set_element_count requests mem = count_loop requests 0 mem

  -- `accumulated` is a `size_t`.
  unfoldable pub accumulated_loop : List Request → ℕ → ℕ → Memory → Written
  unfolding to_u64
  accumulated_loop [] accumulated offset mem = (
    ok tt,
    fill_elements ((buffer_byte_size - offset) / 4) (buffer + offset) (bits (pos accumulated)) mem,
  )
  accumulated_loop (request ∷ requests) accumulated offset mem =
      let next : Written = elim (shape_of server policy source_input request) [
        | err e ↦ (err e, mem)
        | ok shape ↦
            let sum = (accumulated + to_u64 (element_count shape)) % u64_mod in
            accumulated_loop requests sum (offset + 4)
              (store_u32 (buffer + offset) (bits (pos sum)) mem)
      ] in
      if ltb buffer_byte_size (offset + 4) then (err invalid_arg, mem) else next

  unfoldable pub set_accumulated_element_count : List Request → Memory → Written
  unfolding accumulated_loop
  set_accumulated_element_count requests mem = accumulated_loop requests 0 0 mem

  unfoldable pub item_loop : List Request → ℕ → Memory → Written
  unfolding write_items to_u64
  item_loop [] offset mem = (ok tt, mem)
  item_loop (request ∷ requests) offset mem = elim (shape_of server policy source_input request) [
    | err e ↦ (err e, mem)
    | ok shape ↦
        let items = to_u64 (get_or shape 0 (pos 0)) * item_size shape % u64_mod in
        let rest =
          item_loop requests ((offset + items) % u64_mod)
            (write_items bits shape (buffer + offset) mem) in
        if ltb buffer_byte_size ((offset + items) % u64_mod) then (err invalid_arg, mem) else rest
  ]

  unfoldable pub set_batch_item_shape : List Request → Memory → Written
  unfolding item_loop
  set_batch_item_shape requests mem = item_loop requests 0 mem
