-- ===== src/BatchInput/Bounds.antt =====
-- The element counts stay within the buffer, and a buffer that is too small is refused.
use Prim.Native.String.{String}
use backend_radius_ai.Prelude.{
  ℕ, zero, suc, ◌+◌, ◌-◌, ◌*◌, ◌/◌, ◌%◌, ◌≤◌, ◌<◌, ◌≡◌, refl, ◌∙◌, Option, List, [], ◌∷◌, ltb,
  arith, ◌⊎◌, inl, inr, Bool-cases,
}
use backend_radius_ai.Prelude.Int.{ℤ, pos, to_u64, u64_mod}
use backend_radius_ai.Machine.{Memory}
use backend_radius_ai.Machine.Words.{store_u32, store_u32-other}
use backend_radius_ai.BackendMemory.Creation.{Result-cases}
use backend_radius_ai.Shape.{element_count}
use backend_radius_ai.Server.{Server}
use backend_radius_ai.BatchInput.Elements.{
  fill_elements, shape_of, count_loop, set_element_count, accumulated_loop,
  set_accumulated_element_count,
}

fill_elements-other :
    (n p w a : ℕ) (mem : Memory) → (a < p) ⊎ (p + 4 * n ≤ a) → fill_elements n p w mem a ≡ mem a
unfolding fill_elements
fill_elements-other zero p w a mem out = refl
fill_elements-other (suc n) p w a mem out =
    fill_elements-other n (p + 4) w a (store_u32 p w mem) (ground (arith, out))
    ∙ store_u32-other p w a mem (ground (arith, out))

module _ (server : Server) (policy : Option String) (source_input : String) (bits : ℤ → ℕ)
    (buffer size a : ℕ) (out : (a < buffer) ⊎ (buffer + size ≤ a)) where
  open server use {Request}

  fill_rest :
      (offset w : ℕ) (mem : Memory)
      → offset ≤ size
      → fill_elements ((size - offset) / 4) (buffer + offset) w mem a ≡ mem a
  fill_rest offset w mem inside =
      fill_elements-other ((size - offset) / 4) (buffer + offset) w a mem (ground (arith, out))

  count_loop-other :
      (requests : List Request) (offset : ℕ) (mem : Memory)
      → offset ≤ size
      → (count_loop server policy source_input bits buffer size requests offset mem).1 a ≡ mem a
  unfolding count_loop
  count_loop-other [] offset mem inside = fill_rest offset (bits (pos 0)) mem inside
  count_loop-other (request ∷ requests) offset mem inside =
      elim (Bool-cases (ltb size (offset + 4))) [
        | inl small ↦ rw small
        | inr fits ↦ elim (Result-cases (shape_of server policy source_input request)) [
          | inr (e, failed) ↦ rw (fits, failed, count_loop)
          | inl (shape, given) ↦
              let w = bits (element_count shape) in
              rw (fits, given, count_loop)
                (count_loop-other requests (offset + 4) (store_u32 (buffer + offset) w mem)
                    (ground arith)
                  ∙ store_u32-other (buffer + offset) w a mem (ground (arith, out)))
        ]
      ]

  accumulated_loop-other :
      (requests : List Request) (sum offset : ℕ) (mem : Memory)
      → offset ≤ size
      → (accumulated_loop server policy source_input bits buffer size requests sum offset mem).1 a
        ≡ mem a
  unfolding accumulated_loop
  accumulated_loop-other [] sum offset mem inside = fill_rest offset (bits (pos sum)) mem inside
  accumulated_loop-other (request ∷ requests) sum offset mem inside =
      elim (Bool-cases (ltb size (offset + 4))) [
        | inl small ↦ rw small
        | inr fits ↦ elim (Result-cases (shape_of server policy source_input request)) [
          | inr (e, failed) ↦ rw (fits, failed, accumulated_loop)
          | inl (shape, given) ↦
              let sum' = (sum + to_u64 (element_count shape)) % u64_mod in
              let w = bits (pos sum') in
              rw (fits, given, accumulated_loop)
                (accumulated_loop-other requests sum' (offset + 4)
                    (store_u32 (buffer + offset) w mem) (ground arith)
                  ∙ store_u32-other (buffer + offset) w a mem (ground (arith, out)))
        ]
      ]

  -- Whatever the server answers, and whether or not they succeed, `SetElementCount` and
  -- `SetAccumulatedElementCount` change no byte outside of their buffer.
  pub set_counts-other :
      (requests : List Request) (mem : Memory)
      → ((set_element_count server policy source_input bits buffer size requests mem).1 a ≡ mem a)
        × ((set_accumulated_element_count server policy source_input bits buffer size requests
                mem).1
              a
            ≡ mem a)
  unfolding set_element_count set_accumulated_element_count
  set_counts-other requests mem = (
    count_loop-other requests 0 mem (omega arith),
    accumulated_loop-other requests 0 0 mem (omega arith),
  )
