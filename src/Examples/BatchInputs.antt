-- ===== src/Examples/BatchInputs.antt =====
-- Batch inputs of two requests.
use backend_radius_ai.Prelude.{ℕ, ◌<◌, inr, ◌≡◌, refl, none, List, [], ◌∷◌, arith}
use backend_radius_ai.Prelude.Int.{ℤ, pos, to_u64}
use backend_radius_ai.Triton.{int32, cpu, ok}
use backend_radius_ai.Machine.{Memory}
use backend_radius_ai.Machine.Words.{u32_mod, words_at, store_words}
use backend_radius_ai.Server.{Server}
use backend_radius_ai.Shape.{element_count, byte_size}
use backend_radius_ai.BatchInput.{BatchInput, Kind}
use backend_radius_ai.BatchInput.Elements.{
  shape_of, set_element_count, set_accumulated_element_count, set_batch_item_shape,
}
use backend_radius_ai.BatchInput.Process.{int32_bits}
use backend_radius_ai.BatchInput.Counts.{Shapes}
use backend_radius_ai.BatchInput.Bounds.{set_counts-other}
use backend_radius_ai.BatchInput.Sized.{count_elements}
use backend_radius_ai.BatchInput.Shapes.{Item, item_elements, set_batch_item_shape-words}
use backend_radius_ai.BatchInput.Overrun.{set_batch_item_shape-overrun}

-- Request `i` has an input of `i` items with two dimensions, 3 and 5.
abbrev server : Server
server = record {
  Request = ℕ;
  Input = ℕ;
  request_input = λ r name. ok r;
  input_properties = λ i policy.
      ok (record { shape = pos i ∷ pos 3 ∷ pos 5 ∷ []; byte_size = 0; buffer_count = 0 });
  input_buffer = λ i policy k.
      ok (record { buffer = 0; byte_size = 0; memory_type = cpu; memory_type_id = 0 });
}

abbrev shape : ℕ → List ℤ
shape i = pos i ∷ pos 3 ∷ pos 5 ∷ []

abbrev requests : List ℕ
requests = 1 ∷ 2 ∷ []

abbrev memory : Memory
memory a = a

int32_bits-fit : (d : ℤ) → int32_bits d < u32_mod
unfolding int32_bits
int32_bits-fit d = omega arith

given : Shapes server none "INPUT0" requests (shape 1 ∷ shape 2 ∷ [])
unfolding shape_of
given = (refl, (refl, tt))

abbrev sums_and_zero : BatchInput
sums_and_zero = record {
  kind = Kind.accumulated_element_count_with_zero;
  data_type = int32;
  source_input = "INPUT0";
}

-- The sums of the counts 15 and 30.
sums-elements :
    count_elements int32_bits Kind.accumulated_element_count_with_zero (shape 1 ∷ shape 2 ∷ [])
    ≡ 0 ∷ 15 ∷ 45 ∷ []
unfolding int32_bits to_u64 element_count
sums-elements = refl

set_counts-other_example :
    ((set_element_count server none "INPUT0" int32_bits 1000 8 requests memory).1 1008 ≡ 1008)
    × ((set_accumulated_element_count server none "INPUT0" int32_bits 1000 8 requests memory).1 1008
        ≡ 1008)
set_counts-other_example =
    set_counts-other server none "INPUT0" int32_bits 1000 8 1008 (inr (omega arith)) requests memory

abbrev items : List Item
items = (0, pos 3 ∷ pos 5 ∷ []) ∷ (1, pos 3 ∷ pos 5 ∷ []) ∷ []

set_batch_item_shape-words_example :
    ((set_batch_item_shape server none "INPUT0" int32_bits 1000 24 requests memory).0 ≡ ok tt)
    × (words_at
          (set_batch_item_shape server none "INPUT0" int32_bits 1000 24 requests memory).1
          1000
          6
        ≡ item_elements int32_bits items)
set_batch_item_shape-words_example =
    set_batch_item_shape-words server none "INPUT0" int32_bits int32_bits-fit 1000 24 (omega arith)
      requests items memory _ given (omega arith, omega arith, (omega arith, omega arith, tt))
      (omega arith) refl

items-elements : item_elements int32_bits items ≡ 3 ∷ 5 ∷ 3 ∷ 5 ∷ 3 ∷ 5 ∷ []
unfolding int32_bits to_u64
items-elements = refl

empty-shape : shape_of server none "INPUT0" 0 ≡ ok (pos 0 ∷ pos 3 ∷ pos 5 ∷ [])
unfolding shape_of
empty-shape = refl

set_batch_item_shape-overrun_example :
    set_batch_item_shape server none "INPUT0" int32_bits 1000 0 (0 ∷ []) memory
    ≡ (ok tt, store_words (int32_bits (pos 3) ∷ int32_bits (pos 5) ∷ []) 1000 memory)
set_batch_item_shape-overrun_example =
    set_batch_item_shape-overrun server none "INPUT0" int32_bits 1000 0 (pos 3 ∷ pos 5 ∷ []) memory
      empty-shape
