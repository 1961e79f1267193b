-- ===== src/BatchInput/Overrun.antt =====
-- `SetBatchItemShape` on a request whose batch is empty.
use Prim.Native.String.{String}
use backend_radius_ai.Prelude.{ℕ, ◌+◌, ◌*◌, ◌≡◌, refl, Option, [], ◌∷◌, List, map, arith}
use backend_radius_ai.Prelude.Int.{ℤ, pos, to_u64}
use backend_radius_ai.Triton.{ok}
use backend_radius_ai.Machine.{Memory}
use backend_radius_ai.Machine.Words.{store_words}
use backend_radius_ai.Server.{Server}
use backend_radius_ai.BatchInput.Elements.{
  repeat_item, item_size, write_items, shape_of, item_loop, set_batch_item_shape,
}
use backend_radius_ai.BatchInput.Items.{store_dims-store}

-- A request whose shape has the batch size 0 and then the dimensions `ds` takes no byte of the
-- buffer, so that it passes the test of the size even in a buffer of no bytes; `SetBatchItemShape`
-- succeeds and has written all of its dimensions, four bytes each, from the start of that buffer on.
pub set_batch_item_shape-overrun :
    (server : Server) (policy : Option String) (source_input : String) (bits : ℤ → ℕ) (buffer : ℕ)
    (request : Server.Request server) (ds : List ℤ) (mem : Memory)
    → shape_of server policy source_input request ≡ ok (pos 0 ∷ ds)
    → set_batch_item_shape server policy source_input bits buffer 0 (request ∷ []) mem
      ≡ (ok tt, store_words (map bits ds) buffer mem)
unfolding set_batch_item_shape item_loop write_items repeat_item to_u64
set_batch_item_shape-overrun server policy source_input bits buffer request ds mem given =
    let here : buffer + 0 ≡ buffer = omega arith in
    let nothing : 0 * item_size (pos 0 ∷ ds) ≡ 0 = omega arith in
    rw (given, item_loop) (rw (nothing, here, store_dims-store bits ds buffer mem) refl)
