-- ===== src/BatchInput/Shapes.antt =====
-- The batch input of the items' shapes, over all requests.
use native.Mathlib.Nat.{add-zero, mod-eq_of_lt}
use Prim.Native.String.{String}
use backend_radius_ai.Prelude.{
  ℕ, suc, ◌+◌, ◌-◌, ◌*◌, ◌%◌, ◌≤◌, ◌<◌, ◌≡◌, refl, ◌∙◌, false, Option, List, [], ◌∷◌, ◌++◌, map,
  ltb, length, arith,
}
use backend_radius_ai.Prelude.Int.{ℤ, pos, to_u64, u64_mod, i64_half}
use backend_radius_ai.Triton.{ok}
use backend_radius_ai.Machine.{Memory}
use backend_radius_ai.Machine.Words.{u32_mod, words_at, words_at-append, words_at-same}
use backend_radius_ai.Server.{Server}
use backend_radius_ai.BatchInput.Elements.{
  Written, store_dims, repeat_item, item_size, write_items, shape_of, item_loop,
  set_batch_item_shape,
}
use backend_radius_ai.BatchInput.Counts.{Shapes}
use backend_radius_ai.BatchInput.Items.{cycle, write_items-words, write_items-below}

-- A request's input of the batch size `n` + 1, with the dimensions of an item.
abbrev pub Item : Type 0
Item = ℕ × List ℤ

abbrev pub shape_with : Item → List ℤ
shape_with (n, ds) = pos (suc n) ∷ ds

abbrev pub item_count : List Item → ℕ
item_count [] = 0
item_count ((n, ds) ∷ items) = suc n * length ds + item_count items

-- Batch sizes are `int64_t`s and numbers of dimensions `uint32_t`s.
abbrev pub ItemsFit : List Item → Type 0
ItemsFit [] = Unit {0}
ItemsFit ((n, ds) ∷ items) = (suc n < i64_half) × (suc (length ds) < u32_mod) × ItemsFit items

-- The dimensions of each item, once for each in its batch.
abbrev pub item_elements : (ℤ → ℕ) → List Item → List ℕ
item_elements bits [] = []
item_elements bits ((n, ds) ∷ items) = cycle (suc n) (map bits ds) ++ item_elements bits items

item_size-exact :
    (n : ℕ) (ds : List ℤ) → suc (length ds) < u32_mod → item_size (pos (suc n) ∷ ds) ≡ 4 * length ds
item_size-exact n ds small =
    let m : (suc (length ds) + u32_mod - 1) % u32_mod ≡ length ds = omega arith in rw m refl

items_bytes :
    (n : ℕ) (ds : List ℤ)
    → suc n < i64_half
    → suc (length ds) < u32_mod
    → 4 * (suc n * length ds) < u64_mod
    → to_u64 (pos (suc n)) * item_size (pos (suc n) ∷ ds) % u64_mod ≡ 4 * (suc n * length ds)
unfolding to_u64
items_bytes n ds small few room =
    let batch : suc n % u64_mod ≡ suc n = omega arith in
    let product : suc n * (4 * length ds) ≡ 4 * (suc n * length ds) = grind arith in
    rw (item_size-exact n ds few, batch, product) (mod-eq_of_lt room)

module _ (server : Server) (policy : Option String) (source_input : String) (bits : ℤ → ℕ)
    (bits_fit : (d : ℤ) → bits d < u32_mod) (buffer size : ℕ) (size_fits : size < u64_mod) where
  open server use {Request}

  abbrev loop : List Request → ℕ → Memory → Written
  loop = item_loop server policy source_input bits buffer size

  -- The round of one request.
  loop-step :
      (request : Request) (requests : List Request) (n : ℕ) (ds : List ℤ) (offset : ℕ)
      (mem : Memory)
      → shape_of server policy source_input request ≡ ok (pos (suc n) ∷ ds)
      → suc n < i64_half
      → suc (length ds) < u32_mod
      → offset + 4 * (suc n * length ds) ≤ size
      → loop (request ∷ requests) offset mem
        ≡ loop requests (offset + 4 * (suc n * length ds)) (
            repeat_item n
              (buffer + offset)
              (4 * length ds)
              1
              (store_dims bits ds (buffer + offset) mem))
  unfolding item_loop write_items
  loop-step request requests n ds offset mem given small few room =
      let bytes = items_bytes n ds small few (omega arith) in
      let next : (offset + 4 * (suc n * length ds)) % u64_mod ≡ offset + 4 * (suc n * length ds) =
        mod-eq_of_lt (omega arith) in
      let fits : ltb size (offset + 4 * (suc n * length ds)) ≡ false = ground arith in
      let times : suc n - 1 ≡ n = omega arith in
      rw (given, item_loop) (rw (bytes, next, fits, times, item_size-exact n ds few) refl)

  loop-below :
      (requests : List Request) (items : List Item) (offset a : ℕ) (mem : Memory)
      → Shapes server policy source_input requests (map shape_with items)
      → ItemsFit items
      → offset + 4 * item_count items ≤ size
      → a < buffer + offset
      → (loop requests offset mem).1 a ≡ mem a
  unfolding item_loop
  loop-below [] items offset a mem given fit room below = refl
  loop-below (request ∷ requests) [] offset a mem given fit room below = elim given [ ]
  loop-below (request ∷ requests) ((n, ds) ∷ items) offset a mem given fit room below =
      rw (loop-step request requests n ds offset mem given.0 fit.0 fit.1 (omega arith)) (
        loop-below requests items (offset + 4 * (suc n * length ds)) a _ given.1 fit.2 (omega arith)
          (omega arith)
        ∙ write_items-below bits bits_fit n ds (buffer + offset) a mem below)

  loop-words :
      (requests : List Request) (items : List Item) (offset : ℕ) (mem : Memory)
      → Shapes server policy source_input requests (map shape_with items)
      → ItemsFit items
      → offset + 4 * item_count items ≤ size
      → ((loop requests offset mem).0 ≡ ok tt)
        × (words_at (loop requests offset mem).1 (buffer + offset) (item_count items)
            ≡ item_elements bits items)
  unfolding item_loop
  loop-words [] [] offset mem given fit room = (refl, refl)
  loop-words [] (item ∷ items) offset mem given fit room = elim given [ ]
  loop-words (request ∷ requests) [] offset mem given fit room = elim given [ ]
  loop-words (request ∷ requests) ((n, ds) ∷ items) offset mem given fit room =
      let count = suc n * length ds in
      let mem' =
        repeat_item n (buffer + offset) (4 * length ds) 1
          (store_dims bits ds (buffer + offset) mem) in
      let rest = loop-words requests items (offset + 4 * count) mem' given.1 fit.2 (omega arith) in
      let after = (loop requests (offset + 4 * count) mem').1 in
      let head : words_at after (buffer + offset) count ≡ cycle (suc n) (map bits ds) =
        words_at-same mem' after (buffer + offset) count (λ a lo hi.
          loop-below requests items (offset + 4 * count) a mem' given.1 fit.2 (omega arith)
            (omega arith))
        ∙ write_items-words bits bits_fit n ds (buffer + offset) mem (omega (arith, fit.1)) in
      let there : buffer + offset + 4 * count ≡ buffer + (offset + 4 * count) = omega arith in
      rw (loop-step request requests n ds offset mem given.0 fit.0 fit.1 (omega arith)) (
        rest.0,
        words_at-append after (buffer + offset) count (item_count items)
            ∙ rw (there, head, rest.1) refl,
      )

  -- Let the server give, for each request, a shape of a batch size of one or more, an `int64_t`,
  -- and then the dimensions of an item, and let the buffer be smaller than 2 ^ 64 bytes and large
  -- enough for the dimensions of all items of all requests, four bytes each. Then
  -- `SetBatchItemShape` succeeds, and the buffer holds the dimensions of each item in order, those
  -- of a request once for each item in its batch, in the bits of the element type.
  pub set_batch_item_shape-words :
      (requests : List Request) (items : List Item) (mem : Memory) (written : Written)
      → Shapes server policy source_input requests (map shape_with items)
      → ItemsFit items
      → 4 * item_count items ≤ size
      → set_batch_item_shape server policy source_input bits buffer size requests mem ≡ written
      → (written.0 ≡ ok tt)
        × (words_at written.1 buffer (item_count items) ≡ item_elements bits items)
  unfolding set_batch_item_shape
  set_batch_item_shape-words requests items mem written given fit room run =
      rw (← run) (rw add-zero at (loop-words requests items 0 mem given fit (omega arith)))
