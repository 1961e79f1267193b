-- ===== src/BatchInput/Counts.antt =====
-- What `SetElementCount` and `SetAccumulatedElementCount` write.

use Prim.Native.String.{String}
use backend_radius_ai.Prelude.{
  ℕ, zero, suc, ◌+◌, ◌-◌, ◌*◌, ◌/◌, ◌%◌, ◌≤◌, ◌<◌, ◌≡◌, refl, ap, false, Option, List, [], ◌∷◌,
  ◌++◌, map, ltb, length, replicate, arith,
}
use backend_radius_ai.Prelude.Int.{ℤ, pos, to_u64, u64_mod}
use backend_radius_ai.Triton.{ok}
use backend_radius_ai.Machine.{Memory}
use backend_radius_ai.Machine.Words.{u32_mod, store_u32, store_words, AllWords}
use backend_radius_ai.Shape.{element_count}
use backend_radius_ai.Server.{Server}
use backend_radius_ai.BatchInput.Elements.{fill_elements, shape_of, count_loop, accumulated_loop}

fill_elements-store :
    (n p w : ℕ) (mem : Memory) → fill_elements n p w mem ≡ store_words (replicate n w) p mem
unfolding fill_elements
fill_elements-store zero p w mem = refl
fill_elements-store (suc n) p w mem = fill_elements-store n (p + 4) w (store_u32 p w mem)

pub AllWords-replicate : (n w : ℕ) → w < u32_mod → AllWords (replicate n w)
AllWords-replicate zero w h = tt
AllWords-replicate (suc n) w h = (h, AllWords-replicate n w h)

-- The sums of the counts so far, as `size_t`s.
abbrev pub running : ℕ → List (List ℤ) → List ℕ
running sum [] = []
running sum (shape ∷ shapes) =
    (sum + to_u64 (element_count shape)) % u64_mod
    ∷ running ((sum + to_u64 (element_count shape)) % u64_mod) shapes

abbrev pub last_sum : ℕ → List (List ℤ) → ℕ
last_sum sum [] = sum
last_sum sum (shape ∷ shapes) = last_sum ((sum + to_u64 (element_count shape)) % u64_mod) shapes

pub length-running :
    (sum : ℕ) (shapes : List (List ℤ)) → length (running sum shapes) ≡ length shapes
length-running sum [] = refl
length-running sum (shape ∷ shapes) =
    ap suc (length-running ((sum + to_u64 (element_count shape)) % u64_mod) shapes)

module _ (server : Server) (policy : Option String) (source_input : String) where
  open server use {Request}

  -- The server gives the shapes of the requests' inputs.
  abbrev pub Shapes : List Request → List (List ℤ) → Type 0
  Shapes [] [] = Unit {0}
  Shapes (request ∷ requests) (shape ∷ shapes) =
      (shape_of server policy source_input request ≡ ok shape) × Shapes requests shapes
  Shapes _ _ = ⊥

module _ (server : Server) (policy : Option String) (source_input : String) (bits : ℤ → ℕ)
    (buffer size : ℕ) where
  open server use {Request}

  abbrev pub counts : List (List ℤ) → List ℕ
  counts shapes = map (λ shape. bits (element_count shape)) shapes

  abbrev pub sums : ℕ → List (List ℤ) → List ℕ
  sums sum shapes = map (λ n. bits (pos n)) (running sum shapes)

  pub count_loop-words :
      (requests : List Request) (shapes : List (List ℤ)) (offset : ℕ) (mem : Memory)
      → Shapes server policy source_input requests shapes
      → offset + 4 * length shapes ≤ size
      → count_loop server policy source_input bits buffer size requests offset mem ≡ (
        ok tt,
        store_words
            (counts shapes ++ replicate ((size - (offset + 4 * length shapes)) / 4) (bits (pos 0)))
            (buffer + offset)
            mem,
      )
  unfolding count_loop
  count_loop-words [] [] offset mem given room =
      let here : offset + 4 * 0 ≡ offset = omega arith in
      rw (here, fill_elements-store ((size - offset) / 4) (buffer + offset) (bits (pos 0)) mem) refl
  count_loop-words [] (shape ∷ shapes) offset mem given room = elim given [ ]
  count_loop-words (request ∷ requests) [] offset mem given room = elim given [ ]
  count_loop-words (request ∷ requests) (shape ∷ shapes) offset mem given room =
      let fits : ltb size (offset + 4) ≡ false = ground arith in
      let next : buffer + (offset + 4) ≡ buffer + offset + 4 = omega arith in
      let left : offset + 4 + 4 * length shapes ≡ offset + 4 * suc (length shapes) = omega arith in
      let rest =
        count_loop-words requests shapes (offset + 4)
          (store_u32 (buffer + offset) (bits (element_count shape)) mem) given.1 (omega arith) in
      rw (given.0, fits, count_loop) (rw rest (rw (next, left) refl))

  pub accumulated_loop-words :
      (requests : List Request) (shapes : List (List ℤ)) (sum offset : ℕ) (mem : Memory)
      → Shapes server policy source_input requests shapes
      → offset + 4 * length shapes ≤ size
      → accumulated_loop server policy source_input bits buffer size requests sum offset mem ≡ (
        ok tt,
        store_words
            (sums sum shapes
              ++ replicate
                  ((size - (offset + 4 * length shapes)) / 4)
                  (bits (pos (last_sum sum shapes))))
            (buffer + offset)
            mem,
      )
  unfolding accumulated_loop
  accumulated_loop-words [] [] sum offset mem given room =
      let here : offset + 4 * 0 ≡ offset = omega arith in
      rw (here, fill_elements-store ((size - offset) / 4) (buffer + offset) (bits (pos sum)) mem)
        refl
  accumulated_loop-words [] (shape ∷ shapes) sum offset mem given room = elim given [ ]
  accumulated_loop-words (request ∷ requests) [] sum offset mem given room = elim given [ ]
  accumulated_loop-words (request ∷ requests) (shape ∷ shapes) sum offset mem given room =
      let fits : ltb size (offset + 4) ≡ false = ground arith in
      let next : buffer + (offset + 4) ≡ buffer + offset + 4 = omega arith in
      let left : offset + 4 + 4 * length shapes ≡ offset + 4 * suc (length shapes) = omega arith in
      let sum' = (sum + to_u64 (element_count shape)) % u64_mod in
      let rest =
        accumulated_loop-words requests shapes sum' (offset + 4)
          (store_u32 (buffer + offset) (bits (pos sum')) mem) given.1 (omega arith) in
      rw (given.0, fits, accumulated_loop) (rw rest (rw (next, left) refl))
