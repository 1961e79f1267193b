-- ===== src/BatchInput/Written.antt =====
-- The elements that stand in a batch input after `SetElementCount` and `SetAccumulatedElementCount`.
use native.Mathlib.Nat.{add-zero}
use Prim.Native.String.{String}
use backend_radius_ai.Prelude.{
  ℕ, ◌+◌, ◌-◌, ◌*◌, ◌/◌, ◌≤◌, ◌<◌, ◌≡◌, refl, ◌∙◌, sym, Option, List, [], ◌∷◌, ◌++◌, map, length,
  replicate, length-append, length-map, length-replicate, arith,
}
use backend_radius_ai.Prelude.Int.{ℤ, pos}
use backend_radius_ai.Triton.{ok}
use backend_radius_ai.Machine.{Memory}
use backend_radius_ai.Machine.Words.{
  u32_mod, words_at, store_words, AllWords, words_at-store_words, AllWords-append,
}
use backend_radius_ai.Shape.{element_count}
use backend_radius_ai.Server.{Server}
use backend_radius_ai.BatchInput.Elements.{
  Written, set_element_count, set_accumulated_element_count,
}
use backend_radius_ai.BatchInput.Counts.{
  AllWords-replicate, running, last_sum, length-running, Shapes, count_loop-words,
  accumulated_loop-words,
}

-- The elements of an answer that stored the elements `ws`, of which there are `n`.
words_at-written :
    (written : Written) (ws : List ℕ) (p n : ℕ) (mem : Memory)
    → written ≡ (ok tt, store_words ws p mem)
    → AllWords ws
    → length ws ≡ n
    → (written.0 ≡ ok tt) × (words_at written.1 p n ≡ ws)
words_at-written written ws p n mem made fits long =
    rw (made, ← long) (refl, words_at-store_words ws p mem fits)

length_padded :
    {A : Type 0} (f : A → ℕ) (xs : List A) (n w : ℕ)
    → length (map f xs ++ replicate n w) ≡ length xs + n
length_padded f xs n w =
    omega (arith, length-append (map f xs) (replicate n w), length-map xs f, length-replicate n w)

module _ (server : Server) (policy : Option String) (source_input : String) (bits : ℤ → ℕ)
    (bits_fit : (d : ℤ) → bits d < u32_mod) where
  open server use {Request}

  AllWords-map : {A : Type 0} (f : A → ℤ) (xs : List A) → AllWords (map (λ x. bits (f x)) xs)
  AllWords-map f [] = tt
  AllWords-map f (x ∷ xs) = (bits_fit (f x), AllWords-map f xs)

  -- Let the server give the shapes `shapes` of the requests' inputs, and let the buffer have room
  -- for one element per request and `n` more, but not for `n` + 1 more. Then `SetElementCount`
  -- succeeds, and the elements in the buffer are the element counts of the requests in order and
  -- then `n` times zero, in the bits of the element type.
  pub set_element_count-words :
      (requests : List Request) (shapes : List (List ℤ)) (buffer size n : ℕ) (mem : Memory)
      (written : Written)
      → Shapes server policy source_input requests shapes
      → 4 * (length shapes + n) ≤ size
      → size < 4 * (length shapes + n) + 4
      → set_element_count server policy source_input bits buffer size requests mem ≡ written
      → (written.0 ≡ ok tt)
        × (words_at written.1 buffer (length shapes + n)
            ≡ map (λ shape. bits (element_count shape)) shapes ++ replicate n (bits (pos 0)))
  unfolding set_element_count
  set_element_count-words requests shapes buffer size n mem written given room full run =
      let rest : (size - (0 + 4 * length shapes)) / 4 ≡ n = omega arith in
      let looped =
        count_loop-words server policy source_input bits buffer size requests shapes 0 mem given
          (omega arith) in
      let made : written ≡ (
        ok tt,
        store_words (map (λ shape. bits (element_count shape)) shapes ++ replicate n (bits (pos 0)))
            buffer mem,
      ) =
        sym run ∙ looped ∙ rw (rest, add-zero) refl in
      words_at-written written _ buffer (length shapes + n) mem made
        (AllWords-append _ (replicate n (bits (pos 0))) (AllWords-map element_count shapes)
          (AllWords-replicate n (bits (pos 0)) (bits_fit (pos 0))))
        (length_padded (λ shape. bits (element_count shape)) shapes n (bits (pos 0)))

  -- Under the same conditions `SetAccumulatedElementCount` succeeds, and the elements in the buffer
  -- are the sums of the element counts of the requests up to each, as `size_t`s, and then `n` times
  -- the last sum, in the bits of the element type.
  pub set_accumulated_element_count-words :
      (requests : List Request) (shapes : List (List ℤ)) (buffer size n : ℕ) (mem : Memory)
      (written : Written)
      → Shapes server policy source_input requests shapes
      → 4 * (length shapes + n) ≤ size
      → size < 4 * (length shapes + n) + 4
      → set_accumulated_element_count server policy source_input bits buffer size requests mem
        ≡ written
      → (written.0 ≡ ok tt)
        × (words_at written.1 buffer (length shapes + n)
            ≡ map (λ sum. bits (pos sum)) (running 0 shapes)
              ++ replicate n (bits (pos (last_sum 0 shapes))))
  unfolding set_accumulated_element_count
  set_accumulated_element_count-words requests shapes buffer size n mem written given room full
        run =
      let last = bits (pos (last_sum 0 shapes)) in
      let rest : (size - (0 + 4 * length shapes)) / 4 ≡ n = omega arith in
      let looped =
        accumulated_loop-words server policy source_input bits buffer size requests shapes 0 0 mem
          given (omega arith) in
      let made : written ≡ (
        ok tt,
        store_words (map (λ sum. bits (pos sum)) (running 0 shapes) ++ replicate n last) buffer mem,
      ) =
        sym run ∙ looped ∙ rw (rest, add-zero) refl in
      words_at-written written _ buffer (length shapes + n) mem made
        (AllWords-append _ (replicate n last) (AllWords-map pos (running 0 shapes))
          (AllWords-replicate n last (bits_fit (pos (last_sum 0 shapes)))))
        (omega (
          arith,
          length_padded (λ sum. bits (pos sum)) (running 0 shapes) n last,
          length-running 0 shapes,
        ))
