-- ===== src/BatchInput/Items.antt =====
-- What `SetBatchItemShape` writes.

use backend_radius_ai.Prelude.{
  ℕ, zero, suc, ◌+◌, ◌*◌, ◌≤◌, ◌<◌, ◌≡◌, refl, ◌∙◌, List, [], ◌∷◌, ◌++◌, map, length, length-map,
  arith, ◌⊎◌, inl,
}
use backend_radius_ai.Prelude.Int.{ℤ}
use backend_radius_ai.Machine.{Memory, Transfer, transfer}
use backend_radius_ai.Machine.Words.{
  u32_mod, store_u32, words_at, store_words, store_words-other, AllWords, words_at-store_words,
  words_at-append, words_at-same, words_at-transfer, transfer-other,
}
use backend_radius_ai.BatchInput.Elements.{store_dims, repeat_item}

-- A row repeated `n` times.
abbrev pub cycle : ℕ → List ℕ → List ℕ
cycle zero ws = []
cycle (suc n) ws = ws ++ cycle n ws

-- Repeating an item of `m` elements changes only what lies in the `n` places behind `q`.
repeat_item-other :
    (n p size k q a : ℕ) (mem : Memory)
    → q ≡ p + k * size
    → (a < q) ⊎ (q + n * size ≤ a)
    → repeat_item n p size k mem a ≡ mem a
unfolding repeat_item
repeat_item-other zero p size k q a mem at_q out = refl
repeat_item-other (suc n) p size k q a mem at_q out =
    let t : Transfer = record { dst = p + k * size; src = p; size = size } in
    repeat_item-other n p size (k + 1) (q + size) a (transfer t mem) (grind (arith, at_q))
      (grind (arith, out))
    ∙ transfer-other mem t a (grind (arith, out, at_q))

words_at-repeat_item :
    (n p m k q : ℕ) (mem : Memory) (ws : List ℕ)
    → q ≡ p + k * (4 * m)
    → p + 4 * m ≤ q
    → words_at mem p m ≡ ws
    → words_at (repeat_item n p (4 * m) k mem) q (n * m) ≡ cycle n ws
unfolding repeat_item
words_at-repeat_item zero p m k q mem ws at_q behind item =
    let none_left : 0 * m ≡ 0 = omega arith in rw none_left refl
words_at-repeat_item (suc n) p m k q mem ws at_q behind item =
    let t : Transfer = record { dst = p + k * (4 * m); src = p; size = 4 * m } in
    let mem' = transfer t mem in
    let kept : words_at mem' p m ≡ ws =
      words_at-same mem mem' p m (λ a lo hi. transfer-other mem t a (inl (omega (arith, at_q))))
      ∙ item in
    let after = repeat_item n p (4 * m) (k + 1) mem' in
    let next : q + 4 * m ≡ p + (k + 1) * (4 * m) = grind (arith, at_q) in
    let copied : words_at mem' q m ≡ ws =
      rw at_q (words_at-transfer mem t m (omega arith) ∙ item) in
    let head : words_at after q m ≡ ws =
      words_at-same mem' after q m
        (λ a lo hi. repeat_item-other n p (4 * m) (k + 1) (q + 4 * m) a mem' next (inl hi))
      ∙ copied in
    let rest = words_at-repeat_item n p m (k + 1) (q + 4 * m) mem' ws next (omega arith) kept in
    let count : suc n * m ≡ m + n * m = grind arith in
    rw (count, words_at-append after q m (n * m), head, rest) refl

pub store_dims-store :
    (bits : ℤ → ℕ) (ds : List ℤ) (p : ℕ) (mem : Memory)
    → store_dims bits ds p mem ≡ store_words (map bits ds) p mem
unfolding store_dims
store_dims-store bits [] p mem = refl
store_dims-store bits (d ∷ ds) p mem = store_dims-store bits ds (p + 4) (store_u32 p (bits d) mem)

module _ (bits : ℤ → ℕ) (bits_fit : (d : ℤ) → bits d < u32_mod) where
  AllWords-bits : (ds : List ℤ) → AllWords (map bits ds)
  AllWords-bits [] = tt
  AllWords-bits (d ∷ ds) = (bits_fit d, AllWords-bits ds)

  -- `n` + 1 items of the dimensions `ds`.
  pub write_items-words :
      (n : ℕ) (ds : List ℤ) (p : ℕ) (mem : Memory)
      → length ds < u32_mod
      → words_at
          (repeat_item n p (4 * length ds) 1 (store_dims bits ds p mem))
          p
          (suc n * length ds)
        ≡ cycle (suc n) (map bits ds)
  write_items-words n ds p mem small =
      let m = length ds in
      let mem' = store_dims bits ds p mem in
      let long : length (map bits ds) ≡ m = length-map ds bits in
      let item : words_at mem' p m ≡ map bits ds =
        rw (store_dims-store bits ds p mem, ← long)
          (words_at-store_words (map bits ds) p mem (AllWords-bits ds)) in
      let after = repeat_item n p (4 * m) 1 mem' in
      let next : p + 4 * m ≡ p + 1 * (4 * m) = omega arith in
      let head : words_at after p m ≡ map bits ds =
        words_at-same mem' after p m
          (λ a lo hi. repeat_item-other n p (4 * m) 1 (p + 4 * m) a mem' next (inl hi))
        ∙ item in
      let rest =
        words_at-repeat_item n p m 1 (p + 4 * m) mem' (map bits ds) next (omega arith) item in
      let count : suc n * m ≡ m + n * m = grind arith in
      rw (count, words_at-append after p m (n * m), head, rest) refl

  pub write_items-below :
      (n : ℕ) (ds : List ℤ) (p a : ℕ) (mem : Memory)
      → a < p
      → repeat_item n p (4 * length ds) 1 (store_dims bits ds p mem) a ≡ mem a
  write_items-below n ds p a mem below =
      repeat_item-other n p (4 * length ds) 1 (p + 4 * length ds) a (store_dims bits ds p mem)
        (omega arith) (inl (omega arith))
      ∙ rw (store_dims-store bits ds p mem) (store_words-other (map bits ds) p a mem (inl below))
