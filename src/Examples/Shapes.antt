-- ===== src/Examples/Shapes.antt =====
-- Shapes.
use backend_radius_ai.Prelude.{ℕ, zero, suc, ◌<◌, ◌≡◌, refl, some, [], ◌∷◌, take, arith}
use backend_radius_ai.Prelude.Int.{pos, i64_half}
use backend_radius_ai.Triton.{int16}
use backend_radius_ai.Shape.{element_count, byte_size}
use backend_radius_ai.Shape.Counts.{product, before_wildcard, element_count_lem, byte_size_exact}

empty_product : (n : ℕ) → product (take n []) ≡ 1
empty_product zero = refl
empty_product (suc n) = refl

small_shape :
    (n : ℕ) → product (take n (before_wildcard (some 2 ∷ some 3 ∷ some 4 ∷ []))) < i64_half
small_shape zero = omega arith
small_shape (suc zero) = omega arith
small_shape (suc (suc zero)) = omega arith
small_shape (suc (suc (suc n))) = omega (arith, empty_product n)

element_count_lem_example : element_count (pos 2 ∷ pos 3 ∷ pos 4 ∷ []) ≡ pos 24
element_count_lem_example = element_count_lem (some 2 ∷ some 3 ∷ some 4 ∷ []) small_shape

byte_size_exact_example : byte_size (λ t. 2) int16 (pos 2 ∷ pos 3 ∷ []) ≡ pos 12
byte_size_exact_example =
    byte_size_exact (λ t. 2) int16 2 (3 ∷ []) (λ e. omega (arith, e)) (omega arith) (omega arith)
