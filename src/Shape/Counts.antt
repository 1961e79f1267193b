-- ===== src/Shape/Counts.antt =====
-- Which numbers `GetElementCount` and `GetByteSize` return.
use native.Mathlib.Nat.{add-mul, mul_assoc, mod-eq_of_lt}
use backend_radius_ai.Prelude.{
  suc, ◌/◌, ℕ, ◌+◌, ◌-◌, ◌*◌, ◌%◌, ◌≤◌, ◌<◌, ◌≡◌, ◌≢◌, refl, ap, sym, ◌∙◌, Bool, true, false, List,
  [], ◌∷◌, map, arith, zero, ltb, ◌⊎◌, Option, some, none, take, if◌then◌else◌, inl, inr,
  Bool-cases,
}
use backend_radius_ai.Prelude.Int.{
  ℤ, pos, negsuc, ◌*ℤ◌, ◌==ℤ◌, wrap64, to_u64, of_u64, u64_mod, i64_half,
}
use backend_radius_ai.Triton.{DataType}
use backend_radius_ai.Shape.{wildcard_dim, element_count_loop, element_count, byte_size}

abbrev pub product : List ℕ → ℕ
product [] = 1
product (d ∷ ds) = d * product ds

abbrev pub HasWildcard : List ℤ → Type 0
HasWildcard [] = ⊥
HasWildcard (d ∷ ds) = (d ≡ wildcard_dim) ⊎ HasWildcard ds

pub to_u64-of_u64 : (u : ℕ) → u < u64_mod → to_u64 (of_u64 u) ≡ u
unfolding to_u64 of_u64
to_u64-of_u64 u h = ground arith

-- A negative number times a natural number, in two's complement.
to_u64-negsuc-mul :
    (k t d : ℕ) → t + suc k * d ≡ u64_mod * d → to_u64 (negsuc k *ℤ pos d) ≡ t % u64_mod
unfolding to_u64 ◌*ℤ◌
to_u64-negsuc-mul k t d h = ground arith

to_u64-pos-mul : (u d : ℕ) → to_u64 (pos u *ℤ pos d) ≡ u * d % u64_mod
unfolding to_u64 ◌*ℤ◌
to_u64-pos-mul u d = ground arith

not_wildcard : (d : ℕ) → (pos d ==ℤ wildcard_dim) ≡ false
not_wildcard d = ground arith

to_u64-mul : (u d : ℕ) → u < u64_mod → to_u64 (of_u64 u *ℤ pos d) ≡ u * d % u64_mod
unfolding of_u64
to_u64-mul u d h = elim (Bool-cases (ltb u i64_half)) [
  | inl low ↦ rw low (to_u64-pos-mul u d)
  | inr high ↦
      let parts : u + suc (u64_mod - 1 - u) ≡ u64_mod = omega arith in
      let split : u * d + suc (u64_mod - 1 - u) * d ≡ u64_mod * d =
        sym (add-mul u (suc (u64_mod - 1 - u)) d) ∙ ap (λ t. t * d) parts in
      rw high (to_u64-negsuc-mul (u64_mod - 1 - u) (u * d) d split)
]

wrap64-mul : (u d : ℕ) → u < u64_mod → wrap64 (of_u64 u *ℤ pos d) ≡ of_u64 (u * d % u64_mod)
unfolding wrap64
wrap64-mul u d h = ap of_u64 (to_u64-mul u d h)

mod-mul : (p d : ℕ) → p % u64_mod * d % u64_mod ≡ p * d % u64_mod
mod-mul p d =
    let parts : p ≡ u64_mod * (p / u64_mod) + p % u64_mod = omega arith in
    omega (arith, ap (λ t. t * d) parts)

loop-product :
    (p : ℕ) (ds : List ℕ)
    → element_count_loop false (of_u64 (p % u64_mod)) (map pos ds)
      ≡ of_u64 (p * product ds % u64_mod)
unfolding element_count_loop
loop-product p [] = ap (λ t. of_u64 (t % u64_mod)) (omega arith)
loop-product p (d ∷ ds) =
    let round : wrap64 (of_u64 (p % u64_mod) *ℤ pos d) ≡ of_u64 (p * d % u64_mod) =
      wrap64-mul (p % u64_mod) d (omega arith) ∙ ap of_u64 (mod-mul p d) in
    rw (not_wildcard d, round)
      (loop-product (p * d) ds ∙ ap (λ t. of_u64 (t % u64_mod)) (mul_assoc p d (product ds)))

-- With the wrap-around of the definition, a shape of one dimension or more, none of them negative
-- and the first below 2 ^ 63, has as many elements as the product of its dimensions, modulo 2 ^ 64 and read as a signed number.
element_count-product :
    (d : ℕ) (ds : List ℕ)
    → d < i64_half
    → element_count (map pos (d ∷ ds)) ≡ of_u64 (product (d ∷ ds) % u64_mod)
unfolding element_count
element_count-product d ds h =
    let start : pos d ≡ of_u64 (d % u64_mod) = unfold of_u64 in ground arith in
    rw (not_wildcard d, start) (loop-product d ds)

-- So the count is exact where it fits.
element_count_exact :
    (d : ℕ) (ds : List ℕ)
    → d < i64_half
    → product (d ∷ ds) < i64_half
    → element_count (map pos (d ∷ ds)) ≡ pos (product (d ∷ ds))
element_count_exact d ds h fits = element_count-product d ds h ∙ (unfold of_u64 in ground arith)

-- A dimension, where a wildcard is `none`.
abbrev pub dim : Option ℕ → ℤ
dim none = wildcard_dim
dim (some d) = pos d

-- The dimensions in front of the first wildcard.
abbrev pub before_wildcard : List (Option ℕ) → List ℕ
before_wildcard [] = []
before_wildcard (none ∷ ds) = []
before_wildcard (some d ∷ ds) = d ∷ before_wildcard ds

abbrev pub has_wildcard : List (Option ℕ) → Bool
has_wildcard [] = false
has_wildcard (none ∷ ds) = true
has_wildcard (some d ∷ ds) = has_wildcard ds

-- What a shape is to count: -1 with a wildcard, 0 without a dimension, else the product.
abbrev pub expected_count : List (Option ℕ) → ℤ
expected_count [] = pos 0
expected_count ds = if has_wildcard ds then negsuc 0 else pos (product (before_wildcard ds))

wrap64-small : (p d : ℕ) → p * d < i64_half → wrap64 (pos p *ℤ pos d) ≡ pos (p * d)
unfolding wrap64 to_u64 of_u64 ◌*ℤ◌
wrap64-small p d small = ground arith

loop_lem :
    (p : ℕ) (ds : List (Option ℕ))
    → ((n : ℕ) → p * product (take n (before_wildcard ds)) < i64_half)
    → element_count_loop false (pos p) (map dim ds)
      ≡ (if has_wildcard ds then negsuc 0 else pos (p * product (before_wildcard ds)))
unfolding element_count_loop
loop_lem p [] small = ap pos (omega arith)
loop_lem p (none ∷ ds) small = refl
loop_lem p (some d ∷ ds) small =
    let next : (n : ℕ) → p * d * product (take n (before_wildcard ds)) < i64_half =
      λ n. rw (mul_assoc p d (product (take n (before_wildcard ds)))) (small (suc n)) in
    rw (not_wildcard d, wrap64-small p d (omega (arith, next 0)))
      (rw (← mul_assoc p d (product (before_wildcard ds))) (loop_lem (p * d) ds next))

-- Let no dimension of a shape be negative but for wildcards, and the product of its first
-- dimensions, of any number of them in front of the first wildcard, be below 2 ^ 63. Then the
-- element count is -1 if some dimension is a wildcard, 0 if there is no dimension, and else the
-- product of all.
pub element_count_lem :
    (ds : List (Option ℕ))
    → ((n : ℕ) → product (take n (before_wildcard ds)) < i64_half)
    → element_count (map dim ds) ≡ expected_count ds
unfolding element_count element_count_loop
element_count_lem [] small = refl
element_count_lem (none ∷ ds) small = refl
element_count_lem (some d ∷ ds) small = rw (not_wildcard d) (loop_lem d ds (λ n. small (suc n)))

loop-wildcard :
    (first : Bool) (cnt : ℤ) (dims : List ℤ)
    → HasWildcard dims
    → element_count_loop first cnt dims ≡ negsuc 0
unfolding element_count_loop
loop-wildcard first cnt [] h = absurd h
loop-wildcard first cnt (d ∷ ds) (inl e) = rw e
loop-wildcard first cnt (d ∷ ds) (inr h) = elim (Bool-cases (d ==ℤ wildcard_dim)) [
  | inl here ↦ rw here
  | inr there ↦ rw (there, loop-wildcard false _ ds h)
]

-- One wildcard dimension, wherever it stands, makes the count -1.
element_count-wildcard : (dims : List ℤ) → HasWildcard dims → element_count dims ≡ negsuc 0
unfolding element_count
element_count-wildcard dims h = loop-wildcard true (pos 0) dims h

le-mul_self : (p k : ℕ) → k ≢ 0 → p ≤ p * k
le-mul_self p zero h = absurd (h refl)
le-mul_self p (suc k) h = grind arith

of_u64-exact :
    (p k : ℕ)
    → p < i64_half
    → p * k < i64_half
    → of_u64 (to_u64 (pos p) * k % u64_mod) ≡ pos (p * k)
unfolding to_u64 of_u64
of_u64-exact p k h fits = rw (mod-eq_of_lt {n = p} {m = u64_mod} (omega arith)) (ground arith)

-- The byte size of a shape of one dimension or more, none of them negative and the first below 2
-- ^ 63, is the product of its dimensions and of the size of an element, where that size is not 0
-- and the result is below 2 ^ 63.
pub byte_size_exact :
    (sizes : DataType → ℕ) (dtype : DataType) (d : ℕ) (ds : List ℕ)
    → sizes dtype ≢ 0
    → d < i64_half
    → product (d ∷ ds) * sizes dtype < i64_half
    → byte_size sizes dtype (map pos (d ∷ ds)) ≡ pos (product (d ∷ ds) * sizes dtype)
unfolding byte_size
byte_size_exact sizes dtype d ds nonzero h fits =
    let count_fits : product (d ∷ ds) < i64_half =
      omega (arith, le-mul_self (product (d ∷ ds)) (sizes dtype) nonzero) in
    rw (element_count_exact d ds h count_fits)
      (ground (arith, nonzero, of_u64-exact (product (d ∷ ds)) (sizes dtype) count_fits fits))

-- It is -1 where the size of an element or the number of elements is not known.
byte_size_unknown :
    (sizes : DataType → ℕ) (dtype : DataType) (dims : List ℤ)
    → (sizes dtype ≡ 0) ⊎ HasWildcard dims
    → byte_size sizes dtype dims ≡ negsuc 0
unfolding byte_size
byte_size_unknown sizes dtype dims (inl e) = rw e
byte_size_unknown sizes dtype dims (inr h) = rw (element_count-wildcard dims h) (ground arith)
