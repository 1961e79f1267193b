-- ===== src/Shape.antt =====
-- Element counts and byte sizes of shapes (src/backend_common.cc).
pub mod Counts
use backend_radius_ai.Prelude.{ℕ, ◌*◌, ◌%◌, Bool, true, false, List, [], ◌∷◌, if◌then◌else◌, ◌==◌}
use backend_radius_ai.Prelude.Int.{ℤ, pos, negsuc, ◌*ℤ◌, ◌==ℤ◌, wrap64, to_u64, of_u64, u64_mod}
use backend_radius_ai.Triton.{DataType}

abbrev pub wildcard_dim : ℤ
wildcard_dim = negsuc 0

-- The loop of `GetElementCount` from one dimension on. Where the product overflows, which C++ leaves
-- undefined, this is the value of a build that wraps around, as GCC makes with -fwrapv.
element_count_loop : Bool → ℤ → List ℤ → ℤ
element_count_loop first cnt [] = cnt
element_count_loop first cnt (d ∷ ds) =
    let rest = element_count_loop false (if first then d else wrap64 (cnt *ℤ d)) ds in
    if d ==ℤ wildcard_dim then negsuc 0 else rest

unfoldable pub element_count : List ℤ → ℤ
unfolding element_count_loop wrap64 ◌*ℤ◌
element_count dims = element_count_loop true (pos 0) dims

-- `data_type_byte_size` is `TRITONSERVER_DataTypeByteSize`. The product is of an `int64_t` and a
-- `size_t`, so it is made in 64 unsigned bits.
unfoldable pub byte_size : (DataType → ℕ) → DataType → List ℤ → ℤ
byte_size data_type_byte_size dtype dims =
    let dt_size = data_type_byte_size dtype in
    let cnt = element_count dims in
    if dt_size == 0
    then negsuc 0
    else if cnt ==ℤ negsuc 0
    then negsuc 0
    else of_u64 (to_u64 cnt * dt_size % u64_mod)
