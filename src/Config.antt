-- ===== src/Config.antt =====
-- What the library reads from a model's configuration (src/backend_common.cc). The JSON
-- library TritonJson is a parameter: a value answers for its members and entries.
pub mod Chains
pub mod DataTypes
pub mod Batches
pub mod Controls
use Prim.Native.String.{String}
use backend_radius_ai.Prelude.{ℕ, Bool, Option, List, [], ◌∷◌, zero, suc, ◌+◌}
use backend_radius_ai.Prelude.Int.{ℤ}
use backend_radius_ai.Triton.{Result, ok, err, ◌>>=◌}

pub record Json : Type 1 where
  pub Value : Type 0
  pub Double : Type 0
  pub Float : Type 0
  -- the conversion of a double to a float
  pub narrow : Double → Float
  -- Find
  pub find : Value → String → Option Value
  -- MemberAsArray, MemberAsString, MemberAsInt, MemberAsBool
  pub member_as_array : Value → String → Result Value
  pub member_as_string : Value → String → Result String
  pub member_as_int : Value → String → Result ℤ
  pub member_as_bool : Value → String → Result Bool
  -- ArraySize
  pub array_size : Value → ℕ
  -- IndexAsObject, IndexAsString, IndexAsInt, IndexAsBool, IndexAsDouble
  pub index_as_object : Value → ℕ → Result Value
  pub index_as_string : Value → ℕ → Result String
  pub index_as_int : Value → ℕ → Result ℤ
  pub index_as_bool : Value → ℕ → Result Bool
  pub index_as_double : Value → ℕ → Result Double
  -- AsBool
  pub as_bool : Value → Result Bool

-- `for (size_t i = 0; i < n; ++i)` over calls that return one entry each: `n` rounds from `i` on, up
-- to the first error.
abbrev pub each_entry : {A : Type 0} → (ℕ → Result A) → ℕ → ℕ → Result (List A)
each_entry read zero i = ok []
each_entry read (suc n) i = read i >>= λ a. each_entry read n (i + 1) >>= λ as'. ok (a ∷ as')
