-- ===== src/Triton.antt =====
-- What the library takes from the Triton headers by name: memory types, data types, error codes,
-- and `TRITONSERVER_Error*` results, with `RETURN_IF_ERROR` as bind
-- (include/triton/backend/backend_common.h).

use backend_radius_ai.Prelude.{Bool, true, false, if◌then◌else◌}

pub data MemoryType : Type 0 where
  cpu cpu_pinned gpu : MemoryType

abbrev pub eq_memory : MemoryType → MemoryType → Bool
eq_memory cpu cpu = true
eq_memory cpu_pinned cpu_pinned = true
eq_memory gpu gpu = true
eq_memory _ _ = false

pub data DataType : Type 0 where
  invalid bool uint8 uint16 uint32 uint64 int8 int16 int32 int64 fp16 fp32 fp64 bytes bf16 :
      DataType

pub data ErrorCode : Type 0 where
  unknown internal not_found invalid_arg unavailable unsupported already_exists : ErrorCode

-- The answer of a call that returns a `TRITONSERVER_Error*`: `ok` holds the outputs where that is
-- `nullptr`. Of an error only the code is modelled, not the message.
pub data Result {ℓ} (Output : Type ℓ) : Type ℓ where
  ok : Output → Result Output
  err : ErrorCode → Result Output

-- `RETURN_ERROR_IF_FALSE`
abbrev pub ensure : Bool → ErrorCode → Result (Unit {0})
ensure holds code = if holds then ok tt else err code

-- `RETURN_IF_ERROR`, where what follows uses the outputs, and where there are none.
module _ {ℓ κ} {Output : Type ℓ} {Next : Type κ} where
  infixl 5 ◌>>=◌
  abbrev pub ◌>>=◌ : Result Output → (Output → Result Next) → Result Next
  err code >>= rest = err code
  ok output >>= rest = rest output

module _ {κ} {Next : Type κ} where
  infixl 5 ◌>>◌
  abbrev pub ◌>>◌ : Result (Unit {0}) → Result Next → Result Next
  answer >> rest = answer >>= λ _. rest
