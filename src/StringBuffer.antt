-- ===== src/StringBuffer.antt =====
-- `ValidateStringBuffer` of src/backend_common.cc. Memory is a function from addresses to bytes,
-- and a `uint32_t` is read from it in little-endian order, as on the hosts that Triton runs on.
pub mod Chain
mod Loop
pub mod Verdict
pub mod Encoding
use backend_radius_ai.Prelude.{
  ℕ, zero, suc, ◌+◌, ◌-◌, ◌*◌, ◌<◌, Bool, Option, none, some, List, [], ◌∷◌, ◌++◌, ltb, leb, ◌==◌,
  if◌then◌else◌,
}
use backend_radius_ai.Machine.{Memory}
use backend_radius_ai.Triton.{Result, ok, err, invalid_arg, internal}

abbrev pub read_u32 : Memory → ℕ → ℕ
read_u32 mem p = mem p + 256 * mem (p + 1) + 65536 * mem (p + 2) + 16777216 * mem (p + 3)

-- What a call leaves: its error, and the (address, length) pairs that it appended to `*str_list`.
abbrev pub Outcome : Type 0
Outcome = Result (Unit {0}) × List (ℕ × ℕ)

-- `want` says whether `str_list` is given; without it nothing is appended.
pub append_span : Bool → ℕ → ℕ → List (ℕ × ℕ) → List (ℕ × ℕ)
append_span want p len spans = if want then spans ++ (p, len) ∷ [] else spans

-- The `while` loop, then the test behind it; `none` means that the fuel ran out.
pub validate_loop : ℕ → Memory → ℕ → Bool → ℕ → ℕ → ℕ → List (ℕ × ℕ) → Option Outcome
validate_loop zero mem expected want buffer remaining idx spans = none
validate_loop (suc fuel) mem expected want buffer remaining idx spans =
    let len = read_u32 mem buffer in
    let rest =
      validate_loop fuel mem expected want (buffer + 4 + len) (remaining - 4 - len) (idx + 1)
        (append_span want (buffer + 4) len spans) in
    if leb 4 remaining
    then if leb expected idx
      then some (err invalid_arg, spans)
      else if ltb (remaining - 4) len
      then some (err invalid_arg, spans)
      else rest
    else if idx == expected
    then some (ok tt, spans)
    else some (err internal, spans)

-- Each round takes four bytes or more, so `buffer_byte_size + 1` rounds are enough.
unfoldable pub validate_string_buffer : Memory → ℕ → ℕ → ℕ → Bool → Option Outcome
unfolding validate_loop append_span
validate_string_buffer mem buffer buffer_byte_size expected want =
    validate_loop (suc buffer_byte_size) mem expected want buffer buffer_byte_size 0 []
