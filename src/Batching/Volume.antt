-- ===== src/Batching/Volume.antt =====
-- examples/batching_strategies/volume_batching/src/volume_batching.cc. A batch's placeholder is the
-- volume that is left of it. `unsigned int` has 32 bits and `size_t` 64.
pub mod Bound
use Prim.Native.String.{String}
use backend_radius_ai.Prelude.{
  ℕ, zero, suc, ◌+◌, ◌-◌, ◌%◌, Bool, true, false, Option, none, some, leb, if◌then◌else◌,
}
use backend_radius_ai.Triton.{Result, ok, err, ErrorCode, not_found, invalid_arg, ◌>>=◌}

abbrev pub u32_mod : ℕ
u32_mod = 4294967296

-- The calls on a request and its inputs.
pub record RequestApi : Type 1 where
  pub Request : Type 0
  pub Input : Type 0
  -- TRITONBACKEND_RequestInputCount
  pub input_count : Request → Result ℕ
  -- TRITONBACKEND_RequestInputByIndex
  pub input_by_index : Request → ℕ → Result Input
  -- TRITONBACKEND_InputProperties, of which only the byte size is read
  pub input_byte_size : Input → Result ℕ

-- What the server and the JSON library answer when the model configuration is read.
pub data Stoul : Type 0 where
  parsed : ℕ → Stoul
  invalid_argument out_of_range : Stoul

pub record ConfigApi : Type 0 where
  -- TRITONSERVER_MessageSerializeToJson
  pub serialize : Result (Unit {0})
  -- `Find("parameters")`
  pub has_parameters : Bool
  -- `Find("MAX_BATCH_VOLUME_BYTES")`, and then its `string_value`
  pub max_volume : Option (Result String)
  -- `std::stoul`
  pub stoul : String → Stoul

-- A function that may throw: `none` is an exception that it does not catch.
abbrev pub Throwing : Type 0 → Type 0
Throwing A = Option A

module _ (api : RequestApi) where
  open api use {Request, Input, input_count, input_by_index, input_byte_size}

  -- The size of one input, as the loop's body reads it.
  pub input_volume : Request → ℕ → Result ℕ
  input_volume request count = input_by_index request count >>= λ input. input_byte_size input

  -- The loop from input `count` on, for `n` of them.
  pub pending_volume_loop : Request → ℕ → ℕ → ℕ → Result ℕ
  unfolding input_volume
  pending_volume_loop request zero count pending_volume = ok pending_volume
  pending_volume_loop request (suc n) count pending_volume =
      input_volume request count >>= λ data_byte_size.
      pending_volume_loop request n (count + 1)
        ((pending_volume + data_byte_size % u32_mod) % u32_mod)

  -- The error, `*should_include`, and the placeholder afterwards.
  unfoldable pub include_request : Request → ℕ → Result (Unit {0}) × Bool × ℕ
  unfolding pending_volume_loop
  include_request request remaining_volume =
      elim (input_count request >>= λ n. pending_volume_loop request n 0 0) [
        | err e ↦ (err e, false, remaining_volume)
        | ok pending_volume ↦
            if leb pending_volume remaining_volume
            then (ok tt, true, remaining_volume - pending_volume)
            else (ok tt, false, remaining_volume)
      ]

-- A new batch starts with the batcher's volume.
unfoldable pub batch_initialize : ℕ → ℕ
batch_initialize batcher = batcher

of_stoul : Stoul → Throwing (Result ℕ)
of_stoul (parsed n) = some (ok (n % u32_mod))
of_stoul invalid_argument = some (err invalid_arg)
of_stoul out_of_range = none

of_parameter : ConfigApi → Option (Result String) → Throwing (Result ℕ)
unfolding of_stoul
of_parameter config none = some (err not_found)
of_parameter config (some (err e)) = some (err e)
of_parameter config (some (ok value)) = of_stoul (config.stoul value)

-- The batcher that a model's configuration asks for.
unfoldable pub batcher_initialize : ConfigApi → Throwing (Result ℕ)
unfolding of_parameter
batcher_initialize config = elim config.serialize [
  | err e ↦ some (err e)
  | ok _ ↦
      if config.has_parameters then of_parameter config config.max_volume else some (err not_found)
]
