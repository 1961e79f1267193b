-- ===== src/Config/Batches.antt =====
-- The batch inputs and outputs of a model's configuration: `ParseShape`, `BatchInput::Init`, and the
-- two `ParseFromModelConfig` of src/backend_common.cc. What the lists hold after an error is
-- not modelled.
pub mod Described
use Prim.Native.String.{String}
use backend_radius_ai.Prelude.{
  ℕ, zero, suc, ◌+◌, Bool, true, false, not, Option, none, some, List, [], ◌∷◌, ◌++◌, if◌then◌else◌,
  get_or,
}
use backend_radius_ai.Prelude.Int.{ℤ, pos, negsuc, ◌==ℤ◌}
use backend_radius_ai.Prelude.Strings.{eq_string}
use backend_radius_ai.Triton.{DataType, invalid, Result, ok, err, invalid_arg, ensure, ◌>>=◌, ◌>>◌}
use backend_radius_ai.BatchInput.{Kind}
use backend_radius_ai.Config.{Json, each_entry}
use backend_radius_ai.Config.DataTypes.{data_type_of}

-- `BatchInput`; its string of the kind is that of `kind`.
pub record BatchInputConfig : Type 0 where
  pub target_names : List String
  pub kind : Kind
  pub data_type : DataType
  pub source_inputs : List String

-- `BatchOutput`, of the one kind there is.
pub record BatchOutputConfig : Type 0 where
  pub target_names : List String
  pub data_type : DataType
  pub shape : List ℤ
  pub source_inputs : List String

-- The chain of tests on the kind.
unfoldable pub kind_of : String → Result Kind
unfolding eq_string
kind_of kind_str =
    if eq_string kind_str "BATCH_ELEMENT_COUNT"
    then ok Kind.element_count
    else if eq_string kind_str "BATCH_ACCUMULATED_ELEMENT_COUNT"
    then ok Kind.accumulated_element_count
    else if eq_string kind_str "BATCH_ACCUMULATED_ELEMENT_COUNT_WITH_ZERO"
    then ok Kind.accumulated_element_count_with_zero
    else if eq_string kind_str "BATCH_MAX_ELEMENT_COUNT_AS_SHAPE"
    then ok Kind.max_element_count_as_shape
    else if eq_string kind_str "BATCH_ITEM_SHAPE"
    then ok Kind.item_shape
    else if eq_string kind_str "BATCH_ITEM_SHAPE_FLATTEN"
    then ok Kind.item_shape_flatten
    else err invalid_arg

-- The data type, unless it is the invalid one.
unfoldable pub valid_data_type : DataType → Result DataType
valid_data_type invalid = err invalid_arg
valid_data_type t = ok t

module _ (json : Json) where
  open json use {
    Value, find, member_as_array, member_as_string, member_as_int, array_size, index_as_object,
    index_as_string, index_as_int,
  }

  -- `ParseShape`, with what it appends.
  unfoldable parse_shape : Value → String → Result (List ℤ)
  parse_shape io name = do
    array ← member_as_array io name
    each_entry (index_as_int array) (array_size array) 0

  -- The strings of an array.
  unfoldable pub parse_names : Value → String → Result (List String)
  parse_names config name = do
    array ← member_as_array config name
    each_entry (index_as_string array) (array_size array) 0

  -- `BatchInput::Init`
  unfoldable pub init : Value → Result BatchInputConfig
  unfolding parse_names kind_of valid_data_type data_type_of
  init config = do
    target_names ← parse_names config "target_name"
    kind_str ← member_as_string config "kind"
    kind ← kind_of kind_str
    dtype ← member_as_string config "data_type"
    data_type ← valid_data_type (data_type_of dtype)
    source_inputs ← parse_names config "source_input"
    ok (record {
      target_names = target_names;
      kind = kind;
      data_type = data_type;
      source_inputs = source_inputs;
    })

  -- `BatchInput::ParseFromModelConfig`
  unfoldable pub parse_batch_inputs : Value → Result (List BatchInputConfig)
  unfolding init
  parse_batch_inputs config = do
    array ← member_as_array config "batch_input"
    each_entry (λ i. index_as_object array i >>= init) (array_size array) 0

  -- The data type and the dimensions of an output: those of its `reshape`, where it has one.
  unfoldable parse_output : Value → Result (DataType × List ℤ)
  unfolding parse_shape data_type_of
  parse_output io = do
    dtype ← member_as_string io "data_type"
    shape ← elim (find io "reshape") [
      | some reshape ↦ parse_shape reshape "shape"
      | none ↦ parse_shape io "dims"
    ]
    ok (data_type_of dtype, shape)

  -- The loop over the outputs from `i` on, up to the first of the name.
  unfoldable pub find_output : Value → String → ℕ → ℕ → Result (Option (DataType × List ℤ))
  unfolding parse_output
  find_output ios name zero i = ok none
  find_output ios name (suc n) i = do
    io ← index_as_object ios i
    io_name ← member_as_string io "name"
    elim (eq_string io_name name) [
      | true ↦ parse_output io >>= λ found. ok (some found)
      | false ↦ find_output ios name n (i + 1)
    ]

  -- One batch output. `stale_name` is read as the first target where there is none, `stale_type` is
  -- the uninitialized data type where no output has the name.
  unfoldable parse_batch_output : String → DataType → Value → Value → Result BatchOutputConfig
  unfolding parse_names find_output
  parse_batch_output stale_name stale_type config bo = do
    target_names ← parse_names bo "target_name"
    kind ← member_as_string bo "kind"
    ensure (eq_string kind "BATCH_SCATTER_WITH_INPUT_SHAPE") invalid_arg
    mbs ← member_as_int config "max_batch_size"
    ios ← member_as_array config "output"
    found ← find_output ios (get_or target_names 0 stale_name) (array_size ios) 0
    source_inputs ← parse_names bo "source_input"
    let batch = if mbs ==ℤ pos 0 then [] else negsuc 0 ∷ []
    ok (record {
      target_names = target_names;
      data_type = elim found [ some (t, dims) ↦ t | none ↦ stale_type ];
      shape = elim found [ some (t, dims) ↦ batch ++ dims | none ↦ batch ];
      source_inputs = source_inputs;
    })

  -- `BatchOutput::ParseFromModelConfig`
  unfoldable pub parse_batch_outputs : String → DataType → Value → Result (List BatchOutputConfig)
  unfolding parse_batch_output
  parse_batch_outputs stale_name stale_type config = do
    array ← member_as_array config "batch_output"
    each_entry (λ i. index_as_object array i >>= parse_batch_output stale_name stale_type config)
        (array_size array) 0
