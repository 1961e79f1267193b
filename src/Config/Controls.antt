-- ===== src/Config/Controls.antt =====
-- `GetBooleanSequenceControlProperties` and `GetTypedSequenceControlProperties` of
-- src/backend_common.cc. What the outputs hold after an error is not modelled.
pub mod Unique
use Prim.Native.String.{String}
use backend_radius_ai.Prelude.{
  ℕ, zero, suc, ◌+◌, Bool, true, false, not, ◌&&◌, ◌||◌, Option, none, some, List, [], ◌∷◌, ltb,
  ◌==◌, if◌then◌else◌,
}
use backend_radius_ai.Prelude.Int.{ℤ, wrap32}
use backend_radius_ai.Prelude.Strings.{eq_string}
use backend_radius_ai.Triton.{Result, ok, err, invalid_arg, ensure, ◌>>=◌, ◌>>◌}
use backend_radius_ai.Config.{Json}

-- Which of the outputs the caller passes a pointer for.
pub record Wanted : Type 0 where
  pub tensor_datatype : Bool
  pub fp32_false_value : Bool
  pub fp32_true_value : Bool
  pub int32_false_value : Bool
  pub int32_true_value : Bool
  pub bool_false_value : Bool
  pub bool_true_value : Bool

-- The outputs where the control is found; `none` is left as it was.
pub record Control (json : Json) : Type 0 where
  pub tensor_name : String
  pub tensor_datatype : Option String
  pub fp32_false_value : Option (Json.Float json)
  pub fp32_true_value : Option (Json.Float json)
  pub int32_false_value : Option ℤ
  pub int32_true_value : Option ℤ
  pub bool_false_value : Option Bool
  pub bool_true_value : Option Bool

-- A value that is read only where it is wanted.
abbrev if_wanted : {A B : Type 0} → Bool → Result A → (A → B) → Result (Option B)
if_wanted wanted read convert = if wanted then (read >>= λ a. ok (some (convert a))) else ok none

abbrev pub contains : String → List String → Bool
contains s [] = false
contains s (t ∷ ts) = eq_string t s || contains s ts

module _ (json : Json) where
  open json use {
    Value, narrow, find, member_as_string, array_size, index_as_object, index_as_int, index_as_bool,
    index_as_double,
  }

  -- `found_int32` and the like, with the array.
  unfoldable find_values : Value → String → Option Value
  find_values c name = elim (find c name) [
    | none ↦ none
    | some values ↦ if ltb 0 (array_size values) then some values else none
  ]

  abbrev empty_control : String → Option String → Control json
  empty_control tensor_name tensor_datatype = record {
    tensor_name = tensor_name;
    tensor_datatype = tensor_datatype;
    fp32_false_value = none;
    fp32_true_value = none;
    int32_false_value = none;
    int32_true_value = none;
    bool_false_value = none;
    bool_true_value = none;
  }

  module _ (wanted : Wanted) where
    abbrev pub datatype_out : String → Option String
    datatype_out name = if wanted.tensor_datatype then some name else none

    -- The three branches, by the one array that there is.
    unfoldable read_int32 : String → Value → Result (Control json)
    read_int32 name values = do
      ensure (array_size values == 2) invalid_arg
      off ← if_wanted wanted.int32_false_value (index_as_int values 0) wrap32
      on ← if_wanted wanted.int32_true_value (index_as_int values 1) wrap32
      ok (record (empty_control name (datatype_out "TYPE_INT32")) {
        int32_false_value = off;
        int32_true_value = on;
      })

    unfoldable read_fp32 : String → Value → Result (Control json)
    read_fp32 name values = do
      ensure (array_size values == 2) invalid_arg
      off ← if_wanted wanted.fp32_false_value (index_as_double values 0) narrow
      on ← if_wanted wanted.fp32_true_value (index_as_double values 1) narrow
      ok (record (empty_control name (datatype_out "TYPE_FP32")) {
        fp32_false_value = off;
        fp32_true_value = on;
      })

    unfoldable read_bool : String → Value → Result (Control json)
    read_bool name values = do
      ensure (array_size values == 2) invalid_arg
      off ← if_wanted wanted.bool_false_value (index_as_bool values 0) (λ b. b)
      on ← if_wanted wanted.bool_true_value (index_as_bool values 1) (λ b. b)
      ok (record (empty_control name (datatype_out "TYPE_BOOL")) {
        bool_false_value = off;
        bool_true_value = on;
      })

    abbrev read_one : String → Option Value → Option Value → Option Value → Result (Control json)
    read_one name (some int32) none none = read_int32 name int32
    read_one name none (some fp32) none = read_fp32 name fp32
    read_one name none none (some bool) = read_bool name bool
    read_one name _ _ _ = err invalid_arg

    -- What is done with a control of the kind in the Boolean function.
    unfoldable pub read_boolean : String → Value → Result (Control json)
    unfolding find_values read_int32 read_fp32 read_bool
    read_boolean name c =
        read_one name (find_values c "int32_false_true") (find_values c "fp32_false_true")
          (find_values c "bool_false_true")

    -- What is done with it in the other.
    unfoldable pub read_typed : String → Value → Result (Control json)
    unfolding find_values
    read_typed name c = do
      datatype ← if_wanted wanted.tensor_datatype (member_as_string c "data_type") (λ t. t)
      elim (find_values c "int32_false_true") [
        | some _ ↦ err invalid_arg
        | none ↦ elim (find_values c "fp32_false_true") [
          | some _ ↦ err invalid_arg
          | none ↦ elim (find_values c "bool_false_true") [
            | some _ ↦ err invalid_arg
            | none ↦ ok (empty_control name datatype)
          ]
        ]
      ]

  -- The loops, which the two functions share. `read` is what they do with a control of the kind.
  module _ (control_kind : String) (read : String → Value → Result (Control json)) where
    -- The loop over the controls of an input from `i` on, with the control found so far.
    unfoldable pub controls_loop :
        String → Value → ℕ → ℕ → Option (Control json) → Result (Option (Control json))
    controls_loop input_name controls zero i seen = ok seen
    controls_loop input_name controls (suc n) i seen = do
      c ← index_as_object controls i
      kind_str ← member_as_string c "kind"
      elim (eq_string kind_str control_kind) [
        | true ↦ elim seen [
          | some _ ↦ err invalid_arg
          | none ↦ do
            control ← read input_name c
            controls_loop input_name controls n (i + 1) (some control)
        ]
        | false ↦ controls_loop input_name controls n (i + 1) seen
      ]

    -- The controls of one input.
    unfoldable pub input_controls :
        String → Value → Option (Control json) → Result (Option (Control json))
    unfolding controls_loop
    input_controls input_name control_input seen = elim (find control_input "control") [
      | none ↦ ok seen
      | some controls ↦ controls_loop input_name controls (array_size controls) 0 seen
    ]

    -- The loop over the control inputs from `i` on, with the names seen.
    unfoldable pub inputs_loop :
        Value → ℕ → ℕ → List String → Option (Control json) → Result (Option (Control json))
    unfolding input_controls
    inputs_loop inputs zero i seen_tensors seen = ok seen
    inputs_loop inputs (suc n) i seen_tensors seen = do
      control_input ← index_as_object inputs i
      input_name ← member_as_string control_input "name"
      ensure (not (eq_string input_name "")) invalid_arg
      ensure (not (contains input_name seen_tensors)) invalid_arg
      seen' ← input_controls input_name control_input seen
      inputs_loop inputs n (i + 1) (input_name ∷ seen_tensors) seen'

    -- The loop, where there are control inputs.
    unfoldable pub find_control : Value → Result (Option (Control json))
    unfolding inputs_loop
    find_control batcher = elim (find batcher "control_input") [
      | none ↦ ok none
      | some inputs ↦ inputs_loop inputs (array_size inputs) 0 [] none
    ]

    -- The result is `none` where the tensor's name is cleared.
    unfoldable pub get_control : Value → Bool → Result (Option (Control json))
    unfolding find_control
    get_control batcher required = do
      seen ← find_control batcher
      elim seen [
        | some control ↦ ok (some control)
        | none ↦ if required then err invalid_arg else ok none
      ]

  unfoldable pub get_boolean_sequence_control_properties :
      Wanted → Value → String → Bool → Result (Option (Control json))
  unfolding get_control read_boolean
  get_boolean_sequence_control_properties wanted batcher control_kind required =
      get_control control_kind (read_boolean wanted) batcher required

  unfoldable pub get_typed_sequence_control_properties :
      Wanted → Value → String → Bool → Result (Option (Control json))
  unfolding get_control read_typed
  get_typed_sequence_control_properties wanted batcher control_kind required =
      get_control control_kind (read_typed wanted) batcher required
