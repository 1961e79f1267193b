-- ===== src/Examples/Configurations.antt =====
-- Configurations, a batch input and a sequence control, and a model made of them.
use Prim.Native.String.{String}
use backend_radius_ai.Prelude.{
  ℕ, zero, suc, ◌≡◌, ◌↔◌, refl, Bool, true, false, Option, none, some, List, [], ◌∷◌, length,
  if◌then◌else◌, inl,
}
use backend_radius_ai.Prelude.Int.{ℤ, pos, negsuc, wrap32}
use backend_radius_ai.Prelude.Strings.{eq_string}
use backend_radius_ai.Triton.{int32, fp32, Result, ok, err, invalid_arg}
use backend_radius_ai.BatchInput.{Kind}
use backend_radius_ai.Config.{Json}
use backend_radius_ai.Config.Batches.{BatchInputConfig, BatchOutputConfig, parse_batch_inputs}
use backend_radius_ai.Config.Batches.Described.{DescribesAll, parse_batch_inputs_iff}
use backend_radius_ai.Config.Controls.{Wanted, Control, get_boolean_sequence_control_properties}
use backend_radius_ai.Config.Controls.Unique.{Unique, get_sequence_control_properties-Unique}
use backend_radius_ai.Model.{
  BackendModel, ModelCalls, filesystem, new_model, set_model_config, find_batch_output,
  OutputPointer, pointee,
}
use backend_radius_ai.Model.Outputs.{
  bind_option, first_named, new_model-find, set_model_config-stale,
}
use backend_radius_ai.Model.Inputs.{KnowsInputs, new_model-KnowsInputs}

-- An object is a chain of members, an array one of entries, both end in `nil`.
pub data Node : Type 0 where
  nil : Node
  member : String → Node → Node → Node
  entry : Node → Node → Node
  text : String → Node
  number : ℤ → Node
  boolean : Bool → Node

abbrev find : Node → String → Option Node
find (member k v rest) name = if eq_string k name then some v else find rest name
find _ name = none

abbrev at : Node → ℕ → Result Node
at (entry v rest) zero = ok v
at (entry v rest) (suc i) = at rest i
at _ i = err invalid_arg

abbrev as_text : Node → Result String
as_text (text s) = ok s
as_text _ = err invalid_arg

abbrev as_number : Node → Result ℤ
as_number (number z) = ok z
as_number _ = err invalid_arg

abbrev as_boolean : Node → Result Bool
as_boolean (boolean b) = ok b
as_boolean _ = err invalid_arg

abbrev as_chain : Node → Result Node
as_chain nil = ok nil
as_chain (entry v rest) = ok (entry v rest)
as_chain (member k v rest) = ok (member k v rest)
as_chain _ = err invalid_arg

abbrev array_size : Node → ℕ
array_size (entry v rest) = suc (array_size rest)
array_size _ = 0

abbrev then_as : {A : Type 0} → Option Node → (Node → Result A) → Result A
then_as none read = err invalid_arg
then_as (some v) read = read v

abbrev entry_as : {A : Type 0} → Result Node → (Node → Result A) → Result A
entry_as (err e) read = err e
entry_as (ok v) read = read v

abbrev pub json : Json
json = record {
  Value = Node;
  Double = ℤ;
  Float = ℤ;
  narrow = λ z. z;
  find = find;
  member_as_array = λ v name. then_as (find v name) as_chain;
  member_as_string = λ v name. then_as (find v name) as_text;
  member_as_int = λ v name. then_as (find v name) as_number;
  member_as_bool = λ v name. then_as (find v name) as_boolean;
  array_size = array_size;
  index_as_object = λ v i. entry_as (at v i) as_chain;
  index_as_string = λ v i. entry_as (at v i) as_text;
  index_as_int = λ v i. entry_as (at v i) as_number;
  index_as_bool = λ v i. entry_as (at v i) as_boolean;
  index_as_double = λ v i. entry_as (at v i) as_number;
  as_bool = as_boolean;
}

abbrev batch_inputs : Node
batch_inputs =
    entry
      (member "target_name" (entry (text "COUNT") nil) (
        member "kind" (text "BATCH_ELEMENT_COUNT") (
          member "data_type" (text "TYPE_FP32")
            (member "source_input" (entry (text "IN0") nil) nil))))
      nil

abbrev counts : List BatchInputConfig
counts =
    record {
      target_names = "COUNT" ∷ [];
      kind = Kind.element_count;
      data_type = fp32;
      source_inputs = "IN0" ∷ [];
    }
    ∷ []

parse_batch_inputs_iff_example :
    (parse_batch_inputs json (member "batch_input" batch_inputs nil) ≡ ok counts) ↔ (
      (array : Node) × (Json.member_as_array json
          (member "batch_input" batch_inputs nil)
          "batch_input"
        ≡ ok array)
      × (length counts ≡ array_size array)
      × DescribesAll json array 0 counts)
parse_batch_inputs_iff_example =
    parse_batch_inputs_iff json (member "batch_input" batch_inputs nil) counts

-- An input START with one control of the kind.
abbrev batcher : Node
batcher =
    member "control_input"
      (entry
        (member "name" (text "START") (
          member "control"
            (entry
              (member "kind" (text "CONTROL_SEQUENCE_START") (
                member "int32_false_true" (entry (number (pos 0)) (entry (number (pos 1)) nil))
                  nil))
              nil)
            nil))
        nil)
      nil

abbrev all_wanted : Wanted
all_wanted = record {
  tensor_datatype = true;
  fp32_false_value = false;
  fp32_true_value = false;
  int32_false_value = true;
  int32_true_value = true;
  bool_false_value = false;
  bool_true_value = false;
}

abbrev start_control : Control json
start_control = record {
  tensor_name = "START";
  tensor_datatype = some "TYPE_INT32";
  fp32_false_value = none;
  fp32_true_value = none;
  int32_false_value = some (pos 0);
  int32_true_value = some (pos 1);
  bool_false_value = none;
  bool_true_value = none;
}

get_sequence_control_properties-Unique_example :
    Unique json "CONTROL_SEQUENCE_START" batcher true (some start_control)
unfolding get_boolean_sequence_control_properties eq_string wrap32
get_sequence_control_properties-Unique_example =
    get_sequence_control_properties-Unique json all_wanted batcher "CONTROL_SEQUENCE_START" true
      (some start_control) (inl refl)

abbrev batch_output : String → Node
batch_output name = member "target_name" (entry (text name) nil) (
    member "kind" (text "BATCH_SCATTER_WITH_INPUT_SHAPE")
      (member "source_input" (entry (text "IN0") nil) nil))

abbrev output : String → Node
output name =
    member "name" (text name)
      (member "data_type" (text "TYPE_FP32") (member "dims" (entry (number (pos 4)) nil) nil))

-- A configuration with these batch outputs, and an input that may be ragged.
abbrev configuration : Node → Node
configuration batch_outputs = member "max_batch_size" (number (pos 8)) (
    member "batch_input" batch_inputs (
      member "batch_output" batch_outputs (
        member "output" (entry (output "A") (entry (output "B") nil)) (
          member "input"
            (entry (member "name" (text "IN0") (member "allow_ragged_batch" (boolean true) nil))
              nil)
            nil))))

-- The server changes the order of the batch outputs where the configuration is set.
abbrev calls : ModelCalls json Bool
calls = record {
  Message = Bool;
  model_name = ok "m";
  model_version = ok 1;
  model_repository = ok (filesystem, "/models/m");
  model_server = ok tt;
  model_backend = ok tt;
  memory_manager = ok tt;
  model_config = λ h. ok h;
  model_set_config = λ h message. ok true;
  serialize = λ message. ok (if message then "second" else "first");
  new_message = λ s. ok false;
  message_delete = λ message. ok tt;
  parse = λ s. ok (
      configuration (
        if eq_string s "second"
        then entry (batch_output "B") (entry (batch_output "A") nil)
        else entry (batch_output "A") (entry (batch_output "B") nil)));
  write = λ config. ok "first";
}

abbrev scattered : String → BatchOutputConfig
scattered name = record {
  target_names = name ∷ [];
  data_type = fp32;
  shape = negsuc 0 ∷ pos 4 ∷ [];
  source_inputs = "IN0" ∷ [];
}

-- The model with these batch outputs.
abbrev model : Node → List BatchOutputConfig → BackendModel json
model nodes batch_outputs = record {
  name = "m";
  version = 1;
  repository_path = "/models/m";
  allow_optional = false;
  model_config = configuration nodes;
  max_batch_size = pos 8;
  enable_pinned_input = false;
  enable_pinned_output = false;
  batch_inputs = counts;
  batch_outputs = batch_outputs;
  storage = 1;
  capacity = 2;
  batch_output_map =
      ("A", record { storage = 1; index = 0 }) ∷ ("B", record { storage = 1; index = 1 }) ∷ [];
  ragged_inputs = "IN0" ∷ [];
  optional_inputs = [];
}

abbrev before : BackendModel json
before =
    model (entry (batch_output "A") (entry (batch_output "B") nil))
      (scattered "A" ∷ scattered "B" ∷ [])

abbrev after : BackendModel json
after =
    model (entry (batch_output "B") (entry (batch_output "A") nil))
      (scattered "B" ∷ scattered "A" ∷ [])

-- The vector has as much room as it needs.
abbrev grow : ℕ → ℕ → ℕ
grow capacity n = n

-- The pointer to B of the first configuration.
abbrev second : OutputPointer
second = record { storage = 1; index = 1 }

new_model-find_example :
    (find_batch_output json before "B" ≡ some second)
    × (bind_option (find_batch_output json before "B") (pointee json before)
        ≡ first_named "B" before.batch_outputs)
unfolding new_model eq_string wrap32
new_model-find_example = new_model-find json "" int32 grow calls nil false false before "B" refl

new_model-KnowsInputs_example : KnowsInputs json false before
unfolding new_model eq_string wrap32
new_model-KnowsInputs_example =
    new_model-KnowsInputs json "" int32 grow calls nil false false before refl

-- The batch output A where B is asked for.
set_model_config-stale_example :
    (find_batch_output json after "B" ≡ some second)
    × (find_batch_output json after "B" ≡ find_batch_output json before "B")
    × (pointee json after second ≡ some (scattered "A"))
unfolding new_model set_model_config eq_string wrap32
set_model_config-stale_example =
    set_model_config-stale json "" int32 grow calls nil false true false before after "B" 1 refl
      refl refl
