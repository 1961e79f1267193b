-- ===== src/Model.antt =====
-- `BackendModel` of src/backend_model.cc and include/triton/backend/backend_model.h. What its
-- members hold after an error is not modelled: the constructor then throws.
pub mod Members
pub mod Outputs
pub mod Inputs
pub mod Instance
use Prim.Native.String.{String}
use backend_radius_ai.Prelude.{
  ℕ, zero, suc, ◌+◌, Bool, true, false, not, Option, none, some, List, [], ◌∷◌, if◌then◌else◌,
  get_elem?, length, leb, ◌==◌,
}
use backend_radius_ai.Prelude.Int.{ℤ, pos, ltb_ℤ, wrap32}
use backend_radius_ai.Prelude.Strings.{eq_string}
use backend_radius_ai.Triton.{
  DataType, Result, ok, err, invalid_arg, unsupported, ensure, ◌>>=◌, ◌>>◌,
}
use backend_radius_ai.Config.{Json}
use backend_radius_ai.Config.Batches.{
  BatchInputConfig, BatchOutputConfig, parse_batch_inputs, parse_batch_outputs,
}
use backend_radius_ai.Config.Controls.{contains}

-- A pointer to a batch output: the storage of the vector that it points into, and the index there.
pub record OutputPointer : Type 0 where
  pub storage : ℕ
  pub index : ℕ

-- `storage` is another one each time that the vector of batch outputs is reallocated, and `capacity`
-- how many elements it has room for. `triton_server_` and `triton_memory_manager_` are only passed
-- on.
pub record BackendModel (json : Json) : Type 0 where
  pub name : String
  pub version : ℕ
  pub repository_path : String
  pub allow_optional : Bool
  pub model_config : Json.Value json
  pub max_batch_size : ℤ
  pub enable_pinned_input : Bool
  pub enable_pinned_output : Bool
  pub batch_inputs : List BatchInputConfig
  pub batch_outputs : List BatchOutputConfig
  pub storage : ℕ
  pub capacity : ℕ
  pub batch_output_map : List (String × OutputPointer)
  pub ragged_inputs : List String
  pub optional_inputs : List String

pub data ArtifactType : Type 0 where
  filesystem remote : ArtifactType

-- The server's calls on a model, in a state of the server, and those of the JSON library that parse
-- and write.
pub record ModelCalls (json : Json) (H : Type 0) : Type 1 where
  pub Message : Type 0
  -- TRITONBACKEND_ModelName, TRITONBACKEND_ModelVersion, TRITONBACKEND_ModelRepository
  pub model_name : Result String
  pub model_version : Result ℕ
  pub model_repository : Result (ArtifactType × String)
  -- TRITONBACKEND_ModelServer, TRITONBACKEND_ModelBackend, TRITONBACKEND_BackendMemoryManager
  pub model_server : Result (Unit {0})
  pub model_backend : Result (Unit {0})
  pub memory_manager : Result (Unit {0})
  -- TRITONBACKEND_ModelConfig, TRITONBACKEND_ModelSetConfig
  pub model_config : H → Result Message
  pub model_set_config : H → Message → Result H
  -- TRITONSERVER_MessageSerializeToJson, TRITONSERVER_MessageNewFromSerializedJson,
  -- TRITONSERVER_MessageDelete
  pub serialize : Message → Result String
  pub new_message : String → Result Message
  pub message_delete : Message → Result (Unit {0})
  -- Parse and Write
  pub parse : String → Result (Json.Value json)
  pub write : Json.Value json → Result String

-- `SupportsFirstDimBatching`
unfoldable pub supports_first_dim_batching : ℤ → Result Bool
supports_first_dim_batching max_batch_size = ok (ltb_ℤ (pos 0) max_batch_size)

-- `emplace` of a map: an entry that there is stays.
unfoldable pub emplace : {A : Type 0} → String → A → List (String × A) → List (String × A)
emplace key p [] = (key, p) ∷ []
emplace key p ((k, q) ∷ entries) =
    if eq_string k key then (k, q) ∷ entries else (k, q) ∷ emplace key p entries

unfoldable pub lookup : {A : Type 0} → String → List (String × A) → Option A
lookup key [] = none
lookup key ((k, q) ∷ entries) = if eq_string k key then some q else lookup key entries

-- `emplace` of a set.
unfoldable pub add : String → List String → List String
add s set = if contains s set then set else s ∷ set

-- The loop over the target names of one batch output, and the one over the batch outputs from `p`
-- on.
unfoldable pub map_names : {A : Type 0} → List String → A → List (String × A) → List (String × A)
unfolding emplace
map_names [] p entries = entries
map_names (name ∷ names) p entries = map_names names p (emplace name p entries)

unfoldable pub map_outputs :
    ℕ → List BatchOutputConfig → ℕ → List (String × OutputPointer) → List (String × OutputPointer)
unfolding map_names
map_outputs storage [] i entries = entries
map_outputs storage (b ∷ bs) i entries =
    let p : OutputPointer = record { storage = storage; index = i } in
    map_outputs storage bs (i + 1) (map_names b.target_names p entries)

-- The members that the constructor sets before it parses.
abbrev pub unparsed :
    (json : Json) → Json.Value json → String → ℕ → String → Bool → BackendModel json
unparsed json empty name version repository_path allow_optional = record {
  name = name;
  version = version;
  repository_path = repository_path;
  allow_optional = allow_optional;
  model_config = empty;
  max_batch_size = pos 0;
  enable_pinned_input = false;
  enable_pinned_output = false;
  batch_inputs = [];
  batch_outputs = [];
  storage = 0;
  capacity = 0;
  batch_output_map = [];
  ragged_inputs = [];
  optional_inputs = [];
}

module _ (json : Json) where
  open json use {
    Value, find, member_as_array, member_as_string, member_as_int, member_as_bool, array_size,
    index_as_object, as_bool,
  }

  -- A Boolean member that may be missing.
  unfoldable pub flag : Value → String → Result Bool
  flag io name = elim (find io name) [ none ↦ ok false | some value ↦ as_bool value ]

  -- `optimization.input_pinned_memory.enable` and the like.
  unfoldable pub enable_pinned : Value → String → Result Bool
  enable_pinned config name = elim (find config "optimization") [
    | none ↦ ok false
    | some optimization ↦ elim (find optimization name) [
      | none ↦ ok false
      | some pinned_memory ↦ member_as_bool pinned_memory "enable"
    ]
  ]

  -- One input of the model, for the sets of ragged and of optional inputs.
  unfoldable pub read_input :
      Bool → Value → List String × List String → Result (List String × List String)
  unfolding flag add
  read_input allow_optional io (ragged, optional) = do
    io_name ← member_as_string io "name"
    allow_ragged_batch ← flag io "allow_ragged_batch"
    is_optional ← flag io "optional"
    ensure (if is_optional then allow_optional else true) invalid_arg
    ok (
      (if allow_ragged_batch then add io_name ragged else ragged),
      (if is_optional then add io_name optional else optional),
    )

  -- The loop over the inputs from `i` on.
  unfoldable pub read_inputs :
      Bool → Value → ℕ → ℕ → List String × List String → Result (List String × List String)
  unfolding read_input
  read_inputs allow_optional inputs zero i sets = ok sets
  read_inputs allow_optional inputs (suc n) i sets = do
    io ← index_as_object inputs i
    sets' ← read_input allow_optional io sets
    read_inputs allow_optional inputs n (i + 1) sets'

  -- `grow` is the capacity that the standard library gives a vector of some capacity that gets more
  -- elements than that, by their number.
  module _ (stale_name : String) (stale_type : DataType) (grow : ℕ → ℕ → ℕ) where
    -- `ParseModelConfig` from the configuration on.
    unfoldable pub read_members : Value → BackendModel json → Result (BackendModel json)
    unfolding enable_pinned read_inputs map_outputs parse_batch_inputs parse_batch_outputs
    read_members config m = do
      mbs ← member_as_int config "max_batch_size"
      pinned_input ← enable_pinned config "input_pinned_memory"
      pinned_output ← enable_pinned config "output_pinned_memory"
      batch_inputs ← parse_batch_inputs json config
      batch_outputs ← parse_batch_outputs json stale_name stale_type config
      inputs ← member_as_array config "input"
      sets ←
          read_inputs m.allow_optional inputs (array_size inputs) 0
            (m.ragged_inputs, m.optional_inputs)
      let count = length batch_outputs
      let storage = if leb count m.capacity then m.storage else suc m.storage
      ok (record m {
        model_config = config;
        max_batch_size = wrap32 mbs;
        enable_pinned_input = pinned_input;
        enable_pinned_output = pinned_output;
        batch_inputs = batch_inputs;
        batch_outputs = batch_outputs;
        storage = storage;
        capacity = if leb count m.capacity then m.capacity else grow m.capacity count;
        batch_output_map = map_outputs storage batch_outputs 0 m.batch_output_map;
        ragged_inputs = sets.0;
        optional_inputs = sets.1;
      })

    module _ {H : Type 0} (calls : ModelCalls json H) where
      -- `ParseModelConfig`. The message is deleted before the error of the parser is looked at.
      unfoldable pub parse_model_config : H → BackendModel json → Result (BackendModel json)
      unfolding read_members
      parse_model_config h m = do
        message ← calls.model_config h
        text ← calls.serialize message
        calls.message_delete message
        config ← calls.parse text
        read_members config m

      -- The constructor, where a thrown error is the result. `empty` is the configuration before
      -- it is parsed.
      unfoldable pub new_model : Value → H → Bool → Result (BackendModel json)
      unfolding parse_model_config
      new_model empty h allow_optional = do
        name ← calls.model_name
        version ← calls.model_version
        repository ← calls.model_repository
        ensure (elim repository.0 [ filesystem ↦ true | remote ↦ false ]) unsupported
        calls.model_server
        calls.model_backend
        calls.memory_manager
        parse_model_config h (unparsed json empty name version repository.1 allow_optional)

      -- `SetModelConfig`
      unfoldable pub set_model_config : H → BackendModel json → Result (BackendModel json × H)
      unfolding parse_model_config
      set_model_config h m = do
        text ← calls.write m.model_config
        message ← calls.new_message text
        h' ← calls.model_set_config h message
        calls.message_delete message
        m' ← parse_model_config h' m
        ok (m', h')

  -- `FindBatchOutput`, where `none` is the null pointer.
  unfoldable pub find_batch_output : BackendModel json → String → Option OutputPointer
  unfolding lookup
  find_batch_output m output_name = lookup output_name m.batch_output_map

  -- The batch output that a pointer leads to; `none` where it dangles: the vector has moved, or
  -- the element has been destroyed.
  unfoldable pub pointee : BackendModel json → OutputPointer → Option BatchOutputConfig
  pointee m p = if p.storage == m.storage then get_elem? m.batch_outputs p.index else none

  -- `IsInputRagged`, `IsInputOptional`
  abbrev pub is_input_ragged : BackendModel json → String → Bool
  is_input_ragged m input_name = contains input_name m.ragged_inputs

  abbrev pub is_input_optional : BackendModel json → String → Bool
  is_input_optional m input_name = contains input_name m.optional_inputs
