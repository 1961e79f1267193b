-- ===== src/Model/Instance.antt =====
-- `BackendModelInstance` of src/backend_model_instance.cc and
-- include/triton/backend/backend_model_instance.h, with `CreateCudaStream` of src/backend_common.cc.
-- The CUDA runtime and the server are parameters; what the constructor throws is its result.
pub mod Streams
use Prim.Native.String
use Prim.Native.String.{String}
use backend_radius_ai.Prelude.{
  ℕ, Bool, true, false, not, Option, none, some, List, [], ◌∷◌, ◌==◌, if◌then◌else◌,
}
use backend_radius_ai.Triton.{Result, ok, err, ErrorCode, internal, ◌>>=◌}
use backend_radius_ai.Config.{Json}

-- `TRITONSERVER_InstanceGroupKind`
pub data InstanceKind : Type 0 where
  kind_auto kind_cpu kind_gpu kind_model : InstanceKind

-- `enabled` and `mali` are the build's TRITON_ENABLE_GPU and TRITON_ENABLE_MALI_GPU.
pub record StreamCalls (H : Type 0) : Type 0 where
  pub enabled : Bool
  pub mali : Bool
  -- cudaGetDevice, cudaSetDevice
  pub get_device : H → Option ℕ
  pub set_device : H → ℕ → Bool × H
  -- cudaStreamCreateWithPriority, cudaStreamDestroy, where a stream that is made is not null
  pub stream_create : H → ℕ → Option ℕ × H
  pub stream_destroy : H → ℕ → H

pub record InstanceCalls (json : Json) : Type 1 where
  pub Message : Type 0
  -- TRITONBACKEND_ModelInstanceName, TRITONBACKEND_ModelInstanceKind,
  -- TRITONBACKEND_ModelInstanceDeviceId
  pub instance_name : Result String
  pub instance_kind : Result InstanceKind
  pub instance_device_id : Result ℕ
  -- cudaGetDeviceProperties, with the major and the minor version
  pub get_device_properties : ℕ → Option (ℕ × ℕ)
  -- std::to_string
  pub to_string : ℕ → String
  -- TRITONBACKEND_ModelInstanceHostPolicy, TRITONSERVER_MessageSerializeToJson
  pub host_policy : Result Message
  pub serialize : Message → Result String
  -- Parse, Members, AsString
  pub parse : String → Result (Json.Value json)
  pub members : Json.Value json → Result (List String)
  pub as_string : Json.Value json → Result String

-- The members that the constructor sets; a stream that is null is `none`.
pub record BackendModelInstance : Type 0 where
  pub name : String
  pub kind : InstanceKind
  pub device_id : ℕ
  pub artifact_filename : String
  pub stream : Option ℕ
  pub host_policy_name : String

-- `BackendModelException`, `BackendModelInstanceException`
pub data Exception : Type 0 where
  model_exception instance_exception : ErrorCode → Exception

pub data Construction : Type 0 where
  constructed : BackendModelInstance → Construction
  thrown : Exception → Construction

-- What the constructor knows before it makes the stream.
pub record Draft : Type 0 where
  pub name : String
  pub kind : InstanceKind
  pub device_id : ℕ
  pub artifact_filename : String

module _ {H : Type 0} (cuda : StreamCalls H) where
  open cuda use {enabled, get_device, set_device, stream_create, stream_destroy}

  -- The stream on the device that is current, then the first device again if it was changed; the
  -- status of that last call is not looked at.
  pub create_on : H → Bool → ℕ → ℕ → Result (Option ℕ) × H
  create_on h overridden current priority =
      let (stream, h') = stream_create h priority in
      (
        elim stream [ none ↦ err internal | some s ↦ ok (some s) ],
        (if overridden then (set_device h' current).1 else h'),
      )

  -- On a device other than the current one.
  pub create_overridden : H → ℕ → ℕ → ℕ → Result (Option ℕ) × H
  unfolding create_on
  create_overridden h current device_id priority =
      let (changed, h') = set_device h device_id in
      if changed
      then create_on h' true current priority
      else (err internal, (set_device h' current).1)

  -- `CreateCudaStream`
  unfoldable pub create_cuda_stream : H → ℕ → ℕ → Result (Option ℕ) × H
  unfolding create_overridden create_on
  create_cuda_stream h device_id priority =
      if enabled
      then elim (get_device h) [
        | none ↦ (err internal, h)
        | some current ↦
            if current == device_id
            then create_on h false current priority
            else create_overridden h current device_id priority
      ]
      else (ok none, h)

  -- The stream of an instance on a GPU.
  unfoldable pub stream_of : InstanceKind → ℕ → H → Result (Option ℕ) × H
  unfolding create_cuda_stream
  stream_of kind_gpu device_id h = create_cuda_stream h device_id 0
  stream_of _ device_id h = (ok none, h)

  -- The destructor.
  unfoldable pub destroy : BackendModelInstance → H → H
  destroy instance' h = elim instance'.stream [ none ↦ h | some s ↦ stream_destroy h s ]

  module _ (json : Json) (calls : InstanceCalls json) where
    open json use {Value, find, member_as_string}
    open calls use {
      instance_name, instance_kind, instance_device_id, get_device_properties, to_string,
      host_policy, serialize, parse, members, as_string,
    }

    -- The artifact for the compute capability, where the configuration names one; an error of
    -- `AsString` is not looked at.
    unfoldable artifact_for : Value → String → String → String
    artifact_for model_config cc artifact_filename = elim (find model_config "cc_model_filenames") [
      | none ↦ artifact_filename
      | some cc_names ↦ elim (find cc_names cc) [
        | none ↦ artifact_filename
        | some cc_name ↦ elim (as_string cc_name) [ err _ ↦ artifact_filename | ok name ↦ name ]
      ]
    ]

    -- The branch for a GPU.
    unfoldable artifact_on_gpu : Value → ℕ → String → Result String
    unfolding artifact_for
    artifact_on_gpu model_config device_id artifact_filename =
        if enabled
        then elim (get_device_properties device_id) [
          | none ↦ err internal
          | some (major, minor) ↦ ok (
              artifact_for model_config
                (String.◌++◌ (to_string major) (String.◌++◌ "." (to_string minor)))
                artifact_filename)
        ]
        else if cuda.mali
        then ok artifact_filename
        else err internal

    -- The switch over the kind.
    unfoldable artifact_of : Value → InstanceKind → ℕ → String → Result String
    unfolding artifact_on_gpu
    artifact_of model_config kind_cpu device_id artifact_filename = ok artifact_filename
    artifact_of model_config kind_model device_id artifact_filename = ok artifact_filename
    artifact_of model_config kind_gpu device_id artifact_filename =
        artifact_on_gpu model_config device_id artifact_filename
    artifact_of model_config kind_auto device_id artifact_filename = err internal

    -- The constructor up to the stream.
    unfoldable pub draft_of : Value → Result Draft
    unfolding artifact_of
    draft_of model_config = do
      name ← instance_name
      kind ← instance_kind
      device_id ← instance_device_id
      default_filename ← member_as_string model_config "default_model_filename"
      artifact_filename ← artifact_of model_config kind device_id default_filename
      ok (record {
        name = name;
        kind = kind;
        device_id = device_id;
        artifact_filename = artifact_filename;
      })

    -- The names in the message with the host policy.
    unfoldable pub host_policy_names : Result (List String)
    host_policy_names = do
      message ← host_policy
      buffer ← serialize message
      policies ← parse buffer
      members policies

    -- The rest of the constructor; the names are to be just one.
    unfoldable pub named_by : Draft → Option ℕ → Result (List String) → Construction
    named_by draft stream (err e) = thrown (model_exception e)
    named_by draft stream (ok (host_policy_name ∷ [])) = constructed (record {
      name = draft.name;
      kind = draft.kind;
      device_id = draft.device_id;
      artifact_filename = draft.artifact_filename;
      stream = stream;
      host_policy_name = host_policy_name;
    })
    named_by draft stream (ok _) = thrown (instance_exception internal)

    unfoldable pub with_host_policy : Draft → Option ℕ → Construction
    unfolding host_policy_names named_by
    with_host_policy draft stream = named_by draft stream host_policy_names

    -- The constructor.
    unfoldable pub new_instance : Value → H → Construction × H
    unfolding draft_of stream_of with_host_policy
    new_instance model_config h = elim (draft_of model_config) [
      | err e ↦ (thrown (instance_exception e), h)
      | ok draft ↦
          let (stream, h') = stream_of draft.kind draft.device_id h in
          elim stream [
            | err e ↦ (thrown (instance_exception e), h')
            | ok s ↦ (with_host_policy draft s, h')
          ]
    ]
