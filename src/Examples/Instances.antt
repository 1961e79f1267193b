-- ===== src/Examples/Instances.antt =====
-- An instance on a GPU that is not the current device.
use Prim.Native.String.{String}
use backend_radius_ai.Prelude.{
  ℕ, ◌≡◌, refl, ap, ◌∙◌, true, false, some, List, [], ◌∷◌, length, ltb, ◌==◌, if◌then◌else◌, arith,
}
use backend_radius_ai.Triton.{ok}
use backend_radius_ai.Model.Instance.{StreamCalls, InstanceCalls, kind_gpu, new_instance}
use backend_radius_ai.Model.Instance.Streams.{StreamLaws, Restores, Accounts, new_instance-Accounts}
use backend_radius_ai.Examples.Configurations.{Node, member, text, nil, json}

-- The current device, of the two that there are, and the open streams. A stream is destroyed by its
-- handle, which is the number of streams that were open when it was made.
abbrev closed : ℕ → List (ℕ × ℕ) → List (ℕ × ℕ)
closed s [] = []
closed s ((t, d) ∷ open_streams) =
    let rest = closed s open_streams in if t == s then open_streams else (t, d) ∷ rest

abbrev cuda : StreamCalls (ℕ × List (ℕ × ℕ))
cuda = record {
  enabled = true;
  mali = false;
  get_device = λ h. some h.0;
  set_device = λ h d. (ltb d 2, ((if ltb d 2 then d else h.0), h.1));
  stream_create = λ h p. (some (length h.1), (h.0, (length h.1, h.0) ∷ h.1));
  stream_destroy = λ h s. (h.0, closed s h.1);
}

closed-newest :
    (s d : ℕ) (open_streams others : List (ℕ × ℕ))
    → open_streams ≡ (s, d) ∷ others
    → closed s open_streams ≡ others
closed-newest s d open_streams others e = rw e (ground arith)

created :
    (n c s d : ℕ) (others : List (ℕ × ℕ))
    → some c ≡ some d
    → some n ≡ some s
    → (n, c) ∷ others ≡ (s, d) ∷ others
created n c s d others on_device is_made =
    ap (λ k. (k, c) ∷ others) (some_injective is_made)
    ∙ ap (λ k. (s, k) ∷ others) (some_injective on_device)
  where
    some_injective : {a b : ℕ} → some a ≡ some b → a ≡ b
    some_injective e = cc

cuda-StreamLaws : StreamLaws cuda (λ h. h.1)
cuda-StreamLaws = record {
  get_set = λ h d set. rw set refl;
  get_create = λ h p. refl;
  streams_set = λ h d. refl;
  streams_create = λ h p s d on_device is_made. created (length h.1) h.0 s d h.1 on_device is_made;
  streams_not_created = λ h p none_made. cc;
  streams_destroy = λ h s d others newest. closed-newest s d h.1 others newest;
}

-- A host policy of one name.
abbrev calls : InstanceCalls json
calls = record {
  Message = String;
  instance_name = ok "m_0";
  instance_kind = ok kind_gpu;
  instance_device_id = ok 1;
  get_device_properties = λ d. some (8, 6);
  to_string = λ n. "8";
  host_policy = ok "gpu_1";
  serialize = λ message. ok message;
  parse = λ s. ok (text s);
  members = λ v. ok ("gpu_1" ∷ []);
  as_string = λ v. ok "model.gpu";
}

abbrev configuration : Node
configuration = member "default_model_filename" (text "model.bin") nil

new_instance-Accounts_example :
    Restores cuda (0, []) (new_instance cuda json calls configuration (0, [])).1
    × Accounts cuda
        (λ h. h.1)
        cuda-StreamLaws
        json
        calls
        configuration
        (0, [])
        (new_instance cuda json calls configuration (0, []))
new_instance-Accounts_example =
    new_instance-Accounts cuda (λ h. h.1) cuda-StreamLaws json calls configuration (0, [])
