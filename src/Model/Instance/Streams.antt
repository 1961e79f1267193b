-- ===== src/Model/Instance/Streams.antt =====
-- The device that is current and the streams that are open after an instance is made.
use Prim.Native.String.{String}
use backend_radius_ai.Prelude.{
  ℕ, ◌≡◌, refl, ap, ◌∙◌, sym, Bool, true, false, Option, none, some, List, [], ◌∷◌, ◌++◌, ◌==◌,
  if◌then◌else◌, arith, Bool-cases, Option-cases, inl, inr, ◌⊎◌,
}
use backend_radius_ai.Triton.{Result, ok, err, internal}
use backend_radius_ai.BackendMemory.Creation.{Result-cases}
use backend_radius_ai.Config.{Json}
use backend_radius_ai.Model.Instance.{
  InstanceKind, kind_gpu, StreamCalls, InstanceCalls, BackendModelInstance, Construction,
  constructed, thrown, Draft, create_on, create_overridden, create_cuda_stream, stream_of, destroy,
  draft_of, host_policy_names, named_by, with_host_policy, new_instance,
}

abbrev stream_in : Construction → Option ℕ
stream_in (constructed i) = i.stream
stream_in (thrown x) = none

abbrev device_in : ℕ → Construction → ℕ
device_in d (constructed i) = i.device_id
device_in d (thrown x) = d

-- What the CUDA runtime documents of the calls: a cudaSetDevice that succeeds makes its argument the
-- current device. A stream that is made is open on the current device, which stays what it is, and
-- an open stream that is destroyed is open no longer. `streams` is the streams that are open, the
-- newest first, each with its device.
pub record StreamLaws {H : Type 0} (cuda : StreamCalls H) (streams : H → List (ℕ × ℕ))
    : Type 0 where
  pub get_set :
      (h : H) (d : ℕ)
      → (cuda.set_device h d).0 ≡ true
      → cuda.get_device (cuda.set_device h d).1 ≡ some d
  pub get_create : (h : H) (p : ℕ) → cuda.get_device (cuda.stream_create h p).1 ≡ cuda.get_device h
  pub streams_set : (h : H) (d : ℕ) → streams (cuda.set_device h d).1 ≡ streams h
  pub streams_create :
      (h : H) (p s d : ℕ)
      → cuda.get_device h ≡ some d
      → (cuda.stream_create h p).0 ≡ some s
      → streams (cuda.stream_create h p).1 ≡ (s, d) ∷ streams h
  pub streams_not_created :
      (h : H) (p : ℕ)
      → (cuda.stream_create h p).0 ≡ none
      → streams (cuda.stream_create h p).1 ≡ streams h
  pub streams_destroy :
      (h : H) (s d : ℕ) (others : List (ℕ × ℕ))
      → streams h ≡ (s, d) ∷ others
      → streams (cuda.stream_destroy h s) ≡ others

-- The stream, where there is one, with its device.
abbrev pub opened : Option ℕ → ℕ → List (ℕ × ℕ)
opened none d = []
opened (some s) d = (s, d) ∷ []

module _ {H : Type 0} (cuda : StreamCalls H) where
  -- The device is the one from before, or the call that sets it back has failed.
  abbrev pub Restores : H → H → Type 0
  Restores h h' =
      (cuda.get_device h' ≡ cuda.get_device h)
      ⊎ ((h₁ : H) × (current : ℕ) × (cuda.get_device h ≡ some current)
          × (cuda.set_device h₁ current ≡ (false, h')))

module _ {H : Type 0} (cuda : StreamCalls H) (streams : H → List (ℕ × ℕ))
    (laws : StreamLaws cuda streams) where
  open cuda use {get_device, set_device, stream_create}

  -- The stream that is returned is the only new one, and is on the device.
  abbrev pub Adds : H → ℕ → Result (Option ℕ) → H → Type 0
  Adds h device_id (err e) h' = streams h' ≡ streams h
  Adds h device_id (ok stream) h' = streams h' ≡ opened stream device_id ++ streams h

  set_device-Restores :
      (h h₁ : H) (current : ℕ)
      → get_device h ≡ some current
      → Restores cuda h (set_device h₁ current).1
  set_device-Restores h h₁ current was = elim (Bool-cases (set_device h₁ current).0) [
    | inl set ↦ inl (laws.get_set h₁ current set ∙ sym was)
    | inr failed ↦ inr (h₁, current, was, λ k. (failed k, (set_device h₁ current).1))
  ]

  create_on-Adds :
      (h : H) (overridden : Bool) (current device_id priority : ℕ)
      → get_device h ≡ some device_id
      → Adds h device_id
          (create_on cuda h overridden current priority).0
          (create_on cuda h overridden current priority).1
  unfolding create_on
  create_on-Adds h overridden current device_id priority on_device =
      elim (Option-cases (stream_create h priority).0) [
        | inl none_made ↦
            rw (none_made, create_on)
              (set_back overridden ∙ laws.streams_not_created h priority none_made)
        | inr (s, is_made) ↦
            rw (is_made, create_on)
              (set_back overridden ∙ laws.streams_create h priority s device_id on_device is_made)
      ]
    where
      set_back :
          (back : Bool)
          → streams (
              if back
              then (set_device (stream_create h priority).1 current).1
              else (stream_create h priority).1)
            ≡ streams (stream_create h priority).1
      set_back true = laws.streams_set _ current
      set_back false = refl

  create_on-kept :
      (h : H) (current priority : ℕ)
      → get_device (create_on cuda h false current priority).1 ≡ get_device h
  unfolding create_on
  create_on-kept h current priority = laws.get_create h priority

  create_overridden-Adds :
      (h : H) (current device_id priority : ℕ)
      → Adds h device_id
          (create_overridden cuda h current device_id priority).0
          (create_overridden cuda h current device_id priority).1
  unfolding create_overridden
  create_overridden-Adds h current device_id priority =
      let h' = (set_device h device_id).1 in
      elim (Bool-cases (set_device h device_id).0) [
        | inr failed ↦
            rw (failed, create_overridden)
              (laws.streams_set _ current ∙ laws.streams_set h device_id)
        | inl set ↦
            let here : get_device h' ≡ some device_id = laws.get_set h device_id set in
            rw (set, create_overridden)
              (from h' (create_on cuda h' true current priority).1 (laws.streams_set h device_id)
                (create_on cuda h' true current priority).0
                (create_on-Adds h' true current device_id priority here))
      ]
    where
      from :
          (h₁ h₂ : H)
          → streams h₁ ≡ streams h
          → (r : Result (Option ℕ)) → Adds h₁ device_id r h₂
          → Adds h device_id r h₂
      from h₁ h₂ same (err e) adds = adds ∙ same
      from h₁ h₂ same (ok s) adds = adds ∙ ap (λ l. opened s device_id ++ l) same

  create_overridden-Restores :
      (h : H) (current device_id priority : ℕ)
      → get_device h ≡ some current
      → Restores cuda h (create_overridden cuda h current device_id priority).1
  unfolding create_overridden create_on
  create_overridden-Restores h current device_id priority was =
      elim (Bool-cases (set_device h device_id).0) [
        | inr failed ↦ rw (failed, create_overridden) (set_device-Restores h _ current was)
        | inl set ↦ rw (set, create_overridden) (set_device-Restores h _ current was)
      ]

  -- What `CreateCudaStream` comes down to.
  create_cuda_stream-cases :
      (h : H) (device_id priority : ℕ)
      → (create_cuda_stream cuda h device_id priority ≡ (ok none, h))
        ⊎ (create_cuda_stream cuda h device_id priority ≡ (err internal, h))
        ⊎ ((current : ℕ) × (get_device h ≡ some current)
            × (((current ≡ device_id)
                  × (create_cuda_stream cuda h device_id priority
                      ≡ create_on cuda h false current priority))
                ⊎ (create_cuda_stream cuda h device_id priority
                    ≡ create_overridden cuda h current device_id priority)))
  unfolding create_cuda_stream
  create_cuda_stream-cases h device_id priority = elim (Bool-cases cuda.enabled) [
    | inr off ↦ inl (rw off refl)
    | inl on ↦ elim (Option-cases (get_device h)) [
      | inl e ↦ inr (inl (rw (on, e) refl))
      | inr (current, e) ↦ elim (Bool-cases (current == device_id)) [
        | inl same ↦ inr (inr (current, e, inl (ground (arith, same), rw (on, e, same) refl)))
        | inr other ↦ inr (inr (current, e, inr (rw (on, e, other) refl)))
      ]
    ]
  ]

  -- `CreateCudaStream`, whether or not it succeeds.
  create_cuda_stream-Adds :
      (h : H) (device_id priority : ℕ)
      → Adds h device_id
          (create_cuda_stream cuda h device_id priority).0
          (create_cuda_stream cuda h device_id priority).1
        × Restores cuda h (create_cuda_stream cuda h device_id priority).1
  create_cuda_stream-Adds h device_id priority =
      elim (create_cuda_stream-cases h device_id priority) [
        | inl call ↦ rw call (refl, inl refl)
        | inr (inl call) ↦ rw call (refl, inl refl)
        | inr (inr (current, was, inl (same, call))) ↦ rw call (
          create_on-Adds h false current device_id priority (was ∙ ap some same),
          inl (create_on-kept h current priority),
        )
        | inr (inr (current, was, inr call)) ↦ rw call (
          create_overridden-Adds h current device_id priority,
          create_overridden-Restores h current device_id priority was,
        )
      ]

  stream_of-Adds :
      (kind : InstanceKind) (device_id : ℕ) (h : H)
      → Adds h device_id (stream_of cuda kind device_id h).0 (stream_of cuda kind device_id h).1
        × Restores cuda h (stream_of cuda kind device_id h).1
  unfolding stream_of
  stream_of-Adds kind_gpu device_id h = create_cuda_stream-Adds h device_id 0
  stream_of-Adds kind device_id h = (refl, inl refl)

  destroy-streams :
      (i : BackendModelInstance) (h : H) (others : List (ℕ × ℕ))
      → streams h ≡ opened i.stream i.device_id ++ others
      → streams (destroy cuda i h) ≡ others
  unfolding destroy
  destroy-streams i h others newest = elim (Option-cases i.stream) [
    | inl e ↦ rw (e, destroy) (newest ∙ ap (λ s. opened s i.device_id ++ others) e)
    | inr (s, e) ↦
        rw (e, destroy)
          (laws.streams_destroy h s i.device_id others
            (newest ∙ ap (λ s. opened s i.device_id ++ others) e))
  ]

  module _ (json : Json) (calls : InstanceCalls json) (model_config : Json.Value json) where
    named_by-stream :
        (draft : Draft) (stream : Option ℕ) (i : BackendModelInstance)
        (names : Result (List String))
        → named_by cuda json calls draft stream names ≡ constructed i
        → (i.stream ≡ stream) × (i.device_id ≡ draft.device_id)
    unfolding named_by
    named_by-stream draft stream i (err e) same = cc
    named_by-stream draft stream i (ok []) same = cc
    named_by-stream draft stream i (ok (name ∷ [])) same =
        (sym (ap stream_in same), sym (ap (device_in draft.device_id) same))
    named_by-stream draft stream i (ok (name ∷ other ∷ names)) same = cc

    with_host_policy-stream :
        (draft : Draft) (stream : Option ℕ) (i : BackendModelInstance)
        → with_host_policy cuda json calls draft stream ≡ constructed i
        → (i.stream ≡ stream) × (i.device_id ≡ draft.device_id)
    unfolding with_host_policy
    with_host_policy-stream draft stream i e =
        named_by-stream draft stream i (host_policy_names cuda json calls) e

    -- What is open after the constructor, and what the destructor then leaves; `h` is the state
    -- before the constructor.
    abbrev pub Accounts : H → Construction × H → Type 0
    Accounts h (constructed i, h') =
        (streams h' ≡ opened i.stream i.device_id ++ streams h)
        × (streams (destroy cuda i h') ≡ streams h)
    Accounts h (thrown x, h') =
        (streams h' ≡ streams h)
        ⊎ ((draft : Draft) × (s : ℕ) × (draft_of cuda json calls model_config ≡ ok draft)
            × (with_host_policy cuda json calls draft (some s) ≡ thrown x)
            × (streams h' ≡ (s, draft.device_id) ∷ streams h))

    from_policy :
        (h h' : H) (draft : Draft) (stream : Option ℕ) (c : Construction)
        → draft_of cuda json calls model_config ≡ ok draft
        → with_host_policy cuda json calls draft stream ≡ c
        → streams h' ≡ opened stream draft.device_id ++ streams h
        → Accounts h (c, h')
    from_policy h h' draft stream (constructed i) known policy total =
        let (is_stream, on_device) = with_host_policy-stream draft stream i policy in
        let now : streams h' ≡ opened i.stream i.device_id ++ streams h =
          total
          ∙ ap (λ s. opened s draft.device_id ++ streams h) (sym is_stream)
          ∙ ap (λ d. opened i.stream d ++ streams h) (sym on_device) in
        (now, destroy-streams i h' (streams h) now)
    from_policy h h' draft none (thrown x) known policy total = inl total
    from_policy h h' draft (some s) (thrown x) known policy total =
        inr (draft, s, known, policy, total)

    -- Where the CUDA calls do what is documented: after the constructor of an instance, also
    -- where it throws, the device is current that was so before, unless the call fails that sets
    -- it back. An instance that is made has its stream, which is on the instance's device, as the
    -- only new one, and none is left after the destructor. Where the constructor throws, no stream
    -- is left, unless the host policy is what fails: the stream that was made before then stays
    -- open.
    pub new_instance-Accounts :
        (h : H)
        → Restores cuda h (new_instance cuda json calls model_config h).1
          × Accounts h (new_instance cuda json calls model_config h)
    unfolding new_instance
    new_instance-Accounts h = elim (Result-cases (draft_of cuda json calls model_config)) [
      | inr (e, failed) ↦ rw (failed, new_instance) (inl refl, inl refl)
      | inl (draft, known) ↦
          let (adds, restores) = stream_of-Adds draft.kind draft.device_id h in
          let h' = (stream_of cuda draft.kind draft.device_id h).1 in
          elim (Result-cases (stream_of cuda draft.kind draft.device_id h).0) [
            | inr (e, none_made) ↦
                rw (known, new_instance)
                  (rw none_made
                    (restores, inl (adds_as (err e) h h' draft.device_id none_made adds)))
            | inl (stream, is_made) ↦
                rw (known, new_instance)
                  (rw is_made (
                    restores,
                    from_policy h h' draft stream (with_host_policy cuda json calls draft stream)
                        known refl (adds_as (ok stream) h h' draft.device_id is_made adds),
                  ))
          ]
    ]
      where
        adds_as :
            {r : Result (Option ℕ)} (r' : Result (Option ℕ)) (h h' : H) (d : ℕ)
            → r ≡ r'
            → Adds h d r h'
            → Adds h d r' h'
        adds_as r' h h' d same adds = rw (← same) adds
