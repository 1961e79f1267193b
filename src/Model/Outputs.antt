-- ===== src/Model/Outputs.antt =====
-- The batch output that a model finds for a name.
use Prim.Native.String.{String}
use backend_radius_ai.Prelude.{
  ℕ, ◌+◌, ◌≡◌, refl, ap, ◌∙◌, Bool, true, false, Option, none, some, List, [], ◌∷◌, ◌++◌, length,
  leb, suc, sym, get_elem?, if◌then◌else◌, arith, Bool-cases, inl, inr, append_assoc, length-append,
}
use backend_radius_ai.Prelude.Strings.{eq_string, eq_string_iff}
use backend_radius_ai.Triton.{DataType, ok, ensure, unsupported}
use backend_radius_ai.Config.{Json}
use backend_radius_ai.Config.Batches.{BatchOutputConfig}
use backend_radius_ai.Config.Controls.{contains}
use backend_radius_ai.Model.Members.{read_members-inv}
use backend_radius_ai.Config.Chains.{unbind, ok_injective}
use backend_radius_ai.Collector.Iterator.Served.{get_elem?-append}
use backend_radius_ai.Model.{
  BackendModel, OutputPointer, ModelCalls, filesystem, remote, unparsed, emplace, lookup, map_names,
  map_outputs, parse_model_config, new_model, set_model_config, find_batch_output, pointee,
}

abbrev pub or_else : {A : Type 0} → Option A → Option A → Option A
or_else (some a) b = some a
or_else none b = b

pub or_else_assoc :
    {A : Type 0} (a b c : Option A) → or_else (or_else a b) c ≡ or_else a (or_else b c)
or_else_assoc (some a) b c = refl
or_else_assoc none b c = refl

pub lookup-emplace :
    {A : Type 0} (key k : String) (p : A) (entries : List (String × A))
    → lookup key (emplace k p entries)
      ≡ or_else (lookup key entries) (if eq_string k key then some p else none)
unfolding lookup emplace
lookup-emplace key k p [] = refl
lookup-emplace key k p ((k', q) ∷ entries) = ground (
  arith,
  eq_string_iff k' k,
  eq_string_iff k' key,
  eq_string_iff k key,
  lookup-emplace key k p entries,
)

lookup-map_names :
    {A : Type 0} (key : String) (names : List String) (p : A) (entries : List (String × A))
    → lookup key (map_names names p entries)
      ≡ or_else (lookup key entries) (if contains key names then some p else none)
unfolding map_names
lookup-map_names key [] p entries = ground arith
lookup-map_names key (name ∷ names) p entries =
    lookup-map_names key names p (emplace name p entries)
    ∙ rw (lookup-emplace key name p entries)
        (or_else_assoc (lookup key entries) _ _ ∙ ap (or_else (lookup key entries)) (ground arith))

-- The index of the first batch output with the name among its targets, counted from `p`.
abbrev pub first_index : String → List BatchOutputConfig → ℕ → Option ℕ
first_index key [] p = none
first_index key (b ∷ bs) p =
    if contains key b.target_names then some p else first_index key bs (p + 1)

-- The pointer to the element with the index, in one storage.
abbrev pub pointer_to : ℕ → Option ℕ → Option OutputPointer
pointer_to storage none = none
pointer_to storage (some i) = some (record { storage = storage; index = i })

lookup-map_outputs :
    (key : String) (storage : ℕ) (bs : List BatchOutputConfig) (i : ℕ)
    (entries : List (String × OutputPointer))
    → lookup key (map_outputs storage bs i entries)
      ≡ or_else (lookup key entries) (pointer_to storage (first_index key bs i))
unfolding map_outputs
lookup-map_outputs key storage [] i entries = ground arith
lookup-map_outputs key storage (b ∷ bs) i entries =
    let p : OutputPointer = record { storage = storage; index = i } in
    lookup-map_outputs key storage bs (i + 1) (map_names b.target_names p entries)
    ∙ rw (lookup-map_names key b.target_names p entries) (
        or_else_assoc (lookup key entries) _ _
        ∙ ap (or_else (lookup key entries))
            (named (contains key b.target_names) (first_index key bs (i + 1))))
  where
    named :
        (here : Bool) (later : Option ℕ)
        → or_else
            (if here then some (record { storage = storage; index = i }) else none)
            (pointer_to storage later)
          ≡ pointer_to storage (if here then some i else later)
    named true later = refl
    named false later = refl

-- The first batch output with the name among its targets.
abbrev pub first_named : String → List BatchOutputConfig → Option BatchOutputConfig
first_named key [] = none
first_named key (b ∷ bs) = if contains key b.target_names then some b else first_named key bs

abbrev at : List BatchOutputConfig → Option ℕ → Option BatchOutputConfig
at bs none = none
at bs (some p) = get_elem? bs p

first_index-named :
    (key : String) (pre bs : List BatchOutputConfig)
    → at (pre ++ bs) (first_index key bs (length pre)) ≡ first_named key bs
first_index-named key pre [] = refl
first_index-named key pre (b ∷ bs) = elim (Bool-cases (contains key b.target_names)) [
  | inl here ↦ rw here (get_elem?-append pre b bs)
  | inr other ↦
      let step : length (pre ++ b ∷ []) ≡ length pre + 1 =
        omega (arith, length-append pre (b ∷ [])) in
      let later = first_index-named key (pre ++ b ∷ []) bs in
      rw (other, ← step, ← append_assoc pre (b ∷ []) bs) later
]

abbrev pub bind_option : {A B : Type 0} → Option A → (A → Option B) → Option B
bind_option none f = none
bind_option (some a) f = f a

module _ (json : Json) where
  pointee-at :
      (m : BackendModel json) (i : Option ℕ)
      → bind_option (pointer_to m.storage i) (pointee json m) ≡ at m.batch_outputs i
  unfolding pointee
  pointee-at m none = refl
  pointee-at m (some i) = ground arith

  pointee-moved :
      (m m' : BackendModel json) (p : ℕ)
      → m'.storage ≡ (if leb (length m'.batch_outputs) m.capacity then m.storage else suc m.storage)
      → pointee json m' (record { storage = m.storage; index = p })
        ≡ (if leb (length m'.batch_outputs) m.capacity then get_elem? m'.batch_outputs p else none)
  unfolding pointee
  pointee-moved m m' p moved = ground (arith, moved)

module _ (json : Json) (stale_name : String) (stale_type : DataType) (grow : ℕ → ℕ → ℕ) {H : Type 0}
    (calls : ModelCalls json H) where
  open json use {Value}

  -- The model has filled the map from its batch outputs, and has moved them only where they were
  -- more than there was room for.
  abbrev Fills : ℕ → ℕ → List (String × OutputPointer) → BackendModel json → Type 0
  Fills storage capacity entries m =
      (m.batch_output_map ≡ map_outputs m.storage m.batch_outputs 0 entries)
      × (m.storage ≡ (if leb (length m.batch_outputs) capacity then storage else suc storage))

  parse_model_config-Fills :
      (h : H) (m m' : BackendModel json)
      → parse_model_config json stale_name stale_type grow calls h m ≡ ok m'
      → Fills m.storage m.capacity m.batch_output_map m'
  unfolding parse_model_config
  parse_model_config-Fills h m m' e = unbind (calls.model_config h) _ e λ message _ e₁.
      unbind (calls.serialize message) _ e₁ λ text _ e₂.
        unbind (calls.message_delete message) _ e₂ λ _ _ e₃.
          unbind (calls.parse text) _ e₃ λ config _ e₄.
            let inv = read_members-inv json stale_name stale_type grow config m m' e₄ in
            (inv.4, inv.5)

  new_model-Fills :
      (empty : Value) (h : H) (allow_optional : Bool) (m : BackendModel json)
      → new_model json stale_name stale_type grow calls empty h allow_optional ≡ ok m
      → Fills 0 0 [] m
  unfolding new_model
  new_model-Fills empty h allow_optional m e = unbind calls.model_name _ e λ name _ e₁.
      unbind calls.model_version _ e₁ λ version _ e₂.
        unbind calls.model_repository _ e₂ λ repository _ e₃.
          unbind (ensure (elim repository.0 [ filesystem ↦ true | remote ↦ false ]) unsupported) _
            e₃
            λ _ _ e₄. unbind calls.model_server _ e₄ λ _ _ e₅.
              unbind calls.model_backend _ e₅ λ _ _ e₆. unbind calls.memory_manager _ e₆ λ _ _ e₇.
                parse_model_config-Fills h
                  (unparsed json empty name version repository.1 allow_optional) m e₇

  set_model_config-Fills :
      (h h' : H) (m m' : BackendModel json)
      → set_model_config json stale_name stale_type grow calls h m ≡ ok (m', h')
      → Fills m.storage m.capacity m.batch_output_map m'
  unfolding set_model_config
  set_model_config-Fills h h' m m' e = unbind (calls.write m.model_config) _ e λ text _ e₁.
      unbind (calls.new_message text) _ e₁ λ message _ e₂.
        unbind (calls.model_set_config h message) _ e₂ λ h₁ _ e₃.
          unbind (calls.message_delete message) _ e₃ λ _ _ e₄.
            unbind (parse_model_config json stale_name stale_type grow calls h₁ m) _ e₄
              λ m₁ parsed e₅.
                let same : m₁ ≡ m' = ap (λ a. a.0) (ok_injective e₅) in
                rw (← same) (parse_model_config-Fills h₁ m m₁ parsed)

  -- What `FindBatchOutput` of a new model returns for a name points to the first of its batch
  -- outputs that has the name among its targets, and is null where none has.
  pub new_model-find :
      (empty : Value) (h : H) (allow_optional : Bool) (m : BackendModel json) (name : String)
      → new_model json stale_name stale_type grow calls empty h allow_optional ≡ ok m
      → (find_batch_output json m name ≡ pointer_to m.storage (first_index name m.batch_outputs 0))
        × (bind_option (find_batch_output json m name) (pointee json m)
            ≡ first_named name m.batch_outputs)
  unfolding find_batch_output lookup
  new_model-find empty h allow_optional m name e =
      let found : find_batch_output json m name
          ≡ pointer_to m.storage (first_index name m.batch_outputs 0) =
        ap (lookup name) (new_model-Fills empty h allow_optional m e).0
        ∙ lookup-map_outputs name m.storage m.batch_outputs 0 [] in
      (
        found,
        ap (λ p. bind_option p (pointee json m)) found
            ∙ pointee-at json m (first_index name m.batch_outputs 0)
            ∙ first_index-named name [] m.batch_outputs,
      )

  -- The pointers of a model's map are those of its first configuration: let the first batch output
  -- of a new model with the name among its targets be the one at the index `p`. Then after
  -- `SetModelConfig` the model returns for the name the pointer that it returned before, to the
  -- storage of then and the index `p`. Where the batch outputs are no more than there was room for,
  -- this leads to whatever batch output is now at the index `p`, also where the name is among the
  -- targets of another, and dangles where there are too few; where they are more, it dangles.
  pub set_model_config-stale :
      (empty : Value) (h h' : H) (allow_optional : Bool) (m m' : BackendModel json) (name : String)
      (p : ℕ)
      → new_model json stale_name stale_type grow calls empty h allow_optional ≡ ok m
      → first_index name m.batch_outputs 0 ≡ some p
      → set_model_config json stale_name stale_type grow calls h m ≡ ok (m', h')
      → (find_batch_output json m' name ≡ some (record { storage = m.storage; index = p }))
        × (find_batch_output json m' name ≡ find_batch_output json m name)
        × (pointee json m' (record { storage = m.storage; index = p }) ≡ (
            if leb (length m'.batch_outputs) m.capacity
            then get_elem? m'.batch_outputs p
            else none))
  unfolding find_batch_output lookup
  set_model_config-stale empty h h' allow_optional m m' name p made first set =
      let before : find_batch_output json m name
          ≡ some (record { storage = m.storage; index = p }) =
        (new_model-find empty h allow_optional m name made).0 ∙ ap (pointer_to m.storage) first in
      let (filled, moved) = set_model_config-Fills h h' m m' set in
      let after : find_batch_output json m' name
          ≡ some (record { storage = m.storage; index = p }) =
        ap (lookup name) filled
        ∙ lookup-map_outputs name m'.storage m'.batch_outputs 0 m.batch_output_map
        ∙ ap (λ o. or_else o (pointer_to m'.storage (first_index name m'.batch_outputs 0)))
            before in
      (after, after ∙ sym before, pointee-moved json m m' p moved)
