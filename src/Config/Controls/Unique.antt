-- ===== src/Config/Controls/Unique.antt =====
-- A sequence control that is found is the only one of its kind.
use Prim.Native.String.{String}
use backend_radius_ai.Prelude.{
  ℕ, zero, suc, ◌+◌, ◌≡◌, refl, ap, ◌∙◌, Bool, true, false, not, Option, none, some, List, [], ◌∷◌,
  length, if◌then◌else◌, arith, Bool-cases, Option-cases, inl, inr, ◌⊎◌,
}
use backend_radius_ai.Prelude.Strings.{eq_string}
use backend_radius_ai.Triton.{Result, ok, err, invalid_arg, ensure, ◌>>=◌, ◌>>◌}
use backend_radius_ai.Config.{Json}
use backend_radius_ai.Config.Chains.{split_chain}
use backend_radius_ai.Config.Controls.{
  Wanted, Control, contains, controls_loop, input_controls, inputs_loop, find_control, get_control,
  read_boolean, read_typed, get_boolean_sequence_control_properties,
  get_typed_sequence_control_properties,
}

abbrev pub size : {A : Type 0} → Option A → ℕ
size none = 0
size (some a) = 1

-- How many of the kinds are this one.
abbrev pub occurrences : String → List String → ℕ
occurrences kind [] = 0
occurrences kind (k ∷ ks) = (if eq_string k kind then 1 else 0) + occurrences kind ks

-- Over all inputs, each with its name and the kinds of its controls.
abbrev pub all_occurrences : String → List (String × List String) → ℕ
all_occurrences kind [] = 0
all_occurrences kind ((name, kinds) ∷ inputs) = occurrences kind kinds + all_occurrences kind inputs

-- The names are not empty, and differ from each other and from those seen.
abbrev pub Distinct : List String → List (String × List String) → Type 0
Distinct seen [] = Unit {0}
Distinct seen ((name, kinds) ∷ inputs) =
    (eq_string name "" ≡ false) × (contains name seen ≡ false) × Distinct (name ∷ seen) inputs

ensure-ok :
    {B : Type 0} (b : Bool) (rest : Result B) (r : B)
    → (ensure (not b) invalid_arg >> rest) ≡ ok r
    → (b ≡ false) × (rest ≡ ok r)
ensure-ok true rest r e = cc
ensure-ok false rest r e = (refl, e)

module _ (json : Json) where
  open json use {Value, find, member_as_string, array_size, index_as_object}

  -- The entries from `i` on are controls of these kinds.
  abbrev pub HasKinds : Value → ℕ → List String → Type 0
  HasKinds controls i [] = Unit {0}
  HasKinds controls i (k ∷ ks) =
      (c : Value) × (index_as_object controls i ≡ ok c)
      × (member_as_string c "kind" ≡ ok k)
      × HasKinds controls (i + 1) ks

  -- The controls of an input are of these kinds; it may have no member for them.
  abbrev pub InputKinds : Value → List String → Type 0
  InputKinds control_input kinds =
      ((find control_input "control" ≡ none) × (kinds ≡ []))
      ⊎ ((controls : Value) × (find control_input "control" ≡ some controls)
          × (length kinds ≡ array_size controls)
          × HasKinds controls 0 kinds)

  -- The entries from `i` on are inputs of these names and with these controls.
  abbrev pub HasInputs : Value → ℕ → List (String × List String) → Type 0
  HasInputs inputs i [] = Unit {0}
  HasInputs inputs i ((name, kinds) ∷ rest) =
      (control_input : Value) × (index_as_object inputs i ≡ ok control_input)
      × (member_as_string control_input "name" ≡ ok name)
      × InputKinds control_input kinds
      × HasInputs inputs (i + 1) rest

  -- The whole of the configuration's control inputs.
  abbrev pub Configures : Value → List (String × List String) → Type 0
  Configures batcher inputs =
      ((find batcher "control_input" ≡ none) × (inputs ≡ []))
      ⊎ ((array : Value) × (find batcher "control_input" ≡ some array)
          × (length inputs ≡ array_size array)
          × HasInputs array 0 inputs)

  -- The control that is found is the only one of its kind.
  abbrev pub Unique : String → Value → Bool → Option (Control json) → Type 0
  Unique kind batcher required r =
      (inputs : List (String × List String)) × Configures batcher inputs
      × Distinct [] inputs
      × (all_occurrences kind inputs ≡ size r)
      × ((required ≡ false) ⊎ (size r ≡ 1))

  module _ (kind : String) (read : String → Value → Result (Control json)) where
    -- A control of the kind is read only where none was found before.
    first_of :
        (name : String) (c : Value) (seen : Option (Control json))
        (next : Control json → Result (Option (Control json))) (r : Option (Control json))
        → (elim seen as (λ _. Result (Option (Control json))) [
          | some _ ↦ err invalid_arg
          | none ↦ read name c >>= next
        ])
          ≡ ok r
        → (seen ≡ none)
          × (control : Control json) × (read name c ≡ ok control)
          × (next control ≡ ok r)
    first_of name c none next r e =
        let (control, found, rest) = split_chain (read name c) next e in
        (refl, control, found, rest)
    first_of name c (some old) next r e = cc

    controls_loop-HasKinds :
        (name : String) (controls : Value) (n i : ℕ) (seen r : Option (Control json))
        → controls_loop json kind read name controls n i seen ≡ ok r
        → (kinds : List String) × (length kinds ≡ n)
          × HasKinds controls i kinds
          × (size seen + occurrences kind kinds ≡ size r)
    unfolding controls_loop
    controls_loop-HasKinds name controls zero i seen r e =
        let same : seen ≡ r = cc in ([], refl, tt, rw same (omega arith))
    controls_loop-HasKinds name controls (suc n) i seen r e =
        let (c, here, e₁) = split_chain (index_as_object controls i) _ e in
        let (k, kind_str, e₂) = split_chain (member_as_string c "kind") _ e₁ in
        elim (Bool-cases (eq_string k kind)) [
          | inl same ↦
              let e₃ = rw (same, controls_loop) at e₂ in
              let (unseen, control, _, e₄) = first_of name c seen _ r e₃ in
              let (ks, many, has, total) =
                controls_loop-HasKinds name controls n (i + 1) (some control) r e₄ in
              (
                k ∷ ks,
                ap suc many,
                (c, here, kind_str, has),
                rw (same, unseen) (omega (arith, total)),
              )
          | inr other ↦
              let (ks, many, has, total) =
                controls_loop-HasKinds name controls n (i + 1) seen r
                  (rw (other, controls_loop) at e₂) in
              (k ∷ ks, ap suc many, (c, here, kind_str, has), rw other (omega (arith, total)))
        ]

    input_controls-InputKinds :
        (name : String) (control_input : Value) (seen r : Option (Control json))
        → input_controls json kind read name control_input seen ≡ ok r
        → (kinds : List String) × InputKinds control_input kinds
          × (size seen + occurrences kind kinds ≡ size r)
    unfolding input_controls
    input_controls-InputKinds name control_input seen r e =
        elim (Option-cases (find control_input "control")) [
          | inl absent ↦
              let e₁ = rw (absent, input_controls) at e in
              let same : seen ≡ r = cc in ([], inl (absent, refl), rw same (omega arith))
          | inr (controls, present) ↦
              let (kinds, many, has, total) =
                controls_loop-HasKinds name controls (array_size controls) 0 seen r
                  (rw (present, input_controls) at e) in
              (kinds, inr (controls, present, many, has), total)
        ]

    inputs_loop-HasInputs :
        (array : Value) (n i : ℕ) (tensors : List String) (seen r : Option (Control json))
        → inputs_loop json kind read array n i tensors seen ≡ ok r
        → (inputs : List (String × List String)) × (length inputs ≡ n)
          × HasInputs array i inputs
          × Distinct tensors inputs
          × (size seen + all_occurrences kind inputs ≡ size r)
    unfolding inputs_loop
    inputs_loop-HasInputs array zero i tensors seen r e =
        let same : seen ≡ r = cc in ([], refl, tt, tt, rw same (omega arith))
    inputs_loop-HasInputs array (suc n) i tensors seen r e =
        let (control_input, here, e₁) = split_chain (index_as_object array i) _ e in
        let (name, named, e₂) = split_chain (member_as_string control_input "name") _ e₁ in
        let (nonempty, e₃) = ensure-ok (eq_string name "") _ r e₂ in
        let (fresh, e₄) = ensure-ok (contains name tensors) _ r e₃ in
        let (seen', e₅, e₆) =
          split_chain (input_controls json kind read name control_input seen) _ e₄ in
        let (kinds, has, total) = input_controls-InputKinds name control_input seen seen' e₅ in
        let (inputs, many, later, distinct, rest) =
          inputs_loop-HasInputs array n (i + 1) (name ∷ tensors) seen' r e₆ in
        (
          (name, kinds) ∷ inputs,
          ap suc many,
          (control_input, here, named, has, later),
          (nonempty, fresh, distinct),
          omega (arith, total, rest),
        )

    at_end :
        (required : Bool) (seen r : Option (Control json))
        → (elim seen as (λ _. Result (Option (Control json))) [
          | some control ↦ ok (some control)
          | none ↦ if required then err invalid_arg else ok none
        ])
          ≡ ok r
        → (seen ≡ r) × ((required ≡ false) ⊎ (size r ≡ 1))
    at_end required (some control) r e =
        let same : some control ≡ r = cc in (same, inr (rw (← same) refl))
    at_end true none r e = cc
    at_end false none r e = let same : none ≡ r = cc in (same, inl refl)

    get_control-Unique :
        (batcher : Value) (required : Bool) (r : Option (Control json))
        → get_control json kind read batcher required ≡ ok r
        → Unique kind batcher required r
    unfolding get_control find_control
    get_control-Unique batcher required r e =
        let (seen, e₁, e₂) = split_chain (find_control json kind read batcher) _ e in
        let (same, needed) = at_end required seen r e₂ in
        elim (Option-cases (find batcher "control_input")) [
          | inl absent ↦
              let start : ok none ≡ ok seen = rw (absent, find_control) at e₁ in
              let still : none ≡ seen = cc in
              ([], inl (absent, refl), tt, ap size (still ∙ same), needed)
          | inr (array, present) ↦
              let ran = rw (present, find_control) at e₁ in
              let (inputs, many, has, distinct, total) =
                inputs_loop-HasInputs array (array_size array) 0 [] none seen ran in
              (
                inputs,
                inr (array, present, many, has),
                distinct,
                omega (arith, total, ap size same),
                needed,
              )
        ]

  -- Where `GetBooleanSequenceControlProperties` or `GetTypedSequenceControlProperties` succeeds,
  -- the names of the configured control inputs are not empty and differ from each other, and as
  -- many controls have the kind asked for as are found: none, which is possible only where the
  -- control is not required, or one.
  pub get_sequence_control_properties-Unique :
      (wanted : Wanted) (batcher : Value) (kind : String) (required : Bool)
      (r : Option (Control json))
      → (get_boolean_sequence_control_properties json wanted batcher kind required ≡ ok r)
        ⊎ (get_typed_sequence_control_properties json wanted batcher kind required ≡ ok r)
      → Unique kind batcher required r
  unfolding get_boolean_sequence_control_properties get_typed_sequence_control_properties
  get_sequence_control_properties-Unique wanted batcher kind required r (inl e) =
      get_control-Unique kind (read_boolean json wanted) batcher required r e
  get_sequence_control_properties-Unique wanted batcher kind required r (inr e) =
      get_control-Unique kind (read_typed json wanted) batcher required r e
