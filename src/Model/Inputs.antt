-- ===== src/Model/Inputs.antt =====
-- The ragged and the optional inputs of a model.
use Prim.Native.String.{String}
use backend_radius_ai.Prelude.{
  ℕ, zero, suc, ◌+◌, ◌≡◌, refl, ap, ◌∙◌, sym, Bool, true, false, ◌||◌, ◌&&◌, List, [], ◌∷◌, length,
  if◌then◌else◌, arith, Bool-cases, inl, inr,
}
use backend_radius_ai.Prelude.Strings.{eq_string, eq_string_iff}
use backend_radius_ai.Triton.{DataType, Result, ok, ensure, unsupported, invalid_arg, ◌>>◌}
use backend_radius_ai.Config.{Json}
use backend_radius_ai.Config.Controls.{contains}
use backend_radius_ai.Model.Members.{read_members-inv}
use backend_radius_ai.Config.Chains.{unbind, ok_injective}
use backend_radius_ai.Model.{
  BackendModel, ModelCalls, filesystem, remote, unparsed, add, flag, read_input, read_inputs,
  parse_model_config, new_model, is_input_ragged, is_input_optional,
}

-- An input with its name, whether it may be ragged, and whether it is optional.
pub record ModelInput : Type 0 where
  pub name : String
  pub is_ragged : Bool
  pub is_optional : Bool

abbrev pub ragged_in : String → List ModelInput → Bool
ragged_in s [] = false
ragged_in s (input ∷ inputs) = (input.is_ragged && eq_string input.name s) || ragged_in s inputs

abbrev pub optional_in : String → List ModelInput → Bool
optional_in s [] = false
optional_in s (input ∷ inputs) =
    (input.is_optional && eq_string input.name s) || optional_in s inputs

-- Optional inputs only where they are allowed.
abbrev pub Allows : Bool → List ModelInput → Type 0
Allows allow_optional [] = Unit {0}
Allows allow_optional (input ∷ inputs) =
    ((if input.is_optional then allow_optional else true) ≡ true) × Allows allow_optional inputs

pub contains-add :
    (s t : String) (set : List String) → contains s (add t set) ≡ (eq_string t s || contains s set)
unfolding add
contains-add s t set = elim (Bool-cases (contains t set)) [
  | inr fresh ↦ rw fresh refl
  | inl there ↦ rw there (elim (Bool-cases (eq_string t s)) [
    | inr other ↦ rw other refl
    | inl same ↦ let here : t ≡ s = (eq_string_iff t s).0 same in rw same (rw here at there)
  ])
]

-- What one input adds to a set.
contains-if :
    (s t : String) (added : Bool) (set : List String) (rest : Bool)
    → (contains s (if added then add t set else set) || rest)
      ≡ (contains s set || ((added && eq_string t s) || rest))
contains-if s t true set rest =
    rw (contains-add s t set) (or_swap (eq_string t s) (contains s set) rest)
  where
    or_swap : (a b c : Bool) → ((a || b) || c) ≡ (b || (a || c))
    or_swap true true c = refl
    or_swap true false c = refl
    or_swap false b c = ground arith
contains-if s t false set rest = refl

module _ (json : Json) where
  open json use {Value, member_as_string, member_as_array, array_size, index_as_object}

  -- The entries from `i` on are these inputs.
  abbrev pub HasModelInputs : Value → ℕ → List ModelInput → Type 0
  HasModelInputs array i [] = Unit {0}
  HasModelInputs array i (input ∷ inputs) =
      (io : Value) × (index_as_object array i ≡ ok io)
      × (member_as_string io "name" ≡ ok input.name)
      × (flag json io "allow_ragged_batch" ≡ ok input.is_ragged)
      × (flag json io "optional" ≡ ok input.is_optional)
      × HasModelInputs array (i + 1) inputs

  -- These inputs are allowed, and are what the second pair of sets has more than the first.
  abbrev Adds :
      Bool → List ModelInput → List String × List String → List String × List String → Type 0
  Adds allow inputs (ragged, optional) (ragged', optional') =
      Allows allow inputs
      × ((s : String) → contains s ragged' ≡ (contains s ragged || ragged_in s inputs))
      × ((s : String) → contains s optional' ≡ (contains s optional || optional_in s inputs))

  ensure-true :
      {B : Type 0} (b : Bool) (rest : Result B) (r : B)
      → (ensure b invalid_arg >> rest) ≡ ok r
      → (b ≡ true) × (rest ≡ ok r)
  ensure-true true rest r e = (refl, e)
  ensure-true false rest r e = cc

  -- One input that is read, with the sets before and after.
  read_input-inv :
      (allow : Bool) (io : Value) (ragged optional : List String)
      (sets' : List String × List String)
      → read_input json allow io (ragged, optional) ≡ ok sets'
      → (input : ModelInput) × (member_as_string io "name" ≡ ok input.name)
        × (flag json io "allow_ragged_batch" ≡ ok input.is_ragged)
        × (flag json io "optional" ≡ ok input.is_optional)
        × ((if input.is_optional then allow else true) ≡ true)
        × ((
          (if input.is_ragged then add input.name ragged else ragged),
          (if input.is_optional then add input.name optional else optional),
        )
            ≡ sets')
  unfolding read_input
  read_input-inv allow io ragged optional sets' e =
      unbind (member_as_string io "name") _ e λ n named r₁.
        unbind (flag json io "allow_ragged_batch") _ r₁ λ a is_ragged r₂.
          unbind (flag json io "optional") _ r₂ λ o is_optional r₃.
            let (allowed, last) = ensure-true (if o then allow else true) _ sets' r₃ in
            (
              record { name = n; is_ragged = a; is_optional = o },
              named,
              is_ragged,
              is_optional,
              allowed,
              ok_injective last,
            )

  read_inputs-Adds :
      (allow : Bool) (array : Value) (n i : ℕ) (sets sets' : List String × List String)
      → read_inputs json allow array n i sets ≡ ok sets'
      → (inputs : List ModelInput) × (length inputs ≡ n)
        × HasModelInputs array i inputs
        × Adds allow inputs sets sets'
  unfolding read_inputs
  read_inputs-Adds allow array zero i sets sets' e =
      let same : sets ≡ sets' = ok_injective e in
      rw (← same) ([], refl, tt, (tt, (λ s. ground arith), (λ s. ground arith)))
  read_inputs-Adds allow array (suc n) i (ragged, optional) sets' e =
      unbind (index_as_object array i) _ e λ io here r₁.
        unbind (read_input json allow io (ragged, optional)) _ r₁ λ sets₁ one r₂.
          let (input, named, is_ragged, is_optional, allowed, same) =
            read_input-inv allow io ragged optional sets₁ one in
          let (inputs, many, has, (allows, adds_ragged, adds_optional)) =
            read_inputs-Adds allow array n (i + 1) sets₁ sets' r₂ in
          (
            input ∷ inputs,
            ap suc many,
            (io, here, named, is_ragged, is_optional, has),
            (
              (allowed, allows),
              (λ s.
                  adds_ragged s
                  ∙ ap (λ (t : List String × List String). contains s t.0 || ragged_in s inputs)
                      (sym same)
                  ∙ contains-if s input.name input.is_ragged ragged (ragged_in s inputs)),
              (λ s.
                  adds_optional s
                  ∙ ap (λ (t : List String × List String). contains s t.1 || optional_in s inputs)
                      (sym same)
                  ∙ contains-if s input.name input.is_optional optional (optional_in s inputs)),
            ),
          )

  -- The ragged and the optional inputs of a model are those of its configuration.
  abbrev pub KnowsInputs : Bool → BackendModel json → Type 0
  KnowsInputs allow_optional m =
      (array : Value) × (inputs : List ModelInput) × (member_as_array m.model_config "input"
        ≡ ok array)
      × (length inputs ≡ array_size array)
      × HasModelInputs array 0 inputs
      × Allows allow_optional inputs
      × ((s : String) → is_input_ragged json m s ≡ ragged_in s inputs)
      × ((s : String) → is_input_optional json m s ≡ optional_in s inputs)

  module _ (stale_name : String) (stale_type : DataType) (grow : ℕ → ℕ → ℕ) {H : Type 0}
      (calls : ModelCalls json H) where
    parse_model_config-KnowsInputs :
        (h : H) (m m' : BackendModel json)
        → m.ragged_inputs ≡ []
        → m.optional_inputs ≡ []
        → parse_model_config json stale_name stale_type grow calls h m ≡ ok m'
        → KnowsInputs m.allow_optional m'
    unfolding parse_model_config
    parse_model_config-KnowsInputs h m m' no_ragged no_optional e =
        unbind (calls.model_config h) _ e λ message _ e₁.
          unbind (calls.serialize message) _ e₁ λ text _ e₂.
            unbind (calls.message_delete message) _ e₂ λ _ _ e₃.
              unbind (calls.parse text) _ e₃ λ config _ e₄.
                let (_, array, found, read, _, _) =
                  read_members-inv json stale_name stale_type grow config m m' e₄ in
                let (inputs, many, has, (allows, ragged, optional)) =
                  read_inputs-Adds m.allow_optional array (array_size array) 0
                    (m.ragged_inputs, m.optional_inputs) (m'.ragged_inputs, m'.optional_inputs)
                    read in
                (
                  array,
                  inputs,
                  found,
                  many,
                  has,
                  allows,
                  (λ s. ragged s ∙ ap (λ set. contains s set || ragged_in s inputs) no_ragged),
                  (λ s.
                      optional s ∙ ap (λ set. contains s set || optional_in s inputs) no_optional),
                )

    -- A new model has read each input of its configuration; none of them is optional, unless
    -- optional inputs are allowed. `IsInputRagged` answers for every name whether an input of the
    -- name may be ragged, and `IsInputOptional` whether one is optional.
    pub new_model-KnowsInputs :
        (empty : Value) (h : H) (allow_optional : Bool) (m : BackendModel json)
        → new_model json stale_name stale_type grow calls empty h allow_optional ≡ ok m
        → KnowsInputs allow_optional m
    unfolding new_model
    new_model-KnowsInputs empty h allow_optional m e = unbind calls.model_name _ e λ name _ e₁.
        unbind calls.model_version _ e₁ λ version _ e₂.
          unbind calls.model_repository _ e₂ λ repository _ e₃.
            unbind (ensure (elim repository.0 [ filesystem ↦ true | remote ↦ false ]) unsupported) _
              e₃
              λ _ _ e₄. unbind calls.model_server _ e₄ λ _ _ e₅.
                unbind calls.model_backend _ e₅ λ _ _ e₆. unbind calls.memory_manager _ e₆ λ _ _ e₇.
                  parse_model_config-KnowsInputs h
                    (unparsed json empty name version repository.1 allow_optional) m refl refl e₇
