-- ===== src/Config/Batches/Described.antt =====
-- The batch inputs that are read are those that the configuration describes.
use Prim.Native.String
use Prim.Native.String.{String}
use backend_radius_ai.Prelude.{
  ℕ, zero, suc, ◌+◌, ◌≡◌, ◌≢◌, ◌↔◌, refl, ap, ◌∙◌, List, [], ◌∷◌, length, if◌then◌else◌, Bool-cases,
  inl, inr,
}
use backend_radius_ai.Prelude.Strings.{eq_string, eq_string_iff}
use backend_radius_ai.Triton.{DataType, invalid, Result, ok, ◌>>=◌}
use backend_radius_ai.BatchInput.{Kind}
use backend_radius_ai.Config.{Json, each_entry}
use backend_radius_ai.Config.Chains.{split_chain}
use backend_radius_ai.Config.DataTypes.{data_type_of, type_name, data_type_of_iff}
use backend_radius_ai.Config.Batches.{
  BatchInputConfig, kind_of, valid_data_type, parse_names, init, parse_batch_inputs,
}

-- The calls from `i` on return these entries.
abbrev pub Reads : {A : Type 0} → (ℕ → Result A) → ℕ → List A → Type 0
Reads read i [] = Unit {0}
Reads read i (a ∷ as') = (read i ≡ ok a) × Reads read (i + 1) as'

each_entry-Reads :
    {A : Type 0} (read : ℕ → Result A) (n i : ℕ) (as' : List A)
    → each_entry read n i ≡ ok as'
    → (length as' ≡ n) × Reads read i as'
each_entry-Reads read zero i as' e = let none_left : [] ≡ as' = cc in rw (← none_left) (refl, tt)
each_entry-Reads read (suc n) i as' e =
    let (a, here, rest) = split_chain (read i) _ e in
    let (as'', there, last) = split_chain (each_entry read n (i + 1)) _ rest in
    let whole : a ∷ as'' ≡ as' = cc in
    let (size, reads) = each_entry-Reads read n (i + 1) as'' there in
    rw (← whole) (ap suc size, (here, reads))

Reads-each_entry :
    {A : Type 0} (read : ℕ → Result A) (i : ℕ) (as' : List A)
    → Reads read i as'
    → each_entry read (length as') i ≡ ok as'
Reads-each_entry read i [] reads = refl
Reads-each_entry read i (a ∷ as') (here, reads) =
    rw (here, Reads-each_entry read (i + 1) as' reads) refl

abbrev pub kind_name : Kind → String
kind_name Kind.element_count = "BATCH_ELEMENT_COUNT"
kind_name Kind.accumulated_element_count = "BATCH_ACCUMULATED_ELEMENT_COUNT"
kind_name Kind.accumulated_element_count_with_zero = "BATCH_ACCUMULATED_ELEMENT_COUNT_WITH_ZERO"
kind_name Kind.max_element_count_as_shape = "BATCH_MAX_ELEMENT_COUNT_AS_SHAPE"
kind_name Kind.item_shape = "BATCH_ITEM_SHAPE"
kind_name Kind.item_shape_flatten = "BATCH_ITEM_SHAPE_FLATTEN"

-- One test of the chain.
test :
    (s : String) (x k : Kind) (rest : Result Kind)
    → (if eq_string s (kind_name x) then ok x else rest) ≡ ok k
    → (rest ≡ ok k → s ≡ kind_name k)
    → s ≡ kind_name k
test s x k rest e later = elim (Bool-cases (eq_string s (kind_name x))) [
  | inl same ↦
      let here : ok x ≡ ok k = rw same at e in
      let kind : x ≡ k = cc in (eq_string_iff s (kind_name x)).0 same ∙ ap kind_name kind
  | inr other ↦ later (rw other at e)
]

kind_of-inv : (s : String) (k : Kind) → kind_of s ≡ ok k → s ≡ kind_name k
unfolding kind_of
kind_of-inv s k e = test s Kind.element_count k _ e (λ e.
    test s Kind.accumulated_element_count k _ e (λ e.
      test s Kind.accumulated_element_count_with_zero k _ e (λ e.
        test s Kind.max_element_count_as_shape k _ e (λ e.
          test s Kind.item_shape k _ e (λ e. test s Kind.item_shape_flatten k _ e (λ e. cc))))))

kind_of-name : (k : Kind) → kind_of (kind_name k) ≡ ok k
unfolding kind_of
kind_of-name Kind.element_count = refl
kind_of-name k = refl

valid-inv : (t t' : DataType) → valid_data_type t ≡ ok t' → (t ≡ t') × (t' ≢ invalid)
unfolding valid_data_type
valid-inv invalid t' e = cc
valid-inv t t' e = (cc, λ h. cc)

valid-ok : (t : DataType) → t ≢ invalid → valid_data_type t ≡ ok t
unfolding valid_data_type
valid-ok invalid valid = absurd (valid refl)
valid-ok t valid = refl

module _ (json : Json) where
  open json use {
    Value, member_as_array, member_as_string, array_size, index_as_object, index_as_string,
  }

  -- The member is an array of these strings.
  abbrev pub HasNames : Value → String → List String → Type 0
  HasNames config name names =
      (array : Value) × (member_as_array config name ≡ ok array)
      × (length names ≡ array_size array)
      × Reads (index_as_string array) 0 names

  -- The members of the value that make up the batch input.
  abbrev pub Describes : Value → BatchInputConfig → Type 0
  Describes config b =
      HasNames config "target_name" b.target_names
      × (member_as_string config "kind" ≡ ok (kind_name b.kind))
      × (member_as_string config "data_type" ≡ ok (String.◌++◌ "TYPE_" (type_name b.data_type)))
      × (b.data_type ≢ invalid)
      × HasNames config "source_input" b.source_inputs

  parse_names-HasNames :
      (config : Value) (name : String) (names : List String)
      → parse_names json config name ≡ ok names
      → HasNames config name names
  unfolding parse_names
  parse_names-HasNames config name names e =
      let (array, here, rest) = split_chain (member_as_array config name) _ e in
      let (size, reads) =
        each_entry-Reads (index_as_string array) (array_size array) 0 names rest in
      (array, here, size, reads)

  HasNames-parse_names :
      (config : Value) (name : String) (names : List String)
      → HasNames config name names
      → parse_names json config name ≡ ok names
  unfolding parse_names
  HasNames-parse_names config name names (array, here, size, reads) =
      rw (here, ← size) (Reads-each_entry (index_as_string array) 0 names reads)

  init-Describes :
      (config : Value) (b : BatchInputConfig) → init json config ≡ ok b → Describes config b
  unfolding init
  init-Describes config b e =
      let (targets, e₁, r₁) = split_chain (parse_names json config "target_name") _ e in
      let (kind_str, e₂, r₂) = split_chain (member_as_string config "kind") _ r₁ in
      let (kind, e₃, r₃) = split_chain (kind_of kind_str) _ r₂ in
      let (dtype, e₄, r₄) = split_chain (member_as_string config "data_type") _ r₃ in
      let (t, e₅, r₅) = split_chain (valid_data_type (data_type_of dtype)) _ r₄ in
      let (sources, e₆, r₆) = split_chain (parse_names json config "source_input") _ r₅ in
      let (is_t, valid) = valid-inv (data_type_of dtype) t e₅ in
      let made : BatchInputConfig = record {
        target_names = targets;
        kind = kind;
        data_type = t;
        source_inputs = sources;
      } in
      let whole : made ≡ b = cc in
      rw (← whole) (
        parse_names-HasNames config "target_name" targets e₁,
        rw (← kind_of-inv kind_str kind e₃) e₂,
        rw (← (data_type_of_iff dtype t valid).0 is_t) e₄,
        valid,
        parse_names-HasNames config "source_input" sources e₆,
      )

  Describes-init :
      (config : Value) (b : BatchInputConfig) → Describes config b → init json config ≡ ok b
  unfolding init
  Describes-init config b (targets, kind, dtype, valid, sources) = rw (
    HasNames-parse_names config "target_name" b.target_names targets,
    kind,
    kind_of-name b.kind,
    dtype,
    (data_type_of_iff _ b.data_type valid).1 refl,
    valid-ok b.data_type valid,
    HasNames-parse_names config "source_input" b.source_inputs sources,
  )

  -- The entries from `i` on describe these batch inputs.
  abbrev pub DescribesAll : Value → ℕ → List BatchInputConfig → Type 0
  DescribesAll array i [] = Unit {0}
  DescribesAll array i (b ∷ bs) =
      (config : Value) × (index_as_object array i ≡ ok config)
      × Describes config b
      × DescribesAll array (i + 1) bs

  Reads-DescribesAll :
      (array : Value) (i : ℕ) (bs : List BatchInputConfig)
      → Reads (λ i. index_as_object array i >>= init json) i bs
      → DescribesAll array i bs
  Reads-DescribesAll array i [] reads = tt
  Reads-DescribesAll array i (b ∷ bs) (here, later) =
      let (config, entry, read) = split_chain (index_as_object array i) (init json) here in
      (config, entry, init-Describes config b read, Reads-DescribesAll array (i + 1) bs later)

  DescribesAll-Reads :
      (array : Value) (i : ℕ) (bs : List BatchInputConfig)
      → DescribesAll array i bs
      → Reads (λ i. index_as_object array i >>= init json) i bs
  DescribesAll-Reads array i [] all = tt
  DescribesAll-Reads array i (b ∷ bs) (config, entry, described, later) =
      (rw entry (Describes-init config b described), DescribesAll-Reads array (i + 1) bs later)

  -- `BatchInput::ParseFromModelConfig` succeeds with some batch inputs exactly if the configuration
  -- has an array "batch_input" of as many objects, and each object in turn has the names of the
  -- targets, of the kind, of a data type behind "TYPE_", and of the source inputs.
  pub parse_batch_inputs_iff :
      (config : Value) (bs : List BatchInputConfig)
      → (parse_batch_inputs json config ≡ ok bs) ↔ (
          (array : Value) × (member_as_array config "batch_input" ≡ ok array)
          × (length bs ≡ array_size array)
          × DescribesAll array 0 bs)
  unfolding parse_batch_inputs
  parse_batch_inputs_iff config bs = (
    λ e.
        let (array, here, rest) = split_chain (member_as_array config "batch_input") _ e in
        let (size, reads) =
          each_entry-Reads (λ i. index_as_object array i >>= init json) (array_size array) 0 bs
            rest in
        (array, here, size, Reads-DescribesAll array 0 bs reads),
    λ (array, here, size, all).
        rw (here, ← size)
          (Reads-each_entry (λ i. index_as_object array i >>= init json) 0 bs
            (DescribesAll-Reads array 0 bs all)),
  )
