-- ===== src/Model/Members.antt =====
-- What `ParseModelConfig` sets, where it succeeds.
use Prim.Native.String.{String}
use backend_radius_ai.Prelude.{ℕ, suc, ◌≡◌, refl, length, leb, if◌then◌else◌}
use backend_radius_ai.Triton.{DataType, ok}
use backend_radius_ai.Config.{Json}
use backend_radius_ai.Config.Chains.{unbind, ok_injective}
use backend_radius_ai.Config.Batches.{parse_batch_inputs, parse_batch_outputs}
use backend_radius_ai.Model.{BackendModel, map_outputs, enable_pinned, read_inputs, read_members}

module _ (json : Json) (stale_name : String) (stale_type : DataType) (grow : ℕ → ℕ → ℕ) where
  open json use {Value, member_as_int, member_as_array, array_size}

  pub read_members-inv :
      (config : Value) (m m' : BackendModel json)
      → read_members json stale_name stale_type grow config m ≡ ok m'
      → (m'.allow_optional ≡ m.allow_optional)
        × (inputs : Value) × (member_as_array m'.model_config "input" ≡ ok inputs)
        × (read_inputs json m.allow_optional inputs
              (array_size inputs)
              0
              (m.ragged_inputs, m.optional_inputs)
            ≡ ok (m'.ragged_inputs, m'.optional_inputs))
        × (m'.batch_output_map ≡ map_outputs m'.storage m'.batch_outputs 0 m.batch_output_map)
        × (m'.storage
            ≡ (if leb (length m'.batch_outputs) m.capacity then m.storage else suc m.storage))
  unfolding read_members
  read_members-inv config m m' e = unbind (member_as_int config "max_batch_size") _ e λ mbs _ r₁.
      unbind (enable_pinned json config "input_pinned_memory") _ r₁ λ a _ r₂.
        unbind (enable_pinned json config "output_pinned_memory") _ r₂ λ b _ r₃.
          unbind (parse_batch_inputs json config) _ r₃ λ ins _ r₄.
            unbind (parse_batch_outputs json stale_name stale_type config) _ r₄ λ outs _ r₅.
              unbind (member_as_array config "input") _ r₅ λ inputs found r₆.
                unbind
                  (read_inputs json m.allow_optional inputs (array_size inputs) 0
                    (m.ragged_inputs, m.optional_inputs))
                  _ r₆
                  λ sets read r₇.
                    let whole = ok_injective r₇ in
                    rw (← whole) (refl, inputs, found, read, refl, refl)
