-- ===== src/Examples/Strings.antt =====
-- String buffers: two strings in the wire format, and buffers that are not of the format.
use backend_radius_ai.Prelude.{
  ℕ, ◌≡◌, ◌≢◌, ◌↔◌, refl, true, none, some, List, [], ◌∷◌, arith, get_elem?, length,
}
use backend_radius_ai.Triton.{ok}
use backend_radius_ai.Machine.{Memory}
use backend_radius_ai.StringBuffer.{validate_string_buffer}
use backend_radius_ai.StringBuffer.Chain.{Chain}
use backend_radius_ai.StringBuffer.Verdict.{validate-ne-none, validate-ok_iff}
use backend_radius_ai.StringBuffer.Encoding.{SpansHold, validate-encode}

-- Bytes that stand at address 0.
abbrev bytes_from_zero : List ℕ → Memory
bytes_from_zero bs p = elim (get_elem? bs p) [ some b ↦ b | none ↦ 0 ]

abbrev two_strings : List (List ℕ)
two_strings = (104 ∷ 105 ∷ []) ∷ (33 ∷ []) ∷ []

abbrev mem : Memory
mem = bytes_from_zero (2 ∷ 0 ∷ 0 ∷ 0 ∷ 104 ∷ 105 ∷ 1 ∷ 0 ∷ 0 ∷ 0 ∷ 33 ∷ [])

abbrev spans : List (ℕ × ℕ)
spans = (4, 2) ∷ (10, 1) ∷ []

validate-ne-none_example : validate_string_buffer mem 0 11 2 true ≢ none
validate-ne-none_example = validate-ne-none mem 0 11 2 true

validate-ok_iff_example :
    (validate_string_buffer mem 0 11 2 true ≡ some (ok tt, spans))
    ↔ (Chain mem 0 11 spans × (length spans ≡ 2))
validate-ok_iff_example = validate-ok_iff mem 0 11 2 spans

validate-encode_example :
    (validate_string_buffer mem 0 11 2 true ≡ some (ok tt, spans)) × SpansHold mem spans two_strings
validate-encode_example =
    validate-encode mem 0 0 two_strings (omega arith) (omega arith, (omega arith, tt))
      (refl, (refl, (refl, (refl, (refl, (refl, (refl, (refl, (refl, (refl, (refl, tt)))))))))))
