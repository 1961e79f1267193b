-- ===== src/StringBuffer/Verdict.antt =====
-- What `ValidateStringBuffer` returns: on which buffers it succeeds, and how it fails on the others.
use mathlib.Core.Path.{subst}
use native.Mathlib.Nat.{zero-add}
use backend_radius_ai.Prelude.{
  ℕ, zero, suc, ◌+◌, ◌-◌, ◌<◌, ◌≡◌, ◌↔◌, refl, ap, sym, ◌∙◌, Bool, true, none, some, List, [], ◌∷◌,
  arith, length, take, ◌⊎◌, if◌then◌else◌, ◌≢◌, inl, inr, ltb, leb, Bool-cases,
}
use backend_radius_ai.Triton.{ok, err, invalid_arg, internal}
use backend_radius_ai.Machine.{Memory}
use backend_radius_ai.StringBuffer.{read_u32, validate_loop, validate_string_buffer}
use backend_radius_ai.StringBuffer.Chain.{Chain, Torn}
use backend_radius_ai.StringBuffer.Loop.{
  loop-ne-none, loop-Chain, loop-ok, loop_full, loop_few, loop-Torn,
}

-- The validation of a buffer of any content ends within one round for each of its bytes and one
-- more.
pub validate-ne-none :
    (mem : Memory) (buffer size expected : ℕ) (want : Bool)
    → validate_string_buffer mem buffer size expected want ≢ none
unfolding validate_string_buffer
validate-ne-none mem buffer size expected want =
    loop-ne-none (suc size) mem expected want buffer size 0 [] (omega arith)

-- With a list to fill, the call succeeds with some spans exactly if they are the chain of
-- strings in the buffer and are as many as expected.
pub validate-ok_iff :
    (mem : Memory) (buffer size expected : ℕ) (spans : List (ℕ × ℕ))
    → (validate_string_buffer mem buffer size expected true ≡ some (ok tt, spans))
      ↔ (Chain mem buffer size spans × (length spans ≡ expected))
unfolding validate_string_buffer
validate-ok_iff mem buffer size expected spans = (only_if, if_chain)
  where
    only_if :
        validate_loop (suc size) mem expected true buffer size 0 [] ≡ some (ok tt, spans)
        → Chain mem buffer size spans × (length spans ≡ expected)
    only_if e =
        let (chain, o, c, n) = loop-ok (suc size) mem expected buffer size 0 [] spans e in
        (subst (Chain mem buffer size) (sym o) c, ap length o ∙ omega (arith, n))

    if_chain :
        Chain mem buffer size spans × (length spans ≡ expected)
        → validate_loop (suc size) mem expected true buffer size 0 [] ≡ some (ok tt, spans)
    if_chain (c, n) =
        loop-Chain (suc size) mem expected buffer size 0 [] spans (omega arith) c (omega arith)

-- With a list to fill, a buffer whose chain has another length than expected is refused: too
-- many strings are an invalid argument, and the list then holds the expected number of them; too
-- few are an internal error.
validate_miscount :
    (mem : Memory) (buffer size expected : ℕ) (chain : List (ℕ × ℕ))
    → Chain mem buffer size chain
    → length chain ≢ expected
    → validate_string_buffer mem buffer size expected true ≡ (
        if ltb expected (length chain)
        then some (err invalid_arg, take expected chain)
        else some (err internal, chain))
unfolding validate_string_buffer
validate_miscount mem buffer size expected chain c ne =
    elim (Bool-cases (ltb expected (length chain))) [
      | inl many ↦ rw many (
          rw zero-add at (
            loop_full (suc size) mem expected buffer size 0 [] chain (omega arith) c
              (ground arith)))
      | inr few ↦ rw few (
          loop_few (suc size) mem expected buffer size 0 [] chain (omega arith) c
            (ground (arith, ne)))
    ]

-- With a list to fill, a buffer that ends inside a string is an invalid argument, whatever
-- number is expected, and the list holds the whole strings before it, but no more than expected.
validate-Torn :
    (mem : Memory) (buffer size expected : ℕ) (spans : List (ℕ × ℕ))
    → Torn mem buffer size spans
    → validate_string_buffer mem buffer size expected true
      ≡ some (err invalid_arg, take expected spans)
unfolding validate_string_buffer
validate-Torn mem buffer size expected spans t =
    rw zero-add at (loop-Torn (suc size) mem expected buffer size 0 [] spans (omega arith) t)

shape-below :
    (fuel : ℕ) (mem : Memory) (buffer size : ℕ)
    → size < fuel
    → (spans : List (ℕ × ℕ)) × (Chain mem buffer size spans ⊎ Torn mem buffer size spans)
shape-below zero mem buffer size h = elim h [ ]
shape-below (suc fuel) mem buffer size h = elim (Bool-cases (leb 4 size)) [
  | inr done ↦ ([], inl (ground arith))
  | inl more ↦ elim (Bool-cases (ltb (size - 4) (read_u32 mem buffer))) [
    | inl short ↦ ([], inr (ground arith))
    | inr fits ↦
        let (spans, rest) =
          shape-below fuel mem (buffer + 4 + read_u32 mem buffer) (size - 4 - read_u32 mem buffer)
            (ground arith) in
        (
          (buffer + 4, read_u32 mem buffer) ∷ spans,
          elim rest [
            | inl c ↦ inl (ground arith, refl, refl, ground arith, c)
            | inr t ↦ inr (ground arith, refl, refl, ground arith, t)
          ],
        )
  ]
]

-- Every buffer is a chain or ends inside a string, so the theorems above cover every call.
shape_cases :
    (mem : Memory) (buffer size : ℕ)
    → (spans : List (ℕ × ℕ)) × (Chain mem buffer size spans ⊎ Torn mem buffer size spans)
shape_cases mem buffer size = shape-below (suc size) mem buffer size (omega arith)
