-- ===== src/StringBuffer/Loop.antt =====
-- The loop of `ValidateStringBuffer`, from any round on.
use backend_radius_ai.Prelude.{
  ℕ, zero, suc, ◌+◌, ◌-◌, ◌<◌, ◌≡◌, refl, ap, ◌∙◌, Bool, true, none, some, List, [], ◌∷◌, ◌++◌,
  arith, length, take, ◌≢◌, inl, inr, leb, Bool-cases, append_assoc, append-nil,
}
use backend_radius_ai.Triton.{ok, err, invalid_arg, internal}
use backend_radius_ai.Machine.{Memory}
use backend_radius_ai.StringBuffer.{read_u32, append_span, validate_loop}
use backend_radius_ai.StringBuffer.Chain.{Chain, Torn}

-- The loop never runs out of fuel above the bytes that remain.
pub loop-ne-none :
    (fuel : ℕ) (mem : Memory) (expected : ℕ) (want : Bool) (buffer remaining idx : ℕ)
    (spans : List (ℕ × ℕ))
    → remaining < fuel
    → validate_loop fuel mem expected want buffer remaining idx spans ≢ none
unfolding validate_loop
loop-ne-none zero mem expected want buffer remaining idx spans h = elim h [ ]
loop-ne-none (suc fuel) mem expected want buffer remaining idx spans h = ground (
  arith,
  loop-ne-none fuel mem expected want (buffer + 4 + read_u32 mem buffer)
      (remaining - 4 - read_u32 mem buffer) (idx + 1)
      (append_span want (buffer + 4) (read_u32 mem buffer) spans),
)

-- On a chain the loop says how many strings there are.
pub loop-Chain :
    (fuel : ℕ) (mem : Memory) (expected : ℕ) (buffer remaining idx : ℕ) (spans chain : List (ℕ × ℕ))
    → remaining < fuel
    → Chain mem buffer remaining chain
    → idx + length chain ≡ expected
    → validate_loop fuel mem expected true buffer remaining idx spans ≡ some (ok tt, spans ++ chain)
unfolding validate_loop append_span
loop-Chain zero mem expected buffer remaining idx spans chain h c n = elim h [ ]
loop-Chain (suc fuel) mem expected buffer remaining idx spans [] h c n =
    rw append-nil (ground arith)
loop-Chain (suc fuel) mem expected buffer remaining idx spans ((p, len) ∷ chain) h c n = ground (
  arith,
  loop-Chain fuel mem expected (buffer + 4 + len) (remaining - 4 - len) (idx + 1)
      (spans ++ (p, len) ∷ []) chain (omega arith) c.4 (omega arith),
  append_assoc spans ((p, len) ∷ []) chain,
)

-- What the loop accepts is a chain behind what it started with.
pub loop-ok :
    (fuel : ℕ) (mem : Memory) (expected : ℕ) (buffer remaining idx : ℕ) (spans out : List (ℕ × ℕ))
    → validate_loop fuel mem expected true buffer remaining idx spans ≡ some (ok tt, out)
    → (chain : List (ℕ × ℕ)) × (out ≡ spans ++ chain)
      × Chain mem buffer remaining chain
      × (idx + length chain ≡ expected)
unfolding validate_loop append_span
loop-ok zero mem expected buffer remaining idx spans out e = cc
loop-ok (suc fuel) mem expected buffer remaining idx spans out e =
    elim (Bool-cases (leb 4 remaining)) [
      | inl more ↦
          let (chain, o, c, n) =
            loop-ok fuel mem expected (buffer + 4 + read_u32 mem buffer)
              (remaining - 4 - read_u32 mem buffer) (idx + 1)
              (spans ++ (buffer + 4, read_u32 mem buffer) ∷ []) out (ground arith) in
          (
            (buffer + 4, read_u32 mem buffer) ∷ chain,
            o ∙ append_assoc spans ((buffer + 4, read_u32 mem buffer) ∷ []) chain,
            (ground arith, refl, refl, ground arith, c),
            omega arith,
          )
      | inr done ↦ ([], rw append-nil (ground arith), ground arith, ground arith)
    ]

-- With fewer strings than there are, the loop stops at the first one too many.
pub loop_full :
    (fuel : ℕ) (mem : Memory) (more : ℕ) (buffer remaining idx : ℕ) (spans chain : List (ℕ × ℕ))
    → remaining < fuel
    → Chain mem buffer remaining chain
    → more < length chain
    → validate_loop fuel mem (idx + more) true buffer remaining idx spans
      ≡ some (err invalid_arg, spans ++ take more chain)
unfolding validate_loop append_span
loop_full zero mem more buffer remaining idx spans chain h c n = elim h [ ]
loop_full (suc fuel) mem more buffer remaining idx spans [] h c n = elim n [ ]
loop_full (suc fuel) mem zero buffer remaining idx spans ((p, len) ∷ chain) h c n =
    rw append-nil (ground arith)
loop_full (suc fuel) mem (suc more) buffer remaining idx spans ((p, len) ∷ chain) h c n =
    let e : idx + suc more ≡ idx + 1 + more = omega arith in
    ground (
      arith,
      ap
          (λ k.
            validate_loop fuel mem k true (buffer + 4 + len) (remaining - 4 - len) (idx + 1)
              (spans ++ (p, len) ∷ []))
          e,
      loop_full fuel mem more (buffer + 4 + len) (remaining - 4 - len) (idx + 1)
          (spans ++ (p, len) ∷ []) chain (omega arith) c.4 (omega arith),
      append_assoc spans ((p, len) ∷ []) (take more chain),
    )

-- With more than there are, it reports an internal error at the end.
pub loop_few :
    (fuel : ℕ) (mem : Memory) (expected : ℕ) (buffer remaining idx : ℕ) (spans chain : List (ℕ × ℕ))
    → remaining < fuel
    → Chain mem buffer remaining chain
    → idx + length chain < expected
    → validate_loop fuel mem expected true buffer remaining idx spans
      ≡ some (err internal, spans ++ chain)
unfolding validate_loop append_span
loop_few zero mem expected buffer remaining idx spans chain h c n = elim h [ ]
loop_few (suc fuel) mem expected buffer remaining idx spans [] h c n = rw append-nil (ground arith)
loop_few (suc fuel) mem expected buffer remaining idx spans ((p, len) ∷ chain) h c n = ground (
  arith,
  loop_few fuel mem expected (buffer + 4 + len) (remaining - 4 - len) (idx + 1)
      (spans ++ (p, len) ∷ []) chain (omega arith) c.4 (omega arith),
  append_assoc spans ((p, len) ∷ []) chain,
)

pub loop-Torn :
    (fuel : ℕ) (mem : Memory) (more : ℕ) (buffer remaining idx : ℕ) (spans chain : List (ℕ × ℕ))
    → remaining < fuel
    → Torn mem buffer remaining chain
    → validate_loop fuel mem (idx + more) true buffer remaining idx spans
      ≡ some (err invalid_arg, spans ++ take more chain)
unfolding validate_loop append_span
loop-Torn zero mem more buffer remaining idx spans chain h c = elim h [ ]
loop-Torn (suc fuel) mem zero buffer remaining idx spans [] h c = rw append-nil (ground arith)
loop-Torn (suc fuel) mem (suc more) buffer remaining idx spans [] h c = rw append-nil (ground arith)
loop-Torn (suc fuel) mem zero buffer remaining idx spans ((p, len) ∷ chain) h c =
    rw append-nil (ground arith)
loop-Torn (suc fuel) mem (suc more) buffer remaining idx spans ((p, len) ∷ chain) h c =
    let e : idx + suc more ≡ idx + 1 + more = omega arith in
    ground (
      arith,
      ap
          (λ k.
            validate_loop fuel mem k true (buffer + 4 + len) (remaining - 4 - len) (idx + 1)
              (spans ++ (p, len) ∷ []))
          e,
      loop-Torn fuel mem more (buffer + 4 + len) (remaining - 4 - len) (idx + 1)
          (spans ++ (p, len) ∷ []) chain (omega arith) c.4,
      append_assoc spans ((p, len) ∷ []) (take more chain),
    )
