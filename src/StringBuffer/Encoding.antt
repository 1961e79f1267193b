-- ===== src/StringBuffer/Encoding.antt =====
-- Strings written in the wire format, each behind its length in four bytes, are read back.
use mathlib.Core.Path.{subst}
use backend_radius_ai.Prelude.{
  ℕ, suc, ◌+◌, ◌-◌, ◌/◌, ◌%◌, ◌<◌, ◌≡◌, refl, ap, sym, ◌∙◌, true, some, List, [], ◌∷◌, ◌++◌, arith,
  length, length-append,
}
use backend_radius_ai.Triton.{ok}
use backend_radius_ai.Machine.{Memory}
use backend_radius_ai.StringBuffer.{read_u32, validate_string_buffer}
use backend_radius_ai.StringBuffer.Chain.{Chain}
use backend_radius_ai.StringBuffer.Verdict.{validate-ok_iff}

-- The bytes stand in memory from `p` on.
abbrev pub Holds : Memory → ℕ → List ℕ → Type 0
Holds mem p [] = Unit {0}
Holds mem p (b ∷ bs) = (mem p ≡ b) × Holds mem (p + 1) bs

abbrev pub le32 : ℕ → List ℕ
le32 n = (n % 256) ∷ (n / 256 % 256) ∷ (n / 65536 % 256) ∷ (n / 16777216 % 256) ∷ []

abbrev pub encode : List (List ℕ) → List ℕ
encode [] = []
encode (s ∷ ss) = le32 (length s) ++ (s ++ encode ss)

-- Where the strings stand in a buffer that holds their encoding at `p`.
abbrev pub spans_at : ℕ → List (List ℕ) → List (ℕ × ℕ)
spans_at p [] = []
spans_at p (s ∷ ss) = (p + 4, length s) ∷ spans_at (p + 4 + length s) ss

abbrev pub AllShort : List (List ℕ) → Type 0
AllShort [] = Unit {0}
AllShort (s ∷ ss) = (length s < 4294967296) × AllShort ss

-- Each span holds its string.
abbrev pub SpansHold : Memory → List (ℕ × ℕ) → List (List ℕ) → Type 0
SpansHold mem [] [] = Unit {0}
SpansHold mem ((p, len) ∷ spans) (s ∷ ss) =
    (len ≡ length s) × Holds mem p s × SpansHold mem spans ss
SpansHold mem _ _ = ⊥

Holds-append :
    (mem : Memory) (p : ℕ) (xs ys : List ℕ)
    → Holds mem p (xs ++ ys)
    → Holds mem p xs × Holds mem (p + length xs) ys
Holds-append mem p [] ys h = (tt, subst (λ k. Holds mem k ys) (omega arith) h)
Holds-append mem p (x ∷ xs) ys h =
    let (front, back) = Holds-append mem (p + 1) xs ys h.1 in
    ((h.0, front), subst (λ k. Holds mem k ys) (omega arith) back)

read-le32 : (mem : Memory) (p n : ℕ) → n < 4294967296 → Holds mem p (le32 n) → read_u32 mem p ≡ n
read-le32 mem p n h b =
    let b2 : mem (p + 2) ≡ n / 65536 % 256 = ap mem (omega arith) ∙ b.1.1.0 in
    let b3 : mem (p + 3) ≡ n / 16777216 % 256 = ap mem (omega arith) ∙ b.1.1.1.0 in
    omega (arith, b.0, b.1.0, b2, b3)

encode-Chain :
    (mem : Memory) (p tail : ℕ) (ss : List (List ℕ))
    → tail < 4
    → AllShort ss
    → Holds mem p (encode ss)
    → Chain mem p (length (encode ss) + tail) (spans_at p ss) × SpansHold mem (spans_at p ss) ss
encode-Chain mem p tail [] t short h = (omega arith, tt)
encode-Chain mem p tail (s ∷ ss) t short h =
    let (front, back) = Holds-append mem p (le32 (length s)) (s ++ encode ss) h in
    let (here, later) = Holds-append mem (p + 4) s (encode ss) back in
    let (chain, hold) = encode-Chain mem (p + 4 + length s) tail ss t short.1 later in
    let total : suc (suc (suc (suc (length (s ++ encode ss))))) + tail - 4 - length s
        ≡ length (encode ss) + tail =
      omega (arith, length-append s (encode ss)) in
    (
      (
        omega arith,
        refl,
        sym (read-le32 mem p (length s) short.0 front),
        omega (arith, length-append s (encode ss)),
        rw total chain,
      ),
      (refl, here, hold),
    )

length-spans : (p : ℕ) (ss : List (List ℕ)) → length (spans_at p ss) ≡ length ss
length-spans p [] = refl
length-spans p (s ∷ ss) = ap suc (length-spans (p + 4 + length s) ss)

-- A buffer that holds the encoding of some strings, each shorter than 2 ^ 32, is accepted for their
-- number, and the list then points at each of them. Up to three bytes may follow the encoding.
pub validate-encode :
    (mem : Memory) (p tail : ℕ) (ss : List (List ℕ))
    → tail < 4
    → AllShort ss
    → Holds mem p (encode ss)
    → (validate_string_buffer mem p (length (encode ss) + tail) (length ss) true
        ≡ some (ok tt, spans_at p ss))
      × SpansHold mem (spans_at p ss) ss
validate-encode mem p tail ss t short h =
    let (chain, hold) = encode-Chain mem p tail ss t short h in
    (
      (validate-ok_iff mem p (length (encode ss) + tail) (length ss) (spans_at p ss)).1
          (chain, length-spans p ss),
      hold,
    )
