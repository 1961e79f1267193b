-- ===== src/Config/Chains.antt =====
-- A chain of fallible calls that succeeds, taken apart.
use backend_radius_ai.Prelude.{◌≡◌, refl}
use backend_radius_ai.Triton.{Result, ok, err, ◌>>=◌}

-- The call in front succeeds, and so does what follows on its result.
pub unbind {ℓ} :
    {A B : Type 0} {Q : Type ℓ} (m : Result A) (f : A → Result B) {b : B}
    → (m >>= f) ≡ ok b
    → ((a : A) → m ≡ ok a → f a ≡ ok b → Q)
    → Q
unbind (ok a) f e next = next a refl e
unbind (err x) f e next = absurd cc

abbrev pub Splits : {A B : Type 0} → Result A → (A → Result B) → B → Type 0
Splits {A} m f b = (a : A) × (m ≡ ok a) × (f a ≡ ok b)

pub split_chain :
    {A B : Type 0} (m : Result A) (f : A → Result B) {b : B} → (m >>= f) ≡ ok b → Splits m f b
split_chain m f e = unbind m f e λ a first rest. (a, first, rest)

pub ok_injective : {A : Type 0} {a b : A} → ok a ≡ ok b → a ≡ b
ok_injective e = cc
