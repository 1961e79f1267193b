-- ===== src/Machine/Bytes.antt =====
-- The bytes that a copy writes, and those that it leaves.
use native.Mathlib.Nat.{zero-add, add-zero}
use backend_radius_ai.Prelude.{
  ℕ, zero, suc, ◌+◌, ◌-◌, ◌≤◌, ◌<◌, ◌≡◌, refl, ap, List, [], ◌∷◌, ◌++◌, arith,
}
use backend_radius_ai.Machine.{Memory, Transfer, transfer}

-- The bytes in memory from `p` on.
abbrev pub bytes_at : Memory → ℕ → ℕ → List ℕ
bytes_at mem p zero = []
bytes_at mem p (suc n) = mem p ∷ bytes_at mem (p + 1) n

-- No byte stands in both blocks.
abbrev pub Apart : ℕ → ℕ → ℕ → ℕ → Type 0
Apart p n q k = (a : ℕ) → p ≤ a → a < p + n → q ≤ a → a < q + k → ⊥

cons_eq : {x y : ℕ} {xs ys : List ℕ} → x ≡ y → xs ≡ ys → x ∷ xs ≡ y ∷ ys
cons_eq e f = cc

pub bytes_at-append :
    (mem : Memory) (p n k : ℕ) → bytes_at mem p (n + k) ≡ bytes_at mem p n ++ bytes_at mem (p + n) k
bytes_at-append mem p zero k = rw (zero-add, add-zero)
bytes_at-append mem p (suc n) k =
    let e : suc n + k ≡ suc (n + k) = omega arith in
    let f : p + suc n ≡ p + 1 + n = omega arith in
    rw (e, f) (ap (◌∷◌ (mem p)) (bytes_at-append mem (p + 1) n k))

-- A block apart from the destination is as it was.
pub bytes_at-transfer-Apart :
    (mem : Memory) (t : Transfer) (p n : ℕ)
    → Apart p n t.dst t.size
    → bytes_at (transfer t mem) p n ≡ bytes_at mem p n
unfolding transfer
bytes_at-transfer-Apart mem t p zero h = refl
bytes_at-transfer-Apart mem t p (suc n) h =
    cons_eq (ground (arith, h p))
      (bytes_at-transfer-Apart mem t (p + 1) n (λ a lo hi. h a (omega arith) (omega arith)))

transfer_block :
    (mem : Memory) (t : Transfer) (i n : ℕ)
    → i + n ≤ t.size
    → bytes_at (transfer t mem) (t.dst + i) n ≡ bytes_at mem (t.src + i) n
unfolding transfer
transfer_block mem t i zero h = refl
transfer_block mem t i (suc n) h =
    let next : t.dst + i + 1 ≡ t.dst + (i + 1) = omega arith in
    let source : t.src + i + 1 ≡ t.src + (i + 1) = omega arith in
    let here : t.dst + i - t.dst ≡ i = omega arith in
    rw (next, source)
      (cons_eq (ground (arith, ap (λ k. mem (t.src + k)) here))
        (transfer_block mem t (i + 1) n (omega arith)))

-- The destination holds what the source held.
pub bytes_at-transfer :
    (mem : Memory) (t : Transfer)
    → bytes_at (transfer t mem) t.dst t.size ≡ bytes_at mem t.src t.size
bytes_at-transfer mem t = simp add-zero at (transfer_block mem t 0 t.size (omega arith))
