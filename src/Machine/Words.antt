-- ===== src/Machine/Words.antt =====
-- Four-byte elements in memory, in little-endian order.
use native.Mathlib.Nat.{zero-add, add-zero}
use backend_radius_ai.Prelude.{
  ℕ, zero, suc, ◌+◌, ◌-◌, ◌*◌, ◌/◌, ◌%◌, ◌≤◌, ◌<◌, ◌≡◌, refl, ◌⊎◌, inl, List, [], ◌∷◌, ◌++◌, arith,
  ◌==◌, if◌then◌else◌, length, ap, ◌∙◌,
}
use backend_radius_ai.Machine.{Memory, Transfer, transfer}
use backend_radius_ai.StringBuffer.{read_u32}

abbrev pub u32_mod : ℕ
u32_mod = 4294967296

-- `*p = w`, of 32 bits.
unfoldable pub store_u32 : ℕ → ℕ → Memory → Memory
store_u32 p w mem a =
    if a == p
    then w % 256
    else if a == p + 1
    then w / 256 % 256
    else if a == p + 2
    then w / 65536 % 256
    else if a == p + 3
    then w / 16777216 % 256
    else mem a

-- The elements from `p` on.
abbrev pub words_at : Memory → ℕ → ℕ → List ℕ
words_at mem p zero = []
words_at mem p (suc n) = read_u32 mem p ∷ words_at mem (p + 4) n

pub store_u32-other :
    (p w a : ℕ) (mem : Memory) → (a < p) ⊎ (p + 4 ≤ a) → store_u32 p w mem a ≡ mem a
unfolding store_u32
store_u32-other p w a mem out = ground arith

pub read_u32-store_u32 : (p w : ℕ) (mem : Memory) → w < u32_mod → read_u32 (store_u32 p w mem) p ≡ w
unfolding store_u32
read_u32-store_u32 p w mem h = ground arith

pub read_u32-store_u32_other :
    (p w q : ℕ) (mem : Memory)
    → (q + 4 ≤ p) ⊎ (p + 4 ≤ q)
    → read_u32 (store_u32 p w mem) q ≡ read_u32 mem q
unfolding store_u32
read_u32-store_u32_other p w q mem out = ground arith

-- A row of elements stored one behind the other.
abbrev pub store_words : List ℕ → ℕ → Memory → Memory
store_words [] p mem = mem
store_words (w ∷ ws) p mem = store_words ws (p + 4) (store_u32 p w mem)

abbrev pub AllWords : List ℕ → Type 0
AllWords [] = Unit {0}
AllWords (w ∷ ws) = (w < u32_mod) × AllWords ws

pub store_words-other :
    (ws : List ℕ) (p a : ℕ) (mem : Memory)
    → (a < p) ⊎ (p + 4 * length ws ≤ a)
    → store_words ws p mem a ≡ mem a
store_words-other [] p a mem out = refl
store_words-other (w ∷ ws) p a mem out =
    store_words-other ws (p + 4) a (store_u32 p w mem) (ground (arith, out))
    ∙ store_u32-other p w a mem (ground (arith, out))

pub read_u32-store_words :
    (ws : List ℕ) (p q : ℕ) (mem : Memory)
    → (q + 4 ≤ p) ⊎ (p + 4 * length ws ≤ q)
    → read_u32 (store_words ws p mem) q ≡ read_u32 mem q
read_u32-store_words [] p q mem out = refl
read_u32-store_words (w ∷ ws) p q mem out =
    read_u32-store_words ws (p + 4) q (store_u32 p w mem) (ground (arith, out))
    ∙ read_u32-store_u32_other p w q mem (ground (arith, out))

-- The elements stored are those that stand there.
pub words_at-store_words :
    (ws : List ℕ) (p : ℕ) (mem : Memory)
    → AllWords ws
    → words_at (store_words ws p mem) p (length ws) ≡ ws
words_at-store_words [] p mem fits = refl
words_at-store_words (w ∷ ws) p mem fits =
    let mem' = store_u32 p w mem in
    let head =
      read_u32-store_words ws (p + 4) p mem' (inl (omega arith))
      ∙ read_u32-store_u32 p w mem fits.0 in
    rw (head, words_at-store_words ws (p + 4) mem' fits.1) refl

pub store_words-append :
    (ws vs : List ℕ) (p : ℕ) (mem : Memory)
    → store_words (ws ++ vs) p mem ≡ store_words vs (p + 4 * length ws) (store_words ws p mem)
store_words-append [] vs p mem = let here : p + 4 * 0 ≡ p = omega arith in rw here refl
store_words-append (w ∷ ws) vs p mem =
    let there : p + 4 * suc (length ws) ≡ p + 4 + 4 * length ws = omega arith in
    rw there (store_words-append ws vs (p + 4) (store_u32 p w mem))

pub AllWords-append : (ws vs : List ℕ) → AllWords ws → AllWords vs → AllWords (ws ++ vs)
AllWords-append [] vs h k = k
AllWords-append (w ∷ ws) vs h k = (h.0, AllWords-append ws vs h.1 k)

pub words_at-append :
    (mem : Memory) (p n k : ℕ)
    → words_at mem p (n + k) ≡ words_at mem p n ++ words_at mem (p + 4 * n) k
words_at-append mem p zero k = let here : p + 4 * 0 ≡ p = omega arith in rw (here, zero-add) refl
words_at-append mem p (suc n) k =
    let e : suc n + k ≡ suc (n + k) = omega arith in
    let f : p + 4 * suc n ≡ p + 4 + 4 * n = omega arith in
    rw (e, f) (ap (◌∷◌ (read_u32 mem p)) (words_at-append mem (p + 4) n k))

-- Elements whose bytes are the same are the same.
pub words_at-same :
    (mem mem' : Memory) (p n : ℕ)
    → ((a : ℕ) → p ≤ a → a < p + 4 * n → mem' a ≡ mem a)
    → words_at mem' p n ≡ words_at mem p n
words_at-same mem mem' p zero same = refl
words_at-same mem mem' p (suc n) same =
    let rest = words_at-same mem mem' (p + 4) n (λ a lo hi. same a (omega arith) (omega arith)) in
    rw
      (
        same p (omega arith) (omega arith),
        same (p + 1) (omega arith) (omega arith),
        same (p + 2) (omega arith) (omega arith),
        same (p + 3) (omega arith) (omega arith),
        rest,
      )
      refl

transfer-byte :
    (mem : Memory) (t : Transfer) (i a b : ℕ)
    → i < t.size
    → a ≡ t.dst + i
    → b ≡ t.src + i
    → transfer t mem a ≡ mem b
unfolding transfer
transfer-byte mem t i a b h at_a at_b =
    let here : t.src + (a - t.dst) ≡ b = omega arith in ground (arith, ap mem here)

transfer_words :
    (mem : Memory) (t : Transfer) (i n : ℕ)
    → i + 4 * n ≤ t.size
    → words_at (transfer t mem) (t.dst + i) n ≡ words_at mem (t.src + i) n
transfer_words mem t i zero room = refl
transfer_words mem t i (suc n) room =
    let next : t.dst + i + 4 ≡ t.dst + (i + 4) = omega arith in
    let source : t.src + i + 4 ≡ t.src + (i + 4) = omega arith in
    let b0 = transfer-byte mem t i (t.dst + i) (t.src + i) (omega arith) refl refl in
    let b1 =
      transfer-byte mem t (i + 1) (t.dst + i + 1) (t.src + i + 1) (omega arith) (omega arith)
        (omega arith) in
    let b2 =
      transfer-byte mem t (i + 2) (t.dst + i + 2) (t.src + i + 2) (omega arith) (omega arith)
        (omega arith) in
    let b3 =
      transfer-byte mem t (i + 3) (t.dst + i + 3) (t.src + i + 3) (omega arith) (omega arith)
        (omega arith) in
    let rest = transfer_words mem t (i + 4) n (omega arith) in
    rw (b0, b1, b2, b3, next, source) (ap (◌∷◌ (read_u32 mem (t.src + i))) rest)

-- The elements of a block that has been copied are those of its source.
pub words_at-transfer :
    (mem : Memory) (t : Transfer) (n : ℕ)
    → 4 * n ≤ t.size
    → words_at (transfer t mem) t.dst n ≡ words_at mem t.src n
words_at-transfer mem t n room = simp add-zero at (transfer_words mem t 0 n (omega arith))

pub transfer-other :
    (mem : Memory) (t : Transfer) (a : ℕ)
    → (a < t.dst) ⊎ (t.dst + t.size ≤ a)
    → transfer t mem a ≡ mem a
unfolding transfer
transfer-other mem t a out = ground (arith, out)
