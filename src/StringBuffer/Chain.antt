-- ===== src/StringBuffer/Chain.antt =====
-- How the strings of a buffer lie in it.
use backend_radius_ai.Prelude.{ℕ, ◌+◌, ◌-◌, ◌≤◌, ◌<◌, ◌≡◌, List, [], ◌∷◌}
use backend_radius_ai.Machine.{Memory}
use backend_radius_ai.StringBuffer.{read_u32}

-- The spans are the strings of the buffer, one behind the other, each behind the four bytes of its
-- length; fewer than four bytes are left over.
abbrev pub Chain : Memory → ℕ → ℕ → List (ℕ × ℕ) → Type 0
Chain mem buffer remaining [] = remaining < 4
Chain mem buffer remaining ((p, len) ∷ spans) =
    (4 ≤ remaining)
    × (p ≡ buffer + 4)
    × (len ≡ read_u32 mem buffer)
    × (len ≤ remaining - 4)
    × Chain mem (buffer + 4 + len) (remaining - 4 - len) spans

-- After the spans a length is promised that the rest of the buffer cannot hold.
abbrev pub Torn : Memory → ℕ → ℕ → List (ℕ × ℕ) → Type 0
Torn mem buffer remaining [] = (4 ≤ remaining) × (remaining - 4 < read_u32 mem buffer)
Torn mem buffer remaining ((p, len) ∷ spans) =
    (4 ≤ remaining)
    × (p ≡ buffer + 4)
    × (len ≡ read_u32 mem buffer)
    × (len ≤ remaining - 4)
    × Torn mem (buffer + 4 + len) (remaining - 4 - len) spans
