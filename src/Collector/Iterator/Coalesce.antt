-- ===== src/Collector/Iterator/Coalesce.antt =====
-- What the iterator stands for: the buffers of the requests in order, with those that follow one
-- another in memory joined.
use backend_radius_ai.Prelude.{ℕ, zero, suc, ◌+◌, List, [], ◌∷◌, ◌++◌, map, if◌then◌else◌}
use backend_radius_ai.Server.{MemoryDesc}
use backend_radius_ai.Collector.Iterator.{ContiguousBuffer, is_next, extend}

-- Buffers with the index of their request.
abbrev pub Indexed : Type 0
Indexed = List (ℕ × MemoryDesc)

abbrev pub indexed : ℕ → List MemoryDesc → Indexed
indexed i ds = map (λ d. (i, d)) ds

-- The buffers of the `n` requests from `i` on.
abbrev pub from_request : (ℕ → List MemoryDesc) → ℕ → ℕ → Indexed
from_request buffers zero i = []
from_request buffers (suc n) i = indexed i (buffers i) ++ from_request buffers n (i + 1)

abbrev pub single : ℕ → MemoryDesc → ContiguousBuffer
single i d = record { memory_desc = d; start_request_idx = i; end_request_idx = i }

-- An input with the buffers that continue it, and the buffers behind them.
abbrev pub absorb : ContiguousBuffer → Indexed → ContiguousBuffer × Indexed
absorb c [] = (c, [])
absorb c ((i, d) ∷ l) =
    let rest = absorb (extend c i d) l in if is_next c.memory_desc d then rest else (c, (i, d) ∷ l)

-- All inputs of a list of buffers.
abbrev pub coalesce_onto : ContiguousBuffer → Indexed → List ContiguousBuffer
coalesce_onto c [] = c ∷ []
coalesce_onto c ((i, d) ∷ l) =
    let longer = coalesce_onto (extend c i d) l in
    let fresh = c ∷ coalesce_onto (single i d) l in
    if is_next c.memory_desc d then longer else fresh

abbrev pub coalesce : Indexed → List ContiguousBuffer
coalesce [] = []
coalesce ((i, d) ∷ l) = coalesce_onto (single i d) l
