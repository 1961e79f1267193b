-- ===== src/Collector/Process/Writes.antt =====
-- A row of inputs copied into a tensor, one behind the other.
use mathlib.Core.Path.{ap₂}
use backend_radius_ai.Prelude.{ℕ, ◌+◌, ◌≤◌, ◌≡◌, refl, ◌∙◌, List, [], ◌∷◌, ◌++◌, arith}
use backend_radius_ai.Machine.{Memory, Transfer, transfer}
use backend_radius_ai.Machine.Bytes.{
  bytes_at, Apart, bytes_at-append, bytes_at-transfer, bytes_at-transfer-Apart,
}
use backend_radius_ai.Collector.Iterator.{ContiguousBuffer}

abbrev pub write : ContiguousBuffer → ℕ → Transfer
write c dst = record { dst = dst; src = c.memory_desc.buffer; size = c.memory_desc.byte_size }

abbrev pub write_inputs : List ContiguousBuffer → ℕ → Memory → Memory
write_inputs [] dst mem = mem
write_inputs (c ∷ cs) dst mem =
    write_inputs cs (dst + c.memory_desc.byte_size) (transfer (write c dst) mem)

abbrev pub total_size : List ContiguousBuffer → ℕ
total_size [] = 0
total_size (c ∷ cs) = c.memory_desc.byte_size + total_size cs

-- The bytes of the inputs, in order.
abbrev pub input_bytes : Memory → List ContiguousBuffer → List ℕ
input_bytes mem [] = []
input_bytes mem (c ∷ cs) =
    bytes_at mem c.memory_desc.buffer c.memory_desc.byte_size ++ input_bytes mem cs

-- No input has a byte in the block.
abbrev pub AllApart : ℕ → ℕ → List ContiguousBuffer → Type 0
AllApart dst n [] = Unit {0}
AllApart dst n (c ∷ cs) =
    Apart c.memory_desc.buffer c.memory_desc.byte_size dst n × AllApart dst n cs

AllApart-mono :
    (dst n dst' n' : ℕ) (cs : List ContiguousBuffer)
    → dst ≤ dst'
    → dst' + n' ≤ dst + n
    → AllApart dst n cs
    → AllApart dst' n' cs
AllApart-mono dst n dst' n' [] lo hi h = tt
AllApart-mono dst n dst' n' (c ∷ cs) lo hi h =
    ((λ a p q r s. h.0 a p q (omega arith) (omega arith)), AllApart-mono dst n dst' n' cs lo hi h.1)

input_bytes-transfer :
    (cs : List ContiguousBuffer) (t : Transfer) (mem : Memory)
    → AllApart t.dst t.size cs
    → input_bytes (transfer t mem) cs ≡ input_bytes mem cs
input_bytes-transfer [] t mem h = refl
input_bytes-transfer (c ∷ cs) t mem h =
    ap₂ (◌++◌) (bytes_at-transfer-Apart mem t c.memory_desc.buffer c.memory_desc.byte_size h.0)
      (input_bytes-transfer cs t mem h.1)

-- What stands before the block that is written stays as it is.
pub write_inputs-Apart :
    (cs : List ContiguousBuffer) (dst : ℕ) (mem : Memory) (p n : ℕ)
    → Apart p n dst (total_size cs)
    → bytes_at (write_inputs cs dst mem) p n ≡ bytes_at mem p n
write_inputs-Apart [] dst mem p n h = refl
write_inputs-Apart (c ∷ cs) dst mem p n h =
    write_inputs-Apart cs (dst + c.memory_desc.byte_size) (transfer (write c dst) mem) p n
      (λ a lo hi l u. h a lo hi (omega arith) (omega arith))
    ∙ bytes_at-transfer-Apart mem (write c dst) p n
        (λ a lo hi l u. h a lo hi (omega arith) (omega arith))

pub bytes_at-write_inputs :
    (cs : List ContiguousBuffer) (dst : ℕ) (mem : Memory)
    → AllApart dst (total_size cs) cs
    → bytes_at (write_inputs cs dst mem) dst (total_size cs) ≡ input_bytes mem cs
bytes_at-write_inputs [] dst mem h = refl
bytes_at-write_inputs (c ∷ cs) dst mem h =
    let n = c.memory_desc.byte_size in
    let mem' = transfer (write c dst) mem in
    bytes_at-append (write_inputs cs (dst + n) mem') dst n (total_size cs)
    ∙ ap₂ (◌++◌)
        (write_inputs-Apart cs (dst + n) mem' dst n (λ a lo hi l u. omega arith)
          ∙ bytes_at-transfer mem (write c dst))
        (bytes_at-write_inputs cs (dst + n) mem' (
            AllApart-mono dst (n + total_size cs) (dst + n) (total_size cs) cs (omega arith)
              (omega arith) h.1)
          ∙ input_bytes-transfer cs (write c dst) mem
              (AllApart-mono dst (n + total_size cs) dst n cs (omega arith) (omega arith) h.1))
