-- ===== src/Responder/Scatter.antt =====
-- What the loops that copy outputs leave in memory.

use backend_radius_ai.Prelude.{ℕ, ◌+◌, ◌≤◌, ◌≡◌, ◌≢◌, refl, ◌∙◌, false, List, [], ◌∷◌, ◌++◌, arith}
use backend_radius_ai.Triton.{gpu}
use backend_radius_ai.Machine.{Memory, Transfer, Machine, transfer, run_stream, null}
use backend_radius_ai.Machine.Bytes.{
  bytes_at, Apart, bytes_at-append, bytes_at-transfer, bytes_at-transfer-Apart,
}
use backend_radius_ai.Copy.{Place}
use backend_radius_ai.Copy.Effects.{copy_buffer_host}
use backend_radius_ai.Responses.{respond_if_error}
use backend_radius_ai.Responder.State.{ResponsesList, Settings, Responder}
use backend_radius_ai.Responder.Flush.{copy_to_response, scatter}

-- The copies out of the bytes at `base`, in order.
abbrev pub output_writes : ℕ → ResponsesList → List Transfer
output_writes base [] = []
output_writes base ((idx, o) ∷ outputs) =
    record { dst = o.block.buffer; src = base; size = o.buffer_byte_size }
    ∷ output_writes (base + o.buffer_byte_size) outputs

abbrev pub output_size : ResponsesList → ℕ
output_size [] = 0
output_size ((idx, o) ∷ outputs) = o.buffer_byte_size + output_size outputs

-- The bytes of the outputs, in order.
abbrev pub output_bytes : Memory → ResponsesList → List ℕ
output_bytes mem [] = []
output_bytes mem ((idx, o) ∷ outputs) =
    bytes_at mem o.block.buffer o.buffer_byte_size ++ output_bytes mem outputs

-- The block shares no byte with an output.
abbrev pub AwayFrom : ℕ → ℕ → ResponsesList → Type 0
AwayFrom p n [] = Unit {0}
AwayFrom p n ((idx, o) ∷ outputs) =
    Apart p n o.block.buffer o.buffer_byte_size × AwayFrom p n outputs

-- No two outputs share a byte.
abbrev pub AllAway : ResponsesList → Type 0
AllAway [] = Unit {0}
AllAway ((idx, o) ∷ outputs) = AwayFrom o.block.buffer o.buffer_byte_size outputs × AllAway outputs

-- Outputs at valid pointers in host memory.
abbrev pub HostOutputs : ResponsesList → Type 0
HostOutputs [] = Unit {0}
HostOutputs ((idx, o) ∷ outputs) =
    (o.block.buffer ≢ null) × (o.block.place.memory_type ≢ gpu) × HostOutputs outputs

abbrev pub with_machine : {H : Type 0} → Responder H → Machine → Responder H
with_machine r m = record r { machine = m }

-- Writing the outputs leaves a block that is away from them all.
bytes_at-output_writes :
    (outputs : ResponsesList) (base : ℕ) (mem : Memory) (p n : ℕ)
    → AwayFrom p n outputs
    → bytes_at (run_stream (output_writes base outputs) mem) p n ≡ bytes_at mem p n
unfolding run_stream
bytes_at-output_writes [] base mem p n away = refl
bytes_at-output_writes ((idx, o) ∷ outputs) base mem p n away =
    let t : Transfer = record { dst = o.block.buffer; src = base; size = o.buffer_byte_size } in
    bytes_at-output_writes outputs (base + o.buffer_byte_size) (transfer t mem) p n away.1
    ∙ bytes_at-transfer-Apart mem t p n away.0

AwayFrom-part :
    (outputs : ResponsesList) (p n q k : ℕ)
    → p ≤ q
    → q + k ≤ p + n
    → AwayFrom p n outputs
    → AwayFrom q k outputs
AwayFrom-part [] p n q k lo hi away = tt
AwayFrom-part ((idx, o) ∷ outputs) p n q k lo hi away =
    (λ a l h. away.0 a (omega arith) (omega arith), AwayFrom-part outputs p n q k lo hi away.1)

-- The outputs hold the block that they are copied out of.
pub output_bytes-output_writes :
    (outputs : ResponsesList) (base : ℕ) (mem : Memory)
    → AllAway outputs
    → AwayFrom base (output_size outputs) outputs
    → output_bytes (run_stream (output_writes base outputs) mem) outputs
      ≡ bytes_at mem base (output_size outputs)
unfolding run_stream
output_bytes-output_writes [] base mem apart away = refl
output_bytes-output_writes ((idx, o) ∷ outputs) base mem apart away =
    let size = o.buffer_byte_size in
    let t : Transfer = record { dst = o.block.buffer; src = base; size = size } in
    let rest_away =
      AwayFrom-part outputs base (size + output_size outputs) (base + size) (output_size outputs)
        (omega arith) (omega arith) away.1 in
    let head =
      bytes_at-output_writes outputs (base + size) (transfer t mem) o.block.buffer size apart.0
      ∙ bytes_at-transfer mem t in
    let rest =
      output_bytes-output_writes outputs (base + size) (transfer t mem) apart.1 rest_away
      ∙ bytes_at-transfer-Apart mem t (base + size) (output_size outputs)
          (λ a l h. away.0 a (omega arith) (omega arith)) in
    rw (head, rest, bytes_at-append mem base size (output_size outputs)) refl

module _ {H : Type 0} (settings : Settings H) (src_place : Place) where
  -- Between host buffers the outputs are written at once.
  pub scatter_host :
      (base : ℕ) (outputs : ResponsesList) (r : Responder H)
      → settings.copy_on_stream ≡ false
      → src_place.memory_type ≢ gpu
      → base ≢ null
      → HostOutputs outputs
      → scatter settings src_place base outputs r ≡ (
        false,
        with_machine r
            (record r.machine { mem = run_stream (output_writes base outputs) r.machine.mem }),
      )
  unfolding scatter copy_to_response respond_if_error run_stream
  scatter_host base [] r off host valid all = refl
  scatter_host base ((idx, o) ∷ outputs) r off host valid all =
      let t : Transfer = record { dst = o.block.buffer; src = base; size = o.buffer_byte_size } in
      let here =
        copy_buffer_host settings.cuda src_place o.block.place t settings.copy_on_stream r.machine
          host all.1 valid all.0 off in
      let rest =
        scatter_host (base + o.buffer_byte_size) outputs
          (with_machine r (record r.machine { mem = transfer t r.machine.mem })) off host
          (λ e. omega (arith, valid)) all.2 in
      rw here (rw rest refl)
