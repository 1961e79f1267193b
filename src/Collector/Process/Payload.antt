-- ===== src/Collector/Process/Payload.antt =====
-- The bytes of the requests' buffers are those of the coalesced inputs.

use backend_radius_ai.Prelude.{
  ℕ, ◌+◌, ◌≡◌, ◌≢◌, refl, ap, ◌∙◌, true, List, [], ◌∷◌, ◌++◌, arith, append_assoc, Bool-cases, inl,
  inr,
}
use backend_radius_ai.Triton.{gpu}
use backend_radius_ai.Machine.{Memory, null}
use backend_radius_ai.Machine.Bytes.{bytes_at, Apart, bytes_at-append}
use backend_radius_ai.Server.{MemoryDesc}
use backend_radius_ai.Collector.Iterator.{ContiguousBuffer, is_next, extend}
use backend_radius_ai.Collector.Iterator.Coalesce.{Indexed, single, coalesce, coalesce_onto}
use backend_radius_ai.Collector.Process.Writes.{total_size, input_bytes, AllApart}

-- The bytes of all buffers, in order, and their number.
abbrev pub payload : Memory → Indexed → List ℕ
payload mem [] = []
payload mem ((i, d) ∷ l) = bytes_at mem d.buffer d.byte_size ++ payload mem l

abbrev pub payload_size : Indexed → ℕ
payload_size [] = 0
payload_size ((i, d) ∷ l) = d.byte_size + payload_size l

-- A host buffer at a valid pointer, that shares no byte with the block of `n` bytes at `dst`.
abbrev pub Readable : ℕ → ℕ → MemoryDesc → Type 0
Readable dst n d = (d.memory_type ≢ gpu) × (d.buffer ≢ null) × Apart d.buffer d.byte_size dst n

abbrev pub AllReadable : ℕ → ℕ → Indexed → Type 0
AllReadable dst n [] = Unit {0}
AllReadable dst n ((i, d) ∷ l) = Readable dst n d × AllReadable dst n l

abbrev pub AllInputs : ℕ → ℕ → List ContiguousBuffer → Type 0
AllInputs dst n [] = Unit {0}
AllInputs dst n (c ∷ cs) = Readable dst n c.memory_desc × AllInputs dst n cs

is_next-buffer :
    (d next : MemoryDesc) → is_next d next ≡ true → d.buffer + d.byte_size ≡ next.buffer
is_next-buffer d next h = ground (arith, h)

extend-Readable :
    (dst n : ℕ) (c : ContiguousBuffer) (i : ℕ) (d : MemoryDesc)
    → is_next c.memory_desc d ≡ true
    → Readable dst n c.memory_desc
    → Readable dst n d
    → Readable dst n (extend c i d).memory_desc
extend-Readable dst n c i d on h k =
    let next = is_next-buffer c.memory_desc d on in
    (h.0, h.1, λ a lo hi l u. ground (arith, h.2 a, k.2 a, next))

coalesce_onto-AllInputs :
    (dst n : ℕ) (c : ContiguousBuffer) (l : Indexed)
    → Readable dst n c.memory_desc
    → AllReadable dst n l
    → AllInputs dst n (coalesce_onto c l)
coalesce_onto-AllInputs dst n c [] h hs = (h, tt)
coalesce_onto-AllInputs dst n c ((i, d) ∷ l) h hs = elim (Bool-cases (is_next c.memory_desc d)) [
  | inl on ↦
      rw on (
        coalesce_onto-AllInputs dst n (extend c i d) l (extend-Readable dst n c i d on h hs.0) hs.1)
  | inr stop ↦ rw stop (h, coalesce_onto-AllInputs dst n (single i d) l hs.0 hs.1)
]

pub coalesce-AllInputs :
    (dst n : ℕ) (l : Indexed) → AllReadable dst n l → AllInputs dst n (coalesce l)
coalesce-AllInputs dst n [] h = tt
coalesce-AllInputs dst n ((i, d) ∷ l) h = coalesce_onto-AllInputs dst n (single i d) l h.0 h.1

coalesce_onto-size :
    (c : ContiguousBuffer) (l : Indexed)
    → total_size (coalesce_onto c l) ≡ c.memory_desc.byte_size + payload_size l
coalesce_onto-size c [] = refl
coalesce_onto-size c ((i, d) ∷ l) = elim (Bool-cases (is_next c.memory_desc d)) [
  | inl on ↦ rw on (omega (arith, coalesce_onto-size (extend c i d) l))
  | inr stop ↦ rw stop (omega (arith, coalesce_onto-size (single i d) l))
]

pub coalesce-size : (l : Indexed) → total_size (coalesce l) ≡ payload_size l
coalesce-size [] = refl
coalesce-size ((i, d) ∷ l) = coalesce_onto-size (single i d) l

coalesce_onto-bytes :
    (mem : Memory) (c : ContiguousBuffer) (l : Indexed)
    → input_bytes mem (coalesce_onto c l)
      ≡ bytes_at mem c.memory_desc.buffer c.memory_desc.byte_size ++ payload mem l
coalesce_onto-bytes mem c [] = refl
coalesce_onto-bytes mem c ((i, d) ∷ l) = elim (Bool-cases (is_next c.memory_desc d)) [
  | inl on ↦
      let m = c.memory_desc in
      rw on (
        coalesce_onto-bytes mem (extend c i d) l
        ∙ ap (λ (bs : List ℕ). bs ++ payload mem l)
            (bytes_at-append mem m.buffer m.byte_size d.byte_size
              ∙ ap (λ p. bytes_at mem m.buffer m.byte_size ++ bytes_at mem p d.byte_size)
                  (is_next-buffer m d on))
        ∙ append_assoc (bytes_at mem m.buffer m.byte_size) (bytes_at mem d.buffer d.byte_size)
            (payload mem l))
  | inr stop ↦ rw stop (
      ap (λ bs. bytes_at mem c.memory_desc.buffer c.memory_desc.byte_size ++ bs)
        (coalesce_onto-bytes mem (single i d) l))
]

-- Joining loses no byte and keeps the order.
pub coalesce-bytes : (mem : Memory) (l : Indexed) → input_bytes mem (coalesce l) ≡ payload mem l
coalesce-bytes mem [] = refl
coalesce-bytes mem ((i, d) ∷ l) = coalesce_onto-bytes mem (single i d) l

pub AllInputs-AllApart :
    (dst n : ℕ) (cs : List ContiguousBuffer) → AllInputs dst n cs → AllApart dst n cs
AllInputs-AllApart dst n [] h = tt
AllInputs-AllApart dst n (c ∷ cs) h = (h.0.2, AllInputs-AllApart dst n cs h.1)
