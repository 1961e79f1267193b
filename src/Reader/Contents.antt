-- ===== src/Reader/Contents.antt =====
-- What `ReadInputTensor` leaves in the buffer.
use Prim.Native.String.{String}
use backend_radius_ai.Prelude.{
  ℕ, suc, ◌+◌, ◌≤◌, ◌≡◌, ◌≢◌, refl, sym, ◌∙◌, true, false, Option, some, List, [], ◌∷◌, ◌++◌, arith,
  length, length-append, leb, append_assoc, get_elem?,
}
use backend_radius_ai.Triton.{ok, gpu}
use backend_radius_ai.Machine.{Machine, Transfer, transfer, null}
use backend_radius_ai.Machine.Bytes.{bytes_at}
use backend_radius_ai.Copy.{Cuda, Place, copy_buffer}
use backend_radius_ai.Copy.Effects.{copy_buffer_host}
use backend_radius_ai.Server.{Server, MemoryDesc, Properties}
use backend_radius_ai.Collector.Tensor.{place_of}
use backend_radius_ai.Collector.Iterator.{ContiguousBuffer}
use backend_radius_ai.Collector.Iterator.Coalesce.{single}
use backend_radius_ai.Collector.Iterator.Served.{get_elem?-append}
use backend_radius_ai.Collector.Process.Writes.{
  write_inputs, total_size, input_bytes, bytes_at-write_inputs,
}
use backend_radius_ai.Collector.Process.Payload.{AllInputs, AllInputs-AllApart}
use backend_radius_ai.Reader.{read_loop, open_input, read_input_tensor}

-- Each buffer as an input of its own.
abbrev pub singles : List MemoryDesc → List ContiguousBuffer
singles [] = []
singles (d ∷ ds) = single 0 d ∷ singles ds

module _ (cuda : Cuda) (server : Server) (policy : Option String) (place : Place)
    (host : place.memory_type ≢ gpu) (input : Server.Input server) (buffers : List MemoryDesc)
    (reads : (k : ℕ) (d : MemoryDesc)
      → get_elem? buffers k ≡ some d
      → server.input_buffer input policy k ≡ ok d) where
  read_loop-step :
      (pre : List MemoryDesc) (d : MemoryDesc) (n dst : ℕ) (m m' : Machine)
      → server.input_buffer input policy (length pre) ≡ ok d
      → copy_buffer cuda
          (place_of d)
          place
          (record { dst = dst; src = d.buffer; size = d.byte_size })
          false
          m
        ≡ (ok tt, false, m')
      → read_loop cuda server policy place false input (suc n) (length pre) dst false m
        ≡ read_loop cuda server policy place false input n
            (length pre + 1)
            (dst + d.byte_size)
            false
            m'
  unfolding read_loop
  read_loop-step pre d n dst m m' e f = rw (read_loop, e, f) (rw f refl)

  read_loop-writes :
      (pre ds : List MemoryDesc) (p n dst : ℕ) (m : Machine)
      → buffers ≡ pre ++ ds
      → AllInputs p n (singles ds)
      → dst ≢ null
      → read_loop cuda server policy place false input (length ds) (length pre) dst false m
        ≡ (ok tt, false, record m { mem = write_inputs (singles ds) dst m.mem })
  unfolding read_loop
  read_loop-writes pre [] p n dst m e h valid = refl
  read_loop-writes pre (d ∷ ds) p n dst m e h valid =
      let next : length pre + 1 ≡ length (pre ++ d ∷ []) =
        omega (arith, length-append pre (d ∷ [])) in
      let t : Transfer = record { dst = dst; src = d.buffer; size = d.byte_size } in
      read_loop-step pre d (length ds) dst m (record m { mem = transfer t m.mem })
        (reads (length pre) d (rw e (get_elem?-append pre d ds)))
        (copy_buffer_host cuda (place_of d) place t false m h.0.0 host h.0.1 valid refl)
      ∙ rw next (
          read_loop-writes (pre ++ d ∷ []) ds p n (dst + d.byte_size)
            (record m { mem = transfer t m.mem }) (e ∙ sym (append_assoc pre (d ∷ []) ds)) h.1
            (λ z. omega (arith, valid, z)))

  -- Off the stream, into a host buffer at a valid pointer, from host buffers at valid pointers
  -- that share no byte with it: where the server has the input, of as many bytes as its buffers
  -- hold, and it fits, the call succeeds with the input's byte size, and the buffer holds the
  -- bytes of all the input's buffers in order.
  pub read_input_tensor-bytes :
      (request : Server.Request server) (name : String) (p : Properties) (dst size : ℕ)
      (m : Machine)
      → server.request_input request name ≡ ok input
      → server.input_properties input policy ≡ ok p
      → p.buffer_count ≡ length buffers
      → p.byte_size ≡ total_size (singles buffers)
      → p.byte_size ≤ size
      → dst ≢ null
      → AllInputs dst p.byte_size (singles buffers)
      → (m' : Machine) × (read_input_tensor cuda server policy place false request name dst size
            false m
          ≡ (ok p.byte_size, false, m'))
        × (bytes_at m'.mem dst p.byte_size ≡ input_bytes m.mem (singles buffers))
  unfolding read_input_tensor open_input
  read_input_tensor-bytes request name p dst size m opened props count total fits valid readable =
      let room : leb p.byte_size size ≡ true = ground arith in
      (
        record m { mem = write_inputs (singles buffers) dst m.mem },
        rw (
          opened,
          props,
          room,
          count,
          read_loop-writes [] buffers dst p.byte_size dst m refl readable valid,
          read_input_tensor,
        ),
        rw total (
            bytes_at-write_inputs (singles buffers) dst m.mem (
              AllInputs-AllApart dst (total_size (singles buffers)) (singles buffers)
                (rw (← total) readable))),
      )
