-- ===== src/Copy/Effects.antt =====
-- What `CopyBuffer` does to memory and to the stream.
use backend_radius_ai.Prelude.{
  ◌<◌, ◌≡◌, ◌≢◌, Bool, true, false, [], ◌∷◌, ◌++◌, ◌⊎◌, inl, inr, arith,
}
use backend_radius_ai.Triton.{gpu, ErrorCode, internal, ok, err}
use backend_radius_ai.Machine.{Transfer, Machine, transfer, synchronize, null}
use backend_radius_ai.Copy.{Cuda, CudaCall, Place, copy_buffer}

module _ (cuda : Cuda) (src dst : Place) (t : Transfer) (on_stream : Bool) (m : Machine) where
  -- A copy that fails is an internal error, has changed nothing and has launched nothing.
  pub copy_buffer-err :
      (e : ErrorCode)
      → (copy_buffer cuda src dst t on_stream m).0 ≡ err e
      → copy_buffer cuda src dst t on_stream m ≡ (err internal, false, m)
  unfolding copy_buffer
  copy_buffer-err e h = ground arith

  -- A copy that succeeds has been made at once, or is the last one in the stream and `*cuda_used`
  -- is set. Of a host function it is assumed that its launch succeeds: the code does not look.
  copy_buffer-ok :
      cuda.succeeds m (CudaCall.launch_host t) ≡ true
      → (copy_buffer cuda src dst t on_stream m).0 ≡ ok tt
      → (copy_buffer cuda src dst t on_stream m
          ≡ (ok tt, false, record m { mem = transfer t m.mem }))
        ⊎ (copy_buffer cuda src dst t on_stream m
            ≡ (ok tt, true, record m { stream = m.stream ++ t ∷ [] }))
  unfolding copy_buffer
  copy_buffer-ok launches h = ground arith

  -- Between host buffers, and not on the stream, a copy of valid pointers is made at once.
  pub copy_buffer_host :
      src.memory_type ≢ gpu
      → dst.memory_type ≢ gpu
      → t.src ≢ null
      → t.dst ≢ null
      → on_stream ≡ false
      → copy_buffer cuda src dst t on_stream m ≡ (ok tt, false, record m { mem = transfer t m.mem })
  unfolding copy_buffer
  copy_buffer_host hs hd ns nd off = ground (arith, hs, hd, ns, nd)

  -- From or to a device, a copy of valid pointers whose launch succeeds is the last in the stream.
  pub copy_buffer_device :
      cuda.enabled ≡ true
      → ((call : CudaCall) → cuda.succeeds m call ≡ true)
      → src.memory_type ≡ gpu
      → t.src ≢ null
      → t.dst ≢ null
      → copy_buffer cuda src dst t on_stream m
        ≡ (ok tt, true, record m { stream = m.stream ++ t ∷ [] })
  unfolding copy_buffer
  copy_buffer_device enabled launches device src_ok dst_ok =
      grind (arith, launches, enabled, device, src_ok, dst_ok)

  -- A null pointer is refused if there is a byte to copy, and accepted between host buffers if not.
  copy_buffer-null :
      (t.src ≡ null) ⊎ (t.dst ≡ null)
      → 0 < t.size
      → copy_buffer cuda src dst t on_stream m ≡ (err internal, false, m)
  unfolding copy_buffer
  copy_buffer-null bad some_bytes = ground arith

-- From an empty stream, a copy that succeeds has been made after a synchronization, at once or
-- on the stream. Of a host function it is assumed that its launch succeeds.
copy_buffer-synchronize :
    (cuda : Cuda) (src dst : Place) (t : Transfer) (on_stream : Bool) (m : Machine)
    → cuda.succeeds m (CudaCall.launch_host t) ≡ true
    → m.stream ≡ []
    → (copy_buffer cuda src dst t on_stream m).0 ≡ ok tt
    → (synchronize (copy_buffer cuda src dst t on_stream m).2).mem ≡ transfer t m.mem
unfolding synchronize
copy_buffer-synchronize cuda src dst t on_stream m launches empty h =
    elim (copy_buffer-ok cuda src dst t on_stream m launches h) [
      | inl e ↦ rw (e, empty)
      | inr e ↦ rw (e, empty)
    ]

-- The same where copies between host buffers are not put on the stream.
pub copy_buffer-off_stream :
    (cuda : Cuda) (src dst : Place) (t : Transfer) (on_stream : Bool) (m : Machine)
    → on_stream ≡ false
    → m.stream ≡ []
    → (copy_buffer cuda src dst t on_stream m).0 ≡ ok tt
    → (synchronize (copy_buffer cuda src dst t on_stream m).2).mem ≡ transfer t m.mem
unfolding synchronize
copy_buffer-off_stream cuda src dst t on_stream m off empty h = elim made [
  | inl e ↦ rw (e, empty)
  | inr e ↦ rw (e, empty)
]
  where
    made :
        (copy_buffer cuda src dst t on_stream m
          ≡ (ok tt, false, record m { mem = transfer t m.mem }))
        ⊎ (copy_buffer cuda src dst t on_stream m
            ≡ (ok tt, true, record m { stream = m.stream ++ t ∷ [] }))
    made = unfold copy_buffer in ground (arith, h, off)
