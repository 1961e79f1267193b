-- ===== src/BackendMemory/Device.antt =====
-- Which CUDA device is current after an allocation.
use backend_radius_ai.Prelude.{ℕ, ◌≡◌, true, some, ◌==◌, ◌∙◌, Bool-cases, Option-cases, inl, inr}
use backend_radius_ai.BackendMemory.{device, Allocators, create, device_alloc, malloc_on}

-- What the CUDA runtime documents of the calls: cudaSetDevice makes its argument the current
-- device, and an allocation leaves the current device alone.
record DeviceLaws {H : Type 0} (alloc : Allocators H) : Type 0 where
  pub set_succeeds : (h : H) (d : ℕ) → (alloc.set_device h d).0 ≡ true
  pub get_set : (h : H) (d : ℕ) → alloc.get_device (alloc.set_device h d).1 ≡ some d
  pub get_malloc : (h : H) (n : ℕ) → alloc.get_device (alloc.malloc h n).1 ≡ alloc.get_device h

module _ {H : Type 0} (alloc : Allocators H) (laws : DeviceLaws alloc) where
  device_alloc_current :
      (h : H) (id n : ℕ) → alloc.get_device (device_alloc alloc h id n).1 ≡ alloc.get_device h
  unfolding device_alloc malloc_on
  device_alloc_current h id n = elim (Option-cases (alloc.get_device h)) [
    | inl e ↦ rw (e, device_alloc) e
    | inr (current, e) ↦ elim (Bool-cases (current == id)) [
      | inl same ↦ rw (e, device_alloc) (rw same (laws.get_malloc h n ∙ e))
      | inr other ↦
          rw (e, device_alloc) (rw (other, laws.set_succeeds h id) (laws.get_set _ current))
    ]
  ]

  -- Where the CUDA calls do what is documented, and setting the device succeeds: allocating on a
  -- device, successfully or not, leaves the device current that was so before.
  create_device_current :
      (h : H) (id n : ℕ) → alloc.get_device (create alloc h device id n).1 ≡ alloc.get_device h
  unfolding create
  create_device_current h id n = elim (Bool-cases alloc.enabled) [
    | inl on ↦ rw on (device_alloc_current h id n)
    | inr off ↦ rw off
  ]
