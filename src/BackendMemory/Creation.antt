-- ===== src/BackendMemory/Creation.antt =====
-- What `BackendMemory::Create` returns when it tries several allocation types.
use mathlib.Core.List.{Mem, mem-cons_self, mem-cons_of_mem}
use mathlib.Core.Path.{subst}
use backend_radius_ai.Prelude.{
  ℕ, ◌≡◌, ◌≢◌, refl, ap, ◌∙◌, ◌↔◌, true, List, [], ◌∷◌, arith, ◌⊎◌, inl, inr,
}
use backend_radius_ai.Triton.{Result, ok, err, ErrorCode, unavailable}
use backend_radius_ai.BackendMemory.{
  AllocationType, Allocators, BackendMemory, owned, allocate, create, create_loop, create_any,
}

pub Result-cases :
    {A : Type 0} (r : Result A) → ((a : A) × (r ≡ ok a)) ⊎ ((e : ErrorCode) × (r ≡ err e))
Result-cases (ok a) = inl (a, refl)
Result-cases (err e) = inr (e, refl)

err≢ok : {A : Type 0} {e : ErrorCode} {a : A} → err e ≢ ok a
err≢ok h = cc

pub record Fits (types : List AllocationType) (id byte_size : ℕ) (m : BackendMemory) : Type 0 where
  pub asked : Mem m.alloc_type types
  pub same_id : m.memory_type_id ≡ id
  pub same_size : m.byte_size ≡ byte_size
  pub owned : m.owns_buffer ≡ true

module _ {H : Type 0} (alloc : Allocators H) where
  create-ok :
      (h : H) (a : AllocationType) (id n : ℕ) (m : BackendMemory)
      → (create alloc h a id n).0 ≡ ok m
      → (m.alloc_type ≡ a) × (m.memory_type_id ≡ id) × (m.byte_size ≡ n) × (m.owns_buffer ≡ true)
  unfolding create
  create-ok h a id n m e = elim (Result-cases (allocate alloc h a id n).0) [
    | inl (ptr, f) ↦
        let built : ok (owned a id n ptr) ≡ ok m = rw f at e in
        let back : owned a id n ptr ≡ m = cc in rw (← back) (refl, refl, refl, refl)
    | inr (x, f) ↦ let built : err x ≡ ok m = rw f at e in absurd (err≢ok built)
  ]

  loop-Fits :
      (types : List AllocationType) (h : H) (id n : ℕ) (m : BackendMemory)
      → (create_loop alloc h types id n).0 ≡ ok m
      → Fits types id n m
  unfolding create_loop
  loop-Fits [] h id n m e = absurd (err≢ok e)
  loop-Fits (a ∷ as') h id n m e = elim (Result-cases (create alloc h a id n).0) [
    | inl (b, f) ↦
        let same : b ≡ m = ground (arith, f) in
        let (t, i, z, o) = create-ok h a id n m (f ∙ ap ok same) in
        record { asked = rw t mem-cons_self; same_id = i; same_size = z; owned = o }
    | inr (x, f) ↦
        let rest = loop-Fits as' (create alloc h a id n).1 id n m (ground (arith, f)) in
        record {
          asked = mem-cons_of_mem a rest.asked;
          same_id = rest.same_id;
          same_size = rest.same_size;
          owned = rest.owned;
        }
  ]

  -- Every type in the list was tried from the state that the one before it left, and failed.
  pub data AllFail : H → List AllocationType → ℕ → ℕ → H → Type 0 where
    none_left : {h : H} {id n : ℕ} → AllFail h [] id n h
    failed :
        {h h' h'' : H} {a : AllocationType} {as' : List AllocationType} {id n : ℕ} {e : ErrorCode}
        → create alloc h a id n ≡ (err e, h')
        → AllFail h' as' id n h''
        → AllFail h (a ∷ as') id n h''

  loop-AllFail :
      (types : List AllocationType) (h : H) (id n : ℕ) (e : ErrorCode)
      → (create_loop alloc h types id n).0 ≡ err e
      → (e ≡ unavailable) × AllFail h types id n (create_loop alloc h types id n).1
  unfolding create_loop
  loop-AllFail [] h id n e f = (ground arith, none_left)
  loop-AllFail (a ∷ as') h id n e f = elim (Result-cases (create alloc h a id n).0) [
    | inl (b, g) ↦ absurd (ground (arith, g))
    | inr (x, g) ↦
        let (u, rest) = loop-AllFail as' (create alloc h a id n).1 id n e (ground (arith, g)) in
        (
          u,
          failed {h' = (create alloc h a id n).1} {e = x} (λ k. (g k, (create alloc h a id n).1))
              (rw (g, create_loop) rest),
        )
  ]

  AllFail-loop :
      {h h' : H} {types : List AllocationType} {id n : ℕ}
      → AllFail h types id n h'
      → create_loop alloc h types id n ≡ (err unavailable, h')
  unfolding create_loop
  AllFail-loop none_left = refl
  AllFail-loop (failed {as' = as'} {id = id} {n = n} e rest) =
      rw (ap (λ (t : Result BackendMemory × H). t.0) e, create_loop)
        (ap (λ (t : Result BackendMemory × H). create_loop alloc t.1 as' id n) e
          ∙ AllFail-loop rest)

  -- A memory object that `Create` returns is of one of the types asked for, has the id and the size
  -- asked for, and owns its buffer.
  pub create_any-Fits :
      (types : List AllocationType) (h : H) (id n : ℕ) (m : BackendMemory)
      → (create_any alloc h types id n).0 ≡ ok m
      → Fits types id n m
  unfolding create_any
  create_any-Fits [] h id n m e = absurd (err≢ok e)
  create_any-Fits (a ∷ as') h id n m e = loop-Fits (a ∷ as') h id n m e

  -- `Create` reports that memory is unavailable exactly if some type was asked for and every type
  -- failed, each tried in turn from the state that the one before it left.
  pub create_any-unavailable :
      (types : List AllocationType) (h h' : H) (id n : ℕ)
      → (create_any alloc h types id n ≡ (err unavailable, h'))
        ↔ ((types ≢ []) × AllFail h types id n h')
  unfolding create_any
  create_any-unavailable [] h h' id n = (λ e. absurd (ground arith), λ p. absurd (p.0 refl))
  create_any-unavailable (a ∷ as') h h' id n = (
    (λ e. (
      (λ f. cc),
      subst (AllFail h (a ∷ as') id n) (ap (λ (t : Result BackendMemory × H). t.1) e)
          (loop-AllFail (a ∷ as') h id n unavailable
            (ap (λ (t : Result BackendMemory × H). t.0) e)).1,
    )),
    λ p. AllFail-loop p.1,
  )
