-- ===== src/BatchInput/Sized.antt =====
-- The buffer that `BatchInputShape` asks for is the one that the element counts fill.
use Prim.Native.String.{String}
use backend_radius_ai.Prelude.{ℕ, List, [], ◌∷◌, map}
use backend_radius_ai.Prelude.Int.{ℤ, pos}
use backend_radius_ai.Shape
use backend_radius_ai.Server.{Server}
use backend_radius_ai.BatchInput.{BatchInput, Kind}
use backend_radius_ai.BatchInput.Elements.{Written}
use backend_radius_ai.BatchInput.Counts.{running}

-- The kinds whose elements are counts.
abbrev pub IsCount : Kind → Type 0
IsCount Kind.element_count = Unit {0}
IsCount Kind.accumulated_element_count = Unit {0}
IsCount Kind.accumulated_element_count_with_zero = Unit {0}
IsCount _ = ⊥

-- The elements of a batch input, from the shapes of the requests' inputs.
abbrev pub count_elements : (ℤ → ℕ) → Kind → List (List ℤ) → List ℕ
count_elements bits Kind.element_count shapes =
    map (λ shape. bits (Shape.element_count shape)) shapes
count_elements bits Kind.accumulated_element_count shapes =
    map (λ sum. bits (pos sum)) (running 0 shapes)
count_elements bits Kind.accumulated_element_count_with_zero shapes =
    0 ∷ map (λ sum. bits (pos sum)) (running 0 shapes)
count_elements bits _ shapes = []
