-- ===== src/Batching/Single.antt =====
-- examples/batching_strategies/single_batching/src/single_batching.cc. A batch's placeholder says
-- whether it is empty.
use backend_radius_ai.Prelude.{◌≡◌, refl, Bool, true, false, List, [], ◌∷◌, map, if◌then◌else◌, ap}

-- `*should_include`, and the placeholder afterwards; the call returns no error.
unfoldable pub include_request : Bool → Bool × Bool
include_request empty = if empty then (true, false) else (false, empty)

unfoldable pub batch_initialize : Bool
batch_initialize = true

-- The answers to a row of requests.
abbrev pub answers : {Request : Type 0} → List Request → Bool → List Bool
answers [] empty = []
answers (request ∷ requests) empty =
    let (included, empty') = include_request empty in included ∷ answers requests empty'

answers_full :
    {Request : Type 0} (requests : List Request)
    → answers requests false ≡ map (λ r. false) requests
unfolding include_request
answers_full [] = refl
answers_full (request ∷ requests) = ap (◌∷◌ false) (answers_full requests)

-- Of the requests that are offered to a new batch, the first is included and no other.
answers_first :
    {Request : Type 0} (request : Request) (requests : List Request)
    → answers (request ∷ requests) batch_initialize ≡ true ∷ map (λ r. false) requests
unfolding include_request batch_initialize
answers_first request requests = ap (◌∷◌ true) (answers_full requests)
