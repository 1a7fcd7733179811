-- ===== src/Appliers.antt =====
-- plan/applier.go: a plan applied to one cluster, and to all clusters at once. Each cluster is a world
-- of its own, which the goroutine of another cluster does not touch; `finished_order` is the order in
-- which the goroutines end, which errgroup of the library looks at.
pub mod Every
mod Samples
use picchu.Base.{◌≡◌, Option, none, some, List, [], ◌∷◌, map, Panics, panicked, finished, ◌>>=◌}

abbrev pub Applied : Type 0 → Type 0 → Type 0
Applied W Err = Panics (Option Err × W)

-- `Wait`: the error of the goroutine that was the first to return one.
unfoldable pub first_error : {Err : Type 0} → List (Option Err) → Option Err
first_error [] = none
first_error (none ∷ es) = first_error es
first_error (some e ∷ es) = some e

module _ {W Err : Type 0} where
  -- A cluster's applier hands the plan its own client.
  abbrev pub apply_to : (W → Applied W Err) → W → Applied W Err
  apply_to plan cluster = plan cluster

  -- What the goroutines leave: the clusters and the errors; a panic of one ends the process.
  unfoldable pub run_all : (W → Applied W Err) → List W → Panics (List (Option Err) × List W)
  run_all plan [] = finished ([], [])
  run_all plan (w ∷ ws) =
      apply_to plan w >>= λ (e, w'). run_all plan ws >>= λ (es, ws'). finished (e ∷ es, w' ∷ ws')

  -- `ConcurrentApplier.Apply`
  unfoldable pub apply_concurrently :
      (List (Option Err) → List (Option Err))
      → (W → Applied W Err)
      → List W
      → Panics (Option Err × List W)
  unfolding run_all first_error
  apply_concurrently finished_order plan ws =
      run_all plan ws >>= λ (es, ws'). finished (first_error (finished_order es), ws')
