-- ===== src/Capacity/Bounds.antt =====
-- What controllers/scaling.go and controllers/incarnation_controller.go require of a ramp.
use Prim.Native.String.{String}
use picchu.Base.{
  ℕ, ◌+◌, ◌≤◌, ◌<◌, true, false, Option, none, some, List, [], ◌∷◌, ◌≡◌, arith, if◌then◌else◌,
}
use picchu.Api.{RevisionTarget, RevisionStatus}
use picchu.Capacity.{
  Floats, ClusterInfo, RampComputation, Totals, add_totals, is_other_serving, fleet_totals,
  total_current_capacity, expected_total_replicas, compute_fleet_replicas, can_ramp_to,
}

add_totals-pods :
    (tag : String) (r : RevisionStatus) (t : Totals)
    → (add_totals tag r t).0 ≡ t.0 + (if is_other_serving tag r then r.scale.current else 0)
add_totals-pods tag r (pods, traffic, unscaled) = ground arith

fleet_totals-pods :
    (tag : String) (rs : List RevisionStatus) (t : Totals)
    → (fleet_totals tag rs t).0 ≡ t.0 + total_current_capacity tag rs
unfolding fleet_totals total_current_capacity
fleet_totals-pods tag [] t = omega arith
fleet_totals-pods tag (r ∷ rs) t =
    ground (arith, fleet_totals-pods tag rs (add_totals tag r t), add_totals-pods tag r t)

module _ {F : Type 0} (floats : Floats F) (clusters : List (ClusterInfo F)) where
  -- The pods that a computation of the ramp counts are those of `getTotalCurrentCapacity`, which
  -- the accumulating loop and the direct sum agree on.
  pub compute_fleet_replicas-pods :
      (t : Option RevisionTarget) (tag : String) (rs : List RevisionStatus) (desired : ℕ)
      {c : RampComputation}
      → compute_fleet_replicas floats clusters t tag rs desired ≡ some c
      → c.total_pods ≡ total_current_capacity tag rs
  unfolding compute_fleet_replicas
  compute_fleet_replicas-pods none tag rs desired h = absurd (ground arith)
  compute_fleet_replicas-pods (some t) tag rs desired h =
      ground (arith, fleet_totals-pods tag rs (0, 0, false))

  -- A target with a minimum and a positive maximum, whose revision runs on as many replicas as its
  -- maximum yields over all live clusters, can ramp to every percentage.
  pub can_ramp_to_at_max :
      (t : RevisionTarget) (low : ℕ) (status : RevisionStatus) (rs : List RevisionStatus)
      (desired : ℕ)
      → t.scale.min ≡ some low
      → 0 < t.scale.max
      → expected_total_replicas floats clusters t.scale.max 100 ≤ status.scale.current
      → can_ramp_to floats clusters (some t) status rs desired ≡ true
  unfolding can_ramp_to expected_total_replicas
  can_ramp_to_at_max t low status rs desired m pos enough = ground arith
