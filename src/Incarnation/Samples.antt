-- ===== src/Incarnation/Samples.antt =====
-- Witnesses for controllers/incarnation.go: the new revision of the two.
use native.Mathlib.Nat.{div-add-mod, mod-lt}
use picchu.Base.{◌≡◌, ◌+◌, ◌*◌, ◌-◌, ◌≤◌, true, false, some, finished, arith, refl}
use picchu.Capacity.{
  RampComputation, live_replicas, expected_replica_count, fleet_totals, base_capacity_of,
  capped_replicas, required_replicas, expected_total_replicas, compute_fleet_replicas, can_ramp_to,
  divide_replicas,
}
use picchu.Scaling.{next_increment, linear_next_increment}
use picchu.Incarnation.ScalePlan.{
  scale_bounds, ramps_up, proactive_ramp_min_replicas, divided_replicas,
}
use picchu.Incarnation.Readiness.{RoundsUp, scale_bounds-readies}
use picchu.Api.{find_target}
use picchu.Deployment.{name}
use picchu.Machine.Runs.{IsLawful}
use picchu.Incarnation.{target}
use picchu.Incarnation.Deployments.{incarnation_deployment}
use picchu.Incarnation.Deployments.Lawful.{incarnation_deployment-IsLawful}
use picchu.Fixtures.{ceilings, clusters, production, counting, settings, controller, new_revision}

incarnation_deployment-IsLawful_example :
    IsLawful (incarnation_deployment counting controller settings)
incarnation_deployment-IsLawful_example =
    incarnation_deployment-IsLawful counting controller settings

abbrev for_next : RampComputation
for_next = record {
  expected_replicas = 4;
  total_pods = 10;
  total_traffic_percent = 80;
  has_unscaled_revision = false;
  base_capacity = 13;
}

computed_next :
    compute_fleet_replicas ceilings clusters (some production) "new" (controller.statuses) 25
    ≡ some for_next
unfolding compute_fleet_replicas required_replicas fleet_totals base_capacity_of capped_replicas
    expected_total_replicas expected_replica_count live_replicas
computed_next = refl

ceilings-RoundsUp : RoundsUp ceilings
unfolding RoundsUp
ceilings-RoundsUp count k positive = ground (
  arith,
  div-add-mod (100 * count + 100 * k - 1) (100 * k),
  mod-lt (100 * count + 100 * k - 1) {m = 100 * k} (ground arith),
)

ready_bounds : scale_bounds controller new_revision ≡ finished (4, 3)
unfolding scale_bounds proactive_ramp_min_replicas divided_replicas divide_replicas
    compute_fleet_replicas required_replicas fleet_totals base_capacity_of capped_replicas
    expected_total_replicas expected_replica_count live_replicas next_increment
    linear_next_increment find_target name
ready_bounds = refl

production_found : target controller new_revision ≡ some production
unfolding find_target
production_found = refl

ramps : ramps_up controller new_revision production ≡ true
unfolding next_increment linear_next_increment name
ramps = refl

fits : divide_replicas ceilings clusters 4 100 ≤ divide_replicas ceilings clusters 10 100
unfolding divide_replicas
fits = omega arith

scale_bounds-readies_example :
    can_ramp_to ceilings clusters (some production) (new_revision.status) (controller.statuses) 25
    ≡ true
unfolding next_increment linear_next_increment
scale_bounds-readies_example =
    scale_bounds-readies controller new_revision production 2 4 3 for_next ceilings-RoundsUp
      (omega arith) production_found refl ramps computed_next fits ready_bounds (omega arith)
