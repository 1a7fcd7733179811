-- ===== src/Traffic/Samples.antt =====
-- Tests and witnesses for `prepareRevisions` (controllers/syncer.go): a new revision that ramps from
-- 20% in steps of 5%, and an old one with 80%.
use picchu.Base.{false, List, [], ◌∷◌, ◌≡◌, arith, refl, sym, subst, finished, All}
use picchu.Deployment.{name}
use picchu.Api.{find_target}
use picchu.Capacity.{
  live_replicas, expected_replica_count, fleet_totals, base_capacity_of, capped_replicas,
  required_replicas, expected_total_replicas, compute_fleet_replicas, can_ramp_to,
}
use picchu.Scaling.{scale, ramp, scale_by, linear_scale, linear_next_increment}
use picchu.Incarnation.{current_percent_target, update_current_percent, is_routable}
use picchu.Incarnation.Targets.{IsValid}
use picchu.Fleet.{
  deployed, is_deployed_state, releasable, unreleasable, is_canarying, is_releasing, is_draining,
  has_tag,
}
use picchu.Traffic.{
  Entry, Prepared, assign, spend, divide, prepare_revisions, reset_unreleasable, top_up_ramping,
}
use picchu.Traffic.Sums.{route_weights, IsSettled, prepare_revisions-weights}
use picchu.Traffic.Limits.{prepare_revisions_total}
use picchu.Traffic.FallBack.{FallsBehind, divide-FallsBehind}
use picchu.Fixtures.{
  controller, new_revision, old_revision, fleet, new_revision-IsValid, old_revision-IsValid,
}

fleet-IsValid : All (IsValid controller) fleet
fleet-IsValid = (new_revision-IsValid, (old_revision-IsValid, tt))

abbrev pub entries : List Entry
entries =
    record { incarnation = update_current_percent 5000 25 new_revision; weight = 25 }
    ∷ record { incarnation = update_current_percent 5000 75 old_revision; weight = 75 }
    ∷ []

divides : divide controller 5000 fleet ≡ finished entries
unfolding divide assign spend top_up_ramping current_percent_target find_target name scale scale_by
    linear_scale ramp linear_next_increment can_ramp_to compute_fleet_replicas required_replicas
    fleet_totals base_capacity_of capped_replicas expected_total_replicas expected_replica_count
    live_replicas
divides = refl

divide-FallsBehind_example : FallsBehind false fleet entries
divide-FallsBehind_example = divide-FallsBehind controller 5000 fleet entries fleet-IsValid divides

-- All that the fleet has is releasable.
pub all_releasable : releasable (reset_unreleasable 5000 fleet) ≡ fleet
unfolding releasable is_canarying is_releasing is_draining has_tag name update_current_percent
all_releasable = refl

pub all_deployed : deployed fleet ≡ fleet
unfolding deployed is_deployed_state name
all_deployed = refl

prepare_revisions_total_example :
    (r : Prepared) × (prepare_revisions controller 5000 fleet ≡ finished r)
prepare_revisions_total_example =
    prepare_revisions_total controller 5000 fleet
      (subst (All (IsValid controller)) (sym all_releasable) fleet-IsValid)

abbrev pub after : Prepared
after = record {
  entries = entries;
  others = [];
  routes =
      record { tag = "new"; weight = 25; tag_routing_header = "new" }
      ∷ record { tag = "old"; weight = 75; tag_routing_header = "old" }
      ∷ [];
}

pub prepares : prepare_revisions controller 5000 fleet ≡ finished after
unfolding prepare_revisions divide assign spend top_up_ramping current_percent_target find_target
    name scale scale_by linear_scale ramp linear_next_increment can_ramp_to compute_fleet_replicas
    required_replicas fleet_totals base_capacity_of capped_replicas expected_total_replicas
    expected_replica_count live_replicas releasable is_canarying is_releasing is_draining has_tag
    update_current_percent deployed is_deployed_state is_routable unreleasable
prepares = refl

prepare_revisions-weights_example :
    (route_weights (after.routes) ≡ 100) × All IsSettled (after.entries)
prepare_revisions-weights_example =
    prepare_revisions-weights controller 5000 fleet after prepares
      (λ e. ground (arith, all_deployed, e)) (λ e. ground (arith, all_releasable, e))
