-- ===== src/Capacity/Samples.antt =====
-- Witnesses for the capacity that a ramp needs: the new revision of two, on ten replicas.
use picchu.Base.{false, some, ◌≡◌, refl}
use picchu.Capacity.{
  RampComputation, live_replicas, expected_replica_count, fleet_totals, base_capacity_of,
  capped_replicas, required_replicas, expected_total_replicas, compute_fleet_replicas,
}
use picchu.Fixtures.{ceilings, clusters, production, controller}

-- The old revision has 10 pods for 80%, so that 25% of the traffic take 4 replicas.
abbrev for_quarter : RampComputation
for_quarter = record {
  expected_replicas = 4;
  total_pods = 10;
  total_traffic_percent = 80;
  has_unscaled_revision = false;
  base_capacity = 13;
}

quarter :
    compute_fleet_replicas ceilings clusters (some production) "new" (controller.statuses) 25
    ≡ some for_quarter
unfolding compute_fleet_replicas required_replicas fleet_totals base_capacity_of capped_replicas
    expected_total_replicas expected_replica_count live_replicas
quarter = refl

ten_replicas : expected_total_replicas ceilings clusters 10 100 ≡ 10
unfolding expected_total_replicas expected_replica_count live_replicas
ten_replicas = refl
