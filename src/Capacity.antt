-- ===== src/Capacity.antt =====
-- controllers/incarnation_controller.go and controllers/scaling.go: how many replicas a fleet of
-- clusters needs before more traffic may reach a revision. `F` stands for float64; `Floats` holds
-- the expressions over it that the code rounds up, since their last bit is not that of the
-- rational numbers.
pub mod Bounds
mod Samples
use Prim.Native.String.{String}
use text.Mathlib.Text.{◌==◌ as str_eq}
use Prim.Native.Nat.{min, max}
use picchu.Base.{
  ℕ, ◌+◌, Bool, false, ◌&&◌, ◌||◌, not, Option, none, some, List, [], ◌∷◌, if◌then◌else◌, ltb, ◌==◌,
  u32, count_if,
}
use picchu.Api.{ScaleInfo, has_autoscaler, RevisionTarget, RevisionStatus}

pub record Floats (F : Type 0) : Type 0 where
  -- math.Ceil(float64(min(100, percent)) / 100 * float64(count))
  pub percent_of : ℕ → ℕ → ℕ
  -- math.Ceil(float64(count) / float64(clusters))
  pub per_cluster : ℕ → ℕ → ℕ
  -- math.Ceil(perCluster * ScalingFactor)
  pub scaled : ℕ → F → ℕ
  -- math.Ceil(totalReplicas * Threshold)
  pub threshold : ℕ → ℕ
  -- math.Ceil(float64(totalPods) / (float64(totalTrafficPercent) / 100.0))
  pub normalized : ℕ → ℕ → ℕ
  -- math.Ceil(percent / 100 * (float64(count) / float64(denominator)))
  pub divided : ℕ → ℕ → ℕ → ℕ

pub record ClusterInfo (F : Type 0) : Type 0 where
  pub name : String
  pub live : Bool
  pub scaling_factor : F

pub record RampComputation : Type 0 where
  pub expected_replicas : ℕ
  pub total_pods : ℕ
  pub total_traffic_percent : ℕ
  pub has_unscaled_revision : Bool
  pub base_capacity : ℕ

-- The totals of the loop over the release manager's statuses: pods, traffic, and whether a
-- revision was fully released and is no more.
abbrev pub Totals : Type 0
Totals = ℕ × ℕ × Bool

abbrev pub is_other_serving : String → RevisionStatus → Bool
is_other_serving tag r =
    not (str_eq r.tag tag) && (ltb 0 r.current_percent && ltb 0 r.scale.current)

abbrev pub add_totals : String → RevisionStatus → Totals → Totals
add_totals tag r (pods, traffic, unscaled) =
    if is_other_serving tag r
    then (
      pods + r.scale.current,
      u32 (traffic + r.current_percent),
      unscaled || r.peak_percent == 100 && ltb r.current_percent 100,
    )
    else (pods, traffic, unscaled)

unfoldable pub fleet_totals : String → List RevisionStatus → Totals → Totals
fleet_totals tag [] totals = totals
fleet_totals tag (r ∷ rs) totals = fleet_totals tag rs (add_totals tag r totals)

-- `getTotalCurrentCapacity`
pub total_current_capacity : String → List RevisionStatus → ℕ
total_current_capacity tag [] = 0
total_current_capacity tag (r ∷ rs) =
    let rest = total_current_capacity tag rs in
    if is_other_serving tag r then r.scale.current + rest else rest

module _ {F : Type 0} (floats : Floats F) (clusters : List (ClusterInfo F)) where
  open floats use {percent_of, per_cluster, scaled, threshold, normalized, divided}

  abbrev pub live_count : ℕ
  live_count = count_if (λ c. c.live) clusters

  -- The loop of `ExpectedReplicaCount(true, …)`.
  unfoldable pub live_replicas : ℕ → List (ClusterInfo F) → ℕ
  live_replicas each [] = 0
  live_replicas each (c ∷ cs) =
      let rest = live_replicas each cs in
      if c.live then scaled each c.scaling_factor + rest else rest

  unfoldable pub expected_replica_count : ℕ → ℕ
  unfolding live_replicas
  expected_replica_count count = live_replicas (per_cluster count live_count) clusters

  unfoldable pub expected_total_replicas : ℕ → ℕ → ℕ
  unfolding expected_replica_count
  expected_total_replicas count percent = expected_replica_count (percent_of percent count)

  unfoldable pub divide_replicas : ℕ → ℕ → ℕ
  divide_replicas count percent = max (divided (min 100 percent) count (max live_count 1)) 1

  -- The capacity that counts as 100%, from the pods of the other revisions.
  unfoldable pub base_capacity_of : ScaleInfo → ℕ → Totals → ℕ
  base_capacity_of scale low (pods, traffic, unscaled) =
      if pods == 0 || traffic == 0
      then low
      else if unscaled
      then (if has_autoscaler scale then pods else if low == 0 then scale.max else low)
      else normalized pods traffic

  unfoldable pub capped_replicas : ScaleInfo → ℕ → ℕ
  unfolding expected_total_replicas
  capped_replicas scale expected =
      if ltb 0 scale.max
      then (let max_fleet = expected_total_replicas scale.max 100 in
          if ltb max_fleet expected then max_fleet else expected)
      else expected

  unfoldable pub required_replicas : ScaleInfo → ℕ → ℕ → Totals → RampComputation
  unfolding base_capacity_of capped_replicas
  required_replicas scale low desired totals =
      let base = base_capacity_of scale low totals in
      record {
        expected_replicas =
            capped_replicas scale (threshold (expected_total_replicas base desired));
        total_pods = totals.0;
        total_traffic_percent = totals.1;
        has_unscaled_revision = totals.2;
        base_capacity = base;
      }

  -- `computeFleetReplicasRequiredForRamp`: `none` where there is no target or no minimum.
  unfoldable pub compute_fleet_replicas :
      Option RevisionTarget → String → List RevisionStatus → ℕ → Option RampComputation
  unfolding required_replicas fleet_totals
  compute_fleet_replicas none tag statuses desired = none
  compute_fleet_replicas (some t) tag statuses desired = elim t.scale.min [
    | none ↦ none
    | some low ↦
        some (required_replicas t.scale low desired (fleet_totals tag statuses (0, 0, false)))
  ]

  unfoldable pub can_ramp_to :
      Option RevisionTarget → RevisionStatus → List RevisionStatus → ℕ → Bool
  unfolding compute_fleet_replicas
  can_ramp_to target status statuses desired =
      elim (compute_fleet_replicas target status.tag statuses desired) [
        | none ↦ false
        | some c ↦ not (ltb status.scale.current c.expected_replicas)
      ]
