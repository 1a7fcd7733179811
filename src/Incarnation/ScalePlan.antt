-- ===== src/Incarnation/ScalePlan.antt =====
-- controllers/incarnation.go: the bounds that `genScalePlan` gives a plan. The targets of the
-- utilization, which it scales in place, are left out.
use picchu.Base.{
  ℕ, Bool, true, false, ◌&&◌, ◌||◌, not, Option, none, some, if◌then◌else◌, ltb, ◌==◌, Panics,
  finished, ◌>>=◌, deref,
}
use picchu.Deployment.{State}
use picchu.Api.{RevisionTarget, ScaleInfo, has_autoscaler}
use picchu.Capacity.{RampComputation, divide_replicas, compute_fleet_replicas}
use picchu.Scaling.{next_increment}
use picchu.Incarnation.{Incarnation, Controller, in_state, is_routable, target, scalable}

abbrev pub is_worker : ScaleInfo → Bool
is_worker s = s.worker || s.keda_worker

module _ {F : Type 0} (c : Controller F) where
  -- The replicas that a computation asks of a cluster, up to the most that the target lets it run.
  abbrev pub per_cluster : RevisionTarget → Option RampComputation → ℕ
  per_cluster t none = 0
  per_cluster t (some r) =
      let each = divide_replicas c.floats c.clusters r.expected_replicas 100 in
      let most = divide_replicas c.floats c.clusters t.scale.max 100 in
      if ltb most each then most else each

  abbrev pub next_of : Incarnation → RevisionTarget → ℕ
  next_of i t = next_increment (scalable c i t) t.release.max

  abbrev pub has_min : Option ℕ → Bool
  has_min none = false
  has_min (some n) = true

  -- The early returns.
  abbrev pub ramps_up : Incarnation → RevisionTarget → Bool
  ramps_up i t =
      i.is_ramping
      && not (i.status.current_percent == 0)
      && in_state State.releasing i
      && has_min t.scale.min
      && not (is_worker t.scale)
      && has_autoscaler t.scale
      && ltb i.status.current_percent (next_of i t)

  -- `proactiveRampMinReplicas`, for a target that is set.
  unfoldable pub proactive_ramp_min_replicas : Incarnation → RevisionTarget → ℕ
  proactive_ramp_min_replicas i t =
      if ramps_up i t
      then per_cluster t (
          compute_fleet_replicas c.floats c.clusters (some t) i.status.tag c.statuses (next_of i t))
      else 0

  abbrev pub divided_percent : Incarnation → RevisionTarget → ℕ
  divided_percent i t =
      if in_state State.canarying i
      then t.canary.percent
      else if i.is_ramping
      then next_of i t
      else i.status.current_percent

  -- `divideReplicas`
  unfoldable pub divided_replicas : Incarnation → RevisionTarget → ℕ → ℕ
  divided_replicas i t count =
      if in_state State.deploying i || in_state State.deployed i || in_state State.pendingrelease i
      then 1
      else divide_replicas c.floats c.clusters count (divided_percent i t)

  abbrev pub bounds_from : Incarnation → RevisionTarget → ℕ → ℕ × ℕ
  bounds_from i t low =
      let lo = divided_replicas i t low in
      let hi = divided_replicas i t t.scale.max in
      let prm = proactive_ramp_min_replicas i t in
      let raised = if ltb lo prm then prm else lo in
      if is_worker t.scale && not (is_routable i)
      then (0, 0)
      else if i.status.current_percent == 0
      then (hi, hi)
      else if is_worker t.scale && low == 0
      then (0, hi)
      else (raised, hi)

  -- The minimum and maximum of `genScalePlan`.
  unfoldable pub scale_bounds : Incarnation → Panics (ℕ × ℕ)
  scale_bounds i =
      deref (target c i) >>= λ t. deref t.scale.min >>= λ low. finished (bounds_from i t low)
