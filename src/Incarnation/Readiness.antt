-- ===== src/Incarnation/Readiness.antt =====
-- controllers/incarnation.go: the minimum of a plan and the gate of the next increment.
use native.Mathlib.Nat.{mul-le-mul_right, max-eq_left}
use Prim.Native.Nat.{max}
use picchu.Base.{
  ℕ, ◌*◌, ◌≤◌, ◌<◌, Bool, true, false, not, Option, none, some, ltb, finished, finished-injective,
  ◌>>=◌, deref, ◌≡◌, sym, ap, ◌∙◌, subst, arith,
}
use picchu.Api.{RevisionTarget}
use picchu.Capacity.{
  Floats, RampComputation, live_count, divide_replicas, compute_fleet_replicas, can_ramp_to,
}
use picchu.Incarnation.{Incarnation, Controller, target}
use picchu.Incarnation.ScalePlan.{
  per_cluster, next_of, ramps_up, proactive_ramp_min_replicas, bounds_from, scale_bounds,
}

-- A division among clusters that is rounded up is enough for all of them.
unfoldable pub RoundsUp : {F : Type 0} → Floats F → Type 0
RoundsUp floats = (count k : ℕ) → 0 < k → count ≤ floats.divided 100 count k * k

module _ {F : Type 0} (c : Controller F) where
  bounds_from-raises :
      (i : Incarnation) (t : RevisionTarget) (low : ℕ)
      → ramps_up c i t ≡ true
      → proactive_ramp_min_replicas c i t ≤ (bounds_from c i t low).0
  bounds_from-raises i t low up = ground (arith, up)

  divide_replicas-enough :
      (count : ℕ)
      → RoundsUp c.floats
      → 0 < live_count c.floats c.clusters
      → count ≤ divide_replicas c.floats c.clusters count 100 * live_count c.floats c.clusters
  unfolding divide_replicas RoundsUp
  divide_replicas-enough count rounds live =
      let alive = live_count c.floats c.clusters in
      let each = c.floats.divided 100 count (max alive 1) in
      ground (
        arith,
        subst (λ k. count ≤ c.floats.divided 100 count (max alive 1) * k) (max-eq_left live)
            (rounds count (max alive 1) (ground arith)),
        mul-le-mul_right {m = each} {n = max each 1} alive (ground arith),
      )

  proactive_ramp_min_replicas-eq :
      (i : Incarnation) (t : RevisionTarget) (r : RampComputation)
      → ramps_up c i t ≡ true
      → compute_fleet_replicas c.floats c.clusters (some t) i.status.tag c.statuses (next_of c i t)
        ≡ some r
      → divide_replicas c.floats c.clusters r.expected_replicas 100
        ≤ divide_replicas c.floats c.clusters t.scale.max 100
      → proactive_ramp_min_replicas c i t
        ≡ divide_replicas c.floats c.clusters r.expected_replicas 100
  unfolding proactive_ramp_min_replicas
  proactive_ramp_min_replicas-eq i t r up computed fits =
      ground (arith, up, ap (per_cluster c t) computed, fits)

  can_ramp_to-finds :
      (t : Option RevisionTarget) (i : Incarnation) (desired : ℕ) (r : RampComputation)
      → compute_fleet_replicas c.floats c.clusters t i.status.tag c.statuses desired ≡ some r
      → r.expected_replicas ≤ i.status.scale.current
      → can_ramp_to c.floats c.clusters t i.status c.statuses desired ≡ true
  unfolding can_ramp_to
  can_ramp_to-finds t i desired r computed enough =
      subst
        (λ o.
          elim o as (λ x. Bool) [
            | none ↦ false
            | some k ↦ not (ltb i.status.scale.current k.expected_replicas)
          ]
          ≡ true)
        (sym computed) (ground (arith, enough))

  -- Where the division among clusters rounds up, some cluster is live, the target has a minimum,
  -- the incarnation ramps and is to have more traffic, and the replicas of the next increment are
  -- computed and within the maximum of a cluster, the minimum of the plan in each live cluster is
  -- enough for `CanRampTo` to let the ramp go on.
  pub scale_bounds-readies :
      (i : Incarnation) (t : RevisionTarget) (low lo hi : ℕ) (r : RampComputation)
      → RoundsUp c.floats
      → 0 < live_count c.floats c.clusters
      → target c i ≡ some t
      → t.scale.min ≡ some low
      → ramps_up c i t ≡ true
      → compute_fleet_replicas c.floats c.clusters (some t) i.status.tag c.statuses (next_of c i t)
        ≡ some r
      → divide_replicas c.floats c.clusters r.expected_replicas 100
        ≤ divide_replicas c.floats c.clusters t.scale.max 100
      → scale_bounds c i ≡ finished (lo, hi)
      → lo * live_count c.floats c.clusters ≤ i.status.scale.current
      → can_ramp_to c.floats c.clusters (some t) i.status c.statuses (next_of c i t) ≡ true
  unfolding scale_bounds
  scale_bounds-readies i t low lo hi r rounds live found has_low up computed fits made runs =
      let computed_bounds = finished-injective (
        sym (
          ap (λ o. deref o >>= λ u. deref u.scale.min >>= λ n. finished (bounds_from c i u n)) found
          ∙ ap (λ o. deref o >>= λ n. finished (bounds_from c i t n)) has_low)
        ∙ made) in
      let asked = divide_replicas c.floats c.clusters r.expected_replicas 100 in
      let raised =
        subst (λ k. k ≤ lo) (proactive_ramp_min_replicas-eq i t r up computed fits)
          (subst (λ b. proactive_ramp_min_replicas c i t ≤ b.0) computed_bounds
            (bounds_from-raises i t low up)) in
      can_ramp_to-finds (some t) i (next_of c i t) r computed (
        ground (
          arith,
          runs,
          divide_replicas-enough r.expected_replicas rounds live,
          mul-le-mul_right {m = asked} {n = lo} (live_count c.floats c.clusters) raised,
        ))
