-- ===== src/Incarnation/Targets.antt =====
-- `currentPercentTarget` (controllers/incarnation.go) on incarnations that the webhook's validation
-- and defaults have passed.
use picchu.Base.{ℕ, ◌≤◌, ◌<◌, none, some, ◌≡◌, ◌≢◌, ◌⊎◌, arith, finished, inl, inr}
use picchu.Api.{ScalingStrategy, RevisionTarget}
use picchu.Scaling.Steps.{delay_of, scale-le_max, scale_total}
use picchu.Incarnation.{
  Incarnation, Controller, target, scalable, percent_cap, current_percent_target,
}

module _ {F : Type 0} (c : Controller F) where
  -- The target has one of the two scaling strategies, with its delay.
  pub record HasScaling (i : Incarnation) : Type 0 where
    pub the_target : RevisionTarget
    pub found : target c i ≡ some the_target
    pub known : the_target.release.scaling_strategy ≢ ScalingStrategy.other
    pub wait : ℕ
    pub delayed : delay_of (scalable c i the_target) the_target.release.scaling_strategy ≡ some wait

  -- Validated: the percentage fits an int32, and a revision has a target with scaling.
  pub record IsValid (i : Incarnation) : Type 0 where
    pub small : i.status.current_percent < 2147483648
    pub scaling : (i.revision ≡ none) ⊎ HasScaling i

  -- The new percentage of a validated incarnation exists, and is at most the given maximum,
  -- whatever its state and its canary.
  pub current_percent_target_total :
      (now max : ℕ) (i : Incarnation)
      → IsValid i
      → (p : ℕ) × (current_percent_target c now max i ≡ finished p) × (p ≤ max)
  unfolding current_percent_target
  current_percent_target_total now max i v = elim v.scaling [
    | inl gone ↦ (0, ground arith, omega arith)
    | inr h ↦
        let t = h.the_target in
        let (p, scales) =
          scale_total (scalable c i t) (percent_cap c i t max) now h.wait h.delayed in
        let le = scale-le_max (scalable c i t) (percent_cap c i t max) now p h.known scales in
        (p, ground (arith, h.found, scales), ground arith)
  ]
