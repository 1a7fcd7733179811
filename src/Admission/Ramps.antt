-- ===== src/Admission/Ramps.antt =====
-- api/v1alpha1: the release of an admitted target, and the ramp that the controller computes for it.
use Prim.Native.String.{String}
use text.Mathlib.Text.{◌==◌ as str_eq}
use picchu.Base.{
  ℕ, ◌≤◌, ◌<◌, Bool, true, false, Bool-cases, Option, none, some, List, [], ◌∷◌, ◌++◌,
  if◌then◌else◌, ◌≡◌, ◌≢◌, refl, sym, ap, ◌∙◌, inl, inr, arith, finished,
}
use picchu.Api.{ScalingStrategy, RevisionTarget}
use picchu.Incarnation.{Incarnation, Controller, target, current_percent_target, scalable}
use picchu.Incarnation.Targets.{current_percent_target_total}
use picchu.Scaling.{ScalableTarget}
use picchu.Scaling.Steps.{delay_of}
use picchu.Admission.{Target, Release, strategy_of, release_info}
use picchu.Admission.Defaults.{or_text, or_pointer, set_release_defaults, set_target_defaults}
use picchu.Admission.Patches.{bucket_ingress_ports}
use picchu.Objects.{entries}
use picchu.Admission.Validate.{
  FieldError, bucket_errors, default_errors, unless, target_errors, strategy_is_known,
  budget_errors, disrupt_errors,
}

pub append-nil : {A : Type 0} (xs ys : List A) → xs ++ ys ≡ [] → (xs ≡ []) × (ys ≡ [])
append-nil [] ys h = (refl, h)
append-nil (x ∷ xs) ys h = absurd (ground arith)

pub unless-nil : (b : Bool) (e : FieldError) → unless b e ≡ [] → b ≡ true
unless-nil true e h = refl
unless-nil false e h = absurd (ground arith)

module _ (is_duration : String → Bool) where
  -- The parts of a target that is admitted.
  pub target_errors-parts :
      (t : Target)
      → target_errors is_duration t ≡ []
      → (strategy_is_known is_duration t.release.scaling_strategy ≡ true)
        × (bucket_errors is_duration t.default_ingress_ports (bucket_ingress_ports t) ≡ [])
        × (default_errors is_duration (bucket_ingress_ports t) (entries t.default_ingress_ports)
            ≡ [])
  unfolding target_errors
  target_errors-parts t h =
      let (_, h₁) = append-nil (budget_errors t.pod_disruption_budget) _ h in
      let (_, h₂) = append-nil (disrupt_errors is_duration t) _ h₁ in
      let (known, h₃) =
        append-nil
          (unless (strategy_is_known is_duration t.release.scaling_strategy)
            FieldError.bad_strategy)
          _ h₂ in
      let (buckets, rest) =
        append-nil (bucket_errors is_duration t.default_ingress_ports (bucket_ingress_ports t)) _
          h₃ in
      (unless-nil _ _ known, buckets, rest)

  strategy_of-known :
      (s : String)
      → strategy_is_known is_duration s ≡ true
      → strategy_of (or_text "geometric" s) ≢ ScalingStrategy.other
  strategy_of-known s h e = elim (Bool-cases (str_eq s "")) [
    | inl empty ↦
        let same : ScalingStrategy.geometric ≡ ScalingStrategy.other =
          sym (ap (λ b. strategy_of (if b then "geometric" else s)) empty) ∙ e in
        ground arith
    | inr full ↦
        let same : strategy_of s ≡ ScalingStrategy.other =
          sym (ap (λ b. strategy_of (if b then "geometric" else s)) full) ∙ e in
        ground (arith, full, h, same)
  ]

  or_pointer-some : (d : ℕ) (o : Option ℕ) → (w : ℕ) × (or_pointer d o ≡ some w)
  or_pointer-some d none = (d, refl)
  or_pointer-some d (some n) = (n, refl)

  -- The delay of whichever strategy the defaults leave.
  defaults-delay :
      (st : ScalableTarget) (r : Release) (s : ScalingStrategy)
      → st.release_info ≡ release_info (set_release_defaults r)
      → (w : ℕ) × (delay_of st s ≡ some w)
  unfolding set_release_defaults
  defaults-delay st r ScalingStrategy.linear e =
      let (w, h) = or_pointer-some 10 r.linear_scaling.delay in
      (w, ap (λ i. i.linear_scaling.delay) e ∙ h)
  defaults-delay st r ScalingStrategy.geometric e =
      let (w, h) = or_pointer-some 10 r.geometric_scaling.delay in
      (w, ap (λ i. i.geometric_scaling.delay) e ∙ h)
  defaults-delay st r ScalingStrategy.other e = (0, refl)

  set_target_defaults-strategy :
      (t : Target)
      → target_errors is_duration t ≡ []
      → (release_info (set_target_defaults t).release).scaling_strategy ≢ ScalingStrategy.other
  unfolding set_target_defaults set_release_defaults
  set_target_defaults-strategy t h =
      strategy_of-known t.release.scaling_strategy (target_errors-parts t h).0

  set_target_defaults-release :
      (t : Target) → (set_target_defaults t).release ≡ set_release_defaults t.release
  unfolding set_target_defaults
  set_target_defaults-release t = refl

  -- For a revision whose target was admitted and then given its defaults, `currentPercentTarget`
  -- returns, in any state and with any canary, and the new percentage is at most the given
  -- maximum, where the current percentage fits an int32.
  pub target_errors-ramps :
      {F : Type 0} (c : Controller F) (now max : ℕ) (i : Incarnation) (t : Target)
      (the_target : RevisionTarget)
      → target_errors is_duration t ≡ []
      → target c i ≡ some the_target
      → the_target.release ≡ release_info (set_target_defaults t).release
      → i.status.current_percent < 2147483648
      → (p : ℕ) × (current_percent_target c now max i ≡ finished p) × (p ≤ max)
  target_errors-ramps c now max i t the_target admitted found read small =
      let st = scalable c i the_target in
      let strategy = the_target.release.scaling_strategy in
      let (w, delayed) =
        defaults-delay st t.release strategy
          (read ∙ ap release_info (set_target_defaults-release t)) in
      current_percent_target_total c now max i (record {
        small = small;
        scaling = inr (record {
          the_target = the_target;
          found = found;
          known = λ e.
              set_target_defaults-strategy t admitted (ap (λ x. x.scaling_strategy) (sym read) ∙ e);
          wait = w;
          delayed = delayed;
        });
      })
