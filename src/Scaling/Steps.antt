-- ===== src/Scaling/Steps.antt =====
-- The scaling steps of controllers/scaling.go (`Scale`, `NextIncrement`).
use picchu.Base.{
  ℕ, ◌+◌, ◌≤◌, ◌<◌, true, some, none, Option, arith, ◌≡◌, ◌≢◌, refl, if◌then◌else◌, leb, ltb,
  finished,
}
use picchu.Api.{ScalingStrategy}
use picchu.Scaling.{
  ScalableTarget, ramp, linear_scale, geometric_scale, scale_by, scale, next_by, next_increment,
}
use picchu.Scaling.Increments.{next_increments_bounded}

-- The delay of the chosen strategy.
abbrev pub delay_of : ScalableTarget → ScalingStrategy → Option ℕ
delay_of st ScalingStrategy.linear = st.release_info.linear_scaling.delay
delay_of st ScalingStrategy.geometric = st.release_info.geometric_scaling.delay
delay_of st ScalingStrategy.other = some 0

module _ (st : ScalableTarget) (max t p : ℕ) where
  ramp-le :
      (delay : Option ℕ) (desired : ℕ)
      → desired ≤ max
      → ramp st delay t desired ≡ finished p
      → p ≤ max
  unfolding ramp
  ramp-le delay desired le h = ground arith

  ramp_rise :
      (delay : Option ℕ) (desired : ℕ)
      → ramp st delay t desired ≡ finished p
      → st.current_percent < p
      → (p ≡ desired)
        × (st.can_ramp_to p ≡ true)
        × ((wait : ℕ) × (delay ≡ some wait) × (st.last_updated + wait ≤ t))
  unfolding ramp
  ramp_rise none desired h rise = absurd (ground arith)
  ramp_rise (some wait) desired h rise = (ground arith, ground arith, (wait, refl, ground arith))

  scale_by-le_max :
      (s : ScalingStrategy) → s ≢ ScalingStrategy.other → scale_by st s max t ≡ finished p → p ≤ max
  unfolding scale_by linear_scale geometric_scale
  scale_by-le_max ScalingStrategy.linear known h = ramp-le _ _ (next_increments_bounded st max).0 h
  scale_by-le_max ScalingStrategy.geometric known h =
      ramp-le _ _ (next_increments_bounded st max).1 h
  scale_by-le_max ScalingStrategy.other known h = absurd (known refl)

  scale_by_rise :
      (s : ScalingStrategy)
      → scale_by st s max t ≡ finished p
      → st.current_percent < p
      → (p ≡ next_by st s max)
        × (st.can_ramp_to p ≡ true)
        × ((wait : ℕ) × (delay_of st s ≡ some wait) × (st.last_updated + wait ≤ t))
  unfolding scale_by next_by linear_scale geometric_scale
  scale_by_rise ScalingStrategy.linear h rise = ramp_rise _ _ h rise
  scale_by_rise ScalingStrategy.geometric h rise = ramp_rise _ _ h rise
  scale_by_rise ScalingStrategy.other h rise = absurd (ground arith)

  -- With one of the two strategies the new percentage is at most the given maximum.
  pub scale-le_max :
      st.release_info.scaling_strategy ≢ ScalingStrategy.other
      → scale st max t ≡ finished p
      → p ≤ max
  unfolding scale
  scale-le_max known h = scale_by-le_max st.release_info.scaling_strategy known h

  -- A scaling step that raises the percentage takes it to the next increment, only after the delay
  -- of the strategy, and only to a percentage that the target can ramp to.
  pub scale_rise :
      scale st max t ≡ finished p
      → st.current_percent < p
      → (p ≡ next_increment st max)
        × (st.can_ramp_to p ≡ true)
        × ((wait : ℕ) × (delay_of st st.release_info.scaling_strategy ≡ some wait)
            × (st.last_updated + wait ≤ t))
  unfolding scale next_increment
  scale_rise h rise = scale_by_rise st.release_info.scaling_strategy h rise

module _ (st : ScalableTarget) (max t : ℕ) where
  -- Without a strategy the percentage stays, also above the given maximum.
  pub scale_other_keeps :
      st.release_info.scaling_strategy ≡ ScalingStrategy.other
      → scale st max t ≡ finished st.current_percent
  unfolding scale
  scale_other_keeps h = rw h

  ramp_total : (wait desired : ℕ) → (p : ℕ) × (ramp st (some wait) t desired ≡ finished p)
  unfolding ramp
  ramp_total wait desired = (
    if leb desired st.current_percent
        then desired
        else if ltb t (st.last_updated + wait)
        then st.current_percent
        else if st.can_ramp_to desired
        then desired
        else st.current_percent,
    ground arith,
  )

  scale_by_total :
      (s : ScalingStrategy) (wait : ℕ)
      → delay_of st s ≡ some wait
      → (p : ℕ) × (scale_by st s max t ≡ finished p)
  unfolding scale_by linear_scale geometric_scale
  scale_by_total ScalingStrategy.linear wait h = rw h (ramp_total wait _)
  scale_by_total ScalingStrategy.geometric wait h = rw h (ramp_total wait _)
  scale_by_total ScalingStrategy.other wait h = (st.current_percent, refl)

  -- With the delay of its strategy set, a scaling step does not panic.
  pub scale_total :
      (wait : ℕ)
      → delay_of st st.release_info.scaling_strategy ≡ some wait
      → (p : ℕ) × (scale st max t ≡ finished p)
  unfolding scale
  scale_total wait h = scale_by_total st.release_info.scaling_strategy wait h
