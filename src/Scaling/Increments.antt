-- ===== src/Scaling/Increments.antt =====
-- The next increments of controllers/scaling/linear.go and geometric.go: bounds and progress.
use picchu.Base.{ℕ, ◌+◌, ◌*◌, ◌≤◌, ◌<◌, arith}
use picchu.Scaling.{ScalableTarget, capped, linear_next_increment, geometric_next_increment}

-- Neither next increment passes the given maximum or the maximum of the release, whatever the
-- uint32 arithmetic does.
pub next_increments_bounded :
    (st : ScalableTarget) (max : ℕ)
    → (linear_next_increment st max ≤ max)
      × (geometric_next_increment st max ≤ max)
      × (linear_next_increment st max ≤ st.release_info.max)
      × (geometric_next_increment st max ≤ st.release_info.max)
unfolding linear_next_increment geometric_next_increment
next_increments_bounded st max = ground arith

module _ (st : ScalableTarget) (max : ℕ) where
  open st use {current_percent, release_info}

  -- Below the cap, with a positive step and without a wrap of the uint32, the linear increment
  -- rises, by at most the configured step.
  pub linear_next_increment_rises :
      current_percent < capped release_info.max max
      → 0 < release_info.linear_scaling.increment
      → current_percent + release_info.linear_scaling.increment < 4294967296
      → (current_percent < linear_next_increment st max)
        × (linear_next_increment st max ≤ current_percent + release_info.linear_scaling.increment)
  unfolding linear_next_increment
  linear_next_increment_rises below step fits = ground arith

  double-le : (p f : ℕ) → 2 ≤ f → p + p ≤ p * f
  double-le p f h = grind arith

  -- Below the cap, with a positive start, a factor of at least 2 and without a wrap of the uint32,
  -- the geometric increment rises.
  pub geometric_next_increment_rises :
      current_percent < capped release_info.max max
      → 0 < release_info.geometric_scaling.start
      → 2 ≤ release_info.geometric_scaling.factor
      → current_percent * release_info.geometric_scaling.factor < 4294967296
      → current_percent < geometric_next_increment st max
  unfolding geometric_next_increment
  geometric_next_increment_rises below start factor fits =
      ground (arith, double-le current_percent release_info.geometric_scaling.factor)
