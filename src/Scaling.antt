-- ===== src/Scaling.antt =====
-- controllers/scaling: the linear and the geometric ramp of a target's traffic, and the choice
-- between them of controllers/scaling.go. Percentages are uint32, times and delays are counted from
-- the zero time, and a nil delay panics where it is read.
pub mod Increments
pub mod Steps
pub mod Latency
mod Samples
use picchu.Api.{ScalingStrategy, LinearScaling, GeometricScaling, ReleaseInfo}
use picchu.Base.{
  ℕ, zero, suc, ◌+◌, ◌*◌, ◌/◌, ◌-◌, Bool, Option, none, some, if◌then◌else◌, ltb, leb, ◌==◌, u32,
  Panics, panicked, finished, ◌>>=◌, deref,
}

-- The interface `ScalableTarget`.
pub record ScalableTarget : Type 0 where
  pub can_ramp_to : ℕ → Bool
  pub current_percent : ℕ
  pub peak_percent : ℕ
  pub last_updated : ℕ
  pub release_info : ReleaseInfo

-- `if release.Max < max { max = release.Max }`
abbrev pub capped : ℕ → ℕ → ℕ
capped release_max max = if ltb release_max max then release_max else max

module _ (st : ScalableTarget) where
  unfoldable pub linear_next_increment : ℕ → ℕ
  linear_next_increment max =
      if leb max 0
      then 0
      else let cap = capped st.release_info.max max in
        if ltb cap st.current_percent
        then cap
        else let next = u32 (st.current_percent + st.release_info.linear_scaling.increment) in
          if ltb cap next then cap else next

  pub geometric_next_increment : ℕ → ℕ
  geometric_next_increment max =
      if leb max 0
      then 0
      else let cap = capped st.release_info.max max in
        if ltb cap st.current_percent
        then cap
        else let scaling = st.release_info.geometric_scaling in
          let next =
            if ltb st.current_percent scaling.start
            then scaling.start
            else u32 (st.current_percent * scaling.factor) in
          if ltb cap next then cap else next

  -- What both ramps do with the next increment: it is taken at once if it is no rise, and else
  -- after the delay and if the target can ramp to it.
  unfoldable pub ramp : Option ℕ → ℕ → ℕ → Panics ℕ
  ramp delay t desired =
      if leb desired st.current_percent
      then finished desired
      else deref delay >>= λ wait.
          if ltb t (st.last_updated + wait)
          then finished st.current_percent
          else if st.can_ramp_to desired
          then finished desired
          else finished st.current_percent

  unfoldable pub linear_scale : ℕ → ℕ → Panics ℕ
  unfolding ramp
  linear_scale max t = ramp st.release_info.linear_scaling.delay t (linear_next_increment max)

  pub geometric_scale : ℕ → ℕ → Panics ℕ
  unfolding ramp
  geometric_scale max t =
      ramp st.release_info.geometric_scaling.delay t (geometric_next_increment max)

  unfoldable pub scale_by : ScalingStrategy → ℕ → ℕ → Panics ℕ
  scale_by ScalingStrategy.linear max t = linear_scale max t
  scale_by ScalingStrategy.geometric max t = geometric_scale max t
  scale_by ScalingStrategy.other max t = finished st.current_percent

  unfoldable pub scale : ℕ → ℕ → Panics ℕ
  unfolding scale_by
  scale max t = scale_by st.release_info.scaling_strategy max t

  next_by : ScalingStrategy → ℕ → ℕ
  next_by ScalingStrategy.linear max = linear_next_increment max
  next_by ScalingStrategy.geometric max = geometric_next_increment max
  next_by ScalingStrategy.other max = st.current_percent

  unfoldable pub next_increment : ℕ → ℕ
  unfolding next_by
  next_increment max = next_by st.release_info.scaling_strategy max

-- The loop of `GeometricExpectedReleaseLatency`, on fuel; `none` means that the fuel ran out.
pub geometric_rounds : ℕ → ℕ → ℕ → ℕ → ℕ → Option ℕ
geometric_rounds zero factor max percent iterations = none
geometric_rounds (suc fuel) factor max percent iterations =
    let next = u32 (percent * factor) in
    let rest = geometric_rounds fuel factor max next (iterations + 1) in
    if leb max next then some (iterations + 1) else rest
