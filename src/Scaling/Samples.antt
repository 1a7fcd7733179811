-- ===== src/Scaling/Samples.antt =====
-- Tests and witnesses for controllers/scaling: a revision at 20% of the traffic.
use picchu.Base.{ℕ, ◌+◌, ◌≤◌, true, none, some, ◌≡◌, arith, refl, finished}
use picchu.Api.{ScalingStrategy}
use picchu.Scaling.{
  ScalableTarget, scale, next_increment, linear_next_increment, geometric_rounds, linear_scale,
}
use picchu.Scaling.Steps.{delay_of, scale_rise}
use picchu.Scaling.Latency.{geometric_rounds_diverges}

abbrev linear_target : ScalableTarget
linear_target = record {
  can_ramp_to = λ percent. true;
  current_percent = 20;
  peak_percent = 20;
  last_updated = 1000;
  release_info = record {
    eligible = true;
    max = 100;
    scaling_strategy = ScalingStrategy.linear;
    linear_scaling = record { increment = 5; delay = some 10 };
    geometric_scaling = record { start = 10; factor = 2; delay = some 10 };
    schedule = "always";
    ttl = 86400;
  };
}

scales : scale linear_target 100 2000 ≡ finished 25
unfolding scale linear_scale linear_next_increment
scales = refl

scale_rise_example :
    (25 ≡ next_increment linear_target 100)
    × (linear_target.can_ramp_to 25 ≡ true)
    × ((wait : ℕ) × (delay_of linear_target ScalingStrategy.linear ≡ some wait)
        × (1000 + wait ≤ 2000))
scale_rise_example = scale_rise linear_target 100 2000 25 scales (omega arith)

geometric_rounds_diverges_example : geometric_rounds 50 1 100 10 0 ≡ none
geometric_rounds_diverges_example =
    geometric_rounds_diverges 50 1 100 10 0 (omega arith) (omega arith) (omega arith)

-- From 10% by a factor of 2 it takes four multiplications to reach 100%.
