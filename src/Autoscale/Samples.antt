-- ===== src/Autoscale/Samples.antt =====
-- Witness for the autoscalers (controllers/plan/scaleRevision.go): a KEDA worker in a cluster where
-- event-driven scaling is disabled. A factor is a natural number.
use Prim.Native.String.{String}
use native.Mathlib.Nat.{mul-le-mul_right}
use picchu.Base.{ℕ, ◌*◌, true, false, none, some, List, [], ◌∷◌, arith}
use picchu.Autoscale.{ScaleRevision, Cluster, Library}
use picchu.Autoscale.Plan.{Resource, Outside, apply}
use picchu.Autoscale.Bounds.{IsSound, ScalesUp, apply-IsSound}

abbrev lib : Library ℕ
lib = record {
  parse_float = λ s. some 1;
  trim_dashes = λ s. s;
  zero_factor = 0;
  scaled = λ n f. n * f;
}

lib-ScalesUp : ScalesUp lib
lib-ScalesUp = record { rises = λ f a b h. mul-le-mul_right f h; vanishes = λ a. omega arith }

abbrev worker : ScaleRevision ℕ ℕ
worker = record {
  tag = "v1";
  min = 3;
  max = 2;
  cpu_target = none;
  memory_target = none;
  requests_rate_metric = "";
  requests_rate_target = none;
  worker = none;
  keda_worker = some (record {
    triggers = record { type = "sqs"; metadata = none; authentication_ref = none; rest = 0 } ∷ [];
    settings = 0;
  });
  event_driven = true;
  ambient_mesh = false;
  prometheus_address = "";
}

abbrev cluster : Cluster
cluster = record { scaling_factor_string = some "1.0"; disable_event_driven = true }

-- A cluster that keeps the objects that are applied.
abbrev keeping : Outside ℕ ℕ (List (Resource ℕ ℕ)) String
keeping = record {
  create_or_update = λ r w. (none, r ∷ w);
  delete_hpa = λ n w. (none, w);
  no_factor = "cluster scalingFactor can't be nil";
}

abbrev AllSound : List (Resource ℕ ℕ) → Type 0
AllSound [] = Unit
AllSound (r ∷ rs) = IsSound true r × AllSound rs

apply-IsSound_example : AllSound (apply keeping lib worker cluster []).1
apply-IsSound_example =
    apply-IsSound keeping lib worker cluster AllSound [] lib-ScalesUp (λ r w s h. (s, h))
      (λ n w h. h) tt
