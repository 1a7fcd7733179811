-- ===== src/Fixtures.antt =====
-- Test data that the witnesses share: ceilings over the rational numbers in place of float64, one
-- live cluster, and a target with a linear ramp whose new revision takes over from an old one.
use Prim.Native.String.{String}
use Prim.Native.Nat.{min}
use picchu.Base.{
  ℕ, ◌+◌, ◌*◌, ◌/◌, ◌-◌, Bool, true, false, none, some, suc, List, [], ◌∷◌, ◌<◌, inr, arith, refl,
}
use picchu.Deployment.{State, name}
use picchu.Api.{ScalingStrategy, RevisionTarget, RevisionStatus, find_target}
use picchu.Capacity.{Floats, ClusterInfo}
use picchu.Incarnation.{Incarnation, Controller}
use picchu.Incarnation.Deployments.{Outside, Settings}
use picchu.Schedule.{Weekday}
use picchu.Incarnation.Targets.{IsValid}

abbrev ceil : ℕ → ℕ → ℕ
ceil a b = (a + b - 1) / b

abbrev pub ceilings : Floats ℕ
ceilings = record {
  percent_of = λ percent count. ceil (min 100 percent * count) 100;
  per_cluster = ceil;
  scaled = λ each factor. each * factor;
  threshold = λ replicas. ceil (replicas * 90) 100;
  normalized = λ pods traffic. ceil (pods * 100) traffic;
  divided = λ percent count clusters. ceil (percent * count) (100 * clusters);
}

abbrev pub clusters : List (ClusterInfo ℕ)
clusters = record { name = "production-1"; live = true; scaling_factor = 1 } ∷ []

abbrev pub production : RevisionTarget
production = record {
  name = "production";
  scale = record {
    min = some 2;
    default = 2;
    max = 10;
    target_cpu = true;
    target_memory = false;
    target_requests_rate = false;
    worker = false;
    keda_worker = false;
  };
  release = record {
    eligible = true;
    max = 100;
    scaling_strategy = ScalingStrategy.linear;
    linear_scaling = record { increment = 5; delay = some 10 };
    geometric_scaling = record { start = 10; factor = 2; delay = some 10 };
    schedule = "always";
    ttl = 86400;
  };
  external_test = record { enabled = false; started = false; completed = false; succeeded = false };
  external_test_timeout = none;
  external_test_last_updated = none;
  canary = record { percent = 0; ttl = 0 };
  slo_count = 0;
  ambient_mesh = true;
  waypoint_hpa = some (record { min_replicas = 1; max_replicas = 5; target_cpu = 80 });
}

abbrev pub status : String → State → ℕ → RevisionStatus
status tag state percent = record {
  tag = tag;
  state = record { current = name state; target = name state; last_updated = some 1000 };
  current_percent = percent;
  peak_percent = percent;
  release_eligible = true;
  last_updated = some 1000;
  deploying_start = some 900;
  canary_start = none;
  pending_release_start = none;
  release_start = some 1000;
  ttl = 86400;
  scale = record { current = 10; desired = 10; peak = 10 };
  deleted = false;
}

abbrev pub controller : Controller ℕ
controller = record {
  floats = ceilings;
  clusters = clusters;
  target_name = "production";
  statuses = status "new" State.releasing 20 ∷ status "old" State.released 80 ∷ [];
}

abbrev pub incarnation : String → State → ℕ → Bool → Incarnation
incarnation tag state percent ramping = record {
  deployed = true;
  tag = tag;
  revision = some (record {
    targets = production ∷ [];
    failed = false;
    has_failed_at = false;
    tag_routing_header = tag;
    git_timestamp = 800;
    creation_timestamp = 850;
  });
  status = status tag state percent;
  is_ramping = ramping;
}

-- The new revision ramps from 20%, and the old one drains from 80%.
abbrev pub new_revision : Incarnation
new_revision = incarnation "new" State.releasing 20 true

abbrev pub old_revision : Incarnation
old_revision = incarnation "old" State.released 80 false

abbrev pub fleet : List Incarnation
fleet = new_revision ∷ old_revision ∷ []

pub incarnation-IsValid :
    (tag : String) (state : State) (percent : ℕ) (ramping : Bool)
    → percent < 2147483648
    → IsValid controller (incarnation tag state percent ramping)
unfolding find_target
incarnation-IsValid tag state percent ramping small = record {
  small = small;
  scaling = inr (record {
    the_target = production;
    found = refl;
    known = ground arith;
    wait = 10;
    delayed = refl;
  });
}

pub new_revision-IsValid : IsValid controller new_revision
new_revision-IsValid = incarnation-IsValid "new" State.releasing 20 true (omega arith)

pub old_revision-IsValid : IsValid controller old_revision
old_revision-IsValid = incarnation-IsValid "old" State.released 80 false (omega arith)

-- A cluster that only counts the plans that it is given.
abbrev pub counting : Outside ℕ Bool
counting = record {
  apply = λ plan count. (none, suc count);
  list_options = λ target. none;
  get_secrets = λ count. none;
  get_external_secrets = λ count. none;
  get_config_maps = λ count. none;
}

abbrev pub settings : Settings
settings = record {
  moment = λ t. record {
    year = 2021;
    month = 3;
    day_of_month = 9;
    weekday = Weekday.tuesday;
    hour = 10;
  };
  midnight = λ year month day. day;
  humane_releases_enabled = true;
  service_levels_namespace = "service-levels";
}
