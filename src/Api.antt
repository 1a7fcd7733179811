-- ===== src/Api.antt =====
-- api/v1alpha1: the parts of a revision, of its target and of its status in the release manager
-- that the controllers read. Times and durations are counted in seconds from the zero time; a nil
-- pointer is `none`. Replica counts (int32) and TTLs (int64) are taken as not negative.
use Prim.Native.String.{String}
use text.Mathlib.Text.{◌==◌ as str_eq}
use picchu.Base.{
  ℕ, ◌+◌, Bool, true, false, ◌||◌, Option, none, some, List, [], ◌∷◌, if◌then◌else◌, ltb, ◌==◌,
}
use picchu.Deployment.{ExternalTest}

-- Any other string than the two names is `other`.
pub data ScalingStrategy : Type 0 where
  linear geometric other : ScalingStrategy

pub record LinearScaling : Type 0 where
  pub increment : ℕ
  pub delay : Option ℕ

pub record GeometricScaling : Type 0 where
  pub start : ℕ
  pub factor : ℕ
  pub delay : Option ℕ

pub record ReleaseInfo : Type 0 where
  pub eligible : Bool
  pub max : ℕ
  pub scaling_strategy : ScalingStrategy
  pub linear_scaling : LinearScaling
  pub geometric_scaling : GeometricScaling
  pub schedule : String
  pub ttl : ℕ

-- Of the five pointers that `HasAutoscaler` tests, whether each is set.
pub record ScaleInfo : Type 0 where
  pub min : Option ℕ
  pub default : ℕ
  pub max : ℕ
  pub target_cpu : Bool
  pub target_memory : Bool
  pub target_requests_rate : Bool
  pub worker : Bool
  pub keda_worker : Bool

abbrev pub has_autoscaler : ScaleInfo → Bool
has_autoscaler s =
    s.target_cpu || (s.target_requests_rate || (s.target_memory || (s.worker || s.keda_worker)))

pub record Canary : Type 0 where
  pub percent : ℕ
  pub ttl : ℕ

pub record WaypointHpaSpec : Type 0 where
  pub min_replicas : ℕ
  pub max_replicas : ℕ
  pub target_cpu : ℕ

-- `slo_count` is the number of service level objectives.
pub record RevisionTarget : Type 0 where
  pub name : String
  pub scale : ScaleInfo
  pub release : ReleaseInfo
  pub external_test : ExternalTest
  pub external_test_timeout : Option ℕ
  pub external_test_last_updated : Option ℕ
  pub canary : Canary
  pub slo_count : ℕ
  pub ambient_mesh : Bool
  pub waypoint_hpa : Option WaypointHpaSpec

-- `git_timestamp` is what `GitTimestamp` reads from the annotation.
-- `failed` is `Spec.Failed`, and `has_failed_at` what the method `Failed` reads of the annotation.
pub record Revision : Type 0 where
  pub targets : List RevisionTarget
  pub failed : Bool
  pub has_failed_at : Bool
  pub tag_routing_header : String
  pub git_timestamp : ℕ
  pub creation_timestamp : ℕ

pub record StateStatus : Type 0 where
  pub current : String
  pub target : String
  pub last_updated : Option ℕ

pub record ScaleStatus : Type 0 where
  pub current : ℕ
  pub desired : ℕ
  pub peak : ℕ

pub record RevisionStatus : Type 0 where
  pub tag : String
  pub state : StateStatus
  pub current_percent : ℕ
  pub peak_percent : ℕ
  pub release_eligible : Bool
  pub last_updated : Option ℕ
  pub deploying_start : Option ℕ
  pub canary_start : Option ℕ
  pub pending_release_start : Option ℕ
  pub release_start : Option ℕ
  pub ttl : ℕ
  pub scale : ScaleStatus
  pub deleted : Bool

-- `IsCanaryPending`, with the clock `now`.
unfoldable pub is_canary_pending : RevisionTarget → Option ℕ → ℕ → Bool
is_canary_pending t start_time now =
    if t.canary.percent == 0 || (t.canary.ttl == 0 || t.slo_count == 0)
    then false
    else elim start_time [ none ↦ true | some start ↦ ltb now (start + t.canary.ttl) ]

-- The first target of a name, as the loops over `Spec.Targets` find it.
unfoldable pub find_target : String → List RevisionTarget → Option RevisionTarget
find_target name [] = none
find_target name (t ∷ ts) = if str_eq t.name name then some t else find_target name ts
