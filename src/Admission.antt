-- ===== src/Admission.antt =====
-- api/v1alpha1/{source_defaults,revision_webhook}.go: what a revision is completed with, and what is
-- admitted. A string of the release's strategy, of a port's mode and so on is empty where it is not
-- set; a nil slice of ingresses and a nil map of default ports are `none`.
pub mod Defaults
pub mod Patches
pub mod Validate
pub mod Ramps
pub mod Ingresses
mod Samples
use Prim.Native.String.{String}
use text.Mathlib.Text.{◌==◌ as str_eq}
use picchu.Base.{ℕ, Bool, Option, List, if◌then◌else◌}
use picchu.Api.{ScalingStrategy, LinearScaling, GeometricScaling, ReleaseInfo}
use picchu.Objects.{Entries, StringMap}

pub record Release : Type 0 where
  pub eligible : Bool
  pub max : ℕ
  pub scaling_strategy : String
  pub linear_scaling : LinearScaling
  pub geometric_scaling : GeometricScaling
  pub schedule : String
  pub ttl : ℕ

pub record Port : Type 0 where
  pub name : String
  pub ingress_port : ℕ
  pub port : ℕ
  pub container_port : ℕ
  pub protocol : String
  pub mode : String
  pub default : Bool
  pub ingresses : Option (List String)

pub record Scale : Type 0 where
  pub default : ℕ
  pub max : ℕ
  pub requests_rate_metric : String

-- Of a disruption budget, whether its two pointers are set.
pub record Budget : Type 0 where
  pub max_unavailable : Bool
  pub min_available : Bool

pub record Target : Type 0 where
  pub name : String
  pub release : Release
  pub scale : Scale
  pub ports : List Port
  pub external_test_timeout : Option ℕ
  pub default_ingress_ports : StringMap
  pub pod_disruption_budget : Option Budget
  pub karpenter_do_not_disrupt : String
  pub pod_annotations : Entries

-- The strategy of a name.
abbrev pub strategy_of : String → ScalingStrategy
strategy_of s =
    if str_eq s "linear"
    then ScalingStrategy.linear
    else if str_eq s "geometric"
    then ScalingStrategy.geometric
    else ScalingStrategy.other

-- The release as the controllers read it.
abbrev pub release_info : Release → ReleaseInfo
release_info r = record {
  eligible = r.eligible;
  max = r.max;
  scaling_strategy = strategy_of r.scaling_strategy;
  linear_scaling = r.linear_scaling;
  geometric_scaling = r.geometric_scaling;
  schedule = r.schedule;
  ttl = r.ttl;
}
