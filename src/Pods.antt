-- ===== src/Pods.antt =====
-- controllers/plan/syncRevision.go: the plan that makes the pods of a revision. `X` stands for
-- contents that are passed on (volumes, tolerations, settings of probes).
pub mod Template
pub mod Plan
pub mod Selected
pub mod Applied
pub mod Refused
mod Samples
use Prim.Native.String.{String}
use picchu.Base.{ℕ, Bool, Option, List}
use picchu.Objects.{Entries, StringMap, Object, Kind}

-- `corev1.EnvFromSource`, by the name that it refers to.
pub data EnvSource : Type 0 where
  secret_ref : String → EnvSource
  config_map_ref : String → EnvSource

pub data Probe (X : Type 0) : Type 0 where
  given : X → Probe X
  default_liveness : Probe X
  default_readiness : Probe X

pub record Port : Type 0 where
  pub name : String
  pub protocol : String
  pub container_port : ℕ

pub record Container (X : Type 0) : Type 0 where
  pub name : String
  pub image : String
  pub env_from : List EnvSource
  pub env : X
  pub ports : List Port
  pub resources : X
  pub liveness_probe : Option (Probe X)
  pub readiness_probe : Option (Probe X)
  pub lifecycle : Option X
  pub volume_mounts : X

pub record TopologySpread (X : Type 0) : Type 0 where
  pub when_unsatisfiable : String
  pub rest : X

pub record PodSpec (X : Type 0) : Type 0 where
  pub name : String
  pub namespace : String
  pub service_account_name : String
  pub containers : List (Container X)
  pub dns_options : Entries
  pub affinity : Option X
  pub priority_class_name : String
  pub tolerations : X
  pub volumes : X
  pub scheduler_name : String
  pub topology_spread_constraints : List (TopologySpread X)
  pub termination_grace_period_seconds : Option X

-- `intstr.IntOrString`
pub data IntOrString : Type 0 where
  from_int : ℕ → IntOrString
  from_string : String → IntOrString

pub record Disruption (X : Type 0) : Type 0 where
  pub selector : Option Entries
  pub max_unavailable : Option IntOrString
  pub min_available : Option IntOrString
  pub unhealthy_pod_eviction_policy : Option X

-- What an object's parts hold.
pub data Content (X : Type 0) : Type 0 where
  passed_on : X → Content X
  match_labels : Entries → Content X
  pod_spec : PodSpec X → Content X
  disruption : Disruption X → Content X

-- A configuration, of any kind, and an external secret with the name of the secret that it makes.
pub record Config (X : Type 0) : Type 0 where
  pub kind : Kind
  pub object : Object (Content X)

pub record ExternalSecret (X : Type 0) : Type 0 where
  pub object : Object (Content X)
  pub target_name : String

pub record SyncRevision (X : Type 0) : Type 0 where
  pub app : String
  pub tag : String
  pub namespace : String
  pub labels : StringMap
  pub configs : List (Config X)
  pub ports : List Port
  pub replicas : ℕ
  pub image : String
  pub resources : X
  pub iam_role : String
  pub pod_annotations : StringMap
  pub karpenter_do_not_disrupt : String
  pub service_account_name : String
  pub liveness_probe : Option X
  pub readiness_probe : Option X
  pub min_ready_seconds : ℕ
  pub worker : Option X
  pub keda_worker : Option X
  pub lifecycle : Option X
  pub priority_class_name : String
  pub affinity : Option X
  pub tolerations : X
  pub env_vars : X
  pub sidecars : List (Container X)
  pub volume_mounts : X
  pub volumes : X
  pub pod_disruption_budget : Option (Disruption X)
  pub topology_spread_constraint : Option (TopologySpread X)
  pub external_secrets : List (ExternalSecret X)
  pub scheduler_name : String
  pub event_driven : Bool

-- The standard library: sort.Slice by container port, and strconv.Atoi, with `none` for its error.
pub record Library (X : Type 0) : Type 0 where
  pub sort_ports : List Port → List Port
  pub atoi : String → Option X
