-- ===== src/Pods/Plan.antt =====
-- controllers/plan/syncRevision.go: `Apply`, over the Kubernetes API. Objects are written by
-- `CreateOrUpdate`; `C` stands for the cluster, `F` for float64.
use Prim.Native.String.{String}
use text.Mathlib.Text.{◌==◌ as str_eq}
use picchu.Base.{
  ◌&&◌, Option, none, some, List, [], ◌∷◌, ◌++◌, map, if◌then◌else◌, Panics, finished, ◌>>=◌,
}
use picchu.Objects.{Entries, StringMap, Object, Kind, entries, insert}
use picchu.Objects.Store.{Client, create_or_update}
use picchu.Autoscale.{Cluster}
use picchu.Autoscale
use picchu.Retire.{◌and_next◌}
use picchu.Pods.{
  EnvSource, IntOrString, Disruption, Content, Config, ExternalSecret, SyncRevision, Library,
}
use picchu.Pods.Template.{replica_set, value_at}

abbrev pub annotation_keda_service_account : String
annotation_keda_service_account = "eks.amazonaws.com/role-arn"

abbrev pub label_app : String
label_app = "picchu.medium.engineering/app"

-- What a read of the service account answers: its annotations.
pub data Account (Err : Type 0) : Type 0 where
  failed : Err → Account Err
  fetched : StringMap → Account Err

pub record Outside (X C Err : Type 0) : Type 0 where
  pub client : Client (Content X) C Err
  pub get_service_account : C → Account Err
  pub update_service_account : Entries → C → Option Err × C
  pub unsupported_config : Err
  pub no_scaling_factor : Err

abbrev pub prepend : EnvSource → Option (List EnvSource) → Option (List EnvSource)
prepend s none = none
prepend s (some ss) = some (s ∷ ss)

-- The reference to a configuration, if its kind is supported.
unfoldable pub source_at : Kind → String → Option EnvSource
source_at Kind.secret name = some (EnvSource.secret_ref name)
source_at Kind.config_map name = some (EnvSource.config_map_ref name)
source_at kind name = none

module _ {X : Type 0} where
  -- The first loop, which stops at a configuration that is not supported.
  unfoldable pub sources : List (Config X) → Option (List EnvSource)
  unfolding source_at
  sources [] = some []
  sources (c ∷ cs) =
      let rest = sources cs in
      elim (source_at c.kind c.object.name) [ none ↦ none | some s ↦ prepend s rest ]

module _ {X F C Err : Type 0} (lib : Library X) (floats : Autoscale.Library F)
    (api : Outside X C Err) (blank : Object (Content X)) (p : SyncRevision X) where
  abbrev pub write : Kind → Object (Content X) → C → Panics (Option Err × C)
  write = create_or_update api.client blank

  infixl 5 ◌then◌
  abbrev ◌then◌ : Panics (Option Err × C) → (C → Panics (Option Err × C)) → Panics (Option Err × C)
  m then f = m >>= λ o. o and_next f

  abbrev pub with_meta : Object (Content X) → Object (Content X)
  with_meta o = record o { namespace = p.namespace; labels = p.labels; annotations = none }

  unfoldable pub write_configs : List (Config X) → C → Panics (Option Err × C)
  write_configs [] c = finished (none, c)
  write_configs (k ∷ ks) c = write k.kind (with_meta k.object) c then write_configs ks

  unfoldable pub write_secrets : List (ExternalSecret X) → C → Panics (Option Err × C)
  write_secrets [] c = finished (none, c)
  write_secrets (s ∷ ss) c = write Kind.external_secret (with_meta s.object) c then write_secrets ss

  abbrev pub secret_source : ExternalSecret X → EnvSource
  secret_source s = EnvSource.secret_ref s.target_name

  -- `syncPodDisruptionBudget`: the selector is the app's, and an empty budget gets the default.
  abbrev pub own_selector : Entries
  own_selector = (label_app, p.app) ∷ []

  abbrev pub given_budget : Option (Disruption X) → Disruption X
  given_budget none = record {
    selector = some own_selector;
    max_unavailable = none;
    min_available = none;
    unhealthy_pod_eviction_policy = none;
  }
  given_budget (some d) = record d { selector = some own_selector }

  abbrev pub or_default : Disruption X → Disruption X
  or_default d = elim d.max_unavailable [
    | some m ↦ d
    | none ↦ elim d.min_available [
      | some m ↦ d
      | none ↦ record d { max_unavailable = some (IntOrString.from_string "10%") }
    ]
  ]

  unfoldable pub budget : Disruption X
  budget = or_default (given_budget p.pod_disruption_budget)

  abbrev pub sync_pod_disruption_budget : C → Panics (Option Err × C)
  sync_pod_disruption_budget = write Kind.pod_disruption_budget (record blank {
    name = p.app;
    namespace = p.namespace;
    labels = p.labels;
    spec = Content.disruption budget;
  })

  abbrev pub patch_annotations : Entries → C → Option Err × C
  patch_annotations m c =
      if str_eq p.iam_role ""
      then (none, c)
      else if str_eq (value_at annotation_keda_service_account m) p.iam_role
      then (none, c)
      else api.update_service_account (insert annotation_keda_service_account p.iam_role m) c

  -- `patchServiceAccount`
  abbrev pub patched : Account Err → C → Option Err × C
  patched (Account.failed e) c = (some e, c)
  patched (Account.fetched m) c = patch_annotations (entries m) c

  unfoldable pub patch_service_account : C → Option Err × C
  patch_service_account c = patched (api.get_service_account c) c

  -- The factor of the cluster, which is 0.0 where event-driven scaling is disabled.
  abbrev pub parsed : Cluster → Option F
  parsed cluster = elim cluster.scaling_factor_string [
    | none ↦ none
    | some s ↦ floats.parse_float s
  ]

  abbrev pub effective : Cluster → F → F
  effective cluster f =
      if cluster.disable_event_driven && p.event_driven then floats.zero_factor else f

  abbrev pub write_replica_set : List EnvSource → F → C → Panics (Option Err × C)
  write_replica_set envs f =
      write Kind.replica_set (replica_set lib p blank envs (floats.scaled p.replicas f))

  abbrev pub sync_scaled : Cluster → List EnvSource → Option F → C → Panics (Option Err × C)
  sync_scaled cluster envs none c = finished (some api.no_scaling_factor, c)
  sync_scaled cluster envs (some f) c = write_replica_set envs (effective cluster f) c

  -- The environment: the configurations', then the external secrets'.
  abbrev pub sync_all : Cluster → Option (List EnvSource) → C → Panics (Option Err × C)
  sync_all cluster none c = finished (some api.unsupported_config, c)
  sync_all cluster (some envs) c =
      finished (patch_service_account c)
      then sync_pod_disruption_budget
      then write_configs p.configs
      then write_secrets p.external_secrets
      then sync_scaled cluster (envs ++ map secret_source p.external_secrets) (parsed cluster)

  unfoldable pub apply : Cluster → C → Panics (Option Err × C)
  unfolding sources
  apply cluster c = sync_all cluster (sources p.configs) c
