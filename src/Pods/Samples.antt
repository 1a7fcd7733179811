-- ===== src/Pods/Samples.antt =====
-- Witnesses for `SyncRevision` (controllers/plan/syncRevision.go): an event-driven revision with one
-- configuration. A factor is a natural number, and contents are too.
use Prim.Native.String.{String}
use picchu.Base.{
  ℕ, ◌*◌, true, false, none, some, List, [], ◌∷◌, finished, ◌≡◌, refl, arith, ◌⊎◌, ◌↔◌,
}
use picchu.Objects.{Entries, Object, Kind, lookup, insert, is_ignored}
use picchu.Objects.Memory
use picchu.Objects.Memory.{blank_object}
use picchu.Autoscale.{Cluster}
use picchu.Autoscale
use picchu.Traffic.{Route}
use picchu.Routes
use picchu.Routes.Resources.{subset_of}
use picchu.Pods.{Content, Config, SyncRevision, Library}
use picchu.Pods.Template.{replica_set}
use picchu.Objects.Store.{create_or_update}
use picchu.Objects.Kinds.{unless_ignored}
use picchu.Objects.ReplicaSets.{sync_replica_set}
use picchu.Pods.Plan.{Account, Outside, apply, patch_service_account, write_configs, write_secrets}
use picchu.Pods.Applied.{apply-stops}
use picchu.Pods.Refused.{apply-unsupported}
use picchu.Pods.Selected.{Selects, replica_set-Selects}

abbrev lib : Library ℕ
lib = record { sort_ports = λ ps. ps; atoi = λ s. none }

abbrev floats : Autoscale.Library ℕ
floats = record {
  parse_float = λ s. some 1;
  trim_dashes = λ s. s;
  zero_factor = 0;
  scaled = λ n f. n * f;
}

abbrev blank : Object (Content ℕ)
blank = blank_object (Content ℕ) (Content.passed_on 0)

abbrev environment : Config ℕ
environment = record { kind = Kind.config_map; object = record blank { name = "env" } }

abbrev plan : List (Config ℕ) → SyncRevision ℕ
plan configs = record {
  app = "web";
  tag = "v1";
  namespace = "web-production";
  labels = some (("app", "web") ∷ []);
  configs = configs;
  ports = [];
  replicas = 3;
  image = "web:v1";
  resources = 0;
  iam_role = "role";
  pod_annotations = none;
  karpenter_do_not_disrupt = "";
  service_account_name = "web";
  liveness_probe = none;
  readiness_probe = none;
  min_ready_seconds = 30;
  worker = none;
  keda_worker = some 1;
  lifecycle = none;
  priority_class_name = "";
  affinity = none;
  tolerations = 0;
  env_vars = 0;
  sidecars = [];
  volume_mounts = 0;
  volumes = 0;
  pod_disruption_budget = none;
  topology_spread_constraint = none;
  external_secrets = [];
  scheduler_name = "";
  event_driven = true;
}

abbrev Store : Type 0
Store = Memory.Cluster (Content ℕ)

abbrev api : Outside ℕ Store String
api = record {
  client = Memory.client (Content ℕ);
  get_service_account = λ c. Account.fetched none;
  update_service_account = λ m c. (none, c);
  unsupported_config = "unsupported config";
  no_scaling_factor = "cluster scalingFactor is nil";
}

abbrev cluster : Cluster
cluster = record { scaling_factor_string = some "1.0"; disable_event_driven = true }

abbrev empty : Store
empty name = none

applied :
    (c : Store) × (apply lib floats api blank (plan (environment ∷ [])) cluster empty
      ≡ finished (none, c))
unfolding apply patch_service_account lookup create_or_update unless_ignored is_ignored
    write_configs write_secrets replica_set sync_replica_set insert
applied = (_, refl)

apply-stops_example :
    (start o : Object (Content ℕ)) × (start.name ≡ "v1")
    × (start.namespace ≡ "web-production")
    × (api.client.read Kind.replica_set start applied.0 ≡ some o)
    × ((is_ignored o ≡ true) ⊎ (o.replicas ≡ some 0))
apply-stops_example =
    apply-stops lib floats api blank (plan (environment ∷ [])) (Memory.client-IsClient (Content ℕ))
      (λ e. refl) cluster empty applied.0 (omega arith) refl refl refl applied.1

abbrev role : Config ℕ
role = record { kind = Kind.role; object = record blank { name = "role" } }

unsupported_test :
    apply lib floats api blank (plan (environment ∷ role ∷ [])) cluster empty
    ≡ finished (some "unsupported config", empty)
unsupported_test =
    apply-unsupported lib floats api blank (plan (environment ∷ role ∷ [])) cluster empty refl

abbrev texts : Routes.Library ℕ
texts = record {
  quote_meta = λ s. s;
  join = λ ss s. s;
  sort_strings = λ ss. ss;
  sort_by = λ less xs. xs;
  less = λ a b. false;
  trim_suffix = λ s t. none;
  fill_in = λ t p. some t;
}

abbrev app : Routes.SyncApp ℕ
app = record {
  app = "web";
  target = "production";
  fleet = "production";
  namespace = "web-production";
  labels = [];
  deployed_revisions = [];
  alert_rules = [];
  ports = [];
  http_port_faults = [];
  istio_sidecar_config = none;
  default_ingress_ports = [];
  dev_routes_service_host = "";
  dev_routes_service_port = 0;
}

abbrev old_route : Route
old_route = record { tag = "v0"; weight = 100; tag_routing_header = "" }

replica_set-Selects_example :
    (wanted labels : Entries) × ((replica_set lib (plan []) blank [] 3).selector
      ≡ Content.match_labels wanted)
    × ((replica_set lib (plan []) blank [] 3).template_labels ≡ some labels)
    × Selects wanted labels
    × (Selects (subset_of texts app old_route).labels labels ↔ (old_route.tag ≡ "v1"))
unfolding lookup
replica_set-Selects_example =
    replica_set-Selects lib (plan []) refl texts app refl blank [] 3 old_route
