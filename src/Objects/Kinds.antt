-- ===== src/Objects/Kinds.antt =====
-- plan/common.go: the cases of `CreateOrUpdate`: the object that each begins with, and what it
-- copies from the wanted object `typed` to the one that the cluster has.
use Prim.Native.String.{String}
use picchu.Base.{Option, none, some, if◌then◌else◌, Panics, finished}
use picchu.Objects.{Object, lookup, insert, remove_key, entries, StringMap, is_ignored}
use picchu.Objects.ReplicaSets.{sync_replica_set}

-- What a case hands to the library: an object to begin with, and the function to apply.
pub record Case (V : Type 0) : Type 0 where
  pub start : Object V
  pub change : Object V → Panics (Object V)

abbrev pub paused : String
paused = "autoscaling.keda.sh/paused-replicas"

-- The pause annotation alone is managed; the others belong to KEDA and to users.
abbrev pub paused_annotations : Option String → StringMap → StringMap
paused_annotations none a = remove_key paused a
paused_annotations (some v) a = some (insert paused v (entries a))

module _ {V : Type 0} where
  -- An ignored object is left alone.
  unfoldable pub unless_ignored : (Object V → Panics (Object V)) → Object V → Panics (Object V)
  unless_ignored f o = if is_ignored o then finished o else f o

  abbrev pub always : (Object V → Object V) → Object V → Panics (Object V)
  always f = unless_ignored (λ o. finished (f o))

  -- `blank` is an object of zero values.
  abbrev pub named : Object V → Object V → Object V
  named blank typed = record blank { name = typed.name; namespace = typed.namespace }

  abbrev pub labelled : Object V → Object V → Object V
  labelled blank typed = record (named blank typed) { labels = typed.labels }

  unfoldable pub name_space_case : Object V → Object V → Case V
  name_space_case blank typed = record {
    start = record blank { name = typed.name; labels = typed.labels };
    change = always (λ o. record o { labels = typed.labels; annotations = typed.annotations });
  }

  unfoldable pub service_case : Object V → Object V → Case V
  service_case blank typed = record {
    start = named blank typed;
    change =
        always
          (λ o. record o { ports = typed.ports; selector = typed.selector; labels = typed.labels });
  }

  unfoldable pub service_account_case : Object V → Object V → Case V
  service_account_case blank typed = record {
    start = named blank typed;
    change = always (λ o. record o { labels = typed.labels; annotations = typed.annotations });
  }

  unfoldable pub destination_rule_case : Object V → Object V → Case V
  destination_rule_case blank typed = record {
    start = named blank typed;
    change = always (λ o. record o { spec = typed.spec; labels = typed.labels });
  }

  unfoldable pub virtual_service_case : Object V → Object V → Case V
  virtual_service_case blank typed = record {
    start = named blank typed;
    change = always (λ o. record o { spec = typed.spec; labels = typed.labels });
  }

  unfoldable pub sidecar_case : Object V → Object V → Case V
  sidecar_case blank typed = record {
    start = named blank typed;
    change = always (λ o. record o { spec = typed.spec; labels = typed.labels });
  }

  unfoldable pub gateway_case : Object V → Object V → Case V
  gateway_case blank typed = record {
    start = named blank typed;
    change = always (λ o. record o { spec = typed.spec; labels = typed.labels });
  }

  unfoldable pub prometheus_rule_case : Object V → Object V → Case V
  prometheus_rule_case blank typed = record {
    start = named blank typed;
    change = always (λ o. record o { spec = typed.spec; labels = typed.labels });
  }

  unfoldable pub service_monitor_case : Object V → Object V → Case V
  service_monitor_case blank typed = record {
    start = named blank typed;
    change = always (λ o. record o { spec = typed.spec; labels = typed.labels });
  }

  unfoldable pub prometheus_service_level_case : Object V → Object V → Case V
  prometheus_service_level_case blank typed = record {
    start = named blank typed;
    change = always (λ o. record o { spec = typed.spec; labels = typed.labels });
  }

  unfoldable pub external_secret_case : Object V → Object V → Case V
  external_secret_case blank typed = record {
    start = named blank typed;
    change = always (λ o. record o { spec = typed.spec; labels = typed.labels });
  }

  unfoldable pub config_map_case : Object V → Object V → Case V
  config_map_case blank typed = record {
    start = named blank typed;
    change = always (λ o. record o { contents = typed.contents; labels = typed.labels });
  }

  unfoldable pub horizontal_pod_autoscaler_case : Object V → Object V → Case V
  horizontal_pod_autoscaler_case blank typed = record {
    start = labelled blank typed;
    change = always (λ o. record o { spec = typed.spec });
  }

  unfoldable pub datadog_metric_case : Object V → Object V → Case V
  datadog_metric_case blank typed = record {
    start = named blank typed;
    change = always (λ o. record o { spec = typed.spec; labels = typed.labels });
  }

  unfoldable pub worker_pod_autoscaler_case : Object V → Object V → Case V
  worker_pod_autoscaler_case blank typed = record {
    start = labelled blank typed;
    change = always (λ o. record o { spec = typed.spec });
  }

  unfoldable pub trigger_authentication_case : Object V → Object V → Case V
  trigger_authentication_case blank typed = record {
    start = labelled blank typed;
    change = always (λ o. record o { spec = typed.spec });
  }

  unfoldable pub pod_disruption_budget_case : Object V → Object V → Case V
  pod_disruption_budget_case blank typed = record {
    start = named blank typed;
    change = always (λ o. record o {
      labels = typed.labels;
      annotations = typed.annotations;
      spec = typed.spec;
    });
  }

  unfoldable pub role_case : Object V → Object V → Case V
  role_case blank typed = record {
    start = named blank typed;
    change = always (λ o. record o { rules = typed.rules });
  }

  unfoldable pub role_binding_case : Object V → Object V → Case V
  role_binding_case blank typed = record {
    start = named blank typed;
    change = always (λ o. record o { subjects = typed.subjects; role_ref = typed.role_ref });
  }

  unfoldable pub secret_case : Object V → Object V → Case V
  secret_case blank typed = record {
    start = record (named blank typed) {
      annotations = typed.annotations;
      secret_type = typed.secret_type;
    };
    change = always (λ o. record o { contents = typed.contents; labels = typed.labels });
  }

  unfoldable pub replica_set_case : Object V → Object V → Case V
  replica_set_case blank typed = record {
    start = record (named blank typed) { annotations = typed.annotations };
    change = unless_ignored (sync_replica_set typed);
  }

  abbrev pub sync_pause : Object V → Object V → Object V
  sync_pause typed o = record o {
    spec = typed.spec;
    annotations = paused_annotations (lookup paused (entries typed.annotations)) o.annotations;
  }

  unfoldable pub scaled_object_case : Object V → Object V → Case V
  scaled_object_case blank typed = record {
    start = labelled blank typed;
    change = always (sync_pause typed);
  }
