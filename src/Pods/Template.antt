-- ===== src/Pods/Template.antt =====
-- controllers/plan/syncRevision.go: `syncReplicaSet` up to the ReplicaSet that it hands on. The code
-- ranges over Go maps in any order; here the first entry of a map is written last.
use Prim.Native.String.{String}
use text.Mathlib.Text.{◌==◌ as str_eq}
use picchu.Base.{ℕ, Bool, ◌&&◌, not, Option, none, some, List, [], ◌∷◌, map, any_if, if◌then◌else◌}
use picchu.Objects.{Entries, Object, entries, insert, lookup}
use picchu.Objects.ReplicaSets.{annotation_autoscaler, annotation_do_not_disrupt}
use picchu.Pods.{
  EnvSource, Probe, Container, TopologySpread, PodSpec, Content, SyncRevision, Library,
}

abbrev pub label_tag : String
label_tag = "tag.picchu.medium.engineering"

abbrev pub pod_ttl_seconds : String
pod_ttl_seconds = "medium.engineering/pod-ttl-seconds"

abbrev pub grace_period : String
grace_period = "go.medium.engineering/PodTerminationGracePeriodSeconds"

abbrev pub annotation_iam_role : String
annotation_iam_role = "iam.amazonaws.com/role"

abbrev pub annotation_tolerate_unready : String
annotation_tolerate_unready = "ad.datadoghq.com/tolerate-unready"

-- A loop that writes all entries of a map.
unfoldable pub write_all : Entries → Entries → Entries
write_all [] m = m
write_all ((k, v) ∷ rest) m = insert k v (write_all rest m)

-- A write of a value unless it is empty.
abbrev pub write_value : String → String → Entries → Entries
write_value key value m = if str_eq value "" then m else insert key value m

-- A read of a missing key gives the empty text.
abbrev pub value_at : String → Entries → String
value_at key m = elim (lookup key m) [ none ↦ "" | some v ↦ v ]

-- The loop that leaves out Istio's labels.
unfoldable pub without_istio : Entries → Entries
without_istio [] = []
without_istio ((k, v) ∷ m) =
    let rest = without_istio m in
    if not (str_eq k "app") && not (str_eq k "version") then insert k v rest else rest

module _ {X : Type 0} (lib : Library X) (p : SyncRevision X) where
  unfoldable pub pod_labels : Entries
  unfolding write_all
  pod_labels = write_all (entries p.labels) ((label_tag, p.tag) ∷ [])

  abbrev pub has_status_port : Bool
  has_status_port = any_if (λ port. str_eq port.name "status") p.ports

  abbrev pub given_probe : Option X → Option (Probe X)
  given_probe none = none
  given_probe (some x) = some (Probe.given x)

  -- The default of a probe that is not given, for an app with a status port.
  abbrev pub probe_or : Probe X → Option X → Option (Probe X)
  probe_or default none = if has_status_port then some default else none
  probe_or default (some x) = given_probe (some x)

  abbrev pub app_container : List EnvSource → Container X
  app_container envs = record {
    name = p.app;
    image = p.image;
    env_from = envs;
    env = p.env_vars;
    ports = lib.sort_ports p.ports;
    resources = p.resources;
    liveness_probe = probe_or Probe.default_liveness p.liveness_probe;
    readiness_probe = probe_or Probe.default_readiness p.readiness_probe;
    lifecycle = p.lifecycle;
    volume_mounts = p.volume_mounts;
  }

  -- Every container, sidecars included, gets the environment and the mounts of the plan.
  abbrev pub equipped : List EnvSource → Container X → Container X
  equipped envs c = record c { env_from = envs; env = p.env_vars; volume_mounts = p.volume_mounts }

  abbrev pub containers : List EnvSource → List (Container X)
  containers envs = map (equipped envs) (app_container envs ∷ p.sidecars)

  abbrev pub relaxed : TopologySpread X → TopologySpread X
  relaxed t =
      if str_eq t.when_unsatisfiable "DoNotSchedule"
      then record t { when_unsatisfiable = "ScheduleAnyway" }
      else t

  abbrev pub topology_constraints : List (TopologySpread X)
  topology_constraints = elim p.topology_spread_constraint [ none ↦ [] | some t ↦ relaxed t ∷ [] ]

  abbrev pub grace_period_seconds : Option X
  grace_period_seconds =
      let text = value_at grace_period (entries p.pod_annotations) in
      if str_eq text "" then none else lib.atoi text

  -- The labels of the pod template, a map of their own.
  unfoldable pub template_labels : Entries
  unfolding write_all pod_labels
  template_labels =
      write_value pod_ttl_seconds (value_at pod_ttl_seconds (entries p.pod_annotations))
        (write_all pod_labels [])

  unfoldable pub template_annotations : Entries
  unfolding write_all
  template_annotations = write_value annotation_do_not_disrupt p.karpenter_do_not_disrupt (
      insert annotation_tolerate_unready "true"
        (write_value annotation_iam_role p.iam_role (write_all (entries p.pod_annotations) [])))

  abbrev pub autoscaler_type : String
  autoscaler_type = elim p.worker [
    | some w ↦ "wpa"
    | none ↦ elim p.keda_worker [ some k ↦ "keda" | none ↦ "hpa" ]
  ]

  abbrev pub replica_set_annotations : Entries
  replica_set_annotations =
      write_value annotation_iam_role p.iam_role ((annotation_autoscaler, autoscaler_type) ∷ [])

  unfoldable pub selector : Entries
  unfolding without_istio pod_labels
  selector = without_istio pod_labels

  abbrev pub pod_template : List EnvSource → PodSpec X
  pod_template envs = record {
    name = p.tag;
    namespace = p.namespace;
    service_account_name = p.service_account_name;
    containers = containers envs;
    dns_options = ("ndots", "1") ∷ [];
    affinity = p.affinity;
    priority_class_name = p.priority_class_name;
    tolerations = p.tolerations;
    volumes = p.volumes;
    scheduler_name = p.scheduler_name;
    topology_spread_constraints = topology_constraints;
    termination_grace_period_seconds = grace_period_seconds;
  }

  -- `blank` is an object of zero values.
  unfoldable pub replica_set : Object (Content X) → List EnvSource → ℕ → Object (Content X)
  unfolding template_labels template_annotations selector
  replica_set blank envs replicas = record blank {
    name = p.tag;
    namespace = p.namespace;
    labels = p.labels;
    annotations = some replica_set_annotations;
    replicas = some replicas;
    min_ready_seconds = p.min_ready_seconds;
    selector = Content.match_labels selector;
    template = Content.pod_spec (pod_template envs);
    template_labels = some template_labels;
    template_annotations = some template_annotations;
  }
