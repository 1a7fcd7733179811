-- ===== src/Autoscale/Plan.antt =====
-- controllers/plan/scaleRevision.go: `Apply`.
use Prim.Native.String.{String, ◌++◌ as append}
use text.Mathlib.Text.{◌==◌ as str_eq}
use picchu.Base.{
  ℕ, Bool, true, false, ◌&&◌, not, Option, none, some, List, [], ◌∷◌, ◌++◌, map, any_if,
  if◌then◌else◌, ltb,
}
use picchu.Objects.{Entries, insert}
use picchu.Autoscale.{Trigger, KedaWorker, ScaleRevision, Cluster, Library, hpa_name}

pub data Metric (Q : Type 0) : Type 0 where
  cpu memory : ℕ → Metric Q
  pods : String → Q → Metric Q

-- `ScaledObject`: its name, bounds, whether it is paused at 0, and what triggers it.
pub record ScaledObject (V Q : Type 0) : Type 0 where
  pub name : String
  pub min_replica_count : ℕ
  pub max_replica_count : ℕ
  pub annotations : Entries
  pub triggers : List (Trigger V)
  pub requests_rate : Option Q

pub data Resource (V Q : Type 0) : Type 0 where
  hpa_object : String → ℕ → ℕ → List (Metric Q) → Resource V Q
  scaled_object : ScaledObject V Q → Resource V Q
  wpa_object : String → ℕ → ℕ → V → Resource V Q
  trigger_authentication : String → Bool → Resource V Q
  datadog_config_map : String → Resource V Q
  datadog_metric : String → String → Resource V Q

-- The Kubernetes API, and the error of a cluster without a factor.
pub record Outside (V Q W Err : Type 0) : Type 0 where
  pub create_or_update : Resource V Q → W → Option Err × W
  pub delete_hpa : String → W → Option Err × W
  pub no_factor : Err

infixl 5 ◌or_stop◌
abbrev pub ◌or_stop◌ : {W Err : Type 0} → Option Err × W → (W → Option Err × W) → Option Err × W
(none, w) or_stop f = f w
(some e, w) or_stop f = (some e, w)

-- `kedaDisabledSettings`, without the maximum, which it keeps.
abbrev pub keda_min : Bool → ℕ → ℕ
keda_min disabled scaled_min = if disabled then 0 else scaled_min

abbrev pub keda_annotations : Bool → Entries
keda_annotations disabled =
    if disabled then ("autoscaling.keda.sh/paused-replicas", "0") ∷ [] else []

abbrev pub or_empty : Option Entries → Entries
or_empty none = []
or_empty (some m) = m

-- A copy of a trigger, whose map is never nil; without an authentication it falls back to the
-- identity of the pod.
abbrev pub with_identity : {V : Type 0} → String → Trigger V → Trigger V
with_identity tag t = elim t.authentication_ref [
  | some ref ↦ record t { metadata = some (or_empty t.metadata) }
  | none ↦ record t {
    authentication_ref = some tag;
    metadata = some (insert "identityOwner" "pod" (or_empty t.metadata));
  }
]

module _ {F V Q : Type 0} (lib : Library F) (p : ScaleRevision V Q) where
  abbrev pub cpu_metrics : List (Metric Q)
  cpu_metrics = elim p.cpu_target [ none ↦ [] | some n ↦ Metric.cpu n ∷ [] ]

  abbrev pub memory_metrics : List (Metric Q)
  memory_metrics = elim p.memory_target [ none ↦ [] | some n ↦ Metric.memory n ∷ [] ]

  abbrev pub rate_metrics : List (Metric Q)
  rate_metrics = elim p.requests_rate_target [
    | none ↦ []
    | some q ↦ Metric.pods p.requests_rate_metric q ∷ []
  ]

  -- The smallest maximum is the minimum.
  abbrev pub fixed_max : ℕ
  fixed_max = if ltb p.max p.min then p.min else p.max

  abbrev pub event_driven_disabled : Cluster → Bool
  event_driven_disabled cluster = cluster.disable_event_driven && p.event_driven

  abbrev pub parsed_factor : Cluster → Option F
  parsed_factor cluster = elim cluster.scaling_factor_string [
    | none ↦ none
    | some s ↦ lib.parse_float s
  ]

  abbrev pub is_worker : Bool
  is_worker = elim p.worker [ none ↦ false | some v ↦ true ]

  abbrev pub scaling_factor : Cluster → F → F
  scaling_factor cluster f =
      if event_driven_disabled cluster && is_worker then lib.zero_factor else f

  abbrev pub ambient_object : Q → ℕ → ℕ → Bool → Resource V Q
  ambient_object q scaled_min scaled_max paused = Resource.scaled_object (record {
    name = hpa_name lib p.tag;
    min_replica_count = keda_min paused scaled_min;
    max_replica_count = scaled_max;
    annotations = keda_annotations paused;
    triggers = [];
    requests_rate = some q;
  })

  abbrev pub keda_object : KedaWorker V → ℕ → ℕ → Bool → Resource V Q
  keda_object k scaled_min scaled_max paused = Resource.scaled_object (record {
    name = hpa_name lib p.tag;
    min_replica_count = keda_min paused scaled_min;
    max_replica_count = scaled_max;
    annotations = keda_annotations paused;
    triggers = map (with_identity p.tag) k.triggers;
    requests_rate = none;
  })

module _ {F V Q W Err : Type 0} (api : Outside V Q W Err) (lib : Library F)
    (p : ScaleRevision V Q) where
  abbrev pub apply_metrics : List (Metric Q) → ℕ → ℕ → W → Option Err × W
  apply_metrics [] scaled_min scaled_max w = api.delete_hpa (hpa_name lib p.tag) w
  apply_metrics (m ∷ ms) scaled_min scaled_max w =
      api.create_or_update (Resource.hpa_object (hpa_name lib p.tag) scaled_min scaled_max (m ∷ ms))
        w

  abbrev pub apply_hpa : ℕ → ℕ → W → Option Err × W
  apply_hpa = apply_metrics (cpu_metrics lib p ++ (memory_metrics lib p ++ rate_metrics lib p))

  abbrev pub apply_keda_trigger_auth : KedaWorker V → W → Option Err × W
  apply_keda_trigger_auth k w =
      if any_if (λ t. str_eq t.type "datadog") k.triggers
      then (api.create_or_update (Resource.datadog_config_map (append "dd-cfg-" p.tag)) w
          or_stop api.create_or_update (Resource.trigger_authentication p.tag true))
      else api.create_or_update (Resource.trigger_authentication p.tag false) w

  abbrev pub apply_datadog_metric : Option Q → W → Option Err × W
  apply_datadog_metric none w = (none, w)
  apply_datadog_metric (some q) w =
      if str_eq p.requests_rate_metric ""
      then (none, w)
      else api.create_or_update (Resource.datadog_metric p.tag p.requests_rate_metric) w

  abbrev pub apply_keda : KedaWorker V → ℕ → ℕ → Bool → W → Option Err × W
  apply_keda k scaled_min scaled_max paused w =
      apply_datadog_metric p.requests_rate_target w
      or_stop api.create_or_update (keda_object lib p k scaled_min scaled_max paused)

  abbrev pub apply_ambient : Q → ℕ → ℕ → Bool → W → Option Err × W
  apply_ambient q scaled_min scaled_max paused w =
      api.delete_hpa (hpa_name lib p.tag) w
      or_stop api.create_or_update (ambient_object lib p q scaled_min scaled_max paused)

  -- Without workers: the ambient mesh with a rate of requests, or else an autoscaler of Kubernetes.
  abbrev pub apply_plain : Option Q → ℕ → ℕ → Bool → W → Option Err × W
  apply_plain none scaled_min scaled_max disabled w =
      if disabled then api.delete_hpa (hpa_name lib p.tag) w else apply_hpa scaled_min scaled_max w
  apply_plain (some q) scaled_min scaled_max disabled w =
      if p.ambient_mesh && not (str_eq p.prometheus_address "")
      then apply_ambient q scaled_min scaled_max disabled w
      else if disabled
      then api.delete_hpa (hpa_name lib p.tag) w
      else apply_hpa scaled_min scaled_max w

  abbrev pub apply_scaler : Option V → Option (KedaWorker V) → ℕ → ℕ → Bool → W → Option Err × W
  apply_scaler (some v) k scaled_min scaled_max disabled w =
      api.create_or_update (Resource.wpa_object p.tag scaled_min scaled_max v) w
  apply_scaler none (some k) scaled_min scaled_max disabled w =
      apply_keda_trigger_auth k w or_stop apply_keda k scaled_min scaled_max disabled
  apply_scaler none none scaled_min scaled_max disabled w =
      apply_plain p.requests_rate_target scaled_min scaled_max disabled w

  abbrev pub apply_with_factor : Cluster → Option F → W → Option Err × W
  apply_with_factor cluster none w = (some api.no_factor, w)
  apply_with_factor cluster (some f) w =
      let factor = scaling_factor lib p cluster f in
      apply_scaler p.worker p.keda_worker (lib.scaled p.min factor)
        (lib.scaled (fixed_max lib p) factor) (event_driven_disabled lib p cluster) w

  unfoldable pub apply : Cluster → W → Option Err × W
  apply cluster w = apply_with_factor cluster (parsed_factor lib p cluster) w
