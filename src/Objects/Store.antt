-- ===== src/Objects/Store.antt =====
-- plan/common.go: `CreateOrUpdate` itself. `controllerutil.CreateOrUpdate` of the library is a
-- parameter: it reads the object, applies a function to it, and creates or updates it.
use picchu.Base.{
  Bool, true, false, ◌&&◌, Option, none, some, if◌then◌else◌, Panics, finished, ◌>>=◌, ◌≡◌,
}
use picchu.Objects.{Object, Kind}
use picchu.Objects.Kinds.{
  Case, name_space_case, service_case, service_account_case, destination_rule_case,
  virtual_service_case, sidecar_case, gateway_case, prometheus_rule_case, service_monitor_case,
  prometheus_service_level_case, external_secret_case, config_map_case,
  horizontal_pod_autoscaler_case, datadog_metric_case, worker_pod_autoscaler_case,
  trigger_authentication_case, pod_disruption_budget_case, role_case, role_binding_case,
  secret_case, replica_set_case, scaled_object_case,
}

module _ {V : Type 0} where
  -- The switch.
  unfoldable pub case_of : Kind → Object V → Object V → Option (Case V)
  unfolding name_space_case service_case service_account_case destination_rule_case
      virtual_service_case sidecar_case gateway_case prometheus_rule_case service_monitor_case
      prometheus_service_level_case external_secret_case config_map_case
      horizontal_pod_autoscaler_case datadog_metric_case worker_pod_autoscaler_case
      trigger_authentication_case pod_disruption_budget_case role_case role_binding_case secret_case
      replica_set_case scaled_object_case
  case_of Kind.name_space blank typed = some (name_space_case blank typed)
  case_of Kind.service blank typed = some (service_case blank typed)
  case_of Kind.service_account blank typed = some (service_account_case blank typed)
  case_of Kind.destination_rule blank typed = some (destination_rule_case blank typed)
  case_of Kind.virtual_service blank typed = some (virtual_service_case blank typed)
  case_of Kind.sidecar blank typed = some (sidecar_case blank typed)
  case_of Kind.gateway blank typed = some (gateway_case blank typed)
  case_of Kind.prometheus_rule blank typed = some (prometheus_rule_case blank typed)
  case_of Kind.service_monitor blank typed = some (service_monitor_case blank typed)
  case_of Kind.prometheus_service_level blank typed =
      some (prometheus_service_level_case blank typed)
  case_of Kind.external_secret blank typed = some (external_secret_case blank typed)
  case_of Kind.config_map blank typed = some (config_map_case blank typed)
  case_of Kind.horizontal_pod_autoscaler blank typed =
      some (horizontal_pod_autoscaler_case blank typed)
  case_of Kind.datadog_metric blank typed = some (datadog_metric_case blank typed)
  case_of Kind.worker_pod_autoscaler blank typed = some (worker_pod_autoscaler_case blank typed)
  case_of Kind.trigger_authentication blank typed = some (trigger_authentication_case blank typed)
  case_of Kind.pod_disruption_budget blank typed = some (pod_disruption_budget_case blank typed)
  case_of Kind.role blank typed = some (role_case blank typed)
  case_of Kind.role_binding blank typed = some (role_binding_case blank typed)
  case_of Kind.secret blank typed = some (secret_case blank typed)
  case_of Kind.replica_set blank typed = some (replica_set_case blank typed)
  case_of Kind.scaled_object blank typed = some (scaled_object_case blank typed)
  case_of Kind.unsupported blank typed = none

-- The library's call and a read of the cluster, both at the name and namespace of the given object.
pub record Client (V C Err : Type 0) : Type 0 where
  pub read : Kind → Object V → C → Option (Object V)
  pub create_or_update :
      Kind → Object V → (Object V → Panics (Object V)) → C → Panics (Option Err × C)
  pub unsupported_type : Err
  pub is_no_change : Err → Bool

abbrev pub or_start : {V : Type 0} → Object V → Option (Object V) → Object V
or_start start none = start
or_start start (some o) = o

-- The documented behaviour: where the call succeeds, the function was applied to the object that
-- was there, or else to the given one, and its result is what is there now.
pub record IsClient {V C Err : Type 0} (client : Client V C Err) : Type 0 where
  pub applied :
      (kind : Kind) (start : Object V) (f : Object V → Panics (Object V)) (c c' : C)
      → client.create_or_update kind start f c ≡ finished (none, c')
      → (o : Object V) × (f (or_start start (client.read kind start c)) ≡ finished o)
        × (client.read kind start c' ≡ some o)

abbrev pub is_replica_set : Kind → Bool
is_replica_set Kind.replica_set = true
is_replica_set kind = false

module _ {V C Err : Type 0} (client : Client V C Err) (blank : Object V) where
  -- What a ReplicaSet's case makes of `ErrNoChangeNeeded`.
  abbrev pub tolerate : Kind → Option Err → Option Err
  tolerate kind none = none
  tolerate kind (some e) = if is_replica_set kind && client.is_no_change e then none else some e

  abbrev pub run_case : Kind → Option (Case V) → C → Panics (Option Err × C)
  run_case kind none c = finished (some client.unsupported_type, c)
  run_case kind (some k) c =
      client.create_or_update kind k.start k.change c >>= λ (e, c'). finished (tolerate kind e, c')

  unfoldable pub create_or_update : Kind → Object V → C → Panics (Option Err × C)
  unfolding case_of
  create_or_update kind typed c = run_case kind (case_of kind blank typed) c
