-- ===== src/Manager/App.antt =====
-- controllers/syncer.go: `syncApp`, which makes the plan that routes the traffic of the app. The
-- code ranges over its map of ports in any order; here they have the order of the first writes.
use Prim.Native.String.{String, ◌++◌ as append}
use text.Mathlib.Text.{◌==◌ as str_eq}
use picchu.Base.{
  ℕ, Option, none, some, List, [], ◌∷◌, ◌++◌, map, filter_if, any_if, if◌then◌else◌, Panics,
  finished, ◌>>=◌, deref,
}
use picchu.Api.{RevisionTarget}
use picchu.Deployment.{State}
use picchu.Incarnation.{Incarnation, Controller, target, in_state}
use picchu.Fleet.{deployed}
use picchu.Objects.{Entries}
use picchu.Traffic.{Prepared, prepare_revisions, incarnations_of}
use picchu.Routes.{PortInfo, PortFault, SyncApp}
use picchu.Manager.Monitors.{Fields, prepare_alert_rules}

-- The release manager, and what is configured or observed elsewhere.
pub record Instance (V : Type 0) : Type 0 where
  pub name : String
  pub app : String
  pub fleet : String
  pub faults : List (PortFault V)
  pub dev_routes_service_host : String
  pub dev_routes_service_port : ℕ

-- A port is kept unless one of its name is there.
unfoldable pub add_port : PortInfo → List PortInfo → List PortInfo
add_port p ps = if any_if (λ q. str_eq q.name p.name) ps then ps else ps ++ p ∷ []

unfoldable pub add_ports : List PortInfo → List PortInfo → List PortInfo
unfolding add_port
add_ports [] ps = ps
add_ports (q ∷ qs) ps = add_ports qs (add_port q ps)

module _ {F V : Type 0} (c : Controller F) (fields : Fields V) (no_labels : V)
    (instance_of : Instance V) (now : ℕ) where
  -- The incarnations that are served: the deployed ones, then those in `deploying`.
  unfoldable pub served : List Incarnation → List Incarnation
  served is = deployed is ++ filter_if (in_state State.deploying) is

  abbrev pub ports_of : Incarnation → List PortInfo
  ports_of i = elim (target c i) [ none ↦ [] | some t ↦ fields.ports t ]

  unfoldable pub collect_ports : List Incarnation → List PortInfo → List PortInfo
  unfolding add_ports
  collect_ports [] ps = ps
  collect_ports (i ∷ is) ps = collect_ports is (add_ports (ports_of i) ps)

  -- `incarnations[len(incarnations)-1]`
  unfoldable pub last_of : Incarnation → List Incarnation → Incarnation
  last_of i [] = i
  last_of i (j ∷ js) = last_of j js

  abbrev pub target_namespace : String
  target_namespace = append instance_of.app (append "-" c.target_name)

  -- `defaultLabels`
  abbrev pub default_labels : Entries
  default_labels =
      ("picchu.medium.engineering/app", instance_of.app)
      ∷ ("app.kubernetes.io/name", instance_of.app)
      ∷ ("app", instance_of.app)
      ∷ ("picchu.medium.engineering/ownerType", "releasemanager")
      ∷ ("picchu.medium.engineering/ownerName", instance_of.name)
      ∷ []

  abbrev pub plan_of : List Incarnation → List Incarnation → Prepared → RevisionTarget → SyncApp V
  plan_of all after p latest = record {
    app = instance_of.app;
    target = c.target_name;
    fleet = instance_of.fleet;
    namespace = target_namespace;
    labels = default_labels;
    deployed_revisions = p.routes;
    alert_rules = prepare_alert_rules c fields no_labels after;
    ports = collect_ports all [];
    http_port_faults = instance_of.faults;
    istio_sidecar_config = fields.sidecar latest;
    default_ingress_ports = fields.default_ingress_ports latest;
    dev_routes_service_host = instance_of.dev_routes_service_host;
    dev_routes_service_port = instance_of.dev_routes_service_port;
  }

  -- The fleet with the statuses that `prepareRevisions` left, in the old order.
  unfoldable pub find_updated : Incarnation → List Incarnation → Incarnation
  find_updated i [] = i
  find_updated i (j ∷ js) = let rest = find_updated i js in if str_eq j.tag i.tag then j else rest

  unfoldable pub updated : List Incarnation → Prepared → List Incarnation
  unfolding find_updated
  updated is p = map (λ i. find_updated i (incarnations_of p.entries ++ p.others)) is

  -- The plan, or none where nothing is served, and the fleet.
  abbrev pub plan_for :
      List Incarnation → List Incarnation → Panics (Option (SyncApp V) × List Incarnation)
  plan_for is [] = finished (none, is)
  plan_for is (i ∷ rest) = prepare_revisions c now is >>= λ p.
      deref (target c (last_of i rest)) >>= λ latest.
      finished (some (plan_of (i ∷ rest) (updated is p) p latest), updated is p)

  unfoldable pub app_plan : List Incarnation → Panics (Option (SyncApp V) × List Incarnation)
  unfolding served collect_ports last_of updated
  app_plan is = plan_for is (served is)
