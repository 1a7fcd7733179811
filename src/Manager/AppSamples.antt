-- ===== src/Manager/AppSamples.antt =====
-- Witnesses for the plan of an app (`syncApp`, controllers/syncer.go): the two revisions of the other
-- samples, each of which has a web port and a port for its status.
use picchu.Base.{
  ℕ, true, none, some, List, [], ◌∷◌, ◌≡◌, refl, arith, every, ◌==◌, filter_if, ◌++◌, finished,
}
use picchu.Deployment.{State, name}
use picchu.Api.{find_target}
use picchu.Incarnation.{Incarnation, update_current_percent, in_state}
use picchu.Fleet.{deployed, is_deployed_state}
use picchu.Fixtures.{controller, fleet, production}
use mathlib.Core.List.{Memᴰ}
use picchu.Api.{RevisionTarget}
use picchu.Incarnation.{target}
use picchu.Fixtures.{new_revision, old_revision}
use picchu.Base.{All, false}
use picchu.Fleet.Order.{is_newer, sorted}
use picchu.Fleet.Samples.{sort_slice, sort_slice-SortsBy}
use picchu.Manager.Oldest.{app_plan-oldest}
use picchu.Objects.{lookup}
use picchu.Traffic.Samples.{after, prepares, all_deployed, all_releasable}
use picchu.Routes.{SyncApp, add_host, add_hosts}
use picchu.Routes.Hosts.{ingress_hosts, add_domains, add_domain, add_default_host}
use picchu.Routes.Matches.{port_header_matches, ingress_matches}
use picchu.Routes.Build.{
  release_route, make_route, release_routes, tagged_ports, tagged_routes, dev_routes,
}
use picchu.Routes.Resources.{VirtualService, virtual_service}
use picchu.Routes.Destinations.{weight_sum}
use picchu.Routes.Samples.{lib, web, status, cluster, sort-perm}
use picchu.Manager.Monitors.{Fields}
use picchu.Manager.App.{
  plan_of, Instance, app_plan, served, add_port, add_ports, collect_ports, last_of, updated,
}
use picchu.Manager.Served.{find_port, all_ports, app_plan-ports, app_plan-weights}

abbrev fields : Fields ℕ
fields = record {
  alert_rules = λ t. [];
  service_monitors = λ t. [];
  objectives = λ t. [];
  objective_labels = λ t. 0;
  ports = λ t. web ∷ status ∷ [];
  default_ingress_ports = λ t. ("public", "http") ∷ [];
  sidecar = λ t. none;
}

abbrev web_app : Instance ℕ
web_app = record {
  name = "web-production";
  app = "web";
  fleet = "production";
  faults = [];
  dev_routes_service_host = "";
  dev_routes_service_port = 0;
}

abbrev left : List Incarnation
left = updated controller fields 0 web_app 5000 fleet after

abbrev planned : SyncApp ℕ
planned = plan_of controller fields 0 web_app 5000 fleet left after production

made : app_plan controller fields 0 web_app 5000 fleet ≡ finished (some planned, left)
unfolding app_plan served deployed is_deployed_state name last_of find_target
made = rw prepares refl

app_plan-ports_example :
    find_port "status" (planned.ports)
    ≡ find_port "status" (
        all_ports controller fields 0 web_app 5000
          (deployed fleet ++ filter_if (in_state State.deploying) fleet))
app_plan-ports_example =
    app_plan-ports controller fields 0 web_app 5000 fleet left planned "status" made

routed : (vs : VirtualService ℕ) × (virtual_service lib planned cluster ≡ some vs)
unfolding virtual_service release_routes release_route tagged_routes tagged_ports dev_routes
    port_header_matches ingress_matches ingress_hosts add_domains add_domain add_default_host
    add_host add_hosts make_route lookup deployed is_deployed_state name find_target
    update_current_percent add_port add_ports collect_ports
routed = (_, refl)

app_plan-weights_example : every (λ r. weight_sum r.route == 100) routed.0.http ≡ true
app_plan-weights_example =
    app_plan-weights controller fields 0 web_app 5000 lib fleet left planned cluster routed.0
      (λ A. sort-perm) made (λ e. ground (arith, all_deployed, e))
      (λ e. ground (arith, all_releasable, e)) routed.1

app_plan-oldest_example :
    (o : Incarnation) × (t : RevisionTarget) × All (λ j. is_newer o j ≡ false) fleet
    × Memᴰ o fleet
    × (target controller o ≡ some t)
    × (planned.default_ingress_ports ≡ fields.default_ingress_ports t)
    × (planned.istio_sidecar_config ≡ fields.sidecar t)
unfolding sorted is_newer deployed is_deployed_state name
app_plan-oldest_example =
    app_plan-oldest controller fields 0 web_app 5000 sort_slice fleet left new_revision
      (old_revision ∷ []) planned sort_slice-SortsBy refl refl made
