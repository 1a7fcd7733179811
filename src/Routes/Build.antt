-- ===== src/Routes/Build.antt =====
-- controllers/plan/syncApp.go: the routes of the virtual service.
use Prim.Native.String.{String, ◌++◌ as append}
use text.Mathlib.Text.{◌==◌ as str_eq}
use picchu.Base.{
  ℕ, Bool, true, false, Option, none, some, List, [], ◌∷◌, if◌then◌else◌, ◌==◌, ◌&&◌, not, ltb,
}
use picchu.Traffic.{Route}
use picchu.Routes.{SyncApp, PortInfo, PortFault, Retries, Cluster, Library, add_hosts, service_host}
use picchu.Routes.Matches.{Match, release_matches, tagged_matches, dev_matches}

-- `istio.HTTPRouteDestination`
pub record RouteDestination : Type 0 where
  pub host : String
  pub port : ℕ
  pub subset : String
  pub weight : ℕ

pub record HttpRetry : Type 0 where
  pub attempts : ℕ
  pub per_try_timeout : Option ℕ
  pub retry_on : String

pub record HttpRoute (V : Type 0) : Type 0 where
  pub name : String
  pub timeout : Option ℕ
  pub retries : Option HttpRetry
  pub matches : List Match
  pub route : List RouteDestination
  pub fault : Option V

abbrev pub retry_of : Retries → HttpRetry
retry_of r = record {
  attempts = r.attempts;
  per_try_timeout = r.per_try_timeout;
  retry_on = elim r.retry_on [ none ↦ "" | some s ↦ s ];
}

abbrev pub is_empty_route : List RouteDestination → Bool
is_empty_route [] = true
is_empty_route (d ∷ ds) = false

module _ {V : Type 0} (lib : Library V) (p : SyncApp V) where
  abbrev pub destination : PortInfo → String → ℕ → RouteDestination
  destination port tag weight = record {
    host = service_host p;
    port = port.port;
    subset = tag;
    weight = weight;
  }

  abbrev pub release_weights : PortInfo → List Route → List RouteDestination
  release_weights port [] = []
  release_weights port (r ∷ rs) =
      let rest = release_weights port rs in
      if r.weight == 0 then rest else destination port r.tag r.weight ∷ rest

  unfoldable pub release_route : PortInfo → List RouteDestination
  release_route port = release_weights port p.deployed_revisions

  abbrev pub tagged_route : PortInfo → Route → List RouteDestination
  tagged_route port revision = destination port revision.tag 100 ∷ []

  abbrev pub dev_route : List RouteDestination
  dev_route =
      record {
        host = p.dev_routes_service_host;
        port = p.dev_routes_service_port;
        subset = "";
        weight = 100;
      }
      ∷ []

  -- The last fault for the port.
  abbrev pub fault_of : PortInfo → List (PortFault V) → Option V → Option V
  fault_of port [] fault = fault
  fault_of port (f ∷ fs) fault =
      fault_of port fs (if f.number == port.port then some f.http_fault else fault)

  unfoldable pub make_route : String → PortInfo → List Match → List RouteDestination → HttpRoute V
  make_route name port matches route = record {
    name = name;
    timeout = port.http.timeout;
    retries = elim port.http.retries [ none ↦ none | some r ↦ some (retry_of r) ];
    matches = matches;
    route = route;
    fault = fault_of port p.http_port_faults none;
  }

  abbrev pub add_route :
      HttpRoute V
      → List String
      → List (HttpRoute V) × List String
      → List (HttpRoute V) × List String
  add_route route hosts (routes, m) = (route ∷ routes, add_hosts hosts m)

  -- The loops go over the ports; here from the last, which yields the same routes and hosts.
  unfoldable pub release_routes : List PortInfo → Cluster → List (HttpRoute V) × List String
  release_routes [] cluster = ([], [])
  release_routes (port ∷ ports) cluster =
      let rest = release_routes ports cluster in
      let (matches, hosts) = release_matches lib p port cluster in
      let name = append "01_release-" port.name in
      if is_empty_route (release_route port)
      then rest
      else add_route (make_route name port matches (release_route port)) hosts rest

  unfoldable pub tagged_ports :
      List PortInfo
      → Route
      → Cluster
      → List (HttpRoute V) × List String
      → List (HttpRoute V) × List String
  tagged_ports [] revision cluster rest = rest
  tagged_ports (port ∷ ports) revision cluster rest =
      let (matches, hosts) = tagged_matches lib p port revision cluster in
      let name = append "00_tagged-" (append revision.tag (append "-" port.name)) in
      add_route (make_route name port matches (tagged_route port revision)) hosts
        (tagged_ports ports revision cluster rest)

  unfoldable pub tagged_routes : List Route → Cluster → List (HttpRoute V) × List String
  unfolding tagged_ports
  tagged_routes [] cluster = ([], [])
  tagged_routes (revision ∷ revisions) cluster =
      let rest = tagged_routes revisions cluster in
      if str_eq revision.tag_routing_header ""
      then rest
      else tagged_ports p.ports revision cluster rest

  abbrev pub wants_dev_routes : Cluster → Bool
  wants_dev_routes cluster =
      cluster.enable_dev_routes
      && not (str_eq cluster.dev_route_tag_template "")
      && not (str_eq p.dev_routes_service_host "")
      && ltb 0 p.dev_routes_service_port

  abbrev pub dev_routes_of : Option (List Match) → List (HttpRoute V)
  dev_routes_of none = []
  dev_routes_of (some matches) =
      record {
        name = append "00_dev-" p.app;
        timeout = none;
        retries = none;
        matches = matches;
        route = dev_route;
        fault = none;
      }
      ∷ []

  unfoldable pub dev_routes : Cluster → List (HttpRoute V)
  dev_routes cluster =
      if wants_dev_routes cluster then dev_routes_of (dev_matches lib p cluster) else []
