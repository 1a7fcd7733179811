-- ===== src/Routes/Resources.antt =====
-- controllers/plan/syncApp.go: the objects of an app, and the order in which they are applied.
use Prim.Native.String.{String}
use picchu.Base.{ℕ, Bool, Option, none, some, List, [], ◌∷◌, ◌++◌, map, if◌then◌else◌, ltb}
use picchu.Traffic.{Route}
use picchu.Objects.{Entries, insert}
use picchu.Routes.{SyncApp, PortInfo, Cluster, Library, add_hosts, service_host}
use picchu.Routes.Matches.{Match}
use picchu.Routes.Build.{HttpRoute, release_routes, tagged_routes, dev_routes}

pub record ServicePort : Type 0 where
  pub name : String
  pub protocol : String
  pub port : ℕ
  pub target_port : String

pub record Subset : Type 0 where
  pub name : String
  pub labels : Entries

pub record DestinationRule : Type 0 where
  pub host : String
  pub subsets : List Subset

pub record VirtualService (V : Type 0) : Type 0 where
  pub hosts : List String
  pub gateways : List String
  pub http : List (HttpRoute V)

-- The specs of the objects; all have the app's name and namespace.
pub data Resource (V : Type 0) : Type 0 where
  service : Entries → List ServicePort → Entries → Resource V
  sidecar : Entries → List String → Resource V
  destination_rule_object : Entries → DestinationRule → Resource V
  prometheus_rule_object : Entries → List (List V) → Resource V
  virtual_service_object : Entries → VirtualService V → Resource V

-- The loops over the gateways of the matches of the routes.
abbrev pub match_gateways : List Match → List String → List String
match_gateways [] g = g
match_gateways (m ∷ ms) g = match_gateways ms (add_hosts m.gateways g)

abbrev pub route_gateways : {V : Type 0} → List (HttpRoute V) → List String → List String
route_gateways [] g = g
route_gateways (r ∷ rs) g = route_gateways rs (match_gateways r.matches g)

abbrev pub service_port : PortInfo → ServicePort
service_port port = record {
  name = port.name;
  protocol = port.protocol;
  port = port.port;
  target_port = port.name;
}

abbrev pub set_labels : Entries → Entries → Entries
set_labels [] m = m
set_labels ((k, v) ∷ es) m = set_labels es (insert k v m)

module _ {V : Type 0} (lib : Library V) (p : SyncApp V) where
  pub service_resource : Resource V
  service_resource =
      Resource.service (set_labels p.labels (("prometheus.io/scrape", "true") ∷ []))
        (lib.sort_by (λ a b. ltb a.port b.port) (map service_port p.ports))
        (("picchu.medium.engineering/app", p.app) ∷ [])

  abbrev pub subset_of : Route → Subset
  subset_of revision = record {
    name = revision.tag;
    labels = ("tag.picchu.medium.engineering", revision.tag) ∷ [];
  }

  unfoldable pub destination_rule : DestinationRule
  destination_rule = record { host = service_host p; subsets = map subset_of p.deployed_revisions }

  -- The rules are one group, or none at all.
  abbrev pub prometheus_rule : List V → Resource V
  prometheus_rule [] = Resource.prometheus_rule_object p.labels []
  prometheus_rule (r ∷ rs) = Resource.prometheus_rule_object p.labels ((r ∷ rs) ∷ [])

  abbrev pub sidecar_resource : Option (Resource V)
  sidecar_resource = elim p.istio_sidecar_config [
    | none ↦ none
    | some hosts ↦ some (Resource.sidecar p.labels hosts)
  ]

  -- The virtual service of given routes and hosts, or nil.
  abbrev pub with_hosts : List (HttpRoute V) → List String → Option (VirtualService V)
  with_hosts routes [] = none
  with_hosts routes (h ∷ hs) =
      let http = lib.sort_by (λ a b. lib.less a.name b.name) routes in
      some (record {
        hosts = lib.sort_strings (h ∷ hs);
        gateways = lib.sort_strings (route_gateways http ("mesh" ∷ []));
        http = http;
      })

  abbrev pub with_routes : List (HttpRoute V) → List String → Option (VirtualService V)
  with_routes [] hosts = none
  with_routes (r ∷ rs) hosts = with_hosts (r ∷ rs) hosts

  unfoldable pub virtual_service : Cluster → Option (VirtualService V)
  virtual_service cluster =
      let (tagged, tagged_hosts) = tagged_routes lib p p.deployed_revisions cluster in
      let (release, release_hosts) = release_routes lib p p.ports cluster in
      with_routes (dev_routes lib p cluster ++ (tagged ++ release))
        (add_hosts release_hosts (add_hosts tagged_hosts []))

-- The Kubernetes API: `plan.CreateOrUpdate` of an object, and `Delete`.
pub record Outside (V W Err : Type 0) : Type 0 where
  pub create_or_update : Resource V → W → Option Err × W
  pub delete : Resource V → W → Option Err × W
  pub is_not_found : Err → Bool

-- An early return on an error.
infixl 5 ◌and_then◌
abbrev pub ◌and_then◌ : {W Err : Type 0} → Option Err × W → (W → Option Err × W) → Option Err × W
(none, w) and_then f = f w
(some e, w) and_then f = (some e, w)

module _ {V W Err : Type 0} (api : Outside V W Err) (lib : Library V) (p : SyncApp V) where
  abbrev pub apply_sidecar : W → Option Err × W
  apply_sidecar w = elim (sidecar_resource lib p) [
    | none ↦ (none, w)
    | some object ↦ api.create_or_update object w
  ]

  abbrev pub apply_virtual_service : Cluster → W → Option Err × W
  apply_virtual_service cluster w = elim (virtual_service lib p cluster) [
    | none ↦ (none, w)
    | some vs ↦ api.create_or_update (Resource.virtual_service_object p.labels vs) w
  ]

  -- After the deletion of the rules: any error but that they are not there ends the plan, with nil.
  abbrev pub after_delete : Cluster → Option Err × W → Option Err × W
  after_delete cluster (none, w) = apply_virtual_service cluster w
  after_delete cluster (some e, w) =
      if api.is_not_found e then apply_virtual_service cluster w else (none, w)

  abbrev pub apply_rules : Cluster → List V → W → Option Err × W
  apply_rules cluster [] w = after_delete cluster (api.delete (prometheus_rule lib p []) w)
  apply_rules cluster (r ∷ rs) w =
      api.create_or_update (prometheus_rule lib p (r ∷ rs)) w and_then apply_virtual_service cluster

  abbrev pub apply_deployed : Cluster → List Route → W → Option Err × W
  apply_deployed cluster [] w = (none, w)
  apply_deployed cluster (r ∷ rs) w =
      api.create_or_update (Resource.destination_rule_object p.labels (destination_rule lib p)) w
      and_then apply_rules cluster p.alert_rules

  unfoldable pub apply_ports : Cluster → List PortInfo → W → Option Err × W
  apply_ports cluster [] w = (none, w)
  apply_ports cluster (port ∷ ports) w =
      api.create_or_update (service_resource lib p) w
      and_then apply_sidecar
      and_then apply_deployed cluster p.deployed_revisions

  unfoldable pub apply : Cluster → W → Option Err × W
  unfolding apply_ports
  apply cluster w = apply_ports cluster p.ports w
