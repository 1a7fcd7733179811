-- ===== src/Routes.antt =====
-- controllers/plan/syncApp.go: the plan that makes the objects that route an app's requests. `V`
-- stands for contents that are passed on (faults, alert rules). Port numbers are not negative.
pub mod Hosts
pub mod Matches
pub mod Build
pub mod Resources
pub mod Destinations
pub mod Exposed
pub mod Listed
pub mod Order
pub mod Samples
use Prim.Native.String.{String, ◌++◌ as append}
use picchu.Base.{ℕ, Bool, Option, List, ◌∷◌, [], any_if, if◌then◌else◌}
use text.Mathlib.Text.{◌==◌ as str_eq}
use picchu.Objects.{Entries}
use picchu.Traffic.{Route}

-- What an Istio port asks for.
pub record Retries : Type 0 where
  pub attempts : ℕ
  pub per_try_timeout : Option ℕ
  pub retry_on : Option String

pub record Http : Type 0 where
  pub timeout : Option ℕ
  pub retries : Option Retries

pub record PortInfo : Type 0 where
  pub name : String
  pub hosts : List String
  pub ingress_port : ℕ
  pub port : ℕ
  pub protocol : String
  pub ingresses : List String
  pub http : Http

pub record PortFault (V : Type 0) : Type 0 where
  pub number : ℕ
  pub http_fault : V

-- A plan's revision is the `Route` that `prepareRevisions` makes.
pub record SyncApp (V : Type 0) : Type 0 where
  pub app : String
  pub target : String
  pub fleet : String
  pub namespace : String
  pub labels : Entries
  pub deployed_revisions : List Route
  pub alert_rules : List V
  pub ports : List PortInfo
  pub http_port_faults : List (PortFault V)
  pub istio_sidecar_config : Option (List String)
  pub default_ingress_ports : Entries
  pub dev_routes_service_host : String
  pub dev_routes_service_port : ℕ

-- The parts of a cluster's spec.
pub record Cluster : Type 0 where
  pub public_domains : List String
  pub public_gateway : String
  pub private_domains : List String
  pub private_gateway : String
  pub enable_dev_routes : Bool
  pub dev_route_tag_template : String

-- The standard library: regexp.QuoteMeta, strings.Join, sort.Strings, sort.Slice, the removal of a
-- suffix that is there, and a template that is parsed and filled in, where both succeed.
pub record Library (V : Type 0) : Type 1 where
  pub quote_meta : String → String
  pub join : List String → String → String
  pub sort_strings : List String → List String
  pub sort_by : {A : Type 0} → (A → A → Bool) → List A → List A
  pub less : String → String → Bool
  pub trim_suffix : String → String → Option String
  pub fill_in : String → SyncApp V → Option String

abbrev pub has : String → List String → Bool
has s = any_if (λ t. str_eq t s)

-- A write of a Go map of hosts. The code ranges over such maps in any order and sorts what it
-- writes; here they are lists in the order of the first writes.
unfoldable pub add_host : String → List String → List String
add_host host [] = host ∷ []
add_host host (h ∷ hs) = let rest = add_host host hs in if str_eq h host then h ∷ hs else h ∷ rest

unfoldable pub add_hosts : List String → List String → List String
unfolding add_host
add_hosts [] m = m
add_hosts (h ∷ hs) m = add_hosts hs (add_host h m)

-- `serviceHost`
abbrev pub service_host : {V : Type 0} → SyncApp V → String
service_host p = append p.app (append "." (append p.namespace ".svc.cluster.local"))
