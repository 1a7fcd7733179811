-- ===== src/Routes/Hosts.antt =====
-- controllers/plan/syncApp.go: the hosts that a port is served at through an ingress.
use Prim.Native.String.{String, ◌++◌ as append}
use text.Mathlib.Text.{◌==◌ as str_eq}
use picchu.Base.{Bool, false, none, some, List, [], ◌∷◌, map, any_if, if◌then◌else◌}
use picchu.Objects.{lookup}
use picchu.Routes.{SyncApp, PortInfo, Cluster, Library, has, add_host, add_hosts}

module _ {V : Type 0} (lib : Library V) (p : SyncApp V) where
  -- `isUserDefined`
  abbrev pub is_user_defined : String → Bool
  is_user_defined host = any_if (λ port. has host port.hosts) p.ports

  -- The port that gets the default hosts of an ingress.
  abbrev pub is_default_port : String → PortInfo → Bool
  is_default_port ingress port = elim (lookup ingress p.default_ingress_ports) [
    | none ↦ false
    | some name ↦ str_eq name port.name
  ]

  unfoldable pub add_default_host : PortInfo → String → String → List String → List String
  add_default_host port ingress host m =
      if is_user_defined host
      then m
      else if is_default_port ingress port
      then add_host host m
      else m

  abbrev pub under : String → String → String
  under name domain = append name (append "." domain)

  unfoldable pub add_domain : PortInfo → String → String → List String → List String
  add_domain port ingress domain m =
      let m' = add_default_host port ingress (under p.namespace domain) m in
      if str_eq p.target p.fleet
      then add_default_host port ingress (under p.app domain) m'
      else elim (lib.trim_suffix p.namespace (append "-" p.fleet)) [
        | none ↦ m'
        | some basename ↦ add_default_host port ingress (under basename domain) m'
      ]

  unfoldable pub add_domains : PortInfo → String → List String → List String → List String
  add_domains port ingress [] m = m
  add_domains port ingress (d ∷ ds) m = add_domains port ingress ds (add_domain port ingress d m)

  unfoldable pub ingress_hosts : PortInfo → List String → String → List String
  ingress_hosts port domains ingress = add_hosts port.hosts (add_domains port ingress domains [])

  abbrev pub public_hosts : PortInfo → Cluster → List String
  public_hosts port cluster = ingress_hosts port cluster.public_domains "public"

  abbrev pub private_hosts : PortInfo → Cluster → List String
  private_hosts port cluster = ingress_hosts port cluster.private_domains "private"

  -- `authorityMatch`: a regular expression
  abbrev pub authority_match : List String → String
  authority_match hosts =
      let patterns = lib.sort_strings (map lib.quote_meta hosts) in
      append "^(" (append (lib.join patterns "|") ")(:[0-9]+)?$")
