-- ===== src/Routes/Matches.antt =====
-- controllers/plan/syncApp.go: the requests that a route is for.
use Prim.Native.String.{String}
use picchu.Base.{ℕ, Option, none, some, List, [], ◌∷◌, ◌++◌, if◌then◌else◌, ◌==◌}
use picchu.Traffic.{Route}
use picchu.Routes.{SyncApp, PortInfo, Cluster, Library, has, add_hosts, service_host}
use picchu.Routes.Hosts.{public_hosts, private_hosts, authority_match}

pub data StringMatch : Type 0 where
  exact regex prefix : String → StringMatch

-- `istio.HTTPMatchRequest`
pub record Match : Type 0 where
  pub headers : List (String × StringMatch)
  pub authority : Option String
  pub port : ℕ
  pub gateways : List String
  pub uri : Option StringMatch

module _ {V : Type 0} (lib : Library V) (p : SyncApp V) where
  abbrev pub ingress_match : List (String × StringMatch) → List String → ℕ → String → Match
  ingress_match headers hosts port gateway = record {
    headers = headers;
    authority = some (authority_match lib p hosts);
    port = port;
    gateways = gateway ∷ [];
    uri = some (StringMatch.prefix "/");
  }

  -- The matches of an ingress that has hosts; with HTTPS also those of plain HTTP.
  unfoldable pub ingress_matches :
      List (String × StringMatch) → PortInfo → List String → String → List Match
  ingress_matches headers port [] gateway = []
  ingress_matches headers port (h ∷ hs) gateway =
      ingress_match headers (h ∷ hs) port.ingress_port gateway
      ∷ (if port.ingress_port == 443 then ingress_match headers (h ∷ hs) 80 gateway ∷ [] else [])

  abbrev pub mesh_match : PortInfo → List (String × StringMatch) → Match
  mesh_match port headers = record {
    headers = headers;
    authority = none;
    port = port.port;
    gateways = "mesh" ∷ [];
    uri = some (StringMatch.prefix "/");
  }

  -- The hosts of an ingress that the port is exposed through.
  abbrev pub exposed : String → PortInfo → List String → List String
  exposed ingress port hosts = if has ingress port.ingresses then hosts else []

  unfoldable pub port_header_matches :
      PortInfo → List (String × StringMatch) → Cluster → List Match × List String
  port_header_matches port headers cluster =
      let public = exposed "public" port (public_hosts lib p port cluster) in
      let private = exposed "private" port (private_hosts lib p port cluster) in
      (
        mesh_match port headers
            ∷ (ingress_matches headers port public cluster.public_gateway
                ++ ingress_matches headers port private cluster.private_gateway),
        add_hosts private (add_hosts public (service_host p ∷ [])),
      )

  abbrev pub release_matches : PortInfo → Cluster → List Match × List String
  release_matches port = port_header_matches port []

  abbrev pub tagged_matches : PortInfo → Route → Cluster → List Match × List String
  tagged_matches port revision =
      port_header_matches port ((revision.tag_routing_header, StringMatch.exact revision.tag) ∷ [])

  -- `devMatches`, with `none` for its error
  abbrev pub dev_matches : Cluster → Option (List Match)
  dev_matches cluster = elim (lib.fill_in cluster.dev_route_tag_template p) [
    | none ↦ none
    | some header ↦ some (
        record {
          headers = (header, StringMatch.regex "(.+)") ∷ [];
          authority = none;
          port = 0;
          gateways = [];
          uri = none;
        }
        ∷ [])
  ]
