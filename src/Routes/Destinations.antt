-- ===== src/Routes/Destinations.antt =====
-- controllers/plan/syncApp.go: where the routes of the virtual service lead.
use Prim.Native.String.{String, ◌++◌ as append}
use text.Mathlib.Text.{◌==◌ as str_eq}
use text.Mathlib.TextPositions.{eq_refl}
use mathlib.Core.List.{Perm}
use picchu.Base.{
  ℕ, ◌+◌, Bool, true, false, Bool-cases, Option, none, some, some-injective, List, [], ◌∷◌, ◌++◌,
  map, ◌==◌, ◌&&◌, ◌||◌, ◌≡◌, ◌≢◌, finished, refl, sym, ap, ◌∙◌, inl, inr, arith, any_if, every,
  every-append, every-perm, every-map,
}
use picchu.Traffic.{Route, Prepared, prepare_revisions, reset_unreleasable}
use picchu.Traffic.Sums.{route_weights, prepare_revisions-weights}
use picchu.Incarnation.{Incarnation, Controller}
use picchu.Fleet.{deployed, releasable}
use picchu.Routes.{SyncApp, PortInfo, Cluster, Library, service_host}
use picchu.Routes.Matches.{Match, release_matches, tagged_matches, dev_matches}
use picchu.Routes.Build.{
  RouteDestination, HttpRoute, release_weights, release_route, tagged_route, dev_route, make_route,
  is_empty_route, release_routes, tagged_ports, tagged_routes, dev_routes, dev_routes_of,
}
use picchu.Routes.Resources.{
  VirtualService, destination_rule, virtual_service, subset_of, with_routes,
}

-- sort.Slice returns the items it is given in another order.
abbrev pub IsSort : {V : Type 0} → Library V → Type 1
IsSort lib = (A : Type 0) (less : A → A → Bool) (xs : List A) → Perm (lib.sort_by less xs) xs

-- What holds of the destinations of each source of routes holds of those of the virtual service.
module _ {V : Type 0} (lib : Library V) (p : SyncApp V) (cluster : Cluster)
    (good : List RouteDestination → Bool)
    (release_good : (port : PortInfo)
      → is_empty_route (release_route lib p port) ≡ false
      → good (release_route lib p port) ≡ true)
    (dev_good : good (dev_route lib p) ≡ true) where
  abbrev is_good : HttpRoute V → Bool
  is_good r = good r.route

  make_route-is_good :
      (name : String) (port : PortInfo) (ms : List Match) (ds : List RouteDestination)
      → good ds ≡ true
      → is_good (make_route lib p name port ms ds) ≡ true
  unfolding make_route
  make_route-is_good name port ms ds h = h

  release_routes-good :
      (ports : List PortInfo) → every is_good (release_routes lib p ports cluster).0 ≡ true
  unfolding release_routes
  release_routes-good [] = refl
  release_routes-good (port ∷ ports) =
      elim (Bool-cases (is_empty_route (release_route lib p port))) [
        | inl e ↦ ground (arith, e, release_routes-good ports)
        | inr e ↦ ground (
          arith,
          e,
          release_routes-good ports,
          make_route-is_good (append "01_release-" port.name) port
              (release_matches lib p port cluster).0 (release_route lib p port)
              (release_good port e),
        )
      ]

  tagged_ports-good :
      (ports : List PortInfo) (revision : Route) (rest : List (HttpRoute V) × List String)
      → ((port : PortInfo) → good (tagged_route lib p port revision) ≡ true)
      → every is_good rest.0 ≡ true
      → every is_good (tagged_ports lib p ports revision cluster rest).0 ≡ true
  unfolding tagged_ports
  tagged_ports-good [] revision rest tagged h = h
  tagged_ports-good (port ∷ ports) revision rest tagged h = ground (
    arith,
    tagged_ports-good ports revision rest tagged h,
    make_route-is_good (append "00_tagged-" (append revision.tag (append "-" port.name))) port
        (tagged_matches lib p port revision cluster).0 (tagged_route lib p port revision)
        (tagged port),
  )

  tagged_routes-good :
      (kept : Route → Bool) (revisions : List Route)
      → ((r : Route) (port : PortInfo) → kept r ≡ true → good (tagged_route lib p port r) ≡ true)
      → every kept revisions ≡ true
      → every is_good (tagged_routes lib p revisions cluster).0 ≡ true
  unfolding tagged_routes
  tagged_routes-good kept [] tagged h = refl
  tagged_routes-good kept (r ∷ revisions) tagged h =
      elim (Bool-cases (str_eq r.tag_routing_header "")) [
        | inl e ↦ ground (arith, e, tagged_routes-good kept revisions tagged (ground (arith, h)))
        | inr e ↦ ground (
          arith,
          e,
          tagged_ports-good p.ports r (tagged_routes lib p revisions cluster)
              (λ port. tagged r port (ground (arith, h)))
              (tagged_routes-good kept revisions tagged (ground (arith, h))),
        )
      ]

  dev_routes_of-good : (m : Option (List Match)) → every is_good (dev_routes_of lib p m) ≡ true
  dev_routes_of-good none = refl
  dev_routes_of-good (some matches) = ground (arith, dev_good)

  dev_routes-good : every is_good (dev_routes lib p cluster) ≡ true
  unfolding dev_routes
  dev_routes-good = ground (arith, dev_routes_of-good (dev_matches lib p cluster))

  with_routes-good :
      (routes : List (HttpRoute V)) (hosts : List String) (vs : VirtualService V)
      → IsSort lib
      → every is_good routes ≡ true
      → with_routes lib p routes hosts ≡ some vs
      → every is_good vs.http ≡ true
  with_routes-good [] hosts vs sorts h made = absurd (ground arith)
  with_routes-good (r ∷ rs) [] vs sorts h made = absurd (ground arith)
  with_routes-good (r ∷ rs) (host ∷ hosts) vs sorts h made =
      ap (λ v. every is_good v.http) (some-injective (sym made))
      ∙ every-perm is_good (sorts (HttpRoute V) (λ a b. lib.less a.name b.name) (r ∷ rs))
      ∙ h

  pub virtual_service-good :
      (kept : Route → Bool) (vs : VirtualService V)
      → IsSort lib
      → ((r : Route) (port : PortInfo) → kept r ≡ true → good (tagged_route lib p port r) ≡ true)
      → every kept p.deployed_revisions ≡ true
      → virtual_service lib p cluster ≡ some vs
      → every is_good vs.http ≡ true
  unfolding virtual_service
  virtual_service-good kept vs sorts tagged h made =
      let release = release_routes-good p.ports in
      let tags = tagged_routes-good kept p.deployed_revisions tagged h in
      with_routes-good
        (dev_routes lib p cluster
          ++ ((tagged_routes lib p p.deployed_revisions cluster).0
              ++ (release_routes lib p p.ports cluster).0))
        _ vs sorts
        (every-append is_good (dev_routes lib p cluster) _ dev_routes-good (
          every-append is_good (tagged_routes lib p p.deployed_revisions cluster).0 _ tags release))
        made

every-true : (rs : List Route) → every (λ r. true) rs ≡ true
every-true [] = refl
every-true (r ∷ rs) = every-true rs

-- The sum of the weights of a route.
abbrev pub weight_sum : List RouteDestination → ℕ
weight_sum [] = 0
weight_sum (d ∷ ds) = d.weight + weight_sum ds

module _ {V : Type 0} (lib : Library V) (p : SyncApp V) where
  -- A destination in the app's own service names a declared subset; otherwise it is the one of the
  -- development service, which has none.
  abbrev pub is_declared : String → Bool
  is_declared tag = any_if (λ s. str_eq s.name tag) (destination_rule lib p).subsets

  pub is_known : RouteDestination → Bool
  is_known d =
      str_eq d.host (service_host p) && is_declared d.subset
      || str_eq d.host p.dev_routes_service_host && str_eq d.subset ""

  subsets-declare :
      (rs : List Route)
      → every (λ r. any_if (λ s. str_eq s.name r.tag) (map (subset_of lib p) rs)) rs ≡ true
  subsets-declare [] = refl
  subsets-declare (r ∷ rs) = ground (
    arith,
    eq_refl r.tag,
    every-map (λ x. any_if (λ s. str_eq s.name x.tag) (map (subset_of lib p) rs))
        (λ x. any_if (λ s. str_eq s.name x.tag) (map (subset_of lib p) (r ∷ rs))) rs
        (λ x h. ground (arith, h)) (subsets-declare rs),
  )

  deployed-declared : every (λ r. is_declared r.tag) p.deployed_revisions ≡ true
  unfolding destination_rule
  deployed-declared = subsets-declare p.deployed_revisions

  release_weights-known :
      (port : PortInfo) (rs : List Route)
      → every (λ r. is_declared r.tag) rs ≡ true
      → every is_known (release_weights lib p port rs) ≡ true
  unfolding is_known
  release_weights-known port [] h = refl
  release_weights-known port (r ∷ rs) h =
      ground (arith, eq_refl (service_host p), release_weights-known port rs (ground (arith, h)), h)

  -- Each destination of each route of the virtual service is either in the service of the app, in
  -- a subset that the destination rule declares, or is the development service without a subset.
  pub virtual_service-known :
      (cluster : Cluster) (vs : VirtualService V)
      → IsSort lib
      → virtual_service lib p cluster ≡ some vs
      → every (λ r. every is_known r.route) vs.http ≡ true
  unfolding is_known release_route
  virtual_service-known cluster vs sorts made =
      virtual_service-good lib p cluster (every is_known)
        (λ port e. release_weights-known port p.deployed_revisions deployed-declared)
        (ground (arith, eq_refl p.dev_routes_service_host)) (λ r. is_declared r.tag) vs sorts
        (λ r port h. ground (arith, eq_refl (service_host p), h)) deployed-declared made

  release_weights-sum :
      (port : PortInfo) (rs : List Route)
      → weight_sum (release_weights lib p port rs) ≡ route_weights rs
  release_weights-sum port [] = refl
  release_weights-sum port (r ∷ rs) = ground (arith, release_weights-sum port rs)

  -- Where the revisions of the plan are those that `prepareRevisions` returned for a fleet in
  -- which some incarnation is deployed and some is releasable, the weights of each route of the
  -- virtual service add up to exactly 100.
  pub virtual_service-weights :
      {F : Type 0} (c : Controller F) (now : ℕ) (is : List Incarnation) (divided : Prepared)
      (cluster : Cluster) (vs : VirtualService V)
      → IsSort lib
      → prepare_revisions c now is ≡ finished divided
      → deployed is ≢ []
      → releasable (reset_unreleasable now is) ≢ []
      → p.deployed_revisions ≡ divided.routes
      → virtual_service lib p cluster ≡ some vs
      → every (λ r. weight_sum r.route == 100) vs.http ≡ true
  unfolding release_route
  virtual_service-weights c now is divided cluster vs sorts ran some_deployed some_releasable taken
        made =
      let total =
        ap route_weights taken
        ∙ (prepare_revisions-weights c now is divided ran some_deployed some_releasable).0 in
      virtual_service-good lib p cluster (λ ds. weight_sum ds == 100)
        (λ port e. ap (λ n. n == 100) (release_weights-sum port p.deployed_revisions ∙ total)) refl
        (λ r. true) vs sorts (λ r port h. refl) (every-true p.deployed_revisions) made
