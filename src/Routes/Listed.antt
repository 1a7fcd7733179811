-- ===== src/Routes/Listed.antt =====
-- controllers/plan/syncApp.go: the gateways of the virtual service.
use Prim.Native.String.{String}
use text.Mathlib.Text.{◌==◌ as str_eq}
use text.Mathlib.TextPositions.{eq_refl}
use mathlib.Core.List.{Perm}
use picchu.Base.{
  Bool, true, some, some-injective, List, [], ◌∷◌, ◌++◌, ◌≡◌, refl, ◌∙◌, subst, arith, any_if-perm,
  every, every-map,
}
use picchu.Routes.{SyncApp, Cluster, Library, has, add_hosts}
use picchu.Routes.Matches.{Match}
use picchu.Routes.Build.{HttpRoute, release_routes, tagged_routes, dev_routes}
use picchu.Routes.Resources.{
  VirtualService, virtual_service, with_routes, match_gateways, route_gateways,
}
use picchu.Routes.Exposed.{has-add_hosts}

match_gateways-keeps :
    (x : String) (ms : List Match) (g : List String)
    → has x g ≡ true
    → has x (match_gateways ms g) ≡ true
match_gateways-keeps x [] g h = h
match_gateways-keeps x (m ∷ ms) g h =
    match_gateways-keeps x ms (add_hosts m.gateways g)
      (ground (arith, has-add_hosts x m.gateways g, h))

-- Whether the gateways of a match are all in a list.
abbrev pub lists_match : List String → Match → Bool
lists_match g m = every (λ x. has x g) m.gateways

own_gateways : (xs : List String) → every (λ x. has x xs) xs ≡ true
own_gateways [] = refl
own_gateways (x ∷ xs) = ground (
  arith,
  eq_refl x,
  every-map (λ y. has y xs) (λ y. has y (x ∷ xs)) xs (λ y h. ground (arith, h)) (own_gateways xs),
)

match_gateways-lists :
    (ms : List Match) (g : List String) → every (lists_match (match_gateways ms g)) ms ≡ true
match_gateways-lists [] g = refl
match_gateways-lists (m ∷ ms) g =
    let head : lists_match (match_gateways ms (add_hosts m.gateways g)) m ≡ true =
      every-map (λ x. has x m.gateways) (λ x. has x (match_gateways ms (add_hosts m.gateways g)))
        m.gateways
        (λ x h.
          match_gateways-keeps x ms (add_hosts m.gateways g)
            (ground (arith, h, has-add_hosts x m.gateways g)))
        (own_gateways m.gateways) in
    ground (arith, head, match_gateways-lists ms (add_hosts m.gateways g))

module _ {V : Type 0} where
  route_gateways-keeps :
      (x : String) (rs : List (HttpRoute V)) (g : List String)
      → has x g ≡ true
      → has x (route_gateways rs g) ≡ true
  route_gateways-keeps x [] g h = h
  route_gateways-keeps x (r ∷ rs) g h =
      route_gateways-keeps x rs (match_gateways r.matches g) (match_gateways-keeps x r.matches g h)

  -- Whether the gateways of all matches of a route are in a list.
  abbrev pub lists_route : List String → HttpRoute V → Bool
  lists_route g r = every (lists_match g) r.matches

  lists_route-map :
      (g g' : List String) (r : HttpRoute V)
      → ((x : String) → has x g ≡ true → has x g' ≡ true)
      → lists_route g r ≡ true
      → lists_route g' r ≡ true
  lists_route-map g g' r f =
      every-map (lists_match g) (lists_match g') r.matches
        (λ m. every-map (λ x. has x g) (λ x. has x g') m.gateways f)

  route_gateways-lists :
      (rs : List (HttpRoute V)) (g : List String)
      → every (lists_route (route_gateways rs g)) rs ≡ true
  route_gateways-lists [] g = refl
  route_gateways-lists (r ∷ rs) g = ground (
    arith,
    route_gateways-lists rs (match_gateways r.matches g),
    lists_route-map (match_gateways r.matches g) (route_gateways rs (match_gateways r.matches g)) r
        (λ x. route_gateways-keeps x rs (match_gateways r.matches g))
        (match_gateways-lists r.matches g),
  )

module _ {V : Type 0} (lib : Library V) (p : SyncApp V)
    (sorts : (xs : List String) → Perm (lib.sort_strings xs) xs) where
  with_routes-lists :
      (routes : List (HttpRoute V)) (hosts : List String) (vs : VirtualService V)
      → with_routes lib p routes hosts ≡ some vs
      → (has "mesh" vs.gateways ≡ true) × (every (lists_route vs.gateways) vs.http ≡ true)
  with_routes-lists [] hosts vs made = absurd (ground arith)
  with_routes-lists (r ∷ rs) [] vs made = absurd (ground arith)
  with_routes-lists (r ∷ rs) (host ∷ hosts) vs made =
      let http = lib.sort_by (λ a b. lib.less a.name b.name) (r ∷ rs) in
      let g = route_gateways http ("mesh" ∷ []) in
      let keeps =
        λ (x : String) (h : has x g ≡ true). any_if-perm (λ t. str_eq t x) (sorts g) ∙ h in
      subst (λ v. (has "mesh" v.gateways ≡ true) × (every (lists_route v.gateways) v.http ≡ true))
        (some-injective made)
        (
          keeps "mesh" (route_gateways-keeps "mesh" http ("mesh" ∷ []) refl),
          every-map (lists_route g) (lists_route (lib.sort_strings g)) http
              (λ r. lists_route-map g (lib.sort_strings g) r keeps)
              (route_gateways-lists http ("mesh" ∷ [])),
        )

  -- The virtual service is bound to `mesh` and to every gateway that a match of its routes names.
  pub virtual_service-lists :
      (cluster : Cluster) (vs : VirtualService V)
      → virtual_service lib p cluster ≡ some vs
      → (has "mesh" vs.gateways ≡ true) × (every (lists_route vs.gateways) vs.http ≡ true)
  unfolding virtual_service
  virtual_service-lists cluster vs made =
      with_routes-lists
        (dev_routes lib p cluster
          ++ ((tagged_routes lib p p.deployed_revisions cluster).0
              ++ (release_routes lib p p.ports cluster).0))
        _ vs made
