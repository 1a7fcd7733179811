-- ===== src/Routes/Samples.antt =====
-- Witnesses for the plan of an app (controllers/plan/syncApp.go): a web app with two ports and the
-- revisions of the other samples.
use Prim.Native.String.{String, compare, len, slice, ◌++◌ as append}
use text.Mathlib.Text.{◌==◌ as str_eq, is_lt}
use mathlib.Core.List.{Perm, Memᴰ}
use mathlib.Core.List.Perm
use picchu.Base.{
  ℕ, ◌-◌, Bool, true, false, Bool-cases, Option, none, some, List, [], ◌∷◌, ◌≡◌, refl, inl, inr,
  if◌then◌else◌, every,
}
use picchu.Objects.{lookup}
use picchu.Routes.{SyncApp, PortInfo, Cluster, Library, has, add_host, add_hosts}
use picchu.Routes.Hosts.{ingress_hosts, add_domains, add_domain, add_default_host}
use picchu.Routes.Matches.{port_header_matches, ingress_matches}
use picchu.Routes.Build.{
  release_route, make_route, release_routes, tagged_ports, tagged_routes, dev_routes,
}
use picchu.Routes.Resources.{VirtualService, Outside, virtual_service, apply}
use picchu.Routes.Destinations.{is_known, virtual_service-known}
use picchu.Routes.Order.{apply-delete_fails}
use picchu.Routes.Exposed.{ingress_hosts-shared}

module _ {A : Type 0} (less : A → A → Bool) where
  abbrev insert : A → List A → List A
  insert x [] = x ∷ []
  insert x (y ∷ ys) = let rest = insert x ys in if less x y then x ∷ y ∷ ys else y ∷ rest

  abbrev sort : List A → List A
  sort [] = []
  sort (x ∷ xs) = insert x (sort xs)

  insert-perm : (x : A) (xs : List A) → Perm (insert x xs) (x ∷ xs)
  insert-perm x [] = Perm.rfl
  insert-perm x (y ∷ ys) = elim (Bool-cases (less x y)) [
    | inl e ↦ rw e Perm.rfl
    | inr e ↦ rw e (Perm.trans (Perm.cons y (insert-perm x ys)) (Perm.swap x y ys))
  ]

  pub sort-perm : (xs : List A) → Perm (sort xs) xs
  sort-perm [] = Perm.rfl
  sort-perm (x ∷ xs) = Perm.trans (insert-perm x (sort xs)) (Perm.cons x (sort-perm xs))

abbrev less_text : String → String → Bool
less_text a b = is_lt (compare a b)

abbrev join_texts : List String → String → String
join_texts [] s = ""
join_texts (x ∷ []) s = x
join_texts (x ∷ y ∷ xs) s = append x (append s (join_texts (y ∷ xs) s))

abbrev trim : String → String → Option String
trim s t =
    let start = slice s 0 (len s - len t) in if str_eq (append start t) s then some start else none

abbrev pub lib : Library ℕ
lib = record {
  quote_meta = λ s. s;
  join = join_texts;
  sort_strings = sort less_text;
  sort_by = sort;
  less = less_text;
  trim_suffix = trim;
  fill_in = λ t p. some t;
}

abbrev pub web : PortInfo
web = record {
  name = "http";
  hosts = "example.com" ∷ [];
  ingress_port = 443;
  port = 8080;
  protocol = "TCP";
  ingresses = "public" ∷ [];
  http = record { timeout = none; retries = none };
}

abbrev pub status : PortInfo
status = record web { name = "status"; port = 9090 }

abbrev app : SyncApp ℕ
app = record {
  app = "web";
  target = "production";
  fleet = "production";
  namespace = "web-production";
  labels = [];
  deployed_revisions =
      record { tag = "new"; weight = 25; tag_routing_header = "new" }
      ∷ record { tag = "old"; weight = 75; tag_routing_header = "old" }
      ∷ [];
  alert_rules = [];
  ports = web ∷ status ∷ [];
  http_port_faults = [];
  istio_sidecar_config = none;
  default_ingress_ports = ("public", "http") ∷ [];
  dev_routes_service_host = "";
  dev_routes_service_port = 0;
}

abbrev pub cluster : Cluster
cluster = record {
  public_domains = "site.net" ∷ [];
  public_gateway = "public-gateway";
  private_domains = [];
  private_gateway = "private-gateway";
  enable_dev_routes = false;
  dev_route_tag_template = "";
}

made : (vs : VirtualService ℕ) × (virtual_service lib app cluster ≡ some vs)
unfolding virtual_service release_routes release_route tagged_routes tagged_ports dev_routes
    port_header_matches ingress_matches ingress_hosts add_domains add_domain add_default_host
    add_host add_hosts make_route lookup
made = (_, refl)

virtual_service-known_example : every (λ r. every (is_known lib app) r.route) made.0.http ≡ true
virtual_service-known_example = virtual_service-known lib app cluster made.0 (λ A. sort-perm) made.1

ingress_hosts-shared_example :
    (has "example.com" web.hosts ≡ true) × (has "example.com" status.hosts ≡ true)
unfolding ingress_hosts add_domains add_domain add_default_host add_host add_hosts lookup
ingress_hosts-shared_example =
    ingress_hosts-shared lib app "example.com" web status "public" ("site.net" ∷ [])
      (Memᴰ.head refl) (Memᴰ.tail (Memᴰ.head refl)) refl refl refl

abbrev failing : Outside ℕ ℕ String
failing = record {
  create_or_update = λ r w. (none, w);
  delete = λ r w. (some "timeout", w);
  is_not_found = λ e. false;
}

-- The error is lost.
failing_test : apply failing lib app cluster 0 ≡ (none, 0)
failing_test =
    apply-delete_fails failing lib app cluster 0 0 0 0 0 "timeout" web (status ∷ [])
      (record { tag = "new"; weight = 25; tag_routing_header = "new" })
      (record { tag = "old"; weight = 75; tag_routing_header = "old" } ∷ []) refl refl refl refl
      refl refl refl refl
