-- ===== src/Manager/Served.antt =====
-- controllers/syncer.go: the plan of `syncApp`: its weights and its ports.
use Prim.Native.String.{String}
use text.Mathlib.Text.{◌==◌ as str_eq}
use text.Mathlib.TextEquality.{eq_iff}
use picchu.Base.{
  ℕ, true, false, ◌==◌, Bool-cases, Option, none, some, some-injective, List, [], ◌∷◌, ◌++◌, any_if,
  every, finished, finished-injective, >>=-eq-finished, deref, if◌then◌else◌, ◌≡◌, ◌≢◌, refl, sym,
  ap, subst, ◌∙◌, filter_if, inl, inr, arith,
}
use picchu.Incarnation.{Incarnation, Controller, target, in_state}
use picchu.Deployment.{State}
use picchu.Fleet.{deployed, releasable}
use picchu.Traffic.{Prepared, prepare_revisions, reset_unreleasable}
use picchu.Routes
use picchu.Routes.{PortInfo, SyncApp, Cluster}
use picchu.Routes.Resources.{VirtualService, virtual_service}
use picchu.Routes.Destinations.{IsSort, weight_sum, virtual_service-weights}
use picchu.Manager.Monitors.{Fields}
use picchu.Manager.App.{
  Instance, add_port, add_ports, collect_ports, ports_of, served, plan_for, app_plan, last_of,
}

abbrev pub find_port : String → List PortInfo → Option PortInfo
find_port name [] = none
find_port name (p ∷ ps) =
    let rest = find_port name ps in if str_eq p.name name then some p else rest

abbrev or_port : Option PortInfo → Option PortInfo → Option PortInfo
or_port none o = o
or_port (some p) o = some p

find_port-append :
    (name : String) (ps qs : List PortInfo)
    → find_port name (ps ++ qs) ≡ or_port (find_port name ps) (find_port name qs)
find_port-append name [] qs = refl
find_port-append name (p ∷ ps) qs = ground (arith, find_port-append name ps qs)

find_port-none :
    (name : String) (ps : List PortInfo)
    → any_if (λ q. str_eq q.name name) ps ≡ false
    → find_port name ps ≡ none
find_port-none name [] h = refl
find_port-none name (p ∷ ps) h = ground (arith, h, find_port-none name ps)

find_port-some :
    (name : String) (ps : List PortInfo)
    → any_if (λ q. str_eq q.name name) ps ≡ true
    → (p : PortInfo) × (find_port name ps ≡ some p)
find_port-some name [] h = absurd (ground (arith, h))
find_port-some name (p ∷ ps) h = elim (Bool-cases (str_eq p.name name)) [
  | inl e ↦ (p, rw e refl)
  | inr e ↦ let (q, found) = find_port-some name ps (ground (arith, e, h)) in (q, rw e found)
]

or_port-none : (o : Option PortInfo) → or_port o none ≡ o
or_port-none none = refl
or_port-none (some p) = refl

or_port_assoc : (o p q : Option PortInfo) → or_port (or_port o p) q ≡ or_port o (or_port p q)
or_port_assoc none p q = refl
or_port_assoc (some x) p q = refl

-- The first port of a name stays.
find_port-add_port :
    (name : String) (p : PortInfo) (ps : List PortInfo)
    → find_port name (add_port p ps) ≡ or_port (find_port name ps) (find_port name (p ∷ []))
unfolding add_port
find_port-add_port name p ps = elim (Bool-cases (any_if (λ q. str_eq q.name p.name) ps)) [
  | inl e ↦ rw e (elim (Bool-cases (str_eq p.name name)) [
    | inl same ↦
        let (q, found) =
          find_port-some name ps (
            subst (λ n. any_if (λ x. str_eq x.name n) ps ≡ true) ((eq_iff p.name name).0 same) e) in
        rw found refl
    | inr differ ↦ rw differ (sym (or_port-none (find_port name ps)))
  ])
  | inr e ↦ rw e (find_port-append name ps (p ∷ []))
]

find_port-add_ports :
    (name : String) (qs ps : List PortInfo)
    → find_port name (add_ports qs ps) ≡ or_port (find_port name ps) (find_port name qs)
unfolding add_ports
find_port-add_ports name [] ps = sym (or_port-none (find_port name ps))
find_port-add_ports name (q ∷ qs) ps =
    find_port-add_ports name qs (add_port q ps)
    ∙ ap (λ o. or_port o (find_port name qs)) (find_port-add_port name q ps)
    ∙ or_port_assoc (find_port name ps) (find_port name (q ∷ [])) (find_port name qs)
    ∙ ap (or_port (find_port name ps)) (sym (find_port-append name (q ∷ []) qs))

module _ {F V : Type 0} (c : Controller F) (fields : Fields V) (no_labels : V)
    (instance_of : Instance V) (now : ℕ) where
  -- The ports of incarnations, one after the other.
  abbrev pub all_ports : List Incarnation → List PortInfo
  all_ports [] = []
  all_ports (i ∷ is) = ports_of c fields no_labels instance_of now i ++ all_ports is

  find_port-collect_ports :
      (name : String) (is : List Incarnation) (ps : List PortInfo)
      → find_port name (collect_ports c fields no_labels instance_of now is ps)
        ≡ or_port (find_port name ps) (find_port name (all_ports is))
  unfolding collect_ports
  find_port-collect_ports name [] ps = sym (or_port-none (find_port name ps))
  find_port-collect_ports name (i ∷ is) ps =
      let own = ports_of c fields no_labels instance_of now i in
      find_port-collect_ports name is (add_ports own ps)
      ∙ ap (λ o. or_port o (find_port name (all_ports is))) (find_port-add_ports name own ps)
      ∙ or_port_assoc (find_port name ps) (find_port name own) (find_port name (all_ports is))
      ∙ ap (or_port (find_port name ps)) (sym (find_port-append name own (all_ports is)))

  -- What a plan is made of.
  plan_for-parts :
      (is s after : List Incarnation) (p : SyncApp V)
      → plan_for c fields no_labels instance_of now is s ≡ finished (some p, after)
      → (d : Prepared) × (prepare_revisions c now is ≡ finished d)
        × (p.deployed_revisions ≡ d.routes)
        × (p.ports ≡ collect_ports c fields no_labels instance_of now s [])
  plan_for-parts is [] after p h = absurd (ground (arith, ap (λ x. x.0) (finished-injective h)))
  plan_for-parts is (i ∷ rest) after p h =
      let (d, ran, next) = >>=-eq-finished (prepare_revisions c now is) _ h in
      let (latest, _, last) =
        >>=-eq-finished (deref (target c (last_of c fields no_labels instance_of now i rest))) _
          next in
      let same = some-injective (ap (λ x. x.0) (finished-injective last)) in
      (d, ran, ap (λ q. q.deployed_revisions) (sym same), ap (λ q. q.ports) (sym same))

  -- In the plan of `syncApp`, the port of a name is the first that an incarnation has under it,
  -- where those that are deployed come first, newest first, and those in `deploying` follow.
  pub app_plan-ports :
      (is after : List Incarnation) (p : SyncApp V) (name : String)
      → app_plan c fields no_labels instance_of now is ≡ finished (some p, after)
      → find_port name p.ports
        ≡ find_port name (all_ports (deployed is ++ filter_if (in_state State.deploying) is))
  unfolding app_plan served
  app_plan-ports is after p name h =
      let all = deployed is ++ filter_if (in_state State.deploying) is in
      let (d, ran, routes, ports) = plan_for-parts is all after p h in
      ap (find_port name) ports ∙ find_port-collect_ports name all []

  -- Where some incarnation is deployed and some is releasable, the weights of each route of the
  -- virtual service that the plan of `syncApp` makes add up to exactly 100.
  pub app_plan-weights :
      (web : Routes.Library V) (is after : List Incarnation) (p : SyncApp V) (cluster : Cluster)
      (vs : VirtualService V)
      → IsSort web
      → app_plan c fields no_labels instance_of now is ≡ finished (some p, after)
      → deployed is ≢ []
      → releasable (reset_unreleasable now is) ≢ []
      → virtual_service web p cluster ≡ some vs
      → every (λ r. weight_sum r.route == 100) vs.http ≡ true
  unfolding app_plan
  app_plan-weights web is after p cluster vs sorts made some_deployed some_releasable serves =
      let (d, ran, routes, ports) = plan_for-parts is _ after p made in
      virtual_service-weights web p c now is d cluster vs sorts ran some_deployed some_releasable
        routes serves
