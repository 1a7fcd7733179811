-- ===== src/Mesh/Modes.antt =====
-- What `syncNamespace` (controllers/syncer.go) keeps while replicas of either mesh mode run.
use picchu.Base.{
  ◌||◌, ℕ, ◌≤◌, Bool, true, false, Option, none, some, List, [], ◌∷◌, if◌then◌else◌, All, ◌≡◌, refl,
  arith,
}
use picchu.Api.{WaypointHpaSpec, RevisionTarget}
use picchu.Incarnation.{Incarnation, Controller}
use picchu.Mesh.{
  NamespacePlan, ensure_namespace, ensure_waypoint, ensure_waypoint_pdb, ensure_waypoint_hpa,
  delete_waypoint, mesh_mode, has_ambient_replicas, has_sidecar_replicas, own_hpa, default_hpa,
  effective_waypoint_hpa, newest_target, waypoint_plans, removal_plans, namespace_plans, mode_of,
}

abbrev pub is_ensured : List NamespacePlan → Bool
is_ensured [] = false
is_ensured (ensure_waypoint ∷ ps) = true
is_ensured (p ∷ ps) = is_ensured ps

abbrev pub is_removed : List NamespacePlan → Bool
is_removed [] = false
is_removed (delete_waypoint ∷ ps) = true
is_removed (p ∷ ps) = is_removed ps

-- Whether the namespace is one where only the ambient mesh serves pods.
abbrev pub is_ambient_only : List NamespacePlan → Bool
is_ambient_only [] = false
is_ambient_only (ensure_namespace ambient transition ∷ ps) = ambient
is_ambient_only (p ∷ ps) = is_ambient_only ps

abbrev pub Agrees : ℕ → NamespacePlan → Type 0
Agrees n (ensure_waypoint_pdb k) = k ≡ n
Agrees n (ensure_waypoint_hpa spec) = spec.min_replicas ≡ n
Agrees n _ = Unit

abbrev IsPlenty : Option WaypointHpaSpec → Type 0
IsPlenty none = Unit
IsPlenty (some spec) = 2 ≤ spec.min_replicas

waypoint_plans-agree :
    (hpa : Option WaypointHpaSpec)
    → IsPlenty hpa
    → (n : ℕ) × (2 ≤ n) × All (Agrees n) (waypoint_plans hpa)
waypoint_plans-agree none plenty = (2, omega arith, (tt, (tt, (refl, (refl, tt)))))
waypoint_plans-agree (some spec) plenty =
    (spec.min_replicas, plenty, (tt, (tt, (ground arith, (refl, tt)))))

own_hpa-IsPlenty : (spec : WaypointHpaSpec) → 2 ≤ (own_hpa spec).min_replicas
own_hpa-IsPlenty spec = ground arith

own_or_default :
    (o : Option WaypointHpaSpec)
    → IsPlenty
        (some (elim o as (λ _. WaypointHpaSpec) [ none ↦ default_hpa | some spec ↦ own_hpa spec ]))
own_or_default none = omega arith
own_or_default (some spec) = own_hpa-IsPlenty spec

All-if :
    (P : NamespacePlan → Type 0) (b : Bool) (xs ys : List NamespacePlan)
    → All P xs
    → All P ys
    → All P (if b then xs else ys)
All-if P true xs ys hx hy = hx
All-if P false xs ys hx hy = hy

module _ {F : Type 0} (c : Controller F) (is : List Incarnation) where
  -- While some revision of the ambient mesh wants replicas, `syncNamespace` plans to ensure the
  -- waypoint and does not plan to remove it.
  pub namespace_plans_ambient :
      has_ambient_replicas c is ≡ true
      → (is_ensured (namespace_plans c is) ≡ true) × (is_removed (namespace_plans c is) ≡ false)
  unfolding namespace_plans mesh_mode
  namespace_plans_ambient h = ground (arith, h)

  -- While some revision with sidecars wants replicas, `syncNamespace` does not plan the namespace
  -- for the ambient mesh alone.
  pub namespace_plans_sidecar :
      has_sidecar_replicas c is ≡ true → is_ambient_only (namespace_plans c is) ≡ false
  unfolding namespace_plans mesh_mode
  namespace_plans_sidecar h = ground (arith, h)

  effective-IsPlenty :
      (t : Option RevisionTarget)
      → IsPlenty (elim t as (λ _. Option WaypointHpaSpec) [
        | none ↦ none
        | some t ↦ some (elim t.waypoint_hpa [ none ↦ default_hpa | some spec ↦ own_hpa spec ])
      ])
  effective-IsPlenty none = tt
  effective-IsPlenty (some t) = own_or_default t.waypoint_hpa

  -- The disruption budget and the autoscaler that are applied for a waypoint agree on the minimum,
  -- which is at least 2.
  pub waypoint_minimums_agree : (n : ℕ) × (2 ≤ n) × All (Agrees n) (namespace_plans c is)
  unfolding namespace_plans effective_waypoint_hpa
  waypoint_minimums_agree =
      let mode = mode_of c is in
      let (n, least, agree) =
        waypoint_plans-agree (effective_waypoint_hpa c is)
          (effective-IsPlenty (newest_target c is)) in
      (
        n,
        least,
        (
          tt,
          All-if (Agrees n) (mode.ambient_mesh || mode.transition_to_sidecar)
              (waypoint_plans (effective_waypoint_hpa c is)) removal_plans agree
              (tt, (tt, (tt, (tt, tt)))),
        ),
      )
