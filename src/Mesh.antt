-- ===== src/Mesh.antt =====
-- controllers/syncer.go: `syncNamespace`, which chooses the mesh of a namespace and applies the plans
-- for its waypoint. The resources of a waypoint are passed on by the source and left out.
pub mod Modes
mod Samples
use picchu.Base.{
  ℕ, Bool, true, false, not, ◌&&◌, ◌||◌, Option, none, some, List, [], ◌∷◌, if◌then◌else◌, ltb, leb,
}
use picchu.Api.{RevisionTarget, WaypointHpaSpec}
use picchu.Incarnation.{Incarnation, Controller, has_revision, target}

pub data NamespacePlan : Type 0 where
  ensure_namespace : Bool → Bool → NamespacePlan
  ensure_waypoint_options ensure_waypoint : NamespacePlan
  ensure_waypoint_pdb : ℕ → NamespacePlan
  ensure_waypoint_hpa : WaypointHpaSpec → NamespacePlan
  delete_waypoint delete_waypoint_options delete_waypoint_pdb delete_waypoint_hpa : NamespacePlan

-- `ambientMesh` and `transitionToSidecar`.
pub record MeshMode : Type 0 where
  pub ambient_mesh : Bool
  pub transition_to_sidecar : Bool

-- The switch of `syncNamespace`.
pub mesh_mode : Bool → Bool → Bool → MeshMode
mesh_mode ambient_replicas sidecar_replicas effective =
    if ambient_replicas && sidecar_replicas
    then record { ambient_mesh = false; transition_to_sidecar = true }
    else if ambient_replicas && not effective
    then record { ambient_mesh = false; transition_to_sidecar = true }
    else if ambient_replicas
    then record { ambient_mesh = true; transition_to_sidecar = false }
    else if sidecar_replicas
    then record { ambient_mesh = false; transition_to_sidecar = false }
    else record { ambient_mesh = effective; transition_to_sidecar = false }

abbrev pub default_hpa : WaypointHpaSpec
default_hpa = record { min_replicas = 2; max_replicas = 20; target_cpu = 70 }

abbrev pub own_hpa : WaypointHpaSpec → WaypointHpaSpec
own_hpa spec =
    if leb 2 spec.min_replicas
    then record spec {
      max_replicas = if ltb spec.max_replicas 1 then 20 else spec.max_replicas;
      target_cpu = if ltb spec.target_cpu 1 then 70 else spec.target_cpu;
    }
    else default_hpa

-- The plans for a waypoint that is needed: the minimum of the disruption budget, and the autoscaler.
abbrev pub waypoint_plans : Option WaypointHpaSpec → List NamespacePlan
waypoint_plans hpa =
    let min_replicas : ℕ = elim hpa [
      | none ↦ 2
      | some spec ↦ if leb 2 spec.min_replicas then spec.min_replicas else 2
    ] in
    let spec : WaypointHpaSpec = elim hpa [ none ↦ default_hpa | some s ↦ s ] in
    ensure_waypoint_options
    ∷ ensure_waypoint
    ∷ ensure_waypoint_pdb min_replicas
    ∷ ensure_waypoint_hpa spec
    ∷ []

abbrev pub removal_plans : List NamespacePlan
removal_plans =
    delete_waypoint ∷ delete_waypoint_options ∷ delete_waypoint_pdb ∷ delete_waypoint_hpa ∷ []

module _ {F : Type 0} (c : Controller F) where
  abbrev pub in_mesh : Bool → Incarnation → Bool
  in_mesh ambient i = has_revision i && elim (target c i) [
    | none ↦ false
    | some t ↦ if ambient then t.ambient_mesh else not t.ambient_mesh
  ]

  pub has_ambient_replicas : List Incarnation → Bool
  has_ambient_replicas [] = false
  has_ambient_replicas (i ∷ is) =
      let rest = has_ambient_replicas is in
      if in_mesh true i && ltb 0 i.status.scale.desired then true else rest

  pub has_sidecar_replicas : List Incarnation → Bool
  has_sidecar_replicas [] = false
  has_sidecar_replicas (i ∷ is) =
      let rest = has_sidecar_replicas is in
      if in_mesh false i && ltb 0 i.status.scale.desired then true else rest

  -- The target of the newest incarnation.
  abbrev pub newest_target : List Incarnation → Option RevisionTarget
  newest_target [] = none
  newest_target (i ∷ is) = target c i

  pub effective_ambient_mesh : List Incarnation → Bool
  effective_ambient_mesh is = elim (newest_target is) [ none ↦ false | some t ↦ t.ambient_mesh ]

  pub effective_waypoint_hpa : List Incarnation → Option WaypointHpaSpec
  effective_waypoint_hpa is = elim (newest_target is) [
    | none ↦ none
    | some t ↦ some (elim t.waypoint_hpa [ none ↦ default_hpa | some spec ↦ own_hpa spec ])
  ]

  abbrev pub mode_of : List Incarnation → MeshMode
  mode_of is =
      mesh_mode (has_ambient_replicas is) (has_sidecar_replicas is) (effective_ambient_mesh is)

  -- The plans in the order in which they are applied.
  pub namespace_plans : List Incarnation → List NamespacePlan
  unfolding mesh_mode has_ambient_replicas has_sidecar_replicas effective_ambient_mesh
      effective_waypoint_hpa
  namespace_plans is =
      let mode = mode_of is in
      ensure_namespace mode.ambient_mesh mode.transition_to_sidecar
      ∷ (if mode.ambient_mesh || mode.transition_to_sidecar
          then waypoint_plans (effective_waypoint_hpa is)
          else removal_plans)

-- `if err := r.applyPlan(…); err != nil { return err }`, one after the other.
pub apply_in_order :
    {C Err : Type 0}
    → (NamespacePlan → C → Option Err × C)
    → List NamespacePlan
    → C
    → Option Err × C
apply_in_order apply [] cluster = (none, cluster)
apply_in_order apply (p ∷ ps) cluster =
    let (err, next) = apply p cluster in
    elim err [ none ↦ apply_in_order apply ps next | some e ↦ (some e, next) ]

pub sync_namespace :
    {C Err F : Type 0}
    → (NamespacePlan → C → Option Err × C)
    → Controller F
    → List Incarnation
    → C
    → Option Err × C
unfolding namespace_plans apply_in_order
sync_namespace apply c is = apply_in_order apply (namespace_plans c is)
