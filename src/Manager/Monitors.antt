-- ===== src/Manager/Monitors.antt =====
-- controllers/syncer.go: the alert rules, the service monitors and the service level objectives of a
-- release manager, taken from the first incarnation that has a target. `V` stands for contents.
use Prim.Native.String.{String}
use text.Mathlib.Text.{◌==◌ as str_eq}
use picchu.Base.{Bool, true, false, Option, none, some, List, [], ◌∷◌, filter_if, if◌then◌else◌}
use picchu.Api.{RevisionTarget}
use picchu.Incarnation.{Incarnation, Controller, target}
use picchu.Fleet.{deployed, alertable, releasable}
use picchu.Objects.{Entries}
use picchu.Routes.{PortInfo}

pub record Objective (V : Type 0) : Type 0 where
  pub enabled : Bool
  pub content : V

-- The fields of a target that `RevisionTarget` leaves out.
pub record Fields (V : Type 0) : Type 0 where
  pub alert_rules : RevisionTarget → List V
  pub service_monitors : RevisionTarget → List V
  pub objectives : RevisionTarget → List (Objective V)
  pub objective_labels : RevisionTarget → V
  pub ports : RevisionTarget → List PortInfo
  pub default_ingress_ports : RevisionTarget → Entries
  pub sidecar : RevisionTarget → Option (List String)

pub data MonitorPlan (V : Type 0) : Type 0 where
  delete_service_monitors : MonitorPlan V
  sync_service_monitors : List V → List (Objective V) → MonitorPlan V
  delete_slo_rules : MonitorPlan V
  sync_slo_rules : V → List (Objective V) → MonitorPlan V
  ensure_levels_namespace : String → MonitorPlan V
  sync_service_levels : String → V → List (Objective V) → MonitorPlan V
  delete_service_levels : String → MonitorPlan V

abbrev pub has_none : List Incarnation → Bool
has_none [] = true
has_none (i ∷ is) = false

module _ {F V : Type 0} (c : Controller F) (fields : Fields V) (no_labels : V) where
  unfoldable pub first_target : List Incarnation → Option RevisionTarget
  first_target [] = none
  first_target (i ∷ is) =
      let rest = first_target is in elim (target c i) [ none ↦ rest | some t ↦ some t ]

  unfoldable pub prepare_alert_rules : List Incarnation → List V
  unfolding first_target
  prepare_alert_rules is =
      if has_none (deployed is)
      then []
      else elim (first_target (alertable is)) [ none ↦ [] | some t ↦ fields.alert_rules t ]

  unfoldable pub prepare_service_monitors : List Incarnation → List V
  unfolding first_target
  prepare_service_monitors is =
      if has_none (deployed is)
      then []
      else elim (first_target (alertable is)) [ none ↦ [] | some t ↦ fields.service_monitors t ]

  abbrev pub objectives_of : Option RevisionTarget → List (Objective V) × V
  objectives_of none = ([], no_labels)
  objectives_of (some t) =
      (filter_if (λ o. o.enabled) (fields.objectives t), fields.objective_labels t)

  -- `prepareServiceLevelObjectives`
  unfoldable pub prepare_objectives : List Incarnation → List (Objective V) × V
  unfolding first_target
  prepare_objectives is =
      if has_none (deployed is)
      then ([], no_labels)
      else objectives_of (first_target (releasable is))

  abbrev pub monitor_plan : List V → List (Objective V) → MonitorPlan V
  monitor_plan [] slos = MonitorPlan.delete_service_monitors
  monitor_plan (m ∷ ms) slos = MonitorPlan.sync_service_monitors (m ∷ ms) slos

  -- `syncServiceMonitors`: the plan that is applied.
  unfoldable pub service_monitors_plan : List Incarnation → MonitorPlan V
  unfolding prepare_service_monitors prepare_objectives
  service_monitors_plan is = monitor_plan (prepare_service_monitors is) (prepare_objectives is).0

  abbrev pub rules_plan : List (Objective V) → V → MonitorPlan V
  rules_plan [] labels = MonitorPlan.delete_slo_rules
  rules_plan (s ∷ ss) labels = MonitorPlan.sync_slo_rules labels (s ∷ ss)

  -- `syncSLORules`
  unfoldable pub slo_rules_plan : List Incarnation → MonitorPlan V
  unfolding prepare_objectives
  slo_rules_plan is = rules_plan (prepare_objectives is).0 (prepare_objectives is).1

  abbrev pub levels_plans : String → List (Objective V) → V → List (MonitorPlan V)
  levels_plans namespace [] labels = MonitorPlan.delete_service_levels namespace ∷ []
  levels_plans namespace (s ∷ ss) labels =
      MonitorPlan.ensure_levels_namespace namespace
      ∷ MonitorPlan.sync_service_levels namespace labels (s ∷ ss)
      ∷ []

  -- `syncServiceLevels`: the plans in their order, none without a namespace for them.
  unfoldable pub service_levels_plans : String → List Incarnation → List (MonitorPlan V)
  unfolding prepare_objectives
  service_levels_plans namespace is =
      if str_eq namespace ""
      then []
      else levels_plans namespace (prepare_objectives is).0 (prepare_objectives is).1
