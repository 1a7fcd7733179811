-- ===== src/Manager/Sync.antt =====
-- controllers/syncer.go: `sync`, one reconciliation of a release manager with its clusters. Metrics,
-- which never fail, are left out.
use picchu.Base.{ℕ, Option, none, some, List, [], ◌∷◌, map, if◌then◌else◌, Panics, finished, ◌>>=◌}
use picchu.Api.{RevisionStatus}
use picchu.Incarnation.{Incarnation, Controller}
use picchu.Incarnation.Deployments.{Settings}
use picchu.Incarnation.Deployments
use picchu.Fleet.{revisioned}
use picchu.Capacity.{live_count}
use picchu.Garbage
use picchu.Mesh.{NamespacePlan, sync_namespace}
use picchu.Observe.{Observation, update_observed}
use picchu.Routes.{SyncApp}
use picchu.Sync.{Ticked, tick_incarnations, release_statuses}
use picchu.Manager.Mark
use picchu.Manager.Mark.{mark_garbage}
use picchu.Manager.Monitors.{
  Fields, MonitorPlan, has_none, service_monitors_plan, slo_rules_plan, service_levels_plans,
}
use picchu.Manager.App.{Instance, app_plan}

-- The appliers of plans, the observer and the Kubernetes API; each call may change the world.
pub record Outside (V W Err : Type 0) : Type 0 where
  pub revisions : Deployments.Outside W Err
  pub marks : Mark.Outside W Err
  pub apply_namespace : NamespacePlan → W → Option Err × W
  pub ensure_service_account : W → Option Err × W
  pub ensure_rbac : W → Option Err × W
  pub apply_monitor : MonitorPlan V → W → Option Err × W
  pub apply_app : SyncApp V → W → Panics (Option Err × W)
  pub observe : W → (Option Err × Observation) × W
  pub delete_self : W → Option Err × W

-- What is not read from the clusters: the settings, the clock at each use, and the sort of
-- the collector.
pub record Times : Type 0 where
  pub settings : Settings
  pub clock : Incarnation → ℕ
  pub now : ℕ
  pub sort : List Garbage.Revision → List Garbage.Revision
  pub garbage_clock : Garbage.Revision → ℕ

-- The error, the statuses and the world.
abbrev pub Synced : Type 0 → Type 0 → Type 0
Synced W Err = Option Err × List RevisionStatus × W

module _ {F V W Err : Type 0} (c : Controller F) (fields : Fields V) (no_labels : V)
    (instance_of : Instance V) (times : Times) (api : Outside V W Err) where
  infixl 5 ◌then_sync◌
  abbrev pub ◌then_sync◌ : Option Err × W → (W → Panics (Synced W Err)) → Panics (Synced W Err)
  (none, w) then_sync f = f w
  (some e, w) then_sync f = finished (some e, [], w)

  unfoldable pub apply_monitors : List (MonitorPlan V) → W → Option Err × W
  apply_monitors [] w = (none, w)
  apply_monitors (p ∷ ps) w =
      let rest = apply_monitors ps in
      let (e, w') = api.apply_monitor p w in elim e [ none ↦ rest w' | some x ↦ (some x, w') ]

  abbrev pub sync_service_levels : List Incarnation → W → Option Err × W
  sync_service_levels is =
      apply_monitors
        (service_levels_plans c fields no_labels times.settings.service_levels_namespace is)

  abbrev pub without_statuses : Option Err × W → Panics (Synced W Err)
  without_statuses (e, w) = finished (e, [], w)

  -- Without revisions the release manager deletes itself.
  unfoldable pub delete_self : List Incarnation → W → Panics (Synced W Err)
  unfolding apply_monitors
  delete_self is w = sync_service_levels is w then_sync λ w'. without_statuses (api.delete_self w')

  abbrev pub with_garbage : List Incarnation → Option Err × W → Panics (Synced W Err)
  with_garbage is o = o then_sync λ w. release_statuses is >>= λ ss. finished (none, ss, w)

  unfoldable pub after_app : List Incarnation → W → Panics (Synced W Err)
  unfolding apply_monitors
  after_app is w = api.apply_monitor (service_monitors_plan c fields no_labels is) w then_sync λ w1.
      api.apply_monitor (slo_rules_plan c fields no_labels is) w1 then_sync λ w2.
      sync_service_levels is w2 then_sync λ w3.
      mark_garbage api.marks c.target_name times.sort times.garbage_clock is w3 >>= with_garbage is

  abbrev pub apply_plan : Option (SyncApp V) → W → Panics (Option Err × W)
  apply_plan none w = finished (none, w)
  apply_plan (some p) w = api.apply_app p w

  unfoldable pub after_observation :
      List Incarnation → (Option Err × Observation) × W → Panics (Synced W Err)
  unfolding after_app
  after_observation is ((some e, o), w) = finished (some e, [], w)
  after_observation is ((none, o), w) =
      app_plan c fields no_labels instance_of times.now
        (map (update_observed times.now (live_count c.floats c.clusters) o) is)
      >>= λ (p, after). apply_plan p w >>= λ r. r then_sync after_app after

  abbrev pub after_ticks : Ticked W Err → Panics (Synced W Err)
  after_ticks (some e, is, w) = finished (some e, [], w)
  after_ticks (none, is, w) = after_observation is (api.observe w)

  unfoldable pub sync_revisioned : List Incarnation → W → Panics (Synced W Err)
  unfolding after_observation
  sync_revisioned is w = sync_namespace api.apply_namespace c is w then_sync λ w1.
      api.ensure_service_account w1 then_sync λ w2. api.ensure_rbac w2 then_sync λ w3.
      tick_incarnations api.revisions c times.settings times.clock is w3 >>= after_ticks

  unfoldable pub sync : List Incarnation → W → Panics (Synced W Err)
  unfolding delete_self sync_revisioned
  sync is w = if has_none (revisioned is) then delete_self is w else sync_revisioned is w
