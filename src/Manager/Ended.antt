-- ===== src/Manager/Ended.antt =====
-- controllers/syncer.go and controllers/releasemanager_controller.go: how a release manager ends.
use text.Mathlib.Text.{◌==◌ as str_eq}
use picchu.Base.{
  Bool, true, false, not, Bool-cases, Option, none, some, List, [], ◌∷◌, ◌++◌, filter_if, every,
  every-append, Panics, finished, ◌≡◌, refl, ap, inl, inr, arith,
}
use picchu.Incarnation.{Incarnation, Controller, has_revision}
use picchu.Fleet.{deployed, releasable, revisioned, is_canarying, is_releasing, is_draining}
use picchu.Manager.Monitors.{
  Fields, MonitorPlan, has_none, first_target, prepare_objectives, service_levels_plans,
  objectives_of,
}
use picchu.Manager.App.{Instance}
use picchu.Manager.Sync
use picchu.Manager.Sync.{Times, Synced, apply_monitors, delete_self, sync}

abbrev is_bare : Incarnation → Bool
is_bare i = not (has_revision i)

every-filter_if :
    (p q : Incarnation → Bool) (is : List Incarnation)
    → every p is ≡ true
    → every p (filter_if q is) ≡ true
every-filter_if p q [] h = refl
every-filter_if p q (i ∷ is) h = ground (arith, h, every-filter_if p q is)

revisioned-bare :
    (is : List Incarnation) → has_none (revisioned is) ≡ true → every is_bare is ≡ true
unfolding revisioned
revisioned-bare [] h = refl
revisioned-bare (i ∷ is) h = ground (arith, h, revisioned-bare is)

releasable-bare :
    (is : List Incarnation) → every is_bare is ≡ true → every is_bare (releasable is) ≡ true
unfolding releasable
releasable-bare is h =
    every-append is_bare (filter_if is_canarying is ++ filter_if is_releasing is)
      (filter_if is_draining is)
      (every-append is_bare (filter_if is_canarying is) (filter_if is_releasing is)
        (every-filter_if is_bare is_canarying is h) (every-filter_if is_bare is_releasing is h))
      (every-filter_if is_bare is_draining is h)

module _ {F V : Type 0} (c : Controller F) (fields : Fields V) (no_labels : V) where
  first_target-bare :
      (is : List Incarnation) → every is_bare is ≡ true → first_target c fields no_labels is ≡ none
  unfolding first_target
  first_target-bare [] h = refl
  first_target-bare (i ∷ is) h = ground (arith, h, first_target-bare is)

  prepare_objectives-bare :
      (is : List Incarnation)
      → every is_bare is ≡ true
      → prepare_objectives c fields no_labels is ≡ ([], no_labels)
  unfolding prepare_objectives
  prepare_objectives-bare is h = elim (Bool-cases (has_none (deployed is))) [
    | inl e ↦ rw e
    | inr e ↦ rw e (
        ap (objectives_of c fields no_labels)
          (first_target-bare (releasable is) (releasable-bare is h)))
  ]

module _ {F V W Err : Type 0} (c : Controller F) (fields : Fields V) (no_labels : V)
    (instance_of : Instance V) (times : Times) (api : Sync.Outside V W Err) where
  -- What comes of the deletion of the service levels.
  abbrev pub leaves : Option Err × W → Panics (Synced W Err)
  leaves (some e, w) = finished (some e, [], w)
  leaves (none, w) = let (e, w') = api.delete_self w in finished (e, [], w')

  delete_self-leaves :
      (is : List Incarnation) (w : W)
      → every is_bare is ≡ true
      → str_eq times.settings.service_levels_namespace "" ≡ false
      → delete_self c fields no_labels instance_of times api is w
        ≡ leaves (
            api.apply_monitor
              (MonitorPlan.delete_service_levels times.settings.service_levels_namespace)
              w)
  unfolding delete_self apply_monitors service_levels_plans
  delete_self-leaves is w bare named =
      rw (named, prepare_objectives-bare c fields no_labels is bare) (ground arith)

  -- Where no revision is left and service levels have a namespace, `sync` applies the plan that
  -- deletes the app's service levels; if that succeeds it deletes the release manager and returns
  -- what comes of that, and otherwise it returns the error. It does nothing else.
  pub sync-leaves :
      (is : List Incarnation) (w : W)
      → has_none (revisioned is) ≡ true
      → str_eq times.settings.service_levels_namespace "" ≡ false
      → sync c fields no_labels instance_of times api is w
        ≡ leaves (
            api.apply_monitor
              (MonitorPlan.delete_service_levels times.settings.service_levels_namespace)
              w)
  unfolding sync
  sync-leaves is w none_left named =
      rw none_left (delete_self-leaves is w (revisioned-bare is none_left) named)
