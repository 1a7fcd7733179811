-- ===== src/Incarnation/Deployments.antt =====
-- controllers/incarnation.go: an incarnation as the `Deployment` of the state machine. The
-- Kubernetes API and the appliers of plans stand outside: each call may change the cluster `C` and
-- return an error.
pub mod Lawful
use Prim.Native.String.{String}
use text.Mathlib.Text.{◌==◌ as str_eq}
use picchu.Base.{
  ℕ, ◌+◌, Bool, true, false, not, ◌&&◌, ◌||◌, Option, none, some, if◌then◌else◌, ltb, ◌==◌, ◌≡◌,
  refl, ap, Panics, panicked, finished, ◌>>=◌, deref,
}
use picchu.Deployment.{is_started, is_pending, target_external_test_status, Deployment}
use picchu.Api.{RevisionTarget}
use picchu.Schedule.{Moment, permits_release}
use picchu.Machine.Runs.{IsLawful, Keeps}
use picchu.Incarnation.ScalePlan.{scale_bounds}
use picchu.Incarnation.{
  Incarnation, Controller, has_revision, marked_as_failed, is_deployed, target,
  is_incarnation_canary_pending, external_test_status, set_state,
}

-- The plans that the methods apply, each for the tag of an incarnation.
pub data Plan : Type 0 where
  sync_and_scale_revision : Incarnation → Plan
  retire_revision delete_revision sync_canary_rules delete_canary_rules
        delete_tagged_service_levels :
      String → Plan

-- What stands outside: `list_options` parses the selector of a target, the three lists are read
-- from the cluster, and `apply` applies a plan.
pub record Outside (C Err : Type 0) : Type 0 where
  pub apply : Plan → C → Option Err × C
  pub list_options : RevisionTarget → Option Err
  pub get_secrets : C → Option Err
  pub get_external_secrets : C → Option Err
  pub get_config_maps : C → Option Err

-- The calendar reads a time; the two others are settings of picchu.
pub record Settings : Type 0 where
  pub moment : ℕ → Moment
  pub midnight : ℕ → ℕ → ℕ → ℕ
  pub humane_releases_enabled : Bool
  pub service_levels_namespace : String

pub record World (C : Type 0) : Type 0 where
  pub incarnation : Incarnation
  pub clock : ℕ
  pub cluster : C

module _ {F : Type 0} (c : Controller F) (settings : Settings) where
  unfoldable pub schedule_permits_release : ℕ → Incarnation → Panics Bool
  schedule_permits_release now i = elim i.revision [
    | none ↦ finished false
    | some r ↦ deref (target c i) >>= λ t.
        if ltb 0 i.status.peak_percent && ltb t.canary.percent i.status.peak_percent
        then finished true
        else if not settings.humane_releases_enabled && not (str_eq t.release.schedule "always")
        then finished false
        else finished (
            permits_release settings.midnight (settings.moment r.creation_timestamp)
              t.release.schedule
            || permits_release settings.midnight (settings.moment now) t.release.schedule)
  ]

  unfoldable pub is_expired : ℕ → Incarnation → Panics Bool
  is_expired now i =
      deref i.revision >>= λ r. finished (ltb (r.creation_timestamp + i.status.ttl) now)

  -- The times that `isTimingOut` compares: the last update, 0 for none, and the timeout.
  abbrev timing : Incarnation → RevisionTarget → ℕ × ℕ
  timing i t =
      let updated : ℕ = elim i.status.state.last_updated [ none ↦ 0 | some at ↦ at ] in
      let status = target_external_test_status t.external_test in
      if is_started status || is_pending status
      then (
        elim t.external_test_last_updated [ none ↦ updated | some at ↦ at ],
        elim t.external_test_timeout [ none ↦ 0 | some timeout ↦ timeout ],
      )
      else (updated, 0)

  unfoldable pub is_timing_out : ℕ → Incarnation → Bool
  is_timing_out now i = elim (target c i) [
    | none ↦ false
    | some t ↦
        let (updated, timeout) = timing i t in
        if updated == 0 || timeout == 0 then false else ltb (updated + timeout) now
  ]

-- How a method stops: it returns an error, or it panics at nil.
pub data Stop (Err : Type 0) : Type 0 where
  returned : Err → Stop Err
  nil_dereference : Stop Err

module _ {C Err : Type 0} (outside : Outside C Err) where
  abbrev stop_of : Option Err → Option (Stop Err)
  stop_of none = none
  stop_of (some e) = some (returned e)

  unfoldable pub apply_plan : Plan → World C → Option (Stop Err) × World C
  apply_plan p w =
      let (err, cluster) = outside.apply p w.cluster in
      (stop_of err, record w { cluster = cluster })

  -- `if err != nil { return err }`
  abbrev pub or_return :
      Option Err → Option (Stop Err) × World C → World C → Option (Stop Err) × World C
  or_return none rest w = rest
  or_return (some e) rest w = (some (returned e), w)

  -- An argument of a call that is computed with dereferences, and the call.
  abbrev pub or_panic :
      {A : Type 0} → Panics A → Option (Stop Err) × World C → World C → Option (Stop Err) × World C
  or_panic panicked rest w = (some nil_dereference, w)
  or_panic (finished a) rest w = rest

  module _ {F : Type 0} (c : Controller F) (settings : Settings) where
    unfoldable pub sync_target : RevisionTarget → World C → Option (Stop Err) × World C
    unfolding apply_plan
    sync_target t w =
        or_return (outside.list_options t)
          (or_return (outside.get_secrets w.cluster)
            (or_return (outside.get_external_secrets w.cluster)
              (or_return (outside.get_config_maps w.cluster)
                (or_panic (scale_bounds c w.incarnation)
                  (apply_plan (sync_and_scale_revision w.incarnation) w) w)
                w)
              w)
            w)
          w

    unfoldable pub sync : World C → Option (Stop Err) × World C
    unfolding sync_target
    sync w =
        if not (has_revision w.incarnation)
        then (none, w)
        else elim (target c w.incarnation) [ none ↦ (none, w) | some t ↦ sync_target t w ]

    unfoldable pub apply_canary_rules : World C → Option (Stop Err) × World C
    unfolding apply_plan
    apply_canary_rules w =
        or_panic (deref (target c w.incarnation))
          (apply_plan (sync_canary_rules w.incarnation.tag) w) w

    unfoldable pub delete_tagged : World C → Option (Stop Err) × World C
    unfolding apply_plan
    delete_tagged w =
        if not (str_eq settings.service_levels_namespace "")
        then apply_plan (delete_tagged_service_levels w.incarnation.tag) w
        else (none, w)

    -- The implementation of the interface.
    unfoldable pub incarnation_deployment : Deployment (World C) (Stop Err)
    unfolding sync apply_canary_rules delete_tagged apply_plan schedule_permits_release is_expired
        is_timing_out
    incarnation_deployment = record {
      sync = sync;
      retire = λ w. apply_plan (retire_revision w.incarnation.tag) w;
      del = λ w. apply_plan (delete_revision w.incarnation.tag) w;
      sync_canary_rules = apply_canary_rules;
      delete_canary_rules = λ w. apply_plan (delete_canary_rules w.incarnation.tag) w;
      delete_tagged_service_levels = delete_tagged;
      has_revision = λ w. has_revision w.incarnation;
      schedule_permits_release = λ w. schedule_permits_release c settings w.clock w.incarnation;
      marked_as_failed = λ w. marked_as_failed w.incarnation;
      is_release_eligible = λ w. w.incarnation.status.release_eligible;
      current_state = λ w. w.incarnation.status.state.current;
      set_state = λ s w. record w { incarnation = set_state w.clock s w.incarnation };
      is_deployed = λ w. is_deployed w.incarnation;
      external_test_status = λ w. external_test_status c w.incarnation;
      current_percent = λ w. w.incarnation.status.current_percent;
      peak_percent = λ w. w.incarnation.status.peak_percent;
      is_canary_pending = λ w. is_incarnation_canary_pending c w.clock w.incarnation;
      is_timing_out = λ w. is_timing_out c settings w.clock w.incarnation;
      is_expired = λ w. is_expired c settings w.clock w.incarnation;
      now = λ w. w.clock;
      nil_dereference = nil_dereference;
    }
