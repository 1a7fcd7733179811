-- ===== src/Incarnation/Deployments/Lawful.antt =====
-- That an incarnation (controllers/incarnation.go) is the `Deployment` that the state machine expects.
use text.Mathlib.Text.{◌==◌ as str_eq}
use picchu.Base.{
  Bool, true, false, not, Option, none, some, if◌then◌else◌, ◌≡◌, refl, ap, Panics, panicked,
  finished, deref,
}
use picchu.Api.{RevisionTarget}
use picchu.Machine.Runs.{IsLawful, Keeps}
use picchu.Incarnation.ScalePlan.{scale_bounds}
use picchu.Incarnation.{Incarnation, Controller, has_revision, target, set_state}
use picchu.Incarnation.Deployments.{
  Stop, Outside, Settings, World, apply_plan, or_return, or_panic, sync_target, sync,
  apply_canary_rules, delete_tagged, incarnation_deployment,
}

module _ {C Err : Type 0} (outside : Outside C Err) where
  module _ {F : Type 0} (c : Controller F) (settings : Settings) where
    or_return-incarnation :
        (err : Option Err) (rest : Option (Stop Err) × World C) (w : World C)
        → rest.1.incarnation ≡ w.incarnation
        → (or_return outside err rest w).1.incarnation ≡ w.incarnation
    or_return-incarnation none rest w h = h
    or_return-incarnation (some e) rest w h = refl

    or_panic-incarnation :
        {A : Type 0} (m : Panics A) (rest : Option (Stop Err) × World C) (w : World C)
        → rest.1.incarnation ≡ w.incarnation
        → (or_panic outside m rest w).1.incarnation ≡ w.incarnation
    or_panic-incarnation panicked rest w h = refl
    or_panic-incarnation (finished a) rest w h = h

    sync_target-incarnation :
        (t : RevisionTarget) (w : World C)
        → (sync_target outside c settings t w).1.incarnation ≡ w.incarnation
    unfolding sync_target apply_plan
    sync_target-incarnation t w = or_return-incarnation (outside.list_options t) _ w (
        or_return-incarnation (outside.get_secrets w.cluster) _ w (
          or_return-incarnation (outside.get_external_secrets w.cluster) _ w (
            or_return-incarnation (outside.get_config_maps w.cluster) _ w
              (or_panic-incarnation (scale_bounds c w.incarnation) _ w refl))))

    if-incarnation :
        (b : Bool) (x y : Option (Stop Err) × World C) (i : Incarnation)
        → x.1.incarnation ≡ i
        → y.1.incarnation ≡ i
        → (if b then x else y).1.incarnation ≡ i
    if-incarnation true x y i hx hy = hx
    if-incarnation false x y i hx hy = hy

    found-incarnation :
        (o : Option RevisionTarget) (w : World C)
        → (elim o as (λ _. Option (Stop Err) × World C) [
          | none ↦ (none, w)
          | some t ↦ sync_target outside c settings t w
        ]).1.incarnation
          ≡ w.incarnation
    found-incarnation none w = refl
    found-incarnation (some t) w = sync_target-incarnation t w

    sync-incarnation : (w : World C) → (sync outside c settings w).1.incarnation ≡ w.incarnation
    unfolding sync
    sync-incarnation w =
        if-incarnation (not (has_revision w.incarnation)) _ _ w.incarnation refl
          (found-incarnation (target c w.incarnation) w)

    apply_canary_rules-incarnation :
        (w : World C) → (apply_canary_rules outside c settings w).1.incarnation ≡ w.incarnation
    unfolding apply_canary_rules apply_plan
    apply_canary_rules-incarnation w =
        or_panic-incarnation (deref (target c w.incarnation)) _ w refl

    delete_tagged-incarnation :
        (w : World C) → (delete_tagged outside c settings w).1.incarnation ≡ w.incarnation
    unfolding delete_tagged apply_plan
    delete_tagged-incarnation w =
        if-incarnation (not (str_eq settings.service_levels_namespace "")) _ _ w.incarnation refl
          refl

    pub incarnation_deployment-Keeps :
        {A : Type 0} (f : Incarnation → A)
        → Keeps (incarnation_deployment outside c settings) (λ w. f w.incarnation)
    unfolding incarnation_deployment apply_plan
    incarnation_deployment-Keeps f = record {
      sync_keeps = λ w. ap f (sync-incarnation w);
      retire_keeps = λ w. refl;
      del_keeps = λ w. refl;
      sync_canary_keeps = λ w. ap f (apply_canary_rules-incarnation w);
      delete_canary_keeps = λ w. refl;
      delete_tagged_keeps = λ w. ap f (delete_tagged-incarnation w);
    }

    -- An incarnation meets the contract of the state machine: only `setState` writes the recorded
    -- state, and it writes the given one.
    pub incarnation_deployment-IsLawful : IsLawful (incarnation_deployment outside c settings)
    unfolding incarnation_deployment set_state
    incarnation_deployment-IsLawful = record {
      state_set = λ s w. refl;
      calls_keep = incarnation_deployment-Keeps (λ i. i.status.state.current);
    }
