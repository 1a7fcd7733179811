-- ===== src/Manager/Finalized.antt =====
-- controllers/releasemanager_controller.go: the end of a release manager that is deleted.
use Prim.Native.String.{String}
use picchu.Base.{
  ℕ, true, false, Option, none, some, List, finished, finished-injective, >>=-eq-finished, ◌==◌,
  ◌≡◌, refl, sym, ap, ◌∙◌, arith,
}
use picchu.Api.{Revision}
use picchu.Incarnation.{Incarnation}
use picchu.Objects.{has_key, entries, label_ignore}
use picchu.Observe.{Observation}
use picchu.Routes.{PortFault}
use picchu.Rollback.Reconcile.{Outcome, requeue}
use picchu.Manager.Monitors.{Fields}
use picchu.Manager.Sync.{Times}
use picchu.Manager.Idle.{after_update, Quiet, after_update-Quiet}
use picchu.Manager.Final.{is_finalized-finalize}
use picchu.Manager.Reconcile.{
  ReleaseManager, Fetched, Cluster, Numbers, Outside, is_finalized, finalize, with_target,
  enabled_clusters, live_clusters, requeue_error, after_delete, conclude, with_observation,
  with_faults, with_revisions, with_observer, with_applier, with_release_manager, reconcile,
}

module _ {F V W Err : Type 0} (numbers : Numbers F) (fields : Fields V) (no_labels : V)
    (times : Times) (sort : List Incarnation → List Incarnation) (dev_host : String) (dev_port : ℕ)
    (api : Outside V W Err) where
  module _ (rm : ReleaseManager) (deleted : rm.is_deleted ≡ true) where
    failed-absurd :
        {T : Type 0} (e : Err) (w : W) (o : Outcome W Err)
        → requeue (some e) w ≡ finished o
        → o.error ≡ none
        → T
    failed-absurd e w o h fine =
        absurd (ground (arith, ap (λ y. y.error) (finished-injective h), fine))

    -- Without an error, a reconciliation that is past its clusters returns what `conclude` does.
    Concludes : W → Outcome W Err → Type 0
    Concludes w o =
        (ks : List Cluster) × (faults : List (PortFault V)) × (is : List Incarnation) × (conclude
            numbers fields no_labels times sort dev_host dev_port api rm ks faults is w
          ≡ finished o)

    with_observation-Concludes :
        (ks : List Cluster) (rs : List (String × Revision)) (faults : List (PortFault V))
        (x : Option Err × Observation) (w : W) (o : Outcome W Err)
        → with_observation numbers fields no_labels times sort dev_host dev_port api rm ks rs faults
            x w
          ≡ finished o
        → o.error ≡ none
        → Concludes w o
    unfolding Concludes
    with_observation-Concludes ks rs faults (some e, y) w o h fine = failed-absurd e w o h fine
    with_observation-Concludes ks rs faults (none, y) w o h fine = (ks, faults, _, h)

    with_faults-Concludes :
        (ks : List Cluster) (rs : List (String × Revision))
        (x : Option Err × List (List (PortFault V))) (w : W) (o : Outcome W Err)
        → with_faults numbers fields no_labels times sort dev_host dev_port api rm ks rs x w
          ≡ finished o
        → o.error ≡ none
        → Concludes w o
    with_faults-Concludes ks rs (some e, fs) w o h fine = failed-absurd e w o h fine
    with_faults-Concludes ks rs (none, fs) w o h fine =
        with_observation-Concludes ks rs _ (api.observe rm w) w o h fine

    with_revisions-Concludes :
        (ks : List Cluster) (x : Option Err × List (String × Revision)) (w : W) (o : Outcome W Err)
        → with_revisions numbers fields no_labels times sort dev_host dev_port api rm ks x w
          ≡ finished o
        → o.error ≡ none
        → Concludes w o
    with_revisions-Concludes ks (some e, rs) w o h fine = failed-absurd e w o h fine
    with_revisions-Concludes ks (none, rs) w o h fine =
        let (found, _, rest) = >>=-eq-finished (with_target rm.target rs) _ h in
        with_faults-Concludes ks found (api.list_faults rm w) w o rest fine

    with_observer-Concludes :
        (ks : List Cluster) (x : Option Err) (w : W) (o : Outcome W Err)
        → with_observer numbers fields no_labels times sort dev_host dev_port api rm ks x w
          ≡ finished o
        → o.error ≡ none
        → Concludes w o
    with_observer-Concludes ks (some e) w o h fine = failed-absurd e w o h fine
    with_observer-Concludes ks none w o h fine =
        with_revisions-Concludes ks (api.list_revisions rm w) w o h fine

    with_applier-Concludes :
        (ks : List Cluster) (x : Option Err) (w : W) (o : Outcome W Err)
        → with_applier numbers fields no_labels times sort dev_host dev_port api rm ks x w
          ≡ finished o
        → o.error ≡ none
        → Concludes w o
    with_applier-Concludes ks (some e) w o h fine = failed-absurd e w o h fine
    with_applier-Concludes ks none w o h fine =
        with_observer-Concludes ks (api.new_observer ks w) w o h fine

    deleted_app :
        (x : Option Err × W) (o : Outcome W Err)
        → after_delete numbers fields no_labels times sort dev_host dev_port api rm x ≡ finished o
        → o.error ≡ none
        → (w1 : W) × (x ≡ (none, w1))
          × (api.update (record rm { finalizers = finalize rm.finalizers }) w1 ≡ (none, o.world))
    deleted_app (some e, w1) o h fine = failed-absurd e w1 o h fine
    deleted_app (none, w1) o h fine =
        (w1, refl, updated (api.update (record rm { finalizers = finalize rm.finalizers }) w1) h)
      where
        updated :
            (x : Option Err × W)
            → requeue_error numbers fields no_labels times sort dev_host dev_port api x ≡ finished o
            → x ≡ (none, o.world)
        updated (none, w2) h = ap (λ y. (none, y.world)) (finished-injective h)
        updated (some e, w2) h = failed-absurd e w2 o h fine

    conclude-deletes :
        (ks : List Cluster) (faults : List (PortFault V)) (is : List Incarnation) (w : W)
        → is_finalized rm.finalizers ≡ false
        → conclude numbers fields no_labels times sort dev_host dev_port api rm ks faults is w
          ≡ after_delete numbers fields no_labels times sort dev_host dev_port api rm
              (api.delete_app rm w)
    unfolding conclude
    conclude-deletes ks faults is w open_ended = rw (deleted, open_ended) refl

  -- A release manager is deleted and not finalized, is not ignored and has a live cluster. If a
  -- reconciliation returns without an error, the app was deleted, the release manager updated
  -- without picchu's finalizer, and the next reconciliation, whatever it returns, changes nothing;
  -- an object that is deleted and has no finalizers left is not found after an update.
  pub reconcile-finalizes :
      (rm : ReleaseManager) (ks : List Cluster) (w : W) (o : Outcome W Err)
      → ((x : ReleaseManager) (v v' : W)
          → api.update x v ≡ (none, v')
          → api.get v' ≡ after_update x)
      → api.get w ≡ Fetched.fetched rm
      → rm.is_deleted ≡ true
      → is_finalized rm.finalizers ≡ false
      → has_key label_ignore (entries rm.labels) ≡ false
      → api.list_clusters rm w ≡ (none, ks)
      → (live_clusters numbers fields no_labels times sort dev_host dev_port api
            (enabled_clusters ks)
          == 0)
        ≡ false
      → reconcile numbers fields no_labels times sort dev_host dev_port api w ≡ finished o
      → o.error ≡ none
      → (w1 : W) × (api.delete_app rm w ≡ (none, w1))
        × (api.update (record rm { finalizers = finalize rm.finalizers }) w1 ≡ (none, o.world))
        × Quiet numbers fields no_labels times sort dev_host dev_port api o.world
            (reconcile numbers fields no_labels times sort dev_host dev_port api o.world)
  unfolding reconcile Concludes
  reconcile-finalizes rm ks w o stores got gone open_ended known listed live h fine =
      let with_rm =
        with_release_manager numbers fields no_labels times sort dev_host dev_port api in
      let enabled = enabled_clusters ks in
      let reached : with_rm (api.get w) w
          ≡ with_applier numbers fields no_labels times sort dev_host dev_port api rm enabled
              (api.new_applier enabled w) w =
        simp (got, known, listed, live) in
      let (ks', faults, is, concluded) =
        with_applier-Concludes rm gone enabled (api.new_applier enabled w) w o (sym reached ∙ h)
          fine in
      let (w1, removed, updated) =
        deleted_app rm gone (api.delete_app rm w) o
          (sym (conclude-deletes rm gone ks' faults is w open_ended) ∙ concluded) fine in
      (
        w1,
        removed,
        updated,
        after_update-Quiet numbers fields no_labels times sort dev_host dev_port api
            (record rm { finalizers = finalize rm.finalizers }) o.world gone
            (is_finalized-finalize rm.finalizers)
            (stores (record rm { finalizers = finalize rm.finalizers }) w1 o.world updated),
      )
