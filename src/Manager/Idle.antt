-- ===== src/Manager/Idle.antt =====
-- controllers/releasemanager_controller.go: reconciliations of a release manager that is deleted and
-- finalized.
use Prim.Native.String.{String}
use picchu.Base.{
  ℕ, Bool, true, false, ◌&&◌, Bool-cases, Option, none, some, List, [], ◌∷◌, Panics, panicked,
  finished, ◌>>=◌, if◌then◌else◌, ◌==◌, ◌≡◌, refl, sym, subst, inl, inr,
}
use picchu.Api.{Revision}
use picchu.Incarnation.{Incarnation}
use picchu.Objects.{has_key, entries, label_ignore}
use picchu.Observe.{Observation}
use picchu.Routes.{PortFault}
use picchu.Rollback.Reconcile.{Outcome}
use picchu.Manager.Monitors.{Fields}
use picchu.Manager.Sync.{Times}
use picchu.Manager.Reconcile.{
  ReleaseManager, Fetched, Cluster, Numbers, Outside, is_finalized, with_target, enabled_clusters,
  live_clusters, conclude, with_observation, with_faults, with_revisions, with_observer,
  with_applier, with_clusters, with_release_manager, reconcile,
}

-- What is read of a release manager after an update that succeeded: Kubernetes removes an object
-- that is deleted and has no finalizers left.
abbrev is_empty : List String → Bool
is_empty [] = true
is_empty (f ∷ fs) = false

abbrev pub after_update : {Err : Type 0} → ReleaseManager → Fetched Err
after_update x =
    if x.is_deleted && is_empty x.finalizers then Fetched.missing else Fetched.fetched x

module _ {F V W Err : Type 0} (numbers : Numbers F) (fields : Fields V) (no_labels : V)
    (times : Times) (sort : List Incarnation → List Incarnation) (dev_host : String) (dev_port : ℕ)
    (api : Outside V W Err) where
  -- A reconciliation that returns has left the world as it was.
  abbrev pub Quiet : W → Panics (Outcome W Err) → Type 0
  Quiet w panicked = Unit
  Quiet w (finished o) = o.world ≡ w

  Quiet->>= :
      {A : Type 0} (w : W) (p : Panics A) (f : A → Panics (Outcome W Err))
      → ((a : A) → Quiet w (f a))
      → Quiet w (p >>= f)
  Quiet->>= w panicked f h = tt
  Quiet->>= w (finished a) f h = h a

  module _ (rm : ReleaseManager) (deleted : rm.is_deleted ≡ true) where
    module _ (finalized : is_finalized rm.finalizers ≡ true) where
      conclude-Quiet :
          (ks : List Cluster) (faults : List (PortFault V)) (is : List Incarnation) (w : W)
          → Quiet w
              (conclude numbers fields no_labels times sort dev_host dev_port api rm ks faults is w)
      unfolding conclude
      conclude-Quiet ks faults is w = rw (deleted, finalized) refl

      with_observation-Quiet :
          (ks : List Cluster) (rs : List (String × Revision)) (faults : List (PortFault V))
          (x : Option Err × Observation) (w : W)
          → Quiet w (
              with_observation numbers fields no_labels times sort dev_host dev_port api rm ks rs
                faults x w)
      with_observation-Quiet ks rs faults (some e, o) w = refl
      with_observation-Quiet ks rs faults (none, o) w = conclude-Quiet ks faults _ w

      with_faults-Quiet :
          (ks : List Cluster) (rs : List (String × Revision))
          (x : Option Err × List (List (PortFault V))) (w : W)
          → Quiet w
              (with_faults numbers fields no_labels times sort dev_host dev_port api rm ks rs x w)
      with_faults-Quiet ks rs (some e, fs) w = refl
      with_faults-Quiet ks rs (none, fs) w = with_observation-Quiet ks rs _ (api.observe rm w) w

      with_revisions-Quiet :
          (ks : List Cluster) (x : Option Err × List (String × Revision)) (w : W)
          → Quiet w
              (with_revisions numbers fields no_labels times sort dev_host dev_port api rm ks x w)
      with_revisions-Quiet ks (some e, rs) w = refl
      with_revisions-Quiet ks (none, rs) w =
          Quiet->>= w (with_target rm.target rs) _
            (λ found. with_faults-Quiet ks found (api.list_faults rm w) w)

      with_observer-Quiet :
          (ks : List Cluster) (x : Option Err) (w : W)
          → Quiet w
              (with_observer numbers fields no_labels times sort dev_host dev_port api rm ks x w)
      with_observer-Quiet ks (some e) w = refl
      with_observer-Quiet ks none w = with_revisions-Quiet ks (api.list_revisions rm w) w

      with_applier-Quiet :
          (ks : List Cluster) (x : Option Err) (w : W)
          → Quiet w
              (with_applier numbers fields no_labels times sort dev_host dev_port api rm ks x w)
      with_applier-Quiet ks (some e) w = refl
      with_applier-Quiet ks none w = with_observer-Quiet ks (api.new_observer ks w) w

      with_clusters-Quiet :
          (x : Option Err × List Cluster) (w : W)
          → Quiet w (with_clusters numbers fields no_labels times sort dev_host dev_port api rm x w)
      with_clusters-Quiet (some e, ks) w = refl
      with_clusters-Quiet (none, ks) w =
          let enabled = enabled_clusters ks in
          elim (Bool-cases (
            live_clusters numbers fields no_labels times sort dev_host dev_port api enabled == 0)) [
              | inl e ↦ rw e refl
              | inr e ↦ rw e (with_applier-Quiet enabled (api.new_applier enabled w) w)
            ]

      fetched-Quiet :
          (w : W)
          → Quiet w (
              with_release_manager numbers fields no_labels times sort dev_host dev_port api
                (Fetched.fetched rm)
                w)
      fetched-Quiet w = elim (Bool-cases (has_key label_ignore (entries rm.labels))) [
        | inl e ↦ rw e refl
        | inr e ↦ rw e (with_clusters-Quiet (api.list_clusters rm w) w)
      ]

  -- What is read of the release manager afterwards is what a reconciliation leaves alone.
  pub after_update-Quiet :
      (x : ReleaseManager) (w : W)
      → x.is_deleted ≡ true
      → is_finalized x.finalizers ≡ true
      → api.get w ≡ after_update x
      → Quiet w (reconcile numbers fields no_labels times sort dev_host dev_port api w)
  unfolding reconcile
  after_update-Quiet x w gone finalized got =
      let with_rm =
        with_release_manager numbers fields no_labels times sort dev_host dev_port api in
      subst (λ g. Quiet w (with_rm g w)) (sym got)
        (elim (Bool-cases (x.is_deleted && is_empty x.finalizers)) [
          | inl e ↦ rw e refl
          | inr e ↦ rw e (fetched-Quiet x gone finalized w)
        ])
