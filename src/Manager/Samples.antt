-- ===== src/Manager/Samples.antt =====
-- Witnesses for one reconciliation of a release manager: the fleet of the other samples, a revision
-- that is marked, and the ends of a release manager.
use Prim.Native.String.{String}
use text.Mathlib.Text.{◌==◌ as str_eq}
use mathlib.Core.List.Perm
use picchu.Base.{
  ℕ, suc, Bool, true, false, ◌||◌, Option, none, some, List, [], ◌∷◌, ◌≡◌, refl, sym, ap, every,
  filter_if, All, finished,
}
use picchu.Deployment.{name}
use picchu.Api.{Revision, RevisionStatus}
use picchu.Objects.{lookup, has_key}
use picchu.Fleet.{has_tag, revisioned}
use picchu.Fixtures.{controller, fleet, new_revision, settings, production, ceilings}
use picchu.Rollback.{Instance}
use picchu.Rollback.Reconcile.{Outcome, no_requeue}
use picchu.Rollback.Labels.{is_marked}
use picchu.Rollback.Deleted.{has_mark}
use picchu.Rollback.Statuses.{find_revision}
use picchu.Rollback.Reconcile
use picchu.Sync.{release_statuses, collect_statuses, collect_status}
use picchu.Sync.Statuses.{is_reported}
use picchu.Manager.Collect.{new_collection}
use picchu.Manager.Collected.{with_tag, once, in_revisions, in_statuses, new_collection-once}
use picchu.Manager.RoundTrip.{release_statuses-found}
use picchu.Manager.Mark.{mark_deletable, mark_instance}
use picchu.Manager.Mark
use picchu.Manager.Marked.{mark_deletable-is_marked}
use picchu.Manager.Monitors.{Fields}
use picchu.Manager.App
use picchu.Manager.Sync.{Times, Synced, sync}
use picchu.Manager.Ended.{sync-leaves}
use picchu.Manager.Sync
use picchu.Manager.Reconcile.{
  ReleaseManager, Cluster, finalizer, Numbers, Outside, finalize, is_finalized, conclude, reconcile,
  with_target,
}
use picchu.Manager.Idle.{after_update, Quiet}
use picchu.Manager.Finalized.{reconcile-finalizes}

abbrev release : Revision
release = record {
  targets = production ∷ [];
  failed = false;
  has_failed_at = false;
  tag_routing_header = "new";
  git_timestamp = 800;
  creation_timestamp = 850;
}

abbrev revisions : List (String × Revision)
revisions = ("new", release) ∷ ("newest", release) ∷ []

new_collection-once_example :
    with_tag "new" (new_collection controller 5000 1 [] (λ is. is) revisions)
    ≡ once (
        in_revisions controller 5000 1 [] revisions "new"
        || in_statuses controller 5000 1 [] (controller.statuses) "new")
new_collection-once_example =
    new_collection-once controller 5000 1 [] (λ is. is) revisions "new" (λ is. Perm.rfl)

fleet_statuses : (ss : List RevisionStatus) × (release_statuses fleet ≡ finished ss)
unfolding release_statuses collect_statuses collect_status name
fleet_statuses = (_, refl)

release_statuses-found_example :
    All (λ i. find_revision i.tag 6000 fleet_statuses.0 ≡ i.status) (filter_if is_reported fleet)
unfolding has_tag name
release_statuses-found_example =
    release_statuses-found 6000 fleet fleet_statuses.0 (refl, refl, (refl, refl, tt)) refl
      fleet_statuses.1

abbrev marked_release : Instance
marked_release = record {
  app = "web";
  tag = "new";
  labels = some (("target-deletable.picchu.medium.engineering/internal", "true") ∷ []);
  targets =
      record { name = "production"; fleet = "production"; acceptance_target = false }
      ∷ record { name = "internal"; fleet = "internal"; acceptance_target = false }
      ∷ [];
  canary_with_sli_rules = false;
  ignore_slos = false;
  disable_mirroring = false;
}

-- A store of one revision.
abbrev store : Mark.Outside Instance String
store = record {
  is_nameless = λ i. false;
  get = λ i r. Reconcile.Fetched.fetched r;
  update = λ s r. (none, s);
  empty_name = "empty name";
  not_implemented = "not implemented";
}

marks :
    (x : Option String × Instance) × (mark_deletable store "production" new_revision marked_release
      ≡ finished (x.0, x.1))
unfolding mark_deletable mark_instance lookup
marks = (_, refl)

mark_deletable-is_marked_example :
    (r' : Instance) × (store.get new_revision marks.0.1 ≡ Reconcile.Fetched.fetched r')
    × (is_marked r'.labels r'.targets
        ≡ every
            (λ u. str_eq "production" u.name || has_mark (marked_release.labels) u)
            (marked_release.targets))
mark_deletable-is_marked_example =
    mark_deletable-is_marked store "production" new_revision release marked_release marked_release
      marks.0.1 marks.0.0 (λ s. refl) refl refl refl marks.1

abbrev fields : Fields ℕ
fields = record {
  alert_rules = λ t. [];
  service_monitors = λ t. [];
  objectives = λ t. [];
  objective_labels = λ t. 0;
  ports = λ t. [];
  default_ingress_ports = λ t. [];
  sidecar = λ t. none;
}

abbrev times : Times
times = record {
  settings = settings;
  clock = λ i. 5000;
  now = 5000;
  sort = λ rs. rs;
  garbage_clock = λ r. 5000;
}

abbrev web : App.Instance ℕ
web = record {
  name = "web-production";
  app = "web";
  fleet = "production";
  faults = [];
  dev_routes_service_host = "";
  dev_routes_service_port = 0;
}

-- Clusters where every plan succeeds, and changes the world in one way.
module _ {W : Type 0} (change : W → W) where
  abbrev succeeds : W → Option Bool × W
  succeeds w = (none, change w)

  abbrev willing : Sync.Outside ℕ W Bool
  willing = record {
    revisions = record {
      apply = λ p. succeeds;
      list_options = λ t. none;
      get_secrets = λ w. none;
      get_external_secrets = λ w. none;
      get_config_maps = λ w. none;
    };
    marks = record {
      is_nameless = λ i. false;
      get = λ i w. Reconcile.Fetched.missing;
      update = λ r. succeeds;
      empty_name = true;
      not_implemented = false;
    };
    apply_namespace = λ p. succeeds;
    ensure_service_account = succeeds;
    ensure_rbac = succeeds;
    apply_monitor = λ p. succeeds;
    apply_app = λ p w. finished (succeeds w);
    observe = λ w. ((none, []), w);
    delete_self = succeeds;
  }

-- Without a revision the service levels and the release manager go, and nothing else.
leaves_test : sync controller fields 0 web times (willing suc) [] 0 ≡ finished (none, [], 2)
unfolding revisioned
leaves_test = sync-leaves controller fields 0 web times (willing suc) [] 0 refl refl

abbrev numbers : Numbers ℕ
numbers = record { floats = ceilings; zero_factor = 0; parse_float = λ s. none }

abbrev manager : ReleaseManager
manager = record {
  name = "web-production";
  app = "web";
  fleet = "production";
  target = "production";
  labels = none;
  is_deleted = true;
  finalizers = finalizer ∷ "other" ∷ [];
  statuses = [];
}

abbrev production_1 : Cluster
production_1 = record {
  name = "production-1";
  enabled = true;
  hot_standby = false;
  scaling_factor_string = none;
}

-- An API that keeps one release manager.
abbrev one_manager : Outside ℕ ReleaseManager Bool
one_manager = record {
  get = λ w. after_update w;
  list_clusters = λ x w. (none, production_1 ∷ []);
  new_applier = λ ks w. none;
  new_observer = λ ks w. none;
  list_revisions = λ x w. (none, []);
  list_faults = λ x w. (none, []);
  observe = λ x w. (none, []);
  steps = willing (λ w. w);
  update_status = λ ss x w. (none, w);
  delete_app = λ x w. (none, w);
  update = λ x w. (none, x);
}

reconciled :
    (o : Outcome ReleaseManager Bool) × (reconcile numbers fields 0 times
        (λ is. is)
        ""
        0
        one_manager
        manager
      ≡ finished o)
unfolding reconcile conclude is_finalized finalize with_target has_key
reconciled = (_, refl)

reconcile-finalizes_example :
    (rm : ReleaseManager) × (one_manager.delete_app manager manager ≡ (none, rm))
    × (one_manager.update (record manager { finalizers = finalize manager.finalizers }) rm
        ≡ (none, reconciled.0.world))
    × Quiet numbers fields 0 times
        (λ is. is)
        ""
        0
        one_manager
        reconciled.0.world
        (reconcile numbers fields 0 times (λ is. is) "" 0 one_manager reconciled.0.world)
unfolding is_finalized reconciled has_key
reconcile-finalizes_example =
    reconcile-finalizes numbers fields 0 times (λ is. is) "" 0 one_manager manager
      (production_1 ∷ []) manager reconciled.0 (λ x v v' h. ap (λ y. after_update y.1) (sym h)) refl
      refl refl refl refl refl reconciled.1 refl
