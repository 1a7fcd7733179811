-- ===== src/Rollback/Samples.antt =====
-- Witnesses for the reconciler of revisions (controllers/revision_controller.go): a revision with two
-- targets, one of which guards objectives.
use Prim.Native.String.{String}
use picchu.Base.{ℕ, Bool, true, false, none, some, [], ◌∷◌, map, every, ◌≡◌, refl, ◌⊎◌, finished}
use picchu.Objects.{Entries, has_key, insert, lookup}
use picchu.Rollback.{Instance, TargetStatus}
use picchu.Rollback.Labels.{label_app, fleet_label, labelled, add_fleet_labels, drop_stale}
use picchu.Rollback.Statuses.{is_failing, slo_violation, violated_target, find_status}
use picchu.Rollback.Reconcile.{Outside, Fetched, requeue, reconcile, deletion}
use picchu.Rollback.Labelled.{is_fresh, or_value, labelled_lem}
use picchu.Rollback.Spared.{is_failing-accepted}
use picchu.Rollback.Deleted.{reconcile-deletes}

abbrev old_labels : Entries
old_labels =
    ("fleet.picchu.medium.engineering/gone", "")
    ∷ ("target-deletable.picchu.medium.engineering/production", "false")
    ∷ []

abbrev release : Instance
release = record {
  app = "web";
  tag = "v1";
  labels = some old_labels;
  targets = record { name = "production"; fleet = "production"; acceptance_target = false } ∷ [];
  canary_with_sli_rules = false;
  ignore_slos = false;
  disable_mirroring = false;
}

abbrev new_labels : Entries
new_labels =
    ("target-deletable.picchu.medium.engineering/production", "false")
    ∷ ("fleet.picchu.medium.engineering/production", "")
    ∷ ("picchu.medium.engineering/app", "web")
    ∷ []

labelled_test : labelled release ≡ finished (some new_labels, true)
unfolding labelled add_fleet_labels drop_stale has_key insert
labelled_test = refl

labelled_lem_example :
    (after : Entries) × (updated : Bool) × (labelled release ≡ finished (some after, updated))
    × (every (λ k. has_key k after) (map fleet_label (release.targets)) ≡ true)
    × (lookup label_app after ≡ or_value (lookup label_app old_labels) release.app)
    × (every (is_fresh (release.targets)) after ≡ true)
    × ((updated ≡ true) ⊎ (after ≡ old_labels))
labelled_lem_example = labelled_lem release old_labels refl

abbrev half : TargetStatus
half = record {
  name = "production";
  current = 5;
  desired = 5;
  peak = 5;
  state = "releasing";
  current_percent = 40;
  peak_percent = 50;
}

-- Below half of the traffic an alert marks the revision as failed.
below_half_test : is_failing release (record half { peak_percent = 49 } ∷ []) true ≡ true
unfolding is_failing slo_violation violated_target find_status
below_half_test = refl

is_failing-accepted_example : is_failing release (half ∷ []) true ≡ false
is_failing-accepted_example = is_failing-accepted release (half ∷ []) true refl

abbrev settled : Instance
settled = record release { labels = some new_labels }

-- A cluster that counts the deletions.
abbrev deleting : Outside ℕ String
deleting = record {
  get = λ w. Fetched.fetched settled;
  mirrors = λ w. (none, []);
  update = λ r w. (none, w);
  delete = λ r w. (none, 1);
  is_not_found = λ e. false;
  release_managers = λ t r w. [];
  create = λ t r w. (none, w);
  mirror = λ m r w. w;
  is_triggered = λ r w. (none, false);
  save_alarms = λ t rm w. w;
  fail = λ r w. (none, w);
  update_status = λ r ss w. (none, w);
}

reconcile-deletes_example : reconcile deleting 0 0 ≡ requeue (deletion deleting 0 (none, 1)).0.1 1
unfolding labelled add_fleet_labels drop_stale has_key insert
reconcile-deletes_example =
    reconcile-deletes deleting 0 settled [] 0 none 1 refl refl refl refl refl
