-- ===== src/Manager/Mark.antt =====
-- controllers/garbagecollector.go: the revisions that a target no longer needs are marked, each by a
-- label for the target.
use Prim.Native.String.{String, ◌++◌ as append}
use text.Mathlib.Text.{◌==◌ as str_eq}
use picchu.Base.{
  ℕ, Bool, Option, none, some, List, [], ◌∷◌, map, if◌then◌else◌, Panics, panicked, finished, ◌>>=◌,
}
use picchu.Objects.{entries, lookup}
use picchu.Incarnation.{Incarnation}
use picchu.Garbage.{default_strategy_id, find_garbage}
use picchu.Garbage
use picchu.Retire.{◌and_next◌}
use picchu.Rollback.{Target, Instance}
use picchu.Rollback.Labels.{label_target_deletable_prefix, write_label, value_of}
use picchu.Rollback.Reconcile.{Fetched}

-- The incarnation as a revision of the garbage collector: `CreatedOn`, `State` and `TTL`.
abbrev pub as_revision : Incarnation → Garbage.Revision
as_revision i = record {
  tag = i.tag;
  state = i.status.state.current;
  ttl = i.status.ttl;
  created_on = elim i.revision [ none ↦ 0 | some r ↦ r.git_timestamp ];
}

-- The Kubernetes API at the revision of an incarnation, and the errors of the package.
pub record Outside (W Err : Type 0) : Type 0 where
  pub is_nameless : Incarnation → Bool
  pub get : Incarnation → W → Fetched Err
  pub update : Instance → W → Option Err × W
  pub empty_name : Err
  pub not_implemented : Err

-- `revision.Spec.Targets[0]`, which is only logged.
abbrev pub first_target : List Target → Panics Target
first_target [] = panicked
first_target (t ∷ ts) = finished t

module _ {W Err : Type 0} (api : Outside W Err) (target_name : String) where
  abbrev pub mark_key : String
  mark_key = append label_target_deletable_prefix target_name

  -- An error of the update is only logged.
  unfoldable pub mark_instance : Instance → W → Panics (Option Err × W)
  mark_instance r w =
      if str_eq (value_of (lookup mark_key (entries r.labels))) "true"
      then finished (none, w)
      else (first_target r.targets >>= λ t. write_label mark_key "true" r.labels >>= λ labels.
          finished (none, (api.update (record r { labels = labels }) w).1))

  abbrev pub mark_fetched : Fetched Err → W → Panics (Option Err × W)
  mark_fetched Fetched.missing w = finished (none, w)
  mark_fetched (Fetched.failed e) w = finished (some e, w)
  mark_fetched (Fetched.fetched r) w = mark_instance r w

  unfoldable pub mark_deletable : Incarnation → W → Panics (Option Err × W)
  unfolding mark_instance
  mark_deletable i w = elim i.revision [
    | none ↦ finished (none, w)
    | some r ↦
        if api.is_nameless i
        then finished (some api.empty_name, w)
        else mark_fetched (api.get i w) w
  ]

  -- The incarnation that a revision of the collector is.
  unfoldable pub find_incarnation : String → List Incarnation → Option Incarnation
  find_incarnation tag [] = none
  find_incarnation tag (i ∷ is) =
      let rest = find_incarnation tag is in if str_eq i.tag tag then some i else rest

  abbrev pub mark_one : Option Incarnation → W → Panics (Option Err × W)
  mark_one none w = finished (none, w)
  mark_one (some i) w = mark_deletable i w

  unfoldable pub mark_all : List Incarnation → List Garbage.Revision → W → Panics (Option Err × W)
  unfolding mark_deletable find_incarnation
  mark_all is [] w = finished (none, w)
  mark_all is (r ∷ rs) w = mark_one (find_incarnation r.tag is) w >>= λ o. o and_next mark_all is rs

  abbrev pub mark_found :
      List Incarnation → Option (Panics (List Garbage.Revision)) → W → Panics (Option Err × W)
  mark_found is none w = finished (some api.not_implemented, w)
  mark_found is (some found) w = found >>= λ rs. mark_all is rs w

  -- `markGarbage`, with the sort and the clock of the strategy.
  unfoldable pub mark_garbage :
      (List Garbage.Revision → List Garbage.Revision)
      → (Garbage.Revision → ℕ)
      → List Incarnation
      → W
      → Panics (Option Err × W)
  unfolding mark_all
  mark_garbage sort now is =
      mark_found is (find_garbage sort now default_strategy_id (map as_revision is))
