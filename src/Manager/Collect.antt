-- ===== src/Manager/Collect.antt =====
-- controllers/incarnation.go: `NewIncarnation` and `newIncarnationCollection`. The order that
-- `sorted` gives the incarnations of the map is a parameter. The statuses that `RevisionStatus`
-- appends for new tags are of incarnations that are there, which the second loop passes over. The
-- timestamps of a status, which only metrics read, are left out.
use Prim.Native.String.{String}
use text.Mathlib.Text.{◌==◌ as str_eq}
use picchu.Base.{ℕ, Bool, ◌||◌, Option, none, some, List, [], ◌∷◌, if◌then◌else◌, false}
use picchu.Api.{RevisionTarget, Revision, RevisionStatus}
use picchu.Incarnation.{Incarnation, Controller}
use picchu.Fleet.{has_tag, mark_ramping}
use picchu.Observe.{Observation, update_observed}
use picchu.Rollback.Statuses.{find_revision}

-- A write to the map of incarnations.
unfoldable pub put : Incarnation → List Incarnation → List Incarnation
put i [] = i ∷ []
put i (j ∷ js) = let rest = put i js in if str_eq j.tag i.tag then i ∷ js else j ∷ rest

module _ {F : Type 0} (c : Controller F) (now live_count : ℕ) (o : Observation) where
  abbrev pub with_created : RevisionStatus → RevisionStatus
  with_created s =
      if str_eq s.state.current ""
      then record s { state = record s.state { current = "created" } }
      else s

  abbrev pub is_new : RevisionStatus → Bool
  is_new s = str_eq s.state.current "created" || str_eq s.state.current "deploying"

  unfoldable pub from_targets : List RevisionTarget → RevisionStatus → RevisionStatus
  from_targets [] s = s
  from_targets (t ∷ ts) s = from_targets ts (
      if str_eq t.name c.target_name
      then record s { release_eligible = t.release.eligible; ttl = t.release.ttl }
      else s)

  abbrev pub initial : Option Revision → RevisionStatus → RevisionStatus
  initial none s = if is_new s then record s { release_eligible = false } else s
  initial (some r) s = if is_new s then from_targets r.targets s else s

  unfoldable pub new_incarnation : String → Option Revision → Incarnation
  unfolding from_targets
  new_incarnation tag revision = update_observed now live_count o (record {
    deployed = false;
    tag = tag;
    revision = revision;
    status = initial revision (with_created (find_revision tag now c.statuses));
    is_ramping = false;
  })

  unfoldable pub add_revisions : List (String × Revision) → List Incarnation → List Incarnation
  unfolding put
  add_revisions [] is = is
  add_revisions ((tag, r) ∷ rs) is = add_revisions rs (put (new_incarnation tag (some r)) is)

  -- Deleted revisions that still have a status.
  unfoldable pub add_statuses : List RevisionStatus → List Incarnation → List Incarnation
  unfolding put
  add_statuses [] is = is
  add_statuses (s ∷ ss) is =
      add_statuses ss (if has_tag s.tag is then is else put (new_incarnation s.tag none) is)

  unfoldable pub new_collection :
      (List Incarnation → List Incarnation) → List (String × Revision) → List Incarnation
  unfolding add_revisions add_statuses
  new_collection sort rs = mark_ramping (sort (add_statuses c.statuses (add_revisions rs [])))
