-- ===== src/Sync.antt =====
-- controllers/syncer.go: `tickIncarnations`, and the end of `sync` that collects the statuses and
-- recommissions a retired revision. The fleet is in the order of `sorted()`, newest first.
pub mod Statuses
pub mod Recommission
pub mod Ticks
pub mod Safe
mod Samples
use picchu.Base.{
  ℕ, zero, suc, Bool, true, false, not, ◌&&◌, ◌||◌, Option, none, some, List, [], ◌∷◌, ◌++◌, length,
  if◌then◌else◌, ltb, Panics, panicked, finished, ◌>>=◌, deref,
}
use picchu.Deployment.{State}
use picchu.Api.{RevisionStatus}
use picchu.Machine.{tick}
use picchu.Incarnation.{Incarnation, Controller, in_state, has_revision}
use picchu.Incarnation.Deployments.{
  Outside, Settings, World, Stop, returned, nil_dereference, incarnation_deployment,
}
use picchu.Fleet.{in_states}

-- The error of the first tick that fails, the fleet, of which the incarnations behind that one were
-- not ticked, and the cluster.
abbrev pub Ticked : Type 0 → Type 0 → Type 0
Ticked C Err = Option Err × List Incarnation × C

abbrev pub with_incarnation : {C Err : Type 0} → Incarnation → Ticked C Err → Panics (Ticked C Err)
with_incarnation i (err, is, cluster) = finished (err, i ∷ is, cluster)

-- A tick whose handler met a nil dereference panics.
abbrev pub stopped : {C Err : Type 0} → Option (Stop Err) → World C → Panics (Option Err × World C)
stopped none w = finished (none, w)
stopped (some (returned e)) w = finished (some e, w)
stopped (some nil_dereference) w = panicked

module _ {C Err F : Type 0} (outside : Outside C Err) (c : Controller F) (settings : Settings)
    (clock : Incarnation → ℕ) where
  pub tick_incarnation : Incarnation → C → Panics (Option Err × World C)
  tick_incarnation i cluster =
      tick (incarnation_deployment outside c settings) i.status.state.last_updated
        (record { incarnation = i; clock = clock i; cluster = cluster })
      >>= λ (stop, w). stopped stop w

  pub tick_incarnations : List Incarnation → C → Panics (Ticked C Err)
  unfolding tick_incarnation
  tick_incarnations [] cluster = finished (none, [], cluster)
  tick_incarnations (i ∷ is) cluster = tick_incarnation i cluster >>= λ (err, w). elim err [
    | some e ↦ finished (some e, w.incarnation ∷ is, w.cluster)
    | none ↦ tick_incarnations is w.cluster >>= with_incarnation w.incarnation
  ]

-- The variables of the loop: `rs`, `latestRetiredStatus` with -1 as `none`, and `foundGoodRelease`.
pub record Collected : Type 0 where
  pub statuses : List RevisionStatus
  pub latest_retired : Option ℕ
  pub found_good : Bool

abbrev pub append_status : Incarnation → Collected → Collected
append_status i acc = record acc { statuses = acc.statuses ++ i.status ∷ [] }

abbrev pub is_live_incarnation : Incarnation → Bool
is_live_incarnation = in_states (
    State.deploying ∷ State.deployed ∷ State.pendingrelease ∷ State.releasing ∷ State.released ∷ [])

abbrev pub is_retired_incarnation : Incarnation → Bool
is_retired_incarnation = in_states (State.retired ∷ State.retiring ∷ [])

-- `if !revision.Failed() && status.PeakPercent > 0 { foundGoodRelease = true }`
abbrev pub with_good : Bool → Incarnation → Collected → Collected
with_good failed i acc = record acc {
  found_good = acc.found_good || not failed && ltb 0 i.status.peak_percent;
}

-- One round: `Failed` is a method of the revision, which panics at nil.
unfoldable pub collect_status : Incarnation → Collected → Panics Collected
collect_status i acc =
    if in_state State.deleted i
    then finished (if has_revision i then append_status i acc else acc)
    else if is_retired_incarnation i
    then finished (append_status i (record acc { latest_retired = some (length acc.statuses) }))
    else if is_live_incarnation i
    then (deref i.revision >>= λ r. finished (append_status i (with_good r.has_failed_at i acc)))
    else finished (append_status i acc)

-- The loop, which begins with the oldest.
unfoldable pub collect_statuses : List Incarnation → Panics Collected
unfolding collect_status
collect_statuses [] = finished (record { statuses = []; latest_retired = none; found_good = false })
collect_statuses (i ∷ is) = collect_statuses is >>= collect_status i

abbrev pub recommissioned : RevisionStatus → RevisionStatus
recommissioned s = record s { release_eligible = true; peak_percent = 100 }

abbrev pub recommission_at : ℕ → List RevisionStatus → List RevisionStatus
recommission_at n [] = []
recommission_at zero (s ∷ ss) = recommissioned s ∷ ss
recommission_at (suc n) (s ∷ ss) = s ∷ recommission_at n ss

-- The statuses that the release manager is given; a list that is not empty is what `rs != nil` asks.
abbrev pub recommission : Collected → List RevisionStatus
recommission acc = elim acc.latest_retired [
  | none ↦ acc.statuses
  | some n ↦
      if not acc.found_good && ltb n (length acc.statuses)
      then recommission_at n acc.statuses
      else acc.statuses
]

unfoldable pub release_statuses : List Incarnation → Panics (List RevisionStatus)
unfolding collect_statuses
release_statuses is = collect_statuses is >>= λ acc. finished (recommission acc)
