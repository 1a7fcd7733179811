-- ===== src/Sync/Recommission.antt =====
-- That the loop at the end of `sync` (controllers/syncer.go) returns the described statuses.
use text.Mathlib.TextEquality.{eq_iff}
use picchu.Base.{
  ℕ, Bool, true, false, not, ◌&&◌, ◌||◌, Option, none, some, List, [], ◌∷◌, if◌then◌else◌, finished,
  >>=-eq-finished, finished-injective, ◌≡◌, refl, sym, subst, ◌∙◌, arith, Bool-cases, Option-cases,
  inl, inr,
}
use picchu.Deployment.{State, name}
use picchu.Api.{RevisionStatus}
use picchu.Incarnation.{Incarnation, in_state, has_revision}
use picchu.Sync.{
  Collected, is_live_incarnation, is_retired_incarnation, collect_status, collect_statuses,
  recommission, release_statuses,
}
use picchu.Sync.Statuses.{
  recommission_last, reported, any_good, recommission_last_none, LatestIs, LatestIs-append,
  LatestIs-length,
}

record Describes (is : List Incarnation) (acc : Collected) : Type 0 where
  statuses_are : acc.statuses ≡ reported is
  good_is : acc.found_good ≡ any_good is
  latest_is : LatestIs acc.latest_retired acc.statuses

-- A deleted incarnation is neither retired nor live, and a retired one is not live.
deleted_alone :
    (i : Incarnation)
    → in_state State.deleted i ≡ true
    → (is_retired_incarnation i ≡ false) × (is_live_incarnation i ≡ false)
unfolding name
deleted_alone i h = let e = (eq_iff i.status.state.current "deleted").0 h in (rw e refl, rw e refl)

retired_alone : (i : Incarnation) → is_retired_incarnation i ≡ true → is_live_incarnation i ≡ false
unfolding name
retired_alone i h = elim (Bool-cases (in_state State.retired i)) [
  | inl e ↦ let same = (eq_iff i.status.state.current "retired").0 e in rw same refl
  | inr e ↦ let same = (eq_iff i.status.state.current "retiring").0 (ground arith) in rw same refl
]

or_flip : (a failed p : Bool) → (a || not failed && p) ≡ (p && not failed || a)
or_flip true failed p = ground arith
or_flip false failed p = ground arith

collect_status-Describes :
    (i : Incarnation) (is : List Incarnation) (acc acc' : Collected)
    → Describes is acc
    → collect_status i acc ≡ finished acc'
    → Describes (i ∷ is) acc'
unfolding collect_status
collect_status-Describes i is acc acc' d h = elim (Bool-cases (in_state State.deleted i)) [
  | inl e ↦
      let (other, dead) = deleted_alone i e in
      elim (Bool-cases (has_revision i)) [
        | inl r ↦ subst (Describes (i ∷ is)) (finished-injective (rw (e, r) at h)) (record {
          statuses_are = rw (e, r, d.statuses_are) refl;
          good_is = rw dead d.good_is;
          latest_is = LatestIs-append acc.latest_retired acc.statuses i.status other d.latest_is;
        })
        | inr r ↦ subst (Describes (i ∷ is)) (finished-injective (rw (e, r) at h)) (record {
          statuses_are = rw (e, r) d.statuses_are;
          good_is = rw dead d.good_is;
          latest_is = d.latest_is;
        })
      ]
  | inr e ↦ elim (Bool-cases (is_retired_incarnation i)) [
    | inl f ↦
        let dead = retired_alone i f in
        subst (Describes (i ∷ is)) (finished-injective (rw (e, f) at h)) (record {
          statuses_are = rw (e, d.statuses_are) refl;
          good_is = rw dead d.good_is;
          latest_is = LatestIs-length acc.statuses i.status f;
        })
    | inr f ↦
        let latest = LatestIs-append acc.latest_retired acc.statuses i.status f d.latest_is in
        elim (Bool-cases (is_live_incarnation i)) [
          | inl live ↦ elim (Option-cases i.revision) [
            | inl gone ↦ absurd (ground (arith, rw (e, f, live, gone) at h))
            | inr (r, there) ↦
                subst (Describes (i ∷ is)) (finished-injective (rw (e, f, live, there) at h))
                  (record {
                    statuses_are = rw (e, d.statuses_are) refl;
                    good_is = rw (live, there, d.good_is) (or_flip (any_good is) r.has_failed_at _);
                    latest_is = latest;
                  })
          ]
          | inr dead ↦
              subst (Describes (i ∷ is)) (finished-injective (rw (e, f, dead) at h)) (record {
                statuses_are = rw (e, d.statuses_are) refl;
                good_is = rw dead d.good_is;
                latest_is = latest;
              })
        ]
  ]
]

collect_statuses-Describes :
    (is : List Incarnation) (acc : Collected)
    → collect_statuses is ≡ finished acc
    → Describes is acc
unfolding collect_statuses
collect_statuses-Describes [] acc h =
    subst (Describes []) (finished-injective h)
      (record { statuses_are = refl; good_is = refl; latest_is = refl })
collect_statuses-Describes (i ∷ is) acc h =
    let (before, collected, last) = >>=-eq-finished (collect_statuses is) (collect_status i) h in
    collect_status-Describes i is before acc (collect_statuses-Describes is before collected) last

recommission_lem :
    (ss : List RevisionStatus) (o : Option ℕ) (good : Bool)
    → LatestIs o ss
    → recommission (record { statuses = ss; latest_retired = o; found_good = good })
      ≡ (if good then ss else recommission_last ss)
recommission_lem ss none good h = rw (recommission_last_none ss h) (ground arith)
recommission_lem ss (some n) good (below, at) = ground (arith, at)

-- The statuses that the end of `sync` returns are those of the fleet, oldest first, without
-- deleted incarnations that have no revision; if no incarnation is live, not failed and had
-- traffic, the newest status in `retired` or `retiring`, where there is one, is made eligible with
-- a peak of 100 percent.
pub release_statuses_lem :
    (is : List Incarnation) (statuses : List RevisionStatus)
    → release_statuses is ≡ finished statuses
    → statuses ≡ (if any_good is then reported is else recommission_last (reported is))
unfolding release_statuses
release_statuses_lem is statuses h =
    let (acc, collected, made) = >>=-eq-finished (collect_statuses is) _ h in
    let d = collect_statuses-Describes is acc collected in
    sym (finished-injective made)
    ∙ recommission_lem acc.statuses acc.latest_retired acc.found_good d.latest_is
    ∙ rw (d.good_is, d.statuses_are) refl
