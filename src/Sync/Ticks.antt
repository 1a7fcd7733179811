-- ===== src/Sync/Ticks.antt =====
-- After ticks that all succeeded (controllers/syncer.go), every revision that the end of `sync` reads
-- is there.
use picchu.Base.{
  ℕ, true, none, some, Option, List, [], ◌∷◌, All, Panics, panicked, finished, ◌>>=◌,
  >>=-eq-finished, finished-injective, ◌≡◌, refl, ap, sym, subst, ◌∙◌, Option-cases, arith,
  Bool-cases, inl, inr,
}
use picchu.Deployment.{State, name}
use picchu.Machine.Guards.{is_live}
use picchu.Incarnation.{Incarnation, Controller, in_state, has_revision, set_state}
use picchu.Incarnation.Deployments.{
  Outside, Settings, World, Stop, returned, nil_dereference, incarnation_deployment,
}
use picchu.Incarnation.Deployments.Lawful.{
  incarnation_deployment-Keeps, incarnation_deployment-IsLawful,
}
use picchu.Machine.Revisions.{tick-has_revision}
use picchu.Api.{RevisionStatus}
use picchu.Sync.{
  Ticked, with_incarnation, tick_incarnation, tick_incarnations, is_live_incarnation,
  is_retired_incarnation, Collected, collect_status, collect_statuses, release_statuses,
  recommission, stopped,
}
use picchu.Machine.{tick}

-- A revision in one of the states that are asked about is there.
abbrev pub IsSound : Incarnation → Type 0
IsSound i = is_live_incarnation i ≡ true → has_revision i ≡ true

is_live_incarnation-name :
    (s : State) (i : Incarnation)
    → i.status.state.current ≡ name s
    → is_live_incarnation i ≡ is_live s
unfolding name
is_live_incarnation-name State.created i h = rw h refl
is_live_incarnation-name _ i h = rw h refl

-- The fleet as later steps of a reconciliation leave it: no step but a tick writes the recorded
-- state, and none the revision.
abbrev pub SameRevisions : List Incarnation → List Incarnation → Type 0
SameRevisions [] [] = Unit
SameRevisions [] (j ∷ js) = ⊥
SameRevisions (i ∷ is) [] = ⊥
SameRevisions (i ∷ is) (j ∷ js) =
    (j.status.state.current ≡ i.status.state.current)
    × (j.revision ≡ i.revision)
    × SameRevisions is js

SameRevisions-IsSound :
    (is js : List Incarnation) → SameRevisions is js → All IsSound is → All IsSound js
SameRevisions-IsSound [] [] same sound = tt
SameRevisions-IsSound [] (j ∷ js) same sound = absurd same
SameRevisions-IsSound (i ∷ is) [] same sound = absurd same
SameRevisions-IsSound (i ∷ is) (j ∷ js) (state, revision, same) (head, tail) =
    ((rw (state, revision) head), SameRevisions-IsSound is js same tail)

abbrev IsFinished : {A : Type 0} → Panics A → Type 0
IsFinished panicked = ⊥
IsFinished (finished a) = Unit

IsFinished-result : {A : Type 0} (m : Panics A) → IsFinished m → (a : A) × (m ≡ finished a)
IsFinished-result panicked h = absurd h
IsFinished-result (finished a) h = (a, refl)

collect_status-IsFinished :
    (i : Incarnation) (acc : Collected) → IsSound i → IsFinished (collect_status i acc)
unfolding collect_status
collect_status-IsFinished i acc sound = elim (Bool-cases (in_state State.deleted i)) [
  | inl e ↦ rw e tt
  | inr e ↦ elim (Bool-cases (is_retired_incarnation i)) [
    | inl f ↦ rw (e, f) tt
    | inr f ↦ elim (Bool-cases (is_live_incarnation i)) [
      | inl live ↦ elim (Option-cases i.revision) [
        | inl gone ↦ absurd (ground (arith, sound live, gone))
        | inr (r, there) ↦ rw (e, f, live, there) tt
      ]
      | inr dead ↦ rw (e, f, dead) tt
    ]
  ]
]

collect_statuses_total :
    (is : List Incarnation)
    → All IsSound is
    → (acc : Collected) × (collect_statuses is ≡ finished acc)
unfolding collect_statuses
collect_statuses_total [] sound = (_, refl)
collect_statuses_total (i ∷ is) (head, tail) =
    let (acc, collected) = collect_statuses_total is tail in
    let (acc', next) = IsFinished-result _ (collect_status-IsFinished i acc head) in
    (acc', rw collected next)

stopped-none :
    {C Err : Type 0} (stop : Option (Stop Err)) (w w' : World C)
    → stopped stop w ≡ finished (none, w')
    → ◌≡◌ {A = Option (Stop Err) × World C} (stop, w) (none, w')
stopped-none none w w' h = ap (λ v. (none, v.1)) (finished-injective h)
stopped-none (some (returned e)) w w' h =
    absurd (ground (arith, ap (λ t. t.0) (finished-injective h)))
stopped-none (some nil_dereference) w w' h = absurd (ground (arith, h))

module _ {C Err F : Type 0} (outside : Outside C Err) (c : Controller F) (settings : Settings)
    (clock : Incarnation → ℕ) where
  tick_incarnation-IsSound :
      (i : Incarnation) (cluster : C) (w : World C)
      → tick_incarnation outside c settings clock i cluster ≡ finished (none, w)
      → IsSound w.incarnation
  unfolding tick_incarnation incarnation_deployment set_state
  tick_incarnation-IsSound i cluster w h =
      let (r, ticked, same) =
        >>=-eq-finished
          (tick (incarnation_deployment outside c settings) i.status.state.last_updated
            (record { incarnation = i; clock = clock i; cluster = cluster }))
          _ h in
      let (t, named, there) =
        tick-has_revision (incarnation_deployment outside c settings)
          (incarnation_deployment-IsLawful outside c settings)
          (incarnation_deployment-Keeps outside c settings has_revision) (λ s w. refl)
          i.status.state.last_updated _ w (ticked ∙ ap finished (stopped-none r.0 r.1 w same)) in
      λ live. there (sym (is_live_incarnation-name t w.incarnation named) ∙ live)

  step-IsSound :
      (err : Option Err) (w : World C) (is is' : List Incarnation) (cluster' : C)
      → (err ≡ none → IsSound w.incarnation)
      → ((js : List Incarnation) (k : C)
          → tick_incarnations outside c settings clock is w.cluster ≡ finished (none, js, k)
          → All IsSound js)
      → (elim err as (λ _. Panics (Ticked C Err)) [
        | some e ↦ finished (some e, w.incarnation ∷ is, w.cluster)
        | none ↦
            tick_incarnations outside c settings clock is w.cluster
            >>= with_incarnation w.incarnation
      ])
        ≡ finished (none, is', cluster')
      → All IsSound is'
  step-IsSound (some e) w is is' cluster' head tail h =
      absurd (ground (arith, ap (λ t. t.0) (finished-injective h)))
  step-IsSound none w is is' cluster' head tail h =
      let (t, ticked, made) =
        >>=-eq-finished (tick_incarnations outside c settings clock is w.cluster)
          (with_incarnation w.incarnation) h in
      let same = finished-injective made in
      let fine : t.0 ≡ none = ap (λ u. u.0) same in
      subst (All IsSound) (ap (λ t. t.1) same)
        (head refl, tail t.1 t.2 (ticked ∙ ap (λ e. finished (e, t.1, t.2)) fine))

  tick_incarnations-IsSound :
      (is is' : List Incarnation) (cluster cluster' : C)
      → tick_incarnations outside c settings clock is cluster ≡ finished (none, is', cluster')
      → All IsSound is'
  unfolding tick_incarnations
  tick_incarnations-IsSound [] is' cluster cluster' h =
      subst (All IsSound) (ap (λ t. t.1) (finished-injective h)) tt
  tick_incarnations-IsSound (i ∷ is) is' cluster cluster' h =
      let (t, ticked, rest) =
        >>=-eq-finished (tick_incarnation outside c settings clock i cluster) _ h in
      step-IsSound t.0 t.1 is is' cluster'
        (λ fine. tick_incarnation-IsSound i cluster t.1 (ticked ∙ ap (λ e. finished (e, t.1)) fine))
        (λ js k. tick_incarnations-IsSound is js t.1.cluster k) rest

  -- After ticks that all succeeded, and steps that change neither a recorded state nor a revision,
  -- the end of `sync` does not panic: every revision that it asks whether it failed is there.
  pub release_statuses_total :
      (is is' later : List Incarnation) (cluster cluster' : C)
      → tick_incarnations outside c settings clock is cluster ≡ finished (none, is', cluster')
      → SameRevisions is' later
      → (statuses : List RevisionStatus) × (release_statuses later ≡ finished statuses)
  unfolding release_statuses
  release_statuses_total is is' later cluster cluster' h same =
      let (acc, collected) = collect_statuses_total later (
        SameRevisions-IsSound is' later same
          (tick_incarnations-IsSound is is' cluster cluster' h)) in
      (recommission acc, rw collected refl)
