-- ===== src/Manager/Oldest.antt =====
-- controllers/syncer.go: `latestTarget` of `syncApp`.
use mathlib.Core.List.{Memᴰ, append-nil}
use picchu.Base.{
  Bool, false, Option, none, some, some-injective, List, [], ◌∷◌, ◌++◌, All, filter_if, finished,
  finished-injective, >>=-eq-finished, deref, ◌≡◌, refl, sym, ap, ◌∙◌, subst, arith, ℕ,
}
use picchu.Api.{RevisionTarget}
use picchu.Deployment.{State}
use picchu.Incarnation.{Incarnation, Controller, target, in_state}
use picchu.Fleet.{deployed}
use picchu.Fleet.Order.{
  IsOrdered, SortsBy, is_newer, is_newer_irrefl, sorted, sorted-IsOrdered, filter_if-IsOrdered,
}
use picchu.Traffic.{prepare_revisions}
use picchu.Routes.{SyncApp}
use picchu.Manager.Monitors.{Fields}
use picchu.Manager.App.{Instance, app_plan, plan_for, served, last_of}

deref-eq-finished : {A : Type 0} (o : Option A) (a : A) → deref o ≡ finished a → o ≡ some a
deref-eq-finished none a h = absurd (ground (arith, h))
deref-eq-finished (some b) a h = ap some (finished-injective h)

module _ {F V : Type 0} (c : Controller F) (fields : Fields V) (no_labels : V)
    (instance_of : Instance V) (now : ℕ) where
  last : Incarnation → List Incarnation → Incarnation
  last = last_of c fields no_labels instance_of now

  last-All :
      (P : Incarnation → Type 0) (i : Incarnation) (rest : List Incarnation)
      → All P (i ∷ rest)
      → P (last i rest)
  unfolding last last_of
  last-All P i [] (h, hs) = h
  last-All P i (j ∷ js) (h, hs) = last-All P j js hs

  last-Memᴰ : (i : Incarnation) (rest : List Incarnation) → Memᴰ (last i rest) (i ∷ rest)
  unfolding last last_of
  last-Memᴰ i [] = Memᴰ.head refl
  last-Memᴰ i (j ∷ js) = Memᴰ.tail (last-Memᴰ j js)

  last-oldest :
      (i : Incarnation) (rest : List Incarnation)
      → IsOrdered is_newer (i ∷ rest)
      → All (λ j. is_newer (last i rest) j ≡ false) (i ∷ rest)
  unfolding last last_of
  last-oldest i [] h = (is_newer_irrefl i, tt)
  last-oldest i (j ∷ js) (h, hs) =
      (last-All (λ y. is_newer y i ≡ false) j js h, last-oldest j js hs)

  -- What `syncApp` takes of its latest target.
  plan_for-last :
      (is after : List Incarnation) (i : Incarnation) (rest : List Incarnation) (p : SyncApp V)
      → plan_for c fields no_labels instance_of now is (i ∷ rest) ≡ finished (some p, after)
      → (t : RevisionTarget) × (target c (last i rest) ≡ some t)
        × (p.default_ingress_ports ≡ fields.default_ingress_ports t)
        × (p.istio_sidecar_config ≡ fields.sidecar t)
  unfolding last
  plan_for-last is after i rest p h =
      let (d, ran, next) = >>=-eq-finished (prepare_revisions c now is) _ h in
      let (t, found, made) = >>=-eq-finished (deref (target c (last i rest))) _ next in
      let same = some-injective (ap (λ x. x.0) (finished-injective made)) in
      (
        t,
        deref-eq-finished (target c (last i rest)) t found,
        ap (λ q. q.default_ingress_ports) (sym same),
        ap (λ q. q.istio_sidecar_config) (sym same),
      )

  -- With a sort that orders by a strict weak order, and while no incarnation is in `deploying`,
  -- the default ingress ports and the sidecar of the plan of `syncApp` are those of a deployed
  -- incarnation that is newer than no deployed one.
  pub app_plan-oldest :
      (sort_slice : (Incarnation → Incarnation → Bool) → List Incarnation → List Incarnation)
      (items after : List Incarnation) (i : Incarnation) (rest : List Incarnation) (p : SyncApp V)
      → SortsBy sort_slice
      → deployed (sorted sort_slice items) ≡ i ∷ rest
      → filter_if (in_state State.deploying) (sorted sort_slice items) ≡ []
      → app_plan c fields no_labels instance_of now (sorted sort_slice items)
        ≡ finished (some p, after)
      → (o : Incarnation) × (t : RevisionTarget) × All (λ j. is_newer o j ≡ false) (i ∷ rest)
        × Memᴰ o (i ∷ rest)
        × (target c o ≡ some t)
        × (p.default_ingress_ports ≡ fields.default_ingress_ports t)
        × (p.istio_sidecar_config ≡ fields.sidecar t)
  unfolding app_plan served deployed
  app_plan-oldest sort_slice items after i rest p sorts some_deployed none_deploying h =
      let is = sorted sort_slice items in
      let ordered =
        subst (IsOrdered is_newer) some_deployed
          (filter_if-IsOrdered is_newer _ is (sorted-IsOrdered sort_slice sorts items)) in
      let all : deployed is ++ filter_if (in_state State.deploying) is ≡ i ∷ rest =
        ap (λ xs. deployed is ++ xs) none_deploying ∙ append-nil (deployed is) ∙ some_deployed in
      let (t, found, ports, sidecar) =
        plan_for-last is after i rest p
          (ap (plan_for c fields no_labels instance_of now is) (sym all) ∙ h) in
      (last i rest, t, last-oldest i rest ordered, last-Memᴰ i rest, found, ports, sidecar)
