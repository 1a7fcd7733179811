-- ===== src/Traffic/Sums.antt =====
-- The weights that `prepareRevisions` (controllers/syncer.go) hands out, and the statuses that it
-- leaves.
use picchu.Base.{
  ℕ, suc, length-eq-zero, ◌∙◌, Option-cases, some-injective, ◌+◌, ◌-◌, ◌≤◌, Bool, true, false, ◌||◌,
  List, [], ◌∷◌, ◌++◌, map, All, length, ◌≡◌, ◌≢◌, ◌⊎◌, arith, refl, sym, ap, subst, finished,
  >>=-eq-finished, finished-injective, Option, none, some, Bool-cases, inl, inr, ltb, if◌then◌else◌,
  ◌==◌,
}
use picchu.Incarnation.{Incarnation, Controller, update_current_percent, set_release_eligible}
use picchu.Fleet.{deployed, releasable}
use picchu.Traffic.{
  Entry, Route, assigned, assign, top_up, top_up_ramping, top_up_first, spend, divide, route_of,
  idle_route, Prepared, prepared, prepare_revisions, reset_unreleasable,
}
use picchu.Traffic.Steps.{assign-Round}

abbrev pub weights : List Entry → ℕ
weights [] = 0
weights (e ∷ es) = e.weight + weights es

abbrev pub route_weights : List Route → ℕ
route_weights [] = 0
route_weights (r ∷ rs) = r.weight + route_weights rs

-- The weight is the percentage of the status, and the peak covers it.
pub record IsSettled (e : Entry) : Type 0 where
  pub weight_is : e.weight ≡ e.incarnation.status.current_percent
  pub peak_covers : e.incarnation.status.current_percent ≤ e.incarnation.status.peak_percent

module _ (now : ℕ) where
  assigned-IsSettled :
      (behind : Bool) (percent : ℕ) (i : Incarnation) → IsSettled (assigned now behind percent i)
  unfolding update_current_percent set_release_eligible
  assigned-IsSettled behind percent i = ground arith

  top_up_fits :
      (left : ℕ) (e : Entry)
      → IsSettled e
      → e.weight + left ≤ 100
      → IsSettled (top_up now left e) × ((top_up now left e).weight ≡ e.weight + left)
  unfolding update_current_percent
  top_up_fits left e s fits = ground arith

  -- What a top-up keeps and adds, for the entries `l` after it.
  abbrev ToppedUp : ℕ → List Entry → List Entry → Type 0
  ToppedUp left es l = All IsSettled l × (weights l ≡ weights es + left)

  top_up_here :
      (left : ℕ) (e : Entry) (es es' : List Entry) (here : Bool) (there : Option (List Entry))
      → All IsSettled (e ∷ es)
      → weights (e ∷ es) + left ≤ 100
      → ((rest : List Entry) → there ≡ some rest → ToppedUp left es rest)
      → (if here
          then some (top_up now left e ∷ es)
          else elim there [ none ↦ none | some rest ↦ some (e ∷ rest) ])
        ≡ some es'
      → ToppedUp left (e ∷ es) es'
  top_up_here left e es es' true there s fits ih h =
      let (s', w') = top_up_fits left e s.0 (omega arith) in
      subst (ToppedUp left (e ∷ es)) (some-injective h) ((s', s.1), omega (arith, w'))
  top_up_here left e es es' false none s fits ih h = absurd (ground arith)
  top_up_here left e es es' false (some rest) s fits ih h =
      let (s', w') = ih rest refl in
      subst (ToppedUp left (e ∷ es)) (some-injective h) ((s.0, s'), omega (arith, w'))

  top_up_ramping_lem :
      (left : ℕ) (es es' : List Entry)
      → All IsSettled es
      → weights es + left ≤ 100
      → top_up_ramping now left es ≡ some es'
      → ToppedUp left es es'
  unfolding top_up_ramping
  top_up_ramping_lem left [] es' s fits h = absurd (ground arith)
  top_up_ramping_lem left (e ∷ es) es' s fits h =
      top_up_here left e es es' e.incarnation.is_ramping (top_up_ramping now left es) s fits
        (λ rest r. top_up_ramping_lem left es rest s.1 (omega arith) r) h

  top_up_first_lem :
      (left : ℕ) (e : Entry) (es : List Entry)
      → All IsSettled (e ∷ es)
      → weights (e ∷ es) + left ≤ 100
      → ToppedUp left (e ∷ es) (top_up_first now left (e ∷ es))
  unfolding update_current_percent
  top_up_first_lem left e es s fits = ((ground arith, s.1), ground arith)

  spend_lem :
      (left : ℕ) (es : List Entry)
      → es ≢ []
      → All IsSettled es
      → weights es + left ≤ 100
      → ToppedUp left es (spend now left es)
  unfolding spend
  spend_lem left [] n s fits = absurd (n refl)
  spend_lem left (e ∷ es) n s fits = elim (Bool-cases (ltb 0 left)) [
    | inl b ↦ elim (Option-cases (top_up_ramping now left (e ∷ es))) [
      | inl r ↦ rw (b, r) (top_up_first_lem left e es s fits)
      | inr (es', r) ↦ rw (b, r) (top_up_ramping_lem left (e ∷ es) es' s fits r)
    ]
    | inr b ↦ rw b (s, ground arith)
  ]

module _ {F : Type 0} (c : Controller F) (now : ℕ) where
  assign_lem :
      (behind : Bool) (remaining : ℕ) (is : List Incarnation) (es : List Entry) (left : ℕ)
      → assign c now behind remaining is ≡ finished (es, left)
      → All IsSettled es × (weights es + left ≡ remaining) × (length es ≡ length is)
  unfolding assign
  assign_lem behind remaining [] es left h =
      subst Goal (finished-injective h) (tt, omega arith, refl)
    where
      Goal : List Entry × ℕ → Type 0
      Goal (l, m) = All IsSettled l × (weights l + m ≡ remaining) × (length l ≡ 0)
  assign_lem behind remaining (i ∷ is) es left h =
      let r = assign-Round c now behind remaining i is es left h in
      let (s, total, len) =
        assign_lem (behind || i.is_ramping) (remaining - r.percent) is r.rest left r.continued in
      subst (λ l. All IsSettled l × (weights l + left ≡ remaining) × (length l ≡ suc (length is)))
        (sym r.made) ((assigned-IsSettled now behind r.percent i, s), ground arith, ap suc len)

  divide-nil : divide c now [] ≡ finished []
  unfolding divide assign spend top_up_ramping
  divide-nil = refl

  divide_lem :
      (is : List Incarnation) (es : List Entry)
      → divide c now is ≡ finished es
      → All IsSettled es × ((is ≡ []) ⊎ (weights es ≡ 100))
  unfolding divide
  divide_lem [] es h =
      subst (λ l. All IsSettled l × ((◌≡◌ {A = List Incarnation} [] []) ⊎ (weights l ≡ 100)))
        (finished-injective (sym divide-nil ∙ h)) (tt, inl refl)
  divide_lem (i ∷ is) es h =
      let (a, assigns, spends) = >>=-eq-finished (assign c now false 100 (i ∷ is)) _ h in
      let (s, total, len) = assign_lem false 100 (i ∷ is) a.0 a.1 assigns in
      let nonempty : a.0 ≢ [] = λ e. absurd (omega (arith, len, ap length e)) in
      let (s', w') = spend_lem now a.1 a.0 nonempty s (omega arith) in
      subst (λ l. All IsSettled l × ((i ∷ is ≡ []) ⊎ (weights l ≡ 100))) (finished-injective spends)
        (s', inr (omega (arith, w')))

  weights-routes :
      (es : List Entry) (is : List Incarnation)
      → route_weights (map route_of es ++ map idle_route is) ≡ weights es
  weights-routes [] [] = refl
  weights-routes [] (i ∷ is) = omega (arith, weights-routes [] is)
  weights-routes (e ∷ es) is = ap (λ n. e.weight + n) (weights-routes es is)

  prepared-eq :
      (is : List Incarnation) (r : Prepared)
      → prepare_revisions c now is ≡ finished r
      → deployed is ≢ []
      → (es : List Entry) × (divide c now (releasable (reset_unreleasable now is)) ≡ finished es)
        × (r ≡ prepared c now is (reset_unreleasable now is) es)
  unfolding prepare_revisions
  prepared-eq is r h some_deployed = elim (Bool-cases (length (deployed is) == 0)) [
    | inl e ↦ absurd (some_deployed (length-eq-zero _ (ground arith)))
    | inr e ↦
        let (es, divides, made) =
          >>=-eq-finished (divide c now (releasable (reset_unreleasable now is))) _ (rw e at h) in
        (es, divides, sym (finished-injective made))
  ]

  -- Where some incarnation is deployed and some is releasable, and `prepareRevisions` returns, the
  -- weights of its routes add up to exactly 100, and the weight of each releasable incarnation is
  -- the percentage in its new status, which the peak in that status covers.
  pub prepare_revisions-weights :
      (is : List Incarnation) (r : Prepared)
      → prepare_revisions c now is ≡ finished r
      → deployed is ≢ []
      → releasable (reset_unreleasable now is) ≢ []
      → (route_weights r.routes ≡ 100) × All IsSettled r.entries
  prepare_revisions-weights is r h some_deployed some_releasable =
      let (es, divides, made) = prepared-eq is r h some_deployed in
      let (settled, total) = divide_lem (releasable (reset_unreleasable now is)) es divides in
      let hundred : weights es ≡ 100 = elim total [
        | inl e ↦ absurd (some_releasable e)
        | inr e ↦ e
      ] in
      subst (λ p. (route_weights p.routes ≡ 100) × All IsSettled p.entries) (sym made)
        (weights-routes es _ ∙ hundred, settled)
