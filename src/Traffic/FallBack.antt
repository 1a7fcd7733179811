-- ===== src/Traffic/FallBack.antt =====
-- Who may gain traffic in `prepareRevisions` (controllers/syncer.go): nobody behind the first
-- ramping incarnation.
use picchu.Base.{
  ℕ, ◌-◌, ◌≤◌, ◌<◌, Bool, true, false, ◌||◌, List, [], ◌∷◌, All, ◌≡◌, arith, refl, sym, ◌∙◌,
  >>=-eq-finished, subst, finished, finished-injective, Option, none, some, Bool-cases,
  Option-cases, inl, inr, if◌then◌else◌, ltb, some-injective,
}
use picchu.Incarnation.{Incarnation, Controller, update_current_percent, set_release_eligible}
use picchu.Incarnation.Targets.{IsValid, current_percent_target_total}
use picchu.Traffic.{
  Entry, percent_limit, assigned, assign, top_up, top_up_ramping, top_up_first, spend, divide,
}
use picchu.Traffic.Steps.{Round, assign-Round}

-- Behind the ramping incarnation the limit is within the old percentage.
percent_limit-le_current :
    (remaining : ℕ) (i : Incarnation)
    → i.status.current_percent < 2147483648
    → remaining ≤ 100
    → percent_limit true remaining i ≤ i.status.current_percent
percent_limit-le_current remaining i small h = ground arith

-- What an incarnation behind the ramping one may have become: it gained nothing, and without
-- traffic it is no longer eligible.
pub record FallsBack (i : Incarnation) (e : Entry) : Type 0 where
  pub no_gain : e.weight ≤ i.status.current_percent
  pub retires : e.weight ≡ 0 → e.incarnation.status.release_eligible ≡ false

-- Up to the first ramping incarnation only the ramping flag is kept.
abbrev pub HeadFalls : Bool → Incarnation → Entry → Type 0
HeadFalls true i e = FallsBack i e
HeadFalls false i e = e.incarnation.is_ramping ≡ i.is_ramping

-- The lists agree in length, and each incarnation behind a ramping one falls back.
abbrev pub FallsBehind : Bool → List Incarnation → List Entry → Type 0
FallsBehind behind [] [] = Unit
FallsBehind behind [] (e ∷ es) = ⊥
FallsBehind behind (i ∷ is) [] = ⊥
FallsBehind behind (i ∷ is) (e ∷ es) =
    HeadFalls behind i e × FallsBehind (behind || i.is_ramping) is es

module _ (now : ℕ) where
  assigned-HeadFalls :
      (behind : Bool) (percent : ℕ) (i : Incarnation)
      → (behind ≡ true → percent ≤ i.status.current_percent)
      → HeadFalls behind i (assigned now behind percent i)
  unfolding update_current_percent set_release_eligible
  assigned-HeadFalls true percent i h = ground (arith, h refl)
  assigned-HeadFalls false percent i h = ground arith

  top_up-HeadFalls :
      (left : ℕ) (i : Incarnation) (e : Entry)
      → HeadFalls false i e
      → HeadFalls false i (top_up now left e)
  unfolding update_current_percent
  top_up-HeadFalls left i e h = h

  top_up_here :
      (left : ℕ) (i : Incarnation) (is : List Incarnation) (e : Entry) (es es' : List Entry)
      (here : Bool) (there : Option (List Entry))
      → e.incarnation.is_ramping ≡ here
      → FallsBehind false (i ∷ is) (e ∷ es)
      → ((rest : List Entry)
          → there ≡ some rest
          → FallsBehind false is es
          → FallsBehind false is rest)
      → (if here
          then some (top_up now left e ∷ es)
          else elim there [ none ↦ none | some rest ↦ some (e ∷ rest) ])
        ≡ some es'
      → FallsBehind false (i ∷ is) es'
  top_up_here left i is e es es' true there same f ih h =
      subst (FallsBehind false (i ∷ is)) (some-injective h) (top_up-HeadFalls left i e f.0, f.1)
  top_up_here left i is e es es' false none same f ih h = absurd (ground arith)
  top_up_here left i is e es es' false (some rest) same f ih h =
      let ahead : i.is_ramping ≡ false = sym f.0 ∙ same in
      let behind = subst (λ b. FallsBehind b is es) ahead f.1 in
      let rest' = subst (λ b. FallsBehind b is rest) (sym ahead) (ih rest refl behind) in
      subst (FallsBehind false (i ∷ is)) (some-injective h) (f.0, rest')

  top_up_ramping-FallsBehind :
      (left : ℕ) (is : List Incarnation) (es es' : List Entry)
      → FallsBehind false is es
      → top_up_ramping now left es ≡ some es'
      → FallsBehind false is es'
  unfolding top_up_ramping
  top_up_ramping-FallsBehind left [] [] es' f h = absurd (ground arith)
  top_up_ramping-FallsBehind left [] (e ∷ es) es' f h = absurd f
  top_up_ramping-FallsBehind left (i ∷ is) [] es' f h = absurd f
  top_up_ramping-FallsBehind left (i ∷ is) (e ∷ es) es' f h =
      top_up_here left i is e es es' e.incarnation.is_ramping (top_up_ramping now left es) refl f
        (λ rest r g. top_up_ramping-FallsBehind left is es rest g r) h

  top_up_first-FallsBehind :
      (left : ℕ) (is : List Incarnation) (es : List Entry)
      → FallsBehind false is es
      → FallsBehind false is (top_up_first now left es)
  unfolding update_current_percent
  top_up_first-FallsBehind left [] [] f = tt
  top_up_first-FallsBehind left [] (e ∷ es) f = absurd f
  top_up_first-FallsBehind left (i ∷ is) [] f = absurd f
  top_up_first-FallsBehind left (i ∷ is) (e ∷ es) f = (f.0, f.1)

  spend-FallsBehind :
      (left : ℕ) (is : List Incarnation) (es : List Entry)
      → FallsBehind false is es
      → FallsBehind false is (spend now left es)
  unfolding spend
  spend-FallsBehind left is es f = elim (Bool-cases (ltb 0 left)) [
    | inl b ↦ elim (Option-cases (top_up_ramping now left es)) [
      | inl r ↦ rw (b, r) (top_up_first-FallsBehind left is es f)
      | inr (es', r) ↦ rw (b, r) (top_up_ramping-FallsBehind left is es es' f r)
    ]
    | inr b ↦ rw b f
  ]

module _ {F : Type 0} (c : Controller F) (now : ℕ) where
  Round-le :
      {behind : Bool} {remaining : ℕ} {i : Incarnation} {is : List Incarnation} {es : List Entry}
      {left : ℕ}
      → IsValid c i
      → remaining ≤ 100
      → (r : Round c now behind remaining i is es left) → behind ≡ true
      → r.percent ≤ i.status.current_percent
  Round-le {behind} {remaining} {i} v h r b =
      let (p, targets, le) =
        current_percent_target_total c now (percent_limit behind remaining i) i v in
      let same : p ≡ r.percent = finished-injective (sym targets ∙ r.targeted) in
      let small = percent_limit-le_current remaining i v.small h in
      let at_true = subst (λ b. p ≤ percent_limit b remaining i) b le in
      omega (arith, same, small, at_true)

  assign-FallsBehind :
      (behind : Bool) (remaining : ℕ) (is : List Incarnation) (es : List Entry) (left : ℕ)
      → All (IsValid c) is
      → remaining ≤ 100
      → assign c now behind remaining is ≡ finished (es, left)
      → FallsBehind behind is es
  unfolding assign
  assign-FallsBehind behind remaining [] es left v h e =
      subst (λ (r : List Entry × ℕ). FallsBehind behind [] r.0) (finished-injective e) tt
  assign-FallsBehind behind remaining (i ∷ is) es left v h e =
      let r = assign-Round c now behind remaining i is es left e in
      let ih =
        assign-FallsBehind (behind || i.is_ramping) (remaining - r.percent) is r.rest left v.1
          (omega arith) r.continued in
      subst (FallsBehind behind (i ∷ is)) (sym r.made)
        (assigned-HeadFalls now behind r.percent i (Round-le v.0 h r), ih)

  -- Of validated releasable incarnations, those behind the first ramping one gain no traffic, and
  -- are no longer eligible for release where they are left without any.
  pub divide-FallsBehind :
      (is : List Incarnation) (es : List Entry)
      → All (IsValid c) is
      → divide c now is ≡ finished es
      → FallsBehind false is es
  unfolding divide
  divide-FallsBehind is es v h =
      let (a, assigns, spends) = >>=-eq-finished (assign c now false 100 is) _ h in
      let falls = assign-FallsBehind false 100 is a.0 a.1 v (omega arith) assigns in
      subst (FallsBehind false is) (finished-injective spends)
        (spend-FallsBehind now a.1 is a.0 falls)
