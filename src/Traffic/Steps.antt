-- ===== src/Traffic/Steps.antt =====
-- Inversion of one round of the loop in `prepareRevisions` (controllers/syncer.go).
use picchu.Base.{
  ℕ, ◌-◌, ◌≤◌, Bool, ◌||◌, List, ◌∷◌, ◌≡◌, arith, Panics, panicked, finished, ◌>>=◌,
  >>=-eq-finished, ltb, Bool-cases, inl, inr,
}
use picchu.Incarnation.{Incarnation, Controller, current_percent_target}
use picchu.Traffic.{Entry, percent_limit, assigned, assign, with_entry}

module _ {F : Type 0} (c : Controller F) (now : ℕ) where
  -- What a round that finishes did.
  pub record Round (behind : Bool) (remaining : ℕ) (i : Incarnation) (is : List Incarnation)
      (es : List Entry) (left : ℕ) : Type 0 where
    pub percent : ℕ
    pub rest : List Entry
    pub targeted :
        current_percent_target c now (percent_limit behind remaining i) i ≡ finished percent
    pub within : percent ≤ remaining
    pub continued :
        assign c now (behind || i.is_ramping) (remaining - percent) is ≡ finished (rest, left)
    pub made : es ≡ assigned now behind percent i ∷ rest

  round_rest :
      (e : Entry) (m : Panics (List Entry × ℕ)) (es : List Entry) (left : ℕ)
      → (m >>= with_entry e) ≡ finished (es, left)
      → (rest : List Entry) × (m ≡ finished (rest, left)) × (es ≡ e ∷ rest)
  round_rest e panicked es left h = absurd (ground arith)
  round_rest e (finished (rest, l)) es left h = (rest, ground arith, ground arith)

  pub assign-Round :
      (behind : Bool) (remaining : ℕ) (i : Incarnation) (is : List Incarnation) (es : List Entry)
      (left : ℕ)
      → assign c now behind remaining (i ∷ is) ≡ finished (es, left)
      → Round behind remaining i is es left
  unfolding assign
  assign-Round behind remaining i is es left h =
      let (p, targeted, tested) =
        >>=-eq-finished (current_percent_target c now (percent_limit behind remaining i) i) _ h in
      elim (Bool-cases (ltb remaining p)) [
        | inl above ↦ absurd (ground (arith, rw above at tested))
        | inr within ↦
            let (rest, continued, made) = round_rest _ _ es left (rw within at tested) in
            record {
              percent = p;
              rest = rest;
              targeted = targeted;
              within = ground arith;
              continued = continued;
              made = made;
            }
      ]
