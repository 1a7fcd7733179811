-- ===== src/Objects/Maps.antt =====
-- plan/common.go: what a write and a deletion of a key make of a map.
use Prim.Native.String.{String}
use text.Mathlib.Text.{◌==◌ as str_eq}
use text.Mathlib.TextEquality.{eq_iff}
use text.Mathlib.TextPositions.{eq_refl}
use picchu.Base.{
  true, false, Bool-cases, none, some, [], ◌∷◌, if◌then◌else◌, ◌≡◌, refl, ap, sym, ◌∙◌, inl, inr,
  arith,
}
use picchu.Objects.{Entries, lookup, insert, remove}

module _ (key : String) where
  pub lookup-insert : (value : String) (m : Entries) → lookup key (insert key value m) ≡ some value
  unfolding lookup insert
  lookup-insert value [] = ground (arith, eq_refl key)
  lookup-insert value ((k, v) ∷ m) = ground (arith, eq_refl key, lookup-insert value m)

  pub lookup-remove : (m : Entries) → lookup key (remove key m) ≡ none
  unfolding lookup remove
  lookup-remove [] = refl
  lookup-remove ((k, v) ∷ m) = ground (arith, lookup-remove m)

  pub insert-insert :
      (value : String) (m : Entries) → insert key value (insert key value m) ≡ insert key value m
  unfolding insert
  insert-insert value [] = ground (arith, eq_refl key)
  insert-insert value ((k, v) ∷ m) = ground (arith, eq_refl key, insert-insert value m)

  pub remove-eq : (m : Entries) → lookup key m ≡ none → remove key m ≡ m
  unfolding lookup remove
  remove-eq [] h = refl
  remove-eq ((k, v) ∷ m) h = elim (Bool-cases (str_eq k key)) [
    | inl e ↦ absurd (ground (arith, e, h))
    | inr e ↦
        ground (arith, e, remove-eq m (sym (ap (λ b. if b then some v else lookup key m) e) ∙ h))
  ]

  pub insert-eq :
      (value : String) (m : Entries) → lookup key m ≡ some value → insert key value m ≡ m
  unfolding lookup insert
  insert-eq value [] h = absurd (ground arith)
  insert-eq value ((k, v) ∷ m) h = elim (Bool-cases (str_eq k key)) [
    | inl e ↦ ground (arith, e, h)
    | inr e ↦
        ground
          (arith, e, insert-eq value m (sym (ap (λ b. if b then some v else lookup key m) e) ∙ h))
  ]

module _ (key other : String) (differ : str_eq key other ≡ false) where
  skips : (k : String) → str_eq k key ≡ true → str_eq k other ≡ false
  skips k h = ap (λ s. str_eq s other) ((eq_iff k key).0 h) ∙ differ

  pub lookup-insert-other :
      (value : String) (m : Entries) → lookup other (insert key value m) ≡ lookup other m
  unfolding lookup insert
  lookup-insert-other value [] = ground (arith, differ)
  lookup-insert-other value ((k, v) ∷ m) = elim (Bool-cases (str_eq k key)) [
    | inl e ↦ ground (arith, e, skips k e)
    | inr e ↦ ground (arith, e, lookup-insert-other value m)
  ]

  pub lookup-remove-other : (m : Entries) → lookup other (remove key m) ≡ lookup other m
  unfolding lookup remove
  lookup-remove-other [] = refl
  lookup-remove-other ((k, v) ∷ m) = elim (Bool-cases (str_eq k key)) [
    | inl e ↦ ground (arith, e, skips k e, lookup-remove-other m)
    | inr e ↦ ground (arith, e, lookup-remove-other m)
  ]
