-- ===== src/Appliers/Every.antt =====
-- plan/applier.go: a plan that all clusters took.
use mathlib.Core.List.{Perm}
use picchu.Base.{
  Bool, true, false, Option, none, some, List, [], ◌∷◌, every, every-perm, finished,
  finished-injective, >>=-eq-finished, ◌≡◌, refl, sym, ap, ◌∙◌, subst, arith,
}
use picchu.Appliers.{Applied, run_all, first_error, apply_concurrently}

-- Each cluster is as the plan left it, without an error.
abbrev pub AllApplied : {W Err : Type 0} → (W → Applied W Err) → List W → List W → Type 0
AllApplied plan [] [] = Unit
AllApplied plan [] (v ∷ vs) = ⊥
AllApplied plan (w ∷ ws) [] = ⊥
AllApplied plan (w ∷ ws) (v ∷ vs) = (plan w ≡ finished (none, v)) × AllApplied plan ws vs

abbrev is_none : {Err : Type 0} → Option Err → Bool
is_none none = true
is_none (some e) = false

first_error-none :
    {Err : Type 0} (es : List (Option Err)) → first_error es ≡ none → every is_none es ≡ true
unfolding first_error
first_error-none [] h = refl
first_error-none (none ∷ es) h = first_error-none es h
first_error-none (some e ∷ es) h = absurd (ground (arith, h))

is_none-none : {Err : Type 0} (e : Option Err) → is_none e ≡ true → e ≡ none
is_none-none none h = refl
is_none-none (some e) h = absurd (ground (arith, h))

module _ {W Err : Type 0} (plan : W → Applied W Err) where
  run_all-AllApplied :
      (ws vs : List W) (es : List (Option Err))
      → run_all plan ws ≡ finished (es, vs)
      → every is_none es ≡ true
      → AllApplied plan ws vs
  unfolding run_all
  run_all-AllApplied [] vs es h fine =
      subst (AllApplied plan []) (ap (λ x. x.1) (finished-injective h)) tt
  run_all-AllApplied (w ∷ ws) vs es h fine =
      let ((e, w'), ran, rest) = >>=-eq-finished (plan w) _ h in
      let ((es', ws'), others, last) = >>=-eq-finished (run_all plan ws) _ rest in
      let fine' : every is_none (e ∷ es') ≡ true =
        ap (every is_none) (ap (λ x. x.0) (finished-injective last)) ∙ fine in
      let clear = is_none-none e (ground (arith, fine')) in
      subst (AllApplied plan (w ∷ ws)) (ap (λ x. x.1) (finished-injective last)) (
        ran ∙ ap (λ x. finished (x, w')) clear,
        run_all-AllApplied ws ws' es' others (ground (arith, fine')),
      )

  -- In whatever order the goroutines end, `ConcurrentApplier.Apply` returns nil only if the plan
  -- returned nil in every cluster, and each cluster is then as the plan left it.
  pub apply_concurrently-AllApplied :
      (order : List (Option Err) → List (Option Err)) (ws vs : List W)
      → ((es : List (Option Err)) → Perm (order es) es)
      → apply_concurrently order plan ws ≡ finished (none, vs)
      → AllApplied plan ws vs
  unfolding apply_concurrently
  apply_concurrently-AllApplied order ws vs permutes h =
      let ((es, ws'), ran, last) = >>=-eq-finished (run_all plan ws) _ h in
      let same = finished-injective last in
      subst (AllApplied plan ws) (ap (λ x. x.1) same) (
        run_all-AllApplied ws ws' es ran (
          sym (every-perm is_none (permutes es))
          ∙ first_error-none (order es) (ap (λ x. x.0) same)))
