-- ===== src/Appliers/Samples.antt =====
-- Witness for the appliers (plan/applier.go): two clusters that keep a count.
use mathlib.Core.List.Perm
use picchu.Base.{ℕ, suc, none, [], ◌∷◌, finished, refl}
use picchu.Appliers.{Applied, apply_concurrently}
use picchu.Appliers.Every.{AllApplied, apply_concurrently-AllApplied}

abbrev counts : ℕ → Applied ℕ ℕ
counts n = finished (none, suc n)

apply_concurrently-AllApplied_example : AllApplied counts (1 ∷ 5 ∷ []) (2 ∷ 6 ∷ [])
unfolding apply_concurrently
apply_concurrently-AllApplied_example =
    apply_concurrently-AllApplied counts (λ es. es) (1 ∷ 5 ∷ []) (2 ∷ 6 ∷ []) (λ es. Perm.rfl) refl
