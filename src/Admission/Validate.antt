-- ===== src/Admission/Validate.antt =====
-- api/v1alpha1/revision_webhook.go: `validate`. time.ParseDuration of the standard library is a
-- parameter: whether it succeeds.
use Prim.Native.String.{String}
use text.Mathlib.Text.{◌==◌ as str_eq}
use picchu.Base.{
  Bool, true, false, Option, none, some, List, [], ◌∷◌, ◌++◌, if◌then◌else◌, ◌||◌, ◌&&◌, any_if,
}
use picchu.Objects.{Entries, StringMap, entries, lookup, has_key}
use picchu.Admission.{Target, Budget}
use picchu.Admission.Patches.{Buckets, bucket_ingress_ports}

pub data FieldError : Type 0 where
  both_budgets bad_disrupt annotated bad_strategy : FieldError
  required not_found not_exposed : String → FieldError

-- An error where the test fails.
abbrev pub unless : Bool → FieldError → List FieldError
unless true e = []
unless false e = e ∷ []

abbrev pub budget_errors : Option Budget → List FieldError
budget_errors none = []
budget_errors (some b) =
    if b.max_unavailable && b.min_available then FieldError.both_budgets ∷ [] else []

module _ (is_duration : String → Bool) where
  -- `ValidateKarpenterDoNotDisrupt`
  abbrev pub disrupt_is_valid : String → Bool
  disrupt_is_valid s = (str_eq s "" || str_eq s "true") || is_duration s

  abbrev pub disrupt_errors : Target → List FieldError
  disrupt_errors t =
      if str_eq t.karpenter_do_not_disrupt ""
      then []
      else unless (disrupt_is_valid t.karpenter_do_not_disrupt) FieldError.bad_disrupt
        ++ (if has_key "karpenter.sh/do-not-disrupt" t.pod_annotations
            then FieldError.annotated ∷ []
            else [])

  abbrev pub strategy_is_known : String → Bool
  strategy_is_known s = str_eq s "" || (str_eq s "linear" || str_eq s "geometric")

  -- A read of a missing key gives the empty name.
  abbrev pub name_at : String → StringMap → String
  name_at ingress m = elim (lookup ingress (entries m)) [ none ↦ "" | some name ↦ name ]

  abbrev pub is_nil : StringMap → Bool
  is_nil none = true
  is_nil (some m) = false

  -- The loop over the buckets.
  unfoldable pub bucket_errors : StringMap → Buckets → List FieldError
  bucket_errors defaults [] = []
  bucket_errors defaults ((ingress, ports) ∷ rest) =
      (if is_nil defaults then FieldError.required ingress ∷ [] else [])
      ++ (unless (any_if (λ p. str_eq (name_at ingress defaults) p.name) ports)
            (FieldError.not_found ingress)
          ++ bucket_errors defaults rest)

  abbrev pub has_bucket : String → Buckets → Bool
  has_bucket ingress = any_if (λ b. str_eq b.0 ingress)

  -- The loop over the defaults.
  unfoldable pub default_errors : Buckets → Entries → List FieldError
  default_errors buckets [] = []
  default_errors buckets ((ingress, name) ∷ rest) =
      unless (has_bucket ingress buckets) (FieldError.not_exposed ingress)
      ++ default_errors buckets rest

  unfoldable pub target_errors : Target → List FieldError
  unfolding bucket_errors default_errors
  target_errors t =
      budget_errors t.pod_disruption_budget
      ++ (disrupt_errors t
          ++ (unless (strategy_is_known t.release.scaling_strategy) FieldError.bad_strategy
              ++ (bucket_errors t.default_ingress_ports (bucket_ingress_ports t)
                  ++ default_errors (bucket_ingress_ports t) (entries t.default_ingress_ports))))

  -- `validate` succeeds where there are no errors.
  unfoldable pub validate : List Target → List FieldError
  unfolding target_errors
  validate [] = []
  validate (t ∷ ts) = target_errors t ++ validate ts
