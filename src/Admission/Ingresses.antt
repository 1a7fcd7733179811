-- ===== src/Admission/Ingresses.antt =====
-- api/v1alpha1/revision_webhook.go: the default ports of an admitted target.
use Prim.Native.String.{String}
use text.Mathlib.Text.{◌==◌ as str_eq}
use text.Mathlib.TextEquality.{eq_iff}
use picchu.Base.{
  Bool, true, false, Bool-cases, List, [], ◌∷◌, ◌++◌, if◌then◌else◌, none, some, ◌&&◌, ◌||◌, ◌≡◌,
  refl, sym, ap, ◌∙◌, subst, ◌⊎◌, inl, inr, arith, any_if,
}
use picchu.Objects.{Entries, StringMap, entries, has_key, lookup}
use picchu.Admission.{Port, Target}
use picchu.Admission.Patches.{
  Buckets, ingresses_of, track, track_all, bucket_ports, bucket_ingress_ports,
}
use picchu.Admission.Validate.{
  FieldError, unless, is_nil, name_at, bucket_errors, has_bucket, default_errors, target_errors,
}
use picchu.Admission.Ramps.{append-nil, unless-nil, target_errors-parts}

-- Whether a port is exposed through an ingress.
abbrev pub exposes : String → Port → Bool
exposes g p = any_if (λ i. str_eq i g) (ingresses_of p)

any_if-append :
    {A : Type 0} (f : A → Bool) (xs ys : List A)
    → any_if f (xs ++ ys) ≡ (any_if f xs || any_if f ys)
any_if-append f [] ys = refl
any_if-append f (x ∷ xs) ys = ground (arith, any_if-append f xs ys)

any_if-both :
    {A : Type 0} (p q : A → Bool) (xs : List A)
    → any_if p xs ≡ false
    → any_if (λ x. p x && q x) xs ≡ false
any_if-both p q [] h = refl
any_if-both p q (x ∷ xs) h = ground (arith, any_if-both p q xs, h)

module _ (f : Port → Bool) (g : String) where
  -- Whether the bucket of the ingress has a port that passes the test.
  abbrev any_at : Buckets → Bool
  any_at = any_if (λ b. str_eq b.0 g && any_if f b.1)

  any_at-track :
      (p : Port) (i : String) (b : Buckets)
      → any_at (track p i b) ≡ ((str_eq i g && f p) || any_at b)
  unfolding track
  any_at-track p i [] = ground arith
  any_at-track p i ((j, ps) ∷ b) = elim (Bool-cases (str_eq j i)) [
    | inl e ↦
        ground (arith, e, ap (λ s. str_eq s g) ((eq_iff j i).0 e), any_if-append f ps (p ∷ []))
    | inr e ↦ ground (arith, e, any_at-track p i b)
  ]

  any_at-track_all :
      (p : Port) (is : List String) (b : Buckets)
      → any_at (track_all p is b) ≡ ((any_if (λ i. str_eq i g) is && f p) || any_at b)
  unfolding track_all
  any_at-track_all p [] b = refl
  any_at-track_all p (i ∷ is) b =
      ground (arith, any_at-track_all p is (track p i b), any_at-track p i b)

  any_at-bucket_ports :
      (ps : List Port) (b : Buckets)
      → any_at (bucket_ports ps b) ≡ (any_if (λ p. exposes g p && f p) ps || any_at b)
  unfolding bucket_ports
  any_at-bucket_ports [] b = refl
  any_at-bucket_ports (p ∷ ps) b = ground (
    arith,
    any_at-bucket_ports ps (track_all p (ingresses_of p) b),
    any_at-track_all p (ingresses_of p) b,
  )

module _ (is_duration : String → Bool) (g : String) where
  has_bucket-track :
      (p : Port) (i : String) (b : Buckets)
      → has_bucket is_duration g (track p i b) ≡ (str_eq i g || has_bucket is_duration g b)
  unfolding track
  has_bucket-track p i [] = refl
  has_bucket-track p i ((j, ps) ∷ b) = elim (Bool-cases (str_eq j i)) [
    | inl e ↦ ground (arith, e, ap (λ s. str_eq s g) ((eq_iff j i).0 e))
    | inr e ↦ ground (arith, e, has_bucket-track p i b)
  ]

  has_bucket-track_all :
      (p : Port) (is : List String) (b : Buckets)
      → has_bucket is_duration g (track_all p is b)
        ≡ (any_if (λ i. str_eq i g) is || has_bucket is_duration g b)
  unfolding track_all
  has_bucket-track_all p [] b = refl
  has_bucket-track_all p (i ∷ is) b =
      ground (arith, has_bucket-track_all p is (track p i b), has_bucket-track p i b)

  has_bucket-bucket_ports :
      (ps : List Port) (b : Buckets)
      → has_bucket is_duration g (bucket_ports ps b)
        ≡ (any_if (exposes g) ps || has_bucket is_duration g b)
  unfolding bucket_ports
  has_bucket-bucket_ports [] b = refl
  has_bucket-bucket_ports (p ∷ ps) b = ground (
    arith,
    has_bucket-bucket_ports ps (track_all p (ingresses_of p) b),
    has_bucket-track_all p (ingresses_of p) b,
  )

  -- A bucket without errors has its default among its ports.
  bucket_errors-nil :
      (defaults : StringMap) (b : Buckets)
      → bucket_errors is_duration defaults b ≡ []
      → has_bucket is_duration g b ≡ true
      → any_at (λ p. str_eq (name_at is_duration g defaults) p.name) g b ≡ true
  unfolding bucket_errors
  bucket_errors-nil defaults [] h k = absurd (ground arith)
  bucket_errors-nil defaults ((i, ps) ∷ b) h k =
      let (_, h₁) =
        append-nil (if is_nil is_duration defaults then FieldError.required i ∷ [] else []) _ h in
      let (own, rest) =
        append-nil
          (unless (any_if (λ p. str_eq (name_at is_duration i defaults) p.name) ps)
            (FieldError.not_found i))
          _ h₁ in
      elim (Bool-cases (str_eq i g)) [
        | inl e ↦ ground (
          arith,
          e,
          subst (λ s. any_if (λ p. str_eq (name_at is_duration s defaults) p.name) ps ≡ true)
              ((eq_iff i g).0 e) (unless-nil _ _ own),
        )
        | inr e ↦ ground (arith, e, bucket_errors-nil defaults b rest (ground (arith, e, k)))
      ]

  default_errors-nil :
      (b : Buckets) (defaults : Entries)
      → default_errors is_duration b defaults ≡ []
      → has_key g defaults ≡ true
      → has_bucket is_duration g b ≡ true
  unfolding default_errors has_key
  default_errors-nil b [] h k = absurd (ground arith)
  default_errors-nil b ((i, name) ∷ defaults) h k =
      let (own, rest) =
        append-nil (unless (has_bucket is_duration i b) (FieldError.not_exposed i)) _ h in
      elim (Bool-cases (str_eq i g)) [
        | inl e ↦
            subst (λ s. has_bucket is_duration s b ≡ true) ((eq_iff i g).0 e) (unless-nil _ _ own)
        | inr e ↦ default_errors-nil b defaults rest (ground (arith, e, k))
      ]

  has_name-exposes :
      (name : String) (ps : List Port)
      → any_if (λ p. str_eq name p.name) ps ≡ false
      → any_if (λ p. exposes g p && str_eq name p.name) ps ≡ false
  has_name-exposes name [] h = refl
  has_name-exposes name (p ∷ ps) h = ground (arith, h, has_name-exposes name ps)

  name_at-missing : (m : StringMap) → has_key g (entries m) ≡ false → name_at is_duration g m ≡ ""
  unfolding has_key lookup
  name_at-missing m h = missing (entries m) h
    where
      missing :
          (m : Entries)
          → has_key g m ≡ false
          → elim (lookup g m) as (λ _. String) [ none ↦ "" | some name ↦ name ] ≡ ""
      missing [] h = refl
      missing ((k, v) ∷ m) h = ground (arith, h, missing m)

  target_errors-exposes :
      (t : Target)
      → target_errors is_duration t ≡ []
      → (any_if (exposes g) t.ports
          ≡ any_if
              (λ p. exposes g p && str_eq (name_at is_duration g t.default_ingress_ports) p.name)
              t.ports)
        × ((has_key g (entries t.default_ingress_ports) ≡ false)
            ⊎ (any_if (exposes g) t.ports ≡ true))
  target_errors-exposes t h =
      let f = λ (p : Port). str_eq (name_at is_duration g t.default_ingress_ports) p.name in
      let b = bucket_ingress_ports t in
      let (_, buckets, defaults) = target_errors-parts is_duration t h in
      let has = has_bucket-bucket_ports t.ports [] in
      let passes = any_at-bucket_ports f g t.ports [] in
      (
        elim (Bool-cases (any_if (exposes g) t.ports)) [
          | inl e ↦
              let found =
                bucket_errors-nil t.default_ingress_ports b buckets (ground (arith, has, e)) in
              ground (arith, e, found, passes)
          | inr e ↦ e ∙ sym (any_if-both (exposes g) f t.ports e)
        ],
        elim (Bool-cases (has_key g (entries t.default_ingress_ports))) [
          | inl e ↦
              let found = default_errors-nil b (entries t.default_ingress_ports) defaults e in
              inr (ground (arith, found, has))
          | inr e ↦ inl e
        ],
      )

  -- In an admitted target whose ports all have names, the ingresses with a default port are those
  -- that some port is exposed through, and the default port of an ingress is one of the ports that
  -- are exposed through it.
  pub target_errors-ingresses :
      (t : Target)
      → any_if (λ p. str_eq "" p.name) t.ports ≡ false
      → target_errors is_duration t ≡ []
      → (has_key g (entries t.default_ingress_ports) ≡ any_if (exposes g) t.ports)
        × (any_if (exposes g) t.ports
            ≡ any_if
                (λ p. exposes g p && str_eq (name_at is_duration g t.default_ingress_ports) p.name)
                t.ports)
  target_errors-ingresses t named h =
      let (exposed, has) = target_errors-exposes t h in
      (
        elim (Bool-cases (has_key g (entries t.default_ingress_ports))) [
          | inl e ↦ ground (arith, e, has)
          | inr e ↦
              let name = name_at is_duration g t.default_ingress_ports in
              let none_there = has_name-exposes name t.ports (
                ap (λ n. any_if (λ p. str_eq n p.name) t.ports)
                  (name_at-missing t.default_ingress_ports e)
                ∙ named) in
              e ∙ sym (exposed ∙ none_there)
        ],
        exposed,
      )
