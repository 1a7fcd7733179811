-- ===== src/Objects/Again.antt =====
-- plan/common.go: a second `CreateOrUpdate` with the same wanted object.
use Prim.Native.String.{String}
use text.Mathlib.Text.{◌==◌ as str_eq}
use text.Mathlib.TextEquality.{eq_iff}
use picchu.Base.{
  ℕ, Bool, true, false, Bool-cases, Option, Option-cases, none, some, Panics, finished,
  finished-injective, ◌>>=◌, if◌then◌else◌, ◌≡◌, refl, sym, ap, ◌∙◌, subst, inl, inr, arith, ◌≢◌,
}
use picchu.Objects.{Object, Kind, Entries, lookup, entries, StringMap, is_ignored}
use picchu.Objects.Kinds.{Case, unless_ignored, always, paused, paused_annotations, sync_pause}
use picchu.Objects.Store.{case_of}
use picchu.Objects.ReplicaSets.{
  sync_replica_set, sync_replicas, sync_template, is_worker, or_zero, next_replicas, is_empty,
  annotation_do_not_disrupt, keep_annotation, write_annotation,
}
use picchu.Objects.Maps.{lookup-remove, insert-insert, insert-eq, remove-eq}
use picchu.Objects.Running.{sync_replica_set-steps, sync_template-replicas, sync_replicas-eq}

write_annotation-again :
    (v : Option String) (m : Entries)
    → write_annotation v (write_annotation v m) ≡ write_annotation v m
write_annotation-again none m =
    remove-eq annotation_do_not_disrupt _ (lookup-remove annotation_do_not_disrupt m)
write_annotation-again (some v) m = elim (Bool-cases (str_eq v "")) [
  | inl e ↦
      ground (
        arith,
        e,
        remove-eq annotation_do_not_disrupt _ (lookup-remove annotation_do_not_disrupt m),
      )
  | inr e ↦ ground (arith, e, insert-insert annotation_do_not_disrupt v m)
]

keep_annotation-again :
    (w a : StringMap) → keep_annotation w (keep_annotation w a) ≡ keep_annotation w a
keep_annotation-again w none = refl
keep_annotation-again w (some m) =
    ap some (write_annotation-again (lookup annotation_do_not_disrupt (entries w)) m)

write_annotation-own :
    (v : Option String) (m : Entries)
    → lookup annotation_do_not_disrupt m ≡ v
    → v ≢ some ""
    → write_annotation v m ≡ m
write_annotation-own none m h full = remove-eq annotation_do_not_disrupt m h
write_annotation-own (some v) m h full = elim (Bool-cases (str_eq v "")) [
  | inl e ↦ absurd (full (ap some ((eq_iff v "").0 e)))
  | inr e ↦ ground (arith, e, insert-eq annotation_do_not_disrupt v m h)
]

paused_annotations-again :
    (v : Option String) (a : StringMap)
    → paused_annotations v (paused_annotations v a) ≡ paused_annotations v a
paused_annotations-again none none = refl
paused_annotations-again none (some m) = ap some (remove-eq paused _ (lookup-remove paused m))
paused_annotations-again (some v) a = ap some (insert-insert paused v (entries a))

next_replicas-again : (w r : ℕ) → next_replicas w (next_replicas w r) ≡ next_replicas w r
next_replicas-again w r = ground arith

module _ {V : Type 0} (typed : Object V) where
  keep_annotation-own :
      (w : StringMap)
      → lookup annotation_do_not_disrupt (entries w) ≢ some ""
      → keep_annotation w w ≡ w
  keep_annotation-own none full = refl
  keep_annotation-own (some m) full =
      ap some (write_annotation-own (lookup annotation_do_not_disrupt m) m refl full)

  settle : Object V → Object V
  settle x = record (sync_template typed x) { selector = typed.selector; labels = typed.labels }

  -- The two outcomes of `settle`.
  abbrev filled : Object V → Object V
  filled x = record x {
    template = typed.template;
    template_labels = typed.template_labels;
    template_annotations = typed.template_annotations;
    selector = typed.selector;
    labels = typed.labels;
  }

  abbrev frozen : Object V → Object V
  frozen x = record x {
    template_annotations = keep_annotation typed.template_annotations x.template_annotations;
    selector = typed.selector;
    labels = typed.labels;
  }

  settle-filled : (x : Object V) → is_empty x.template_labels ≡ true → settle x ≡ filled x
  unfolding settle sync_template
  settle-filled x h = ground (arith, h)

  settle-frozen : (x : Object V) → is_empty x.template_labels ≡ false → settle x ≡ frozen x
  unfolding settle sync_template
  settle-frozen x h = ground (arith, h)

  settle-filled-again :
      (x : Object V)
      → lookup annotation_do_not_disrupt (entries typed.template_annotations) ≢ some ""
      → settle (filled x) ≡ filled x
  settle-filled-again x full = elim (Bool-cases (is_empty typed.template_labels)) [
    | inl e ↦ settle-filled (filled x) e
    | inr e ↦
        settle-frozen (filled x) e
        ∙ ap (λ a. record (filled x) { template_annotations = a })
            (keep_annotation-own typed.template_annotations full)
  ]

  settle-again :
      (x : Object V)
      → lookup annotation_do_not_disrupt (entries typed.template_annotations) ≢ some ""
      → settle (settle x) ≡ settle x
  settle-again x full = elim (Bool-cases (is_empty x.template_labels)) [
    | inl e ↦ subst (λ y. settle y ≡ y) (sym (settle-filled x e)) (settle-filled-again x full)
    | inr e ↦
        subst (λ y. settle y ≡ y) (sym (settle-frozen x e))
          (settle-frozen (frozen x) e
            ∙ ap (λ a. record (frozen x) { template_annotations = a })
                (keep_annotation-again typed.template_annotations x.template_annotations))
  ]

  settle-replicas : (x : Object V) → (settle x).replicas ≡ x.replicas
  unfolding settle
  settle-replicas x = sync_template-replicas typed x

  sync_replicas-again :
      (p x o : Object V)
      → sync_replicas typed p ≡ finished x
      → o.replicas ≡ x.replicas
      → sync_replicas typed o ≡ finished o
  unfolding sync_replicas
  sync_replicas-again p x o h same = elim (Bool-cases (is_worker typed)) [
    | inl e ↦ ground (arith, e)
    | inr e ↦ elim (Option-cases typed.replicas) [
      | inl none_wanted ↦ absurd (ground (arith, e, none_wanted))
      | inr (w, wanted) ↦
          let n = next_replicas w (or_zero p.replicas) in
          let first = finished-injective (sym (sync_replicas-eq typed w p wanted e) ∙ h) in
          let set = same ∙ ap (λ r. r.replicas) (sym first) in
          sync_replicas-eq typed w o wanted e
          ∙ ap (λ r. finished (record o { replicas = some (next_replicas w (or_zero r)) })) set
          ∙ ap (λ m. finished (record o { replicas = some m }))
              (next_replicas-again w (or_zero p.replicas))
          ∙ ap (λ r. finished (record o { replicas = r })) (sym set)
    ]
  ]

  sync_replica_set-again :
      (p o : Object V)
      → lookup annotation_do_not_disrupt (entries typed.template_annotations) ≢ some ""
      → sync_replica_set typed p ≡ finished o
      → sync_replica_set typed o ≡ finished o
  unfolding sync_replica_set settle
  sync_replica_set-again p o full h =
      let (x, first, last) = sync_replica_set-steps typed p o h in
      ap (λ m. m >>= λ rs. finished (settle rs))
        (sync_replicas-again p x o first (ap (λ r. r.replicas) (sym last) ∙ settle-replicas x))
      ∙ ap finished (subst (λ y. settle y ≡ y) last (settle-again x full))

module _ {V : Type 0} where
  -- A function that changes nothing the second time keeps that under the guard.
  unless_ignored-again :
      (f : Object V → Panics (Object V))
      → ((p o : Object V) → f p ≡ finished o → f o ≡ finished o)
      → (p o : Object V) → unless_ignored f p ≡ finished o
      → unless_ignored f o ≡ finished o
  unfolding unless_ignored
  unless_ignored-again f again p o h =
      let choose = λ (b : Bool) (x : Object V). if b then finished x else f x in
      elim (Bool-cases (is_ignored p)) [
        | inl e ↦
            subst (λ y. choose (is_ignored y) y ≡ finished y)
              (finished-injective (sym (ap (λ b. choose b p) e) ∙ h)) (ap (λ b. choose b p) e)
        | inr e ↦ elim (Bool-cases (is_ignored o)) [
          | inl e' ↦ ap (λ b. choose b o) e'
          | inr e' ↦ ap (λ b. choose b o) e' ∙ again p o (sym (ap (λ b. choose b p) e) ∙ h)
        ]
      ]

  always-again :
      (f : Object V → Object V)
      → ((x : Object V) → f (f x) ≡ f x)
      → (p o : Object V) → always f p ≡ finished o
      → always f o ≡ finished o
  always-again f again =
      unless_ignored-again (λ x. finished (f x))
        (λ p o h. ap finished (subst (λ y. f y ≡ y) (finished-injective h) (again p)))

  Repeats : Option (Case V) → Type 0
  Repeats none = Unit
  Repeats (some k) = (p o : Object V) → k.change p ≡ finished o → k.change o ≡ finished o

  case_of-Repeats :
      (kind : Kind) (blank typed : Object V)
      → lookup annotation_do_not_disrupt (entries typed.template_annotations) ≢ some ""
      → Repeats (case_of kind blank typed)
  unfolding case_of Repeats
  case_of-Repeats Kind.name_space blank typed full = always-again _ (λ x. refl)
  case_of-Repeats Kind.service blank typed full = always-again _ (λ x. refl)
  case_of-Repeats Kind.service_account blank typed full = always-again _ (λ x. refl)
  case_of-Repeats Kind.destination_rule blank typed full = always-again _ (λ x. refl)
  case_of-Repeats Kind.virtual_service blank typed full = always-again _ (λ x. refl)
  case_of-Repeats Kind.sidecar blank typed full = always-again _ (λ x. refl)
  case_of-Repeats Kind.gateway blank typed full = always-again _ (λ x. refl)
  case_of-Repeats Kind.prometheus_rule blank typed full = always-again _ (λ x. refl)
  case_of-Repeats Kind.service_monitor blank typed full = always-again _ (λ x. refl)
  case_of-Repeats Kind.prometheus_service_level blank typed full = always-again _ (λ x. refl)
  case_of-Repeats Kind.external_secret blank typed full = always-again _ (λ x. refl)
  case_of-Repeats Kind.config_map blank typed full = always-again _ (λ x. refl)
  case_of-Repeats Kind.horizontal_pod_autoscaler blank typed full = always-again _ (λ x. refl)
  case_of-Repeats Kind.datadog_metric blank typed full = always-again _ (λ x. refl)
  case_of-Repeats Kind.worker_pod_autoscaler blank typed full = always-again _ (λ x. refl)
  case_of-Repeats Kind.trigger_authentication blank typed full = always-again _ (λ x. refl)
  case_of-Repeats Kind.pod_disruption_budget blank typed full = always-again _ (λ x. refl)
  case_of-Repeats Kind.role blank typed full = always-again _ (λ x. refl)
  case_of-Repeats Kind.role_binding blank typed full = always-again _ (λ x. refl)
  case_of-Repeats Kind.secret blank typed full = always-again _ (λ x. refl)
  case_of-Repeats Kind.replica_set blank typed full =
      unless_ignored-again (sync_replica_set typed) (λ p o. sync_replica_set-again typed p o full)
  case_of-Repeats Kind.scaled_object blank typed full = always-again (sync_pause typed) (λ x.
      ap (λ a. record x { spec = typed.spec; annotations = a })
        (paused_annotations-again (lookup paused (entries typed.annotations)) x.annotations))
  case_of-Repeats Kind.unsupported blank typed full = tt

  -- Where the wanted pod template does not hold the annotation against disruption with an empty
  -- text, an object that `CreateOrUpdate` has brought in line is left as it is by the same call.
  pub change-again :
      (kind : Kind) (blank typed : Object V) (k : Case V) (p o : Object V)
      → case_of kind blank typed ≡ some k
      → lookup annotation_do_not_disrupt (entries typed.template_annotations) ≢ some ""
      → k.change p ≡ finished o
      → k.change o ≡ finished o
  unfolding Repeats
  change-again kind blank typed k p o found full h =
      subst Repeats found (case_of-Repeats kind blank typed full) p o h
