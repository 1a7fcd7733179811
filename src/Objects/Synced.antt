-- ===== src/Objects/Synced.antt =====
-- plan/common.go: what each case of `CreateOrUpdate` copies.
use Prim.Native.String.{String}
use text.Mathlib.Text.{◌==◌ as str_eq}
use text.Mathlib.TextEquality.{eq_iff}
use picchu.Base.{
  true, false, Bool-cases, Option, none, some, Panics, finished, finished-injective,
  >>=-eq-finished, if◌then◌else◌, ◌≡◌, refl, sym, ap, ◌∙◌, subst, inl, inr, arith,
}
use picchu.Objects.{Object, Kind, StringMap, entries, lookup, insert, remove, is_ignored}
use picchu.Objects.Maps.{lookup-insert, lookup-remove, lookup-insert-other, lookup-remove-other}
use picchu.Objects.Running.{
  SyncedReplicas, SyncedTemplate, sync_replica_set-SyncedReplicas, sync_replica_set-SyncedTemplate,
}
use picchu.Objects.Kinds.{Case, unless_ignored, always, paused, paused_annotations}
use picchu.Objects.ReplicaSets.{sync_replica_set, sync_replicas}
use picchu.Objects.Store.{case_of}

paused_annotations-lookup :
    (v : Option String) (a : StringMap) (key : String)
    → lookup key (entries (paused_annotations v a))
      ≡ (if str_eq paused key then v else lookup key (entries a))
unfolding lookup
paused_annotations-lookup none none key = ground arith
paused_annotations-lookup none (some m) key = elim (Bool-cases (str_eq paused key)) [
  | inl e ↦ rw e (
      ap (λ k. lookup k (remove paused m)) (sym ((eq_iff paused key).0 e)) ∙ lookup-remove paused m)
  | inr e ↦ rw e (lookup-remove-other paused key e m)
]
paused_annotations-lookup (some v) a key = elim (Bool-cases (str_eq paused key)) [
  | inl e ↦ rw e (
      ap (λ k. lookup k (insert paused v (entries a))) (sym ((eq_iff paused key).0 e))
      ∙ lookup-insert paused v (entries a))
  | inr e ↦ rw e (lookup-insert-other paused key e v (entries a))
]

module _ {V : Type 0} where
  -- The annotation that pauses an autoscaler is the wanted one, and the others stay.
  pub SyncedPause : Object V → Object V → Object V → Type 0
  SyncedPause typed p o =
      (key : String)
      → lookup key (entries o.annotations) ≡ (
          if str_eq paused key
          then lookup paused (entries typed.annotations)
          else lookup key (entries p.annotations))

  -- What an object `o` of a kind has in common with the wanted object `typed` once it is in line,
  -- and with the object `p` that was there.
  pub Synced : Kind → Object V → Object V → Object V → Type 0
  Synced Kind.name_space typed p o = (o.labels ≡ typed.labels) × (o.annotations ≡ typed.annotations)
  Synced Kind.service typed p o =
      (o.ports ≡ typed.ports) × (o.selector ≡ typed.selector) × (o.labels ≡ typed.labels)
  Synced Kind.service_account typed p o =
      (o.labels ≡ typed.labels) × (o.annotations ≡ typed.annotations)
  Synced Kind.destination_rule typed p o = (o.spec ≡ typed.spec) × (o.labels ≡ typed.labels)
  Synced Kind.virtual_service typed p o = (o.spec ≡ typed.spec) × (o.labels ≡ typed.labels)
  Synced Kind.sidecar typed p o = (o.spec ≡ typed.spec) × (o.labels ≡ typed.labels)
  Synced Kind.gateway typed p o = (o.spec ≡ typed.spec) × (o.labels ≡ typed.labels)
  Synced Kind.prometheus_rule typed p o = (o.spec ≡ typed.spec) × (o.labels ≡ typed.labels)
  Synced Kind.service_monitor typed p o = (o.spec ≡ typed.spec) × (o.labels ≡ typed.labels)
  Synced Kind.prometheus_service_level typed p o = (o.spec ≡ typed.spec) × (o.labels ≡ typed.labels)
  Synced Kind.external_secret typed p o = (o.spec ≡ typed.spec) × (o.labels ≡ typed.labels)
  Synced Kind.config_map typed p o = (o.contents ≡ typed.contents) × (o.labels ≡ typed.labels)
  Synced Kind.horizontal_pod_autoscaler typed p o = (o.spec ≡ typed.spec)
  Synced Kind.datadog_metric typed p o = (o.spec ≡ typed.spec) × (o.labels ≡ typed.labels)
  Synced Kind.worker_pod_autoscaler typed p o = (o.spec ≡ typed.spec)
  Synced Kind.trigger_authentication typed p o = (o.spec ≡ typed.spec)
  Synced Kind.pod_disruption_budget typed p o =
      (o.labels ≡ typed.labels) × (o.annotations ≡ typed.annotations) × (o.spec ≡ typed.spec)
  Synced Kind.role typed p o = (o.rules ≡ typed.rules)
  Synced Kind.role_binding typed p o = (o.subjects ≡ typed.subjects) × (o.role_ref ≡ typed.role_ref)
  Synced Kind.secret typed p o = (o.contents ≡ typed.contents) × (o.labels ≡ typed.labels)
  Synced Kind.replica_set typed p o =
      (o.selector ≡ typed.selector)
      × (o.labels ≡ typed.labels)
      × SyncedReplicas typed p o
      × SyncedTemplate typed p o
  Synced Kind.scaled_object typed p o = (o.spec ≡ typed.spec) × SyncedPause typed p o
  Synced Kind.unsupported typed p o = ⊥

  always-holds :
      (P : Object V → Object V → Type 0) (f : Object V → Object V)
      → ((x : Object V) → P x (f x))
      → (p o : Object V) → is_ignored p ≡ false
      → always f p ≡ finished o
      → P p o
  unfolding unless_ignored
  always-holds P f good p o kept h =
      subst (P p)
        (finished-injective (sym (ap (λ b. if b then finished p else finished (f p)) kept) ∙ h))
        (good p)

  pub unless_ignored-ignored :
      (f : Object V → Panics (Object V)) (p o : Object V)
      → is_ignored p ≡ true
      → unless_ignored f p ≡ finished o
      → o ≡ p
  unfolding unless_ignored
  unless_ignored-ignored f p o ignored h =
      finished-injective (sym h ∙ ap (λ b. if b then finished p else f p) ignored)

  sync_replica_set-Synced :
      (typed p o : Object V)
      → is_ignored p ≡ false
      → unless_ignored (sync_replica_set typed) p ≡ finished o
      → Synced Kind.replica_set typed p o
  unfolding Synced unless_ignored sync_replica_set
  sync_replica_set-Synced typed p o kept h =
      let done = sym (ap (λ b. if b then finished p else sync_replica_set typed p) kept) ∙ h in
      let (rs, _, last) = >>=-eq-finished (sync_replicas typed p) _ done in
      (
        ap (λ r. r.selector) (sym (finished-injective last)),
        ap (λ r. r.labels) (sym (finished-injective last)),
        sync_replica_set-SyncedReplicas typed p o done,
        sync_replica_set-SyncedTemplate typed p o done,
      )

  -- Every case leaves an object that is not ignored in line.
  Brings : (kind : Kind) → Object V → Option (Case V) → Type 0
  Brings kind typed none = Unit
  Brings kind typed (some k) =
      (p o : Object V) → is_ignored p ≡ false → k.change p ≡ finished o → Synced kind typed p o

  case_of-Brings :
      (kind : Kind) (blank typed : Object V) → Brings kind typed (case_of kind blank typed)
  unfolding case_of Brings Synced SyncedPause
  case_of-Brings Kind.name_space blank typed =
      always-holds (Synced Kind.name_space typed) _ (λ x. (refl, refl))
  case_of-Brings Kind.service blank typed =
      always-holds (Synced Kind.service typed) _ (λ x. (refl, refl, refl))
  case_of-Brings Kind.service_account blank typed =
      always-holds (Synced Kind.service_account typed) _ (λ x. (refl, refl))
  case_of-Brings Kind.destination_rule blank typed =
      always-holds (Synced Kind.destination_rule typed) _ (λ x. (refl, refl))
  case_of-Brings Kind.virtual_service blank typed =
      always-holds (Synced Kind.virtual_service typed) _ (λ x. (refl, refl))
  case_of-Brings Kind.sidecar blank typed =
      always-holds (Synced Kind.sidecar typed) _ (λ x. (refl, refl))
  case_of-Brings Kind.gateway blank typed =
      always-holds (Synced Kind.gateway typed) _ (λ x. (refl, refl))
  case_of-Brings Kind.prometheus_rule blank typed =
      always-holds (Synced Kind.prometheus_rule typed) _ (λ x. (refl, refl))
  case_of-Brings Kind.service_monitor blank typed =
      always-holds (Synced Kind.service_monitor typed) _ (λ x. (refl, refl))
  case_of-Brings Kind.prometheus_service_level blank typed =
      always-holds (Synced Kind.prometheus_service_level typed) _ (λ x. (refl, refl))
  case_of-Brings Kind.external_secret blank typed =
      always-holds (Synced Kind.external_secret typed) _ (λ x. (refl, refl))
  case_of-Brings Kind.config_map blank typed =
      always-holds (Synced Kind.config_map typed) _ (λ x. (refl, refl))
  case_of-Brings Kind.horizontal_pod_autoscaler blank typed =
      always-holds (Synced Kind.horizontal_pod_autoscaler typed) _ (λ x. refl)
  case_of-Brings Kind.datadog_metric blank typed =
      always-holds (Synced Kind.datadog_metric typed) _ (λ x. (refl, refl))
  case_of-Brings Kind.worker_pod_autoscaler blank typed =
      always-holds (Synced Kind.worker_pod_autoscaler typed) _ (λ x. refl)
  case_of-Brings Kind.trigger_authentication blank typed =
      always-holds (Synced Kind.trigger_authentication typed) _ (λ x. refl)
  case_of-Brings Kind.pod_disruption_budget blank typed =
      always-holds (Synced Kind.pod_disruption_budget typed) _ (λ x. (refl, refl, refl))
  case_of-Brings Kind.role blank typed = always-holds (Synced Kind.role typed) _ (λ x. refl)
  case_of-Brings Kind.role_binding blank typed =
      always-holds (Synced Kind.role_binding typed) _ (λ x. (refl, refl))
  case_of-Brings Kind.secret blank typed =
      always-holds (Synced Kind.secret typed) _ (λ x. (refl, refl))
  case_of-Brings Kind.replica_set blank typed = sync_replica_set-Synced typed
  case_of-Brings Kind.scaled_object blank typed =
      always-holds (Synced Kind.scaled_object typed) _ (λ x. (
        refl,
        λ key.
            paused_annotations-lookup (lookup paused (entries typed.annotations)) x.annotations key,
      ))
  case_of-Brings Kind.unsupported blank typed = tt

  pub change-Synced :
      (kind : Kind) (blank typed : Object V) (k : Case V) (p o : Object V)
      → case_of kind blank typed ≡ some k
      → is_ignored p ≡ false
      → k.change p ≡ finished o
      → Synced kind typed p o
  unfolding Brings
  change-Synced kind blank typed k p o h kept done =
      subst (Brings kind typed) h (case_of-Brings kind blank typed) p o kept done
