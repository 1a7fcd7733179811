-- ===== src/Objects/Running.antt =====
-- plan/common.go: a ReplicaSet after `CreateOrUpdate`.
use Prim.Native.String.{String}
use text.Mathlib.Text.{◌==◌ as str_eq}
use text.Mathlib.TextEquality.{eq_iff}
use picchu.Base.{
  ℕ, true, false, Bool-cases, Option, none, some, finished, finished-injective, ◌>>=◌,
  >>=-eq-finished, refl, subst, if◌then◌else◌, ◌≡◌, sym, ap, ◌∙◌, ◌⊎◌, ◌↔◌, inl, inr, arith, deref,
}
use picchu.Objects.{Object, Entries, StringMap, lookup, entries}
use picchu.Objects.ReplicaSets.{
  sync_replica_set, sync_replicas, sync_template, is_worker, or_zero, next_replicas, is_empty,
  annotation_do_not_disrupt, keep_annotation, write_annotation,
}
use picchu.Objects.Maps.{lookup-insert, lookup-remove, lookup-insert-other, lookup-remove-other}

-- An annotation that is there with the empty text counts as missing.
pub kept_value : Option String → Option String
kept_value none = none
kept_value (some v) = if str_eq v "" then none else some v

deref-eq-finished : {A : Type 0} (o : Option A) (a : A) → deref o ≡ finished a → o ≡ some a
deref-eq-finished none a h = absurd (ground (arith, h))
deref-eq-finished (some b) a h = ap some (finished-injective h)

module _ {V : Type 0} (typed : Object V) where
  -- The two steps, and what the last assignments leave as it is.
  pub sync_replica_set-steps :
      (rs o : Object V)
      → sync_replica_set typed rs ≡ finished o
      → (x : Object V) × (sync_replicas typed rs ≡ finished x)
        × (record (sync_template typed x) { selector = typed.selector; labels = typed.labels } ≡ o)
  unfolding sync_replica_set
  sync_replica_set-steps rs o done =
      let (x, first, last) = >>=-eq-finished (sync_replicas typed rs) _ done in
      (x, first, finished-injective last)

  pub sync_template-replicas : (x : Object V) → (sync_template typed x).replicas ≡ x.replicas
  unfolding sync_template
  sync_template-replicas x = ground arith

  pub sync_replicas-eq :
      (w : ℕ) (rs : Object V)
      → typed.replicas ≡ some w
      → is_worker typed ≡ false
      → sync_replicas typed rs
        ≡ finished (record rs { replicas = some (next_replicas w (or_zero rs.replicas)) })
  unfolding sync_replicas
  sync_replicas-eq w rs wanted free = ground (arith, free, wanted)

  pub next_replicas_lem :
      (w r : ℕ)
      → ((next_replicas w r ≡ 0) ↔ (w ≡ 0)) × ((next_replicas w r ≡ w) ⊎ (next_replicas w r ≡ r))
  next_replicas_lem w r = (ground arith, ground arith)

  -- The replicas alone may change.
  pub sync_replicas-eq-finished :
      (rs x : Object V)
      → sync_replicas typed rs ≡ finished x
      → (n : Option ℕ) × (record rs { replicas = n } ≡ x)
  unfolding sync_replicas
  sync_replicas-eq-finished rs x h =
      let set = deref typed.replicas >>= λ wanted.
      finished (record rs { replicas = some (next_replicas wanted (or_zero rs.replicas)) }) in
      elim (Bool-cases (is_worker typed)) [
        | inl e ↦
            (rs.replicas, finished-injective (sym (ap (λ b. if b then finished rs else set) e) ∙ h))
        | inr e ↦
            let (w, _, last) =
              >>=-eq-finished (deref typed.replicas) _
                (sym (ap (λ b. if b then finished rs else set) e) ∙ h) in
            (some (next_replicas w (or_zero rs.replicas)), finished-injective last)
      ]

  pub sync_replica_set-replicas :
      (rs o : Object V) (w : ℕ)
      → typed.replicas ≡ some w
      → is_worker typed ≡ false
      → sync_replica_set typed rs ≡ finished o
      → (n : ℕ) × (o.replicas ≡ some n)
        × ((n ≡ 0) ↔ (w ≡ 0))
        × ((n ≡ w) ⊎ (n ≡ or_zero rs.replicas))
  sync_replica_set-replicas rs o w wanted free done =
      let (x, first, last) = sync_replica_set-steps rs o done in
      let set = finished-injective (sym first ∙ sync_replicas-eq w rs wanted free) in
      let n = next_replicas w (or_zero rs.replicas) in
      let (zeros, from) = next_replicas_lem w (or_zero rs.replicas) in
      (
        n,
        sym (ap (λ r. r.replicas) last) ∙ sync_template-replicas x ∙ ap (λ r. r.replicas) set,
        zeros,
        from,
      )

  write_annotation_lem :
      (v : Option String) (m : Entries)
      → lookup annotation_do_not_disrupt (write_annotation v m) ≡ kept_value v
  unfolding kept_value
  write_annotation_lem none m = lookup-remove annotation_do_not_disrupt m
  write_annotation_lem (some v) m = elim (Bool-cases (str_eq v "")) [
    | inl e ↦ ground (arith, e, lookup-remove annotation_do_not_disrupt m)
    | inr e ↦ ground (arith, e, lookup-insert annotation_do_not_disrupt v m)
  ]

  write_annotation-other :
      (v : Option String) (m : Entries) (other : String)
      → str_eq annotation_do_not_disrupt other ≡ false
      → lookup other (write_annotation v m) ≡ lookup other m
  write_annotation-other none m other h = lookup-remove-other annotation_do_not_disrupt other h m
  write_annotation-other (some v) m other h = elim (Bool-cases (str_eq v "")) [
    | inl e ↦ ground (arith, e, lookup-remove-other annotation_do_not_disrupt other h m)
    | inr e ↦ ground (arith, e, lookup-insert-other annotation_do_not_disrupt other h v m)
  ]

  sync_template-fresh :
      (x : Object V)
      → is_empty x.template_labels ≡ true
      → sync_template typed x ≡ record x {
        template = typed.template;
        template_labels = typed.template_labels;
        template_annotations = typed.template_annotations;
      }
  unfolding sync_template
  sync_template-fresh x h = ground (arith, h)

  sync_template-frozen :
      (x : Object V)
      → is_empty x.template_labels ≡ false
      → sync_template typed x ≡ record x {
        template_annotations = keep_annotation typed.template_annotations x.template_annotations;
      }
  unfolding sync_template
  sync_template-frozen x h = ground (arith, h)

  -- The replicas: those that were there if a worker autoscaler owns them, and otherwise those that
  -- were wanted or were there, and none exactly if none were wanted.
  pub SyncedReplicas : Object V → Object V → Type 0
  SyncedReplicas rs o =
      ((is_worker typed ≡ true) × (o.replicas ≡ rs.replicas))
      ⊎ ((w : ℕ) × (n : ℕ) × (is_worker typed ≡ false)
          × (typed.replicas ≡ some w)
          × (o.replicas ≡ some n)
          × ((n ≡ 0) ↔ (w ≡ 0))
          × ((n ≡ w) ⊎ (n ≡ or_zero rs.replicas)))

  -- The annotations of a pod template that is there: that against disruption becomes the wanted
  -- one, and the others stay.
  pub SyncedNotes : StringMap → StringMap → Type 0
  SyncedNotes none a = a ≡ none
  SyncedNotes (some m) a =
      (key : String)
      → lookup key (entries a) ≡ (
          if str_eq annotation_do_not_disrupt key
          then kept_value (lookup annotation_do_not_disrupt (entries typed.template_annotations))
          else lookup key m)

  -- The pod template: the wanted one if there was none, and else the one that was there.
  pub SyncedTemplate : Object V → Object V → Type 0
  SyncedTemplate rs o =
      ((is_empty rs.template_labels ≡ true)
        × (o.template ≡ typed.template)
        × (o.template_labels ≡ typed.template_labels)
        × (o.template_annotations ≡ typed.template_annotations))
      ⊎ ((is_empty rs.template_labels ≡ false)
          × (o.template ≡ rs.template)
          × (o.template_labels ≡ rs.template_labels)
          × SyncedNotes rs.template_annotations o.template_annotations)

  pub sync_replica_set-SyncedReplicas :
      (rs o : Object V) → sync_replica_set typed rs ≡ finished o → SyncedReplicas rs o
  unfolding SyncedReplicas sync_replicas
  sync_replica_set-SyncedReplicas rs o done =
      let (x, first, last) = sync_replica_set-steps rs o done in
      let set = deref typed.replicas >>= λ wanted.
      finished (record rs { replicas = some (next_replicas wanted (or_zero rs.replicas)) }) in
      elim (Bool-cases (is_worker typed)) [
        | inl e ↦
            let same =
              finished-injective (sym (ap (λ b. if b then finished rs else set) e) ∙ first) in
            inl (
              e,
              sym (ap (λ r. r.replicas) last)
                  ∙ sync_template-replicas x
                  ∙ ap (λ r. r.replicas) (sym same),
            )
        | inr e ↦
            let (w, wanted, _) =
              >>=-eq-finished (deref typed.replicas) _
                (sym (ap (λ b. if b then finished rs else set) e) ∙ first) in
            let given = deref-eq-finished typed.replicas w wanted in
            let (n, left, zeros, from) = sync_replica_set-replicas rs o w given e done in
            inr (w, n, e, given, left, zeros, from)
      ]

  keep_annotation-SyncedNotes :
      (a : StringMap) → SyncedNotes a (keep_annotation typed.template_annotations a)
  unfolding SyncedNotes
  keep_annotation-SyncedNotes none = refl
  keep_annotation-SyncedNotes (some m) = λ key.
      let v = lookup annotation_do_not_disrupt (entries typed.template_annotations) in
      elim (Bool-cases (str_eq annotation_do_not_disrupt key)) [
        | inl e ↦ rw e (
            ap (λ k. lookup k (write_annotation v m))
              (sym ((eq_iff annotation_do_not_disrupt key).0 e))
            ∙ write_annotation_lem v m)
        | inr e ↦ rw e (write_annotation-other v m key e)
      ]

  pub sync_replica_set-SyncedTemplate :
      (rs o : Object V) → sync_replica_set typed rs ≡ finished o → SyncedTemplate rs o
  unfolding SyncedTemplate sync_template
  sync_replica_set-SyncedTemplate rs o done =
      let (x, first, last) = sync_replica_set-steps rs o done in
      let (n, kept) = sync_replicas-eq-finished rs x first in
      let y = record rs { replicas = n } in
      let left = λ (z : Object V). record z { selector = typed.selector; labels = typed.labels } in
      subst (SyncedTemplate rs) (ap (λ z. left (sync_template typed z)) kept ∙ last)
        (elim (Bool-cases (is_empty rs.template_labels)) [
          | inl e ↦
              subst (λ z. SyncedTemplate rs (left z)) (sym (sync_template-fresh y e))
                (inl (e, refl, refl, refl))
          | inr e ↦
              subst (λ z. SyncedTemplate rs (left z)) (sym (sync_template-frozen y e))
                (inr (e, refl, refl, keep_annotation-SyncedNotes rs.template_annotations))
        ])

  -- A ReplicaSet whose pod template has labels and annotations keeps the template, its labels and
  -- its other annotations; the annotation against disruption alone becomes the wanted one, and is
  -- removed if that is missing or empty.
  pub sync_replica_set-frozen :
      (rs o : Object V) (m : Entries) (other : String)
      → is_empty rs.template_labels ≡ false
      → rs.template_annotations ≡ some m
      → str_eq annotation_do_not_disrupt other ≡ false
      → sync_replica_set typed rs ≡ finished o
      → (o.template ≡ rs.template)
        × (o.template_labels ≡ rs.template_labels)
        × (lookup other (entries o.template_annotations) ≡ lookup other m)
        × (lookup annotation_do_not_disrupt (entries o.template_annotations)
            ≡ kept_value (lookup annotation_do_not_disrupt (entries typed.template_annotations)))
  sync_replica_set-frozen rs o m other labelled annotated differ done =
      let (x, first, last) = sync_replica_set-steps rs o done in
      let (n, kept) = sync_replicas-eq-finished rs x first in
      let frozen =
        sync_template-frozen x (ap (λ r. is_empty r.template_labels) (sym kept) ∙ labelled) in
      let noted =
        sym (ap (λ r. r.template_annotations) last)
        ∙ ap (λ r. r.template_annotations) frozen
        ∙ ap (λ r. keep_annotation typed.template_annotations r.template_annotations) (sym kept)
        ∙ ap (keep_annotation typed.template_annotations) annotated in
      (
        sym (ap (λ r. r.template) last)
            ∙ ap (λ r. r.template) frozen
            ∙ ap (λ r. r.template) (sym kept),
        sym (ap (λ r. r.template_labels) last)
            ∙ ap (λ r. r.template_labels) frozen
            ∙ ap (λ r. r.template_labels) (sym kept),
        ap (λ a. lookup other (entries a)) noted
            ∙ write_annotation-other
                (lookup annotation_do_not_disrupt (entries typed.template_annotations)) m other
                differ,
        ap (λ a. lookup annotation_do_not_disrupt (entries a)) noted
            ∙ write_annotation_lem
                (lookup annotation_do_not_disrupt (entries typed.template_annotations)) m,
      )
