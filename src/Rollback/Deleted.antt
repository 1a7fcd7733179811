-- ===== src/Rollback/Deleted.antt =====
-- controllers/revision_controller.go: the deletion of a revision.
use Prim.Native.String.{String, ◌++◌ as append}
use text.Mathlib.Text.{◌==◌ as str_eq}
use picchu.Base.{
  ℕ, Bool, true, false, Bool-cases, not, Option, none, some, List, [], ◌∷◌, if◌then◌else◌, ◌≡◌,
  refl, ap, ◌∙◌, inl, inr, arith, every, finished, ◌>>=◌,
}
use picchu.Objects.{Entries, StringMap, entries, has_key, lookup}
use picchu.Rollback.{Target, Instance}
use picchu.Rollback.Labels.{label_target_deletable_prefix, labelled, is_marked, value_of}
use picchu.Rollback.Reconcile.{
  Outside, Fetched, requeue, reconcile, with_instance, with_labels, with_mirrors, after_deletion,
  delete_if_marked, deletion,
}

-- Whether a label says that a target no longer needs the revision, whatever the label's value.
abbrev pub has_mark : StringMap → Target → Bool
has_mark m t = has_key (append label_target_deletable_prefix t.name) (entries m)

has_key-lookup : (key : String) (m : Entries) → has_key key m ≡ false → lookup key m ≡ none
unfolding has_key lookup
has_key-lookup key [] h = refl
has_key-lookup key ((k, v) ∷ m) h = ground (arith, h, has_key-lookup key m)

pub is_marked-every : (m : StringMap) (ts : List Target) → is_marked m ts ≡ every (has_mark m) ts
unfolding is_marked
is_marked-every m [] = refl
is_marked-every m (t ∷ ts) =
    let key = append label_target_deletable_prefix t.name in
    elim (Bool-cases (has_key key (entries m))) [
      | inl e ↦ ground (arith, e, is_marked-every m ts)
      | inr e ↦
          ground (
            arith,
            e,
            ap (λ o. not (str_eq (value_of o) "true")) (has_key-lookup key (entries m) e),
          )
    ]

module _ {W Err : Type 0} (api : Outside W Err) (now : ℕ) where
  after_deletion-deletion :
      (ms : List String) (r : Instance) (o : Option Err × W)
      → after_deletion api now ms r (deletion api now o) ≡ requeue (deletion api now o).0.1 o.1
  unfolding after_deletion
  after_deletion-deletion ms r (none, w) = refl
  after_deletion-deletion ms r (some e, w) = elim (Bool-cases (api.is_not_found e)) [
    | inl h ↦ ground (arith, h)
    | inr h ↦ ground (arith, h)
  ]

  delete_if_marked-marked :
      (r : Instance) (w : W)
      → every (has_mark r.labels) r.targets ≡ true
      → delete_if_marked api now r w ≡ deletion api now (api.delete r w)
  unfolding delete_if_marked
  delete_if_marked-marked r w marked =
      ap (λ b. if b then deletion api now (api.delete r w) else ((false, none), w))
        (is_marked-every r.labels r.targets ∙ marked)

  -- Where a revision and the mirrors are read, its labels need no change, and it has the deletable
  -- label of each of its targets, with any value, `Reconcile` deletes it and does nothing else; an
  -- error is passed on but for that the revision is gone.
  pub reconcile-deletes :
      (r : Instance) (ms : List String) (w : W) (e : Option Err) (w' : W)
      → api.get w ≡ Fetched.fetched r
      → api.mirrors w ≡ (none, ms)
      → labelled r ≡ finished (r.labels, false)
      → every (has_mark r.labels) r.targets ≡ true
      → api.delete r w ≡ (e, w')
      → reconcile api now w ≡ requeue (deletion api now (e, w')).0.1 w'
  unfolding reconcile
  reconcile-deletes r ms w e w' got listed settled marked deletes =
      ap (λ g. with_instance api now g w) got
      ∙ ap (λ l. with_mirrors api now r l w) listed
      ∙ ap (λ m. m >>= with_labels api now ms r w) settled
      ∙ ap (after_deletion api now ms r) (delete_if_marked-marked r w marked)
      ∙ ap (λ o. after_deletion api now ms r (deletion api now o)) deletes
      ∙ after_deletion-deletion ms r (e, w')
