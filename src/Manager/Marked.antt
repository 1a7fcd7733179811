-- ===== src/Manager/Marked.antt =====
-- controllers/garbagecollector.go and controllers/revision_controller.go: the marks that the release
-- managers of a revision leave, and what the reconciler of revisions makes of them.
use Prim.Native.String.{String, ◌++◌ as append}
use text.Mathlib.Text.{◌==◌ as str_eq}
use text.Mathlib.TextEquality.{eq_iff}
use text.Mathlib.TextLemmas.{append_cancel_left}
use mathlib.Core.Path.{fun_ext}
use picchu.Base.{
  Panics, Bool, true, false, ◌||◌, Bool-cases, Option, none, some, [], ◌∷◌, every, finished,
  finished-injective, ◌>>=◌, >>=-eq-finished, if◌then◌else◌, ◌≡◌, refl, sym, ap, ◌∙◌, inl, inr,
  arith,
}
use picchu.Objects.{Entries, StringMap, entries, has_key, insert, lookup}
use picchu.Incarnation.{Incarnation}
use picchu.Api.{Revision}
use picchu.Rollback.{Target, Instance}
use picchu.Rollback.Labels.{write_label, label_target_deletable_prefix, is_marked, value_of}
use picchu.Rollback.Deleted.{has_mark, is_marked-every}
use picchu.Rollback.Reconcile.{Fetched}
use picchu.Manager.Mark.{
  Outside, mark_key, mark_instance, first_target, mark_deletable, mark_fetched,
}

has_key-insert :
    (key k v : String) (m : Entries) → has_key key (insert k v m) ≡ (str_eq k key || has_key key m)
unfolding has_key insert
has_key-insert key k v [] = refl
has_key-insert key k v ((i, w) ∷ m) =
    ground (arith, eq_iff i k, eq_iff i key, eq_iff k key, has_key-insert key k v m)

str_eq-append : (p a b : String) → str_eq (append p a) (append p b) ≡ str_eq a b
str_eq-append p a b =
    ground
      (arith, eq_iff (append p a) (append p b), eq_iff a b, append_cancel_left p a b, ap (append p))

has_key-lookup :
    (key : String) (m : Entries)
    → str_eq (value_of (lookup key m)) "true" ≡ true
    → has_key key m ≡ true
unfolding has_key lookup
has_key-lookup key [] h = absurd (ground (arith, h))
has_key-lookup key ((k, v) ∷ m) h = ground (arith, h, has_key-lookup key m)

module _ {W Err : Type 0} (api : Outside W Err) (target_name : String) where
  -- The marks are those of before and that of the target.
  Marks : Instance → Instance → Type 0
  Marks r r' =
      (r'.targets ≡ r.targets)
      × ((u : Target) → has_mark r'.labels u ≡ (str_eq target_name u.name || has_mark r.labels u))

  write_label-has_mark :
      (m : StringMap) (m' : StringMap) (u : Target)
      → write_label (mark_key api target_name) "true" m ≡ finished m'
      → has_mark m' u ≡ (str_eq target_name u.name || has_mark m u)
  write_label-has_mark none m' u h = absurd (ground arith)
  write_label-has_mark (some m) m' u h =
      let key = append label_target_deletable_prefix u.name in
      ap (λ x. has_key key (entries x)) (sym (finished-injective h))
      ∙ has_key-insert key (mark_key api target_name) "true" m
      ∙ ap (λ b. b || has_key key m)
          (str_eq-append label_target_deletable_prefix target_name u.name)

  mark_instance-Marks :
      (get : W → Fetched Err) (r : Instance) (w w' : W) (e : Option Err)
      → ((s : Instance) → get (api.update s w).1 ≡ Fetched.fetched s)
      → get w ≡ Fetched.fetched r
      → mark_instance api target_name r w ≡ finished (e, w')
      → (r' : Instance) × (get w' ≡ Fetched.fetched r') × Marks r r'
  unfolding mark_instance Marks
  mark_instance-Marks get r w w' e stores got h =
      let key = mark_key api target_name in
      let write : Panics (Option Err × W) = first_target r.targets >>= λ t.
      write_label key "true" r.labels >>= λ labels.
      finished (none, (api.update (record r { labels = labels }) w).1) in
      let run : Bool → Panics (Option Err × W) = λ b. if b then finished (none, w) else write in
      elim (Bool-cases (str_eq (value_of (lookup key (entries r.labels))) "true")) [
        | inl there ↦
            let same : w ≡ w' = ap (λ x. x.1) (finished-injective (sym (ap run there) ∙ h)) in
            (
              r,
              ap get (sym same) ∙ got,
              (
                refl,
                λ u. ground (
                  arith,
                  eq_iff target_name u.name,
                  ap (λ n. has_key (append label_target_deletable_prefix n) (entries r.labels)),
                  has_key-lookup key (entries r.labels) there,
                ),
              ),
            )
        | inr absent ↦
            let (t, _, rest) =
              >>=-eq-finished (first_target r.targets) _ (sym (ap run absent) ∙ h) in
            let (m, wrote, last) = >>=-eq-finished (write_label key "true" r.labels) _ rest in
            (
              record r { labels = m },
              ap get (sym (ap (λ x. x.1) (finished-injective last)))
                  ∙ stores (record r { labels = m }),
              (refl, λ u. write_label-has_mark r.labels m u wrote),
            )
      ]

  -- Where an update of the revision is what is read afterwards, and `markDeletable` does not panic
  -- for an incarnation whose revision is there, the reconciler of revisions then takes the
  -- revision for marked exactly if each target but this one had marked it before.
  pub mark_deletable-is_marked :
      (i : Incarnation) (rv : Revision) (r : Instance) (w w' : W) (e : Option Err)
      → ((s : Instance) → api.get i (api.update s w).1 ≡ Fetched.fetched s)
      → i.revision ≡ some rv
      → api.is_nameless i ≡ false
      → api.get i w ≡ Fetched.fetched r
      → mark_deletable api target_name i w ≡ finished (e, w')
      → (r' : Instance) × (api.get i w' ≡ Fetched.fetched r')
        × (is_marked r'.labels r'.targets
            ≡ every (λ u. str_eq target_name u.name || has_mark r.labels u) r.targets)
  unfolding mark_deletable Marks
  mark_deletable-is_marked i rv r w w' e stores revised named got h =
      let reached =
        ap
          (λ o. elim o [
            | none ↦ finished (none, w)
            | some x ↦
                if api.is_nameless i
                then finished (some api.empty_name, w)
                else mark_fetched api target_name (api.get i w) w
          ])
          revised
        ∙ ap
            (λ b.
              if b
              then finished (some api.empty_name, w)
              else mark_fetched api target_name (api.get i w) w)
            named
        ∙ ap (λ g. mark_fetched api target_name g w) got in
      let (r', seen, (same, marks)) =
        mark_instance-Marks (api.get i) r w w' e stores got (sym reached ∙ h) in
      (
        r',
        seen,
        is_marked-every r'.labels r'.targets
            ∙ ap (every (has_mark r'.labels)) same
            ∙ ap (λ p. every p r.targets) (fun_ext marks),
      )
