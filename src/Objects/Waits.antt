-- ===== src/Objects/Waits.antt =====
-- plan/common.go: the seconds that the pods of a ReplicaSet have to be ready.
use picchu.Base.{
  Bool, false, Bool-cases, none, some, some-injective, finished, finished-injective, if◌then◌else◌,
  ◌≡◌, sym, ap, ◌∙◌, subst, inl, inr, arith,
}
use picchu.Objects.{Object, Kind, is_ignored}
use picchu.Objects.Kinds.{unless_ignored, replica_set_case}
use picchu.Objects.ReplicaSets.{sync_replica_set, sync_template}
use picchu.Objects.Store.{Client, IsClient, create_or_update, or_start, case_of}
use picchu.Objects.Settled.{create_or_update-applied}
use picchu.Objects.Running.{sync_replica_set-steps, sync_replicas-eq-finished}

module _ {V : Type 0} (typed : Object V) where
  sync_template-seconds :
      (x : Object V) → (sync_template typed x).min_ready_seconds ≡ x.min_ready_seconds
  unfolding sync_template
  sync_template-seconds x = ground arith

  sync_replica_set-seconds :
      (rs o : Object V)
      → sync_replica_set typed rs ≡ finished o
      → o.min_ready_seconds ≡ rs.min_ready_seconds
  sync_replica_set-seconds rs o h =
      let (x, first, last) = sync_replica_set-steps typed rs o h in
      let (n, same) = sync_replicas-eq-finished typed rs x first in
      ap (λ r. r.min_ready_seconds) (sym last)
      ∙ sync_template-seconds x
      ∙ ap (λ r. r.min_ready_seconds) (sym same)

  unless_ignored-seconds :
      (rs o : Object V)
      → unless_ignored (sync_replica_set typed) rs ≡ finished o
      → o.min_ready_seconds ≡ rs.min_ready_seconds
  unfolding unless_ignored
  unless_ignored-seconds rs o h =
      let run = λ (b : Bool). if b then finished rs else sync_replica_set typed rs in
      elim (Bool-cases (is_ignored rs)) [
        | inl e ↦ ap (λ r. r.min_ready_seconds) (finished-injective (sym h ∙ ap run e))
        | inr e ↦ sync_replica_set-seconds rs o (sym (ap run e) ∙ h)
      ]

module _ {V C Err : Type 0} (client : Client V C Err) (blank : Object V) (lawful : IsClient client)
    (changes : (e : Err) → client.is_no_change e ≡ false) where
  -- A ReplicaSet that was not there has, after a call of `CreateOrUpdate` that succeeds, the
  -- seconds that its pods have to be ready at the zero value, whatever was wanted.
  pub create_or_update-min_ready_seconds :
      (typed : Object V) (c c' : C)
      → client.read Kind.replica_set (replica_set_case blank typed).start c ≡ none
      → create_or_update client blank Kind.replica_set typed c ≡ finished (none, c')
      → (o : Object V) × (client.read Kind.replica_set (replica_set_case blank typed).start c'
          ≡ some o)
        × (o.min_ready_seconds ≡ blank.min_ready_seconds)
  unfolding case_of replica_set_case
  create_or_update-min_ready_seconds typed c c' absent h =
      let (k, o, case, seen, made) =
        create_or_update-applied client blank lawful changes Kind.replica_set typed c c' h in
      let same = some-injective (sym case) in
      let made' =
        subst
          (λ j. j.change (or_start j.start (client.read Kind.replica_set j.start c)) ≡ finished o)
          same made in
      let start = (replica_set_case blank typed).start in
      (
        o,
        subst (λ j. client.read Kind.replica_set j.start c' ≡ some o) same seen,
        unless_ignored-seconds typed (or_start start (client.read Kind.replica_set start c)) o made'
            ∙ ap (λ r. (or_start start r).min_ready_seconds) absent,
      )
