-- ===== src/Objects/Counts.antt =====
-- plan/common.go: the replicas that `CreateOrUpdate` leaves.
use picchu.Base.{
  ℕ, false, Bool, none, some, some-injective, finished, if◌then◌else◌, ◌≡◌, sym, ap, ◌∙◌, subst,
  ◌⊎◌, ◌↔◌,
}
use picchu.Objects.{Object, Kind, is_ignored}
use picchu.Objects.Kinds.{unless_ignored, replica_set_case}
use picchu.Objects.ReplicaSets.{sync_replica_set, is_worker, or_zero}
use picchu.Objects.Store.{Client, IsClient, create_or_update, or_start, case_of}
use picchu.Objects.Settled.{create_or_update-applied}
use picchu.Objects.Running.{sync_replica_set-replicas}

module _ {V C Err : Type 0} (client : Client V C Err) (blank : Object V) (lawful : IsClient client)
    (changes : (e : Err) → client.is_no_change e ≡ false) where
  -- Where no worker autoscaler owns a ReplicaSet and it is not ignored, a call of `CreateOrUpdate`
  -- that succeeds leaves it with the replicas that were wanted or that were there, and with none
  -- exactly if none were wanted.
  pub create_or_update-replicas :
      (typed prior : Object V) (c c' : C) (w : ℕ)
      → or_start
          (replica_set_case blank typed).start
          (client.read Kind.replica_set (replica_set_case blank typed).start c)
        ≡ prior
      → is_ignored prior ≡ false
      → typed.replicas ≡ some w
      → is_worker typed ≡ false
      → create_or_update client blank Kind.replica_set typed c ≡ finished (none, c')
      → (o : Object V) × (n : ℕ) × (client.read Kind.replica_set
            (replica_set_case blank typed).start
            c'
          ≡ some o)
        × (o.replicas ≡ some n)
        × ((n ≡ 0) ↔ (w ≡ 0))
        × ((n ≡ w) ⊎ (n ≡ or_zero prior.replicas))
  unfolding case_of replica_set_case unless_ignored
  create_or_update-replicas typed prior c c' w there kept wanted free h =
      let (k, o, case, seen, made) =
        create_or_update-applied client blank lawful changes Kind.replica_set typed c c' h in
      let same = some-injective (sym case) in
      let made' =
        subst (λ p. (replica_set_case blank typed).change p ≡ finished o) there
          (subst
            (λ j. j.change (or_start j.start (client.read Kind.replica_set j.start c)) ≡ finished o)
            same made) in
      let run = λ (b : Bool). if b then finished prior else sync_replica_set typed prior in
      let (n, left, zeros, from) =
        sync_replica_set-replicas typed prior o w wanted free (sym (ap run kept) ∙ made') in
      (
        o,
        n,
        subst (λ j. client.read Kind.replica_set j.start c' ≡ some o) same seen,
        left,
        zeros,
        from,
      )
