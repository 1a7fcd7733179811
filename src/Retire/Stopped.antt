-- ===== src/Retire/Stopped.antt =====
-- controllers/plan/retireRevision.go: the ReplicaSet of a retired revision.
use Prim.Native.String.{String}
use picchu.Base.{
  ℕ, Bool, true, Bool-cases, Option, none, some, if◌then◌else◌, ◌==◌, Panics, finished,
  finished-injective, ◌≡◌, refl, sym, ap, ◌∙◌, ◌⊎◌, inl, inr, arith,
}
use picchu.Retire.{
  Fetched, Outside, ◌and_next◌, stop_pods, stop_replica_set, delete_auth_then_stop,
  delete_keda_then_stop, retire,
}

-- The ReplicaSet has no replicas, or is not there.
abbrev pub IsStopped : {W Err : Type 0} → Outside W Err → String → W → Type 0
IsStopped {Err = Err} api tag w =
    (api.get_replica_set tag w ≡ Fetched.fetched (some 0))
    ⊎ ((e : Err) × (api.get_replica_set tag w ≡ Fetched.failed e) × (api.is_not_found e ≡ true))

module _ {W Err : Type 0} (api : Outside W Err) (tag : String)
    (updates : (n : ℕ) (w w' : W)
      → api.update_replicas tag n w ≡ (none, w')
      → api.get_replica_set tag w' ≡ Fetched.fetched (some n)) where
  stop_pods-IsStopped :
      (g : Fetched Err) (w w' : W)
      → api.get_replica_set tag w ≡ g
      → stop_pods api tag g w ≡ finished (none, w')
      → IsStopped api tag w'
  stop_pods-IsStopped (Fetched.failed e) w w' got h = elim (Bool-cases (api.is_not_found e)) [
    | inl gone ↦
        let same =
          ap (λ x. x.1)
            (finished-injective
              (sym (ap (λ b. if b then finished (none, w) else finished (some e, w)) gone) ∙ h)) in
        inr (e, ap (api.get_replica_set tag) (sym same) ∙ got, gone)
    | inr other ↦ absurd (ground (arith, other, h))
  ]
  stop_pods-IsStopped (Fetched.fetched none) w w' got h = absurd (ground arith)
  stop_pods-IsStopped (Fetched.fetched (some n)) w w' got h =
      let stop =
        λ (b : Bool). if b then finished (none, w) else finished (api.update_replicas tag 0 w) in
      elim (Bool-cases (n == 0)) [
        | inl e ↦
            let zero_left : n ≡ 0 = ground arith in
            let same = ap (λ x. x.1) (finished-injective (sym (ap stop e) ∙ h)) in
            inl (
              ap (api.get_replica_set tag) (sym same)
              ∙ got
              ∙ ap (λ k. Fetched.fetched (some k)) zero_left)
        | inr e ↦ inl (updates 0 w w' (finished-injective (sym (ap stop e) ∙ h)))
      ]

  and_next-eq-finished :
      (o : Option Err × W) (f : W → Panics (Option Err × W)) (w' : W)
      → (o and_next f) ≡ finished (none, w')
      → f o.1 ≡ finished (none, w')
  and_next-eq-finished (none, w) f w' h = h
  and_next-eq-finished (some e, w) f w' h =
      absurd (ground (arith, ap (λ x. x.0) (finished-injective h)))

  -- Where an update of a ReplicaSet that succeeds is what is read afterwards, a revision that
  -- `RetireRevision` has retired without an error has a ReplicaSet without replicas, or none at
  -- all.
  pub retire-IsStopped : (w w' : W) → retire api tag w ≡ finished (none, w') → IsStopped api tag w'
  unfolding retire delete_keda_then_stop delete_auth_then_stop stop_replica_set
  retire-IsStopped w w' h = stop_pods-IsStopped _ _ w' refl (
      and_next-eq-finished _ (stop_replica_set api tag) w' (
        and_next-eq-finished _ (delete_auth_then_stop api tag) w'
          (and_next-eq-finished _ (delete_keda_then_stop api tag) w' h)))
