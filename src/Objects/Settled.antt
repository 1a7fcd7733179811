-- ===== src/Objects/Settled.antt =====
-- plan/common.go: what `CreateOrUpdate` leaves in the cluster.
use picchu.Base.{
  true, false, Option, none, some, finished, finished-injective, >>=-eq-finished, ◌≡◌, refl, ap,
  ◌∙◌, subst, ◌⊎◌, arith,
}
use picchu.Objects.{Object, Kind, is_ignored}
use picchu.Objects.Kinds.{Case}
use picchu.Objects.Synced.{Synced}
use picchu.Objects.Store.{case_of, tolerate, run_case, Client, IsClient, or_start, create_or_update}

module _ {V : Type 0} where
  -- What a case that succeeds makes of the object that was there.
  pub Settles : Kind → Object V → Object V → Object V → Type 0
  Settles kind typed prior o =
      ((is_ignored prior ≡ true) × (o ≡ prior))
      ⊎ ((is_ignored prior ≡ false) × Synced kind typed prior o)

  KeepsIgnored : Option (Case V) → Type 0
  KeepsIgnored none = Unit
  KeepsIgnored (some k) = (p o : Object V) → is_ignored p ≡ true → k.change p ≡ finished o → o ≡ p

module _ {V C Err : Type 0} (client : Client V C Err) (blank : Object V) (lawful : IsClient client)
    (changes : (e : Err) → client.is_no_change e ≡ false) where
  tolerate-none : (kind : Kind) (e : Option Err) → tolerate client blank kind e ≡ none → e ≡ none
  tolerate-none kind none h = refl
  tolerate-none kind (some e) h = absurd (ground (arith, changes e))

  run_case-applied :
      (kind : Kind) (typed : Object V) (m : Option (Case V)) (c c' : C)
      → case_of kind blank typed ≡ m
      → run_case client blank kind m c ≡ finished (none, c')
      → (k : Case V) × (o : Object V) × (case_of kind blank typed ≡ some k)
        × (client.read kind k.start c' ≡ some o)
        × (k.change (or_start k.start (client.read kind k.start c)) ≡ finished o)
  run_case-applied kind typed none c c' found h = absurd (ground arith)
  run_case-applied kind typed (some k) c c' found h =
      let ((e, c1), ran, last) =
        >>=-eq-finished (client.create_or_update kind k.start k.change c) _ h in
      let out = finished-injective last in
      let (o, made, seen) =
        lawful.applied kind k.start k.change c c1
          (ran ∙ ap (λ x. finished (x, c1)) (tolerate-none kind e (ap (λ x. x.0) out))) in
      (k, o, found, subst (λ x. client.read kind k.start x ≡ some o) (ap (λ x. x.1) out) seen, made)

  -- What is there after a call that succeeds is what the case of the kind made of what was there.
  pub create_or_update-applied :
      (kind : Kind) (typed : Object V) (c c' : C)
      → create_or_update client blank kind typed c ≡ finished (none, c')
      → (k : Case V) × (o : Object V) × (case_of kind blank typed ≡ some k)
        × (client.read kind k.start c' ≡ some o)
        × (k.change (or_start k.start (client.read kind k.start c)) ≡ finished o)
  unfolding create_or_update
  create_or_update-applied kind typed c c' h =
      run_case-applied kind typed (case_of kind blank typed) c c' refl h
