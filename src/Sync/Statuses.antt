-- ===== src/Sync/Statuses.antt =====
-- What the loop at the end of `sync` (controllers/syncer.go) collects, described without its index.
use text.Mathlib.Text.{◌==◌ as str_eq}
use picchu.Base.{
  ℕ, zero, suc, ◌<◌, Bool, true, false, not, ◌&&◌, ◌||◌, Option, none, some, List, [], ◌∷◌, ◌++◌,
  length, length-append, if◌then◌else◌, ltb, ◌≡◌, refl, ap, sym, ◌∙◌, arith,
}
use picchu.Deployment.{State, name}
use picchu.Api.{RevisionStatus}
use picchu.Incarnation.{Incarnation, in_state, has_revision}
use picchu.Sync.{is_live_incarnation, recommissioned, recommission_at}

abbrev pub is_retired_status : RevisionStatus → Bool
is_retired_status s =
    str_eq s.state.current (name State.retired)
    || (str_eq s.state.current (name State.retiring) || false)

abbrev pub any_retired : List RevisionStatus → Bool
any_retired [] = false
any_retired (s ∷ ss) = is_retired_status s || any_retired ss

-- The last retired status is recommissioned.
abbrev pub recommission_last : List RevisionStatus → List RevisionStatus
recommission_last [] = []
recommission_last (s ∷ ss) =
    let rest = recommission_last ss in
    if any_retired ss
    then s ∷ rest
    else if is_retired_status s
    then recommissioned s ∷ ss
    else s ∷ ss

-- Deleted incarnations without a revision are dropped; the others are reported, oldest first.
abbrev pub is_reported : Incarnation → Bool
is_reported i = not (in_state State.deleted i) || has_revision i

abbrev pub reported : List Incarnation → List RevisionStatus
reported [] = []
reported (i ∷ is) = let rest = reported is in if is_reported i then rest ++ i.status ∷ [] else rest

-- A release that is good: it is live, not failed, and had traffic.
abbrev pub is_good : Incarnation → Bool
is_good i =
    is_live_incarnation i
    && (ltb 0 i.status.peak_percent
        && elim i.revision [ none ↦ false | some r ↦ not r.has_failed_at ])

abbrev pub any_good : List Incarnation → Bool
any_good [] = false
any_good (i ∷ is) = is_good i || any_good is

any_retired-append :
    (ss : List RevisionStatus) (s : RevisionStatus)
    → any_retired (ss ++ s ∷ []) ≡ (any_retired ss || is_retired_status s)
any_retired-append [] s = ground arith
any_retired-append (r ∷ ss) s = ground (arith, any_retired-append ss s)

recommission_last-append :
    (ss : List RevisionStatus) (s : RevisionStatus)
    → recommission_last (ss ++ s ∷ []) ≡ (
        if is_retired_status s then ss ++ recommissioned s ∷ [] else recommission_last ss ++ s ∷ [])
recommission_last-append [] s = ground arith
recommission_last-append (r ∷ ss) s =
    ground (arith, any_retired-append ss s, recommission_last-append ss s)

recommission_at-length :
    (ss : List RevisionStatus) (s : RevisionStatus)
    → recommission_at (length ss) (ss ++ s ∷ []) ≡ ss ++ recommissioned s ∷ []
recommission_at-length [] s = refl
recommission_at-length (r ∷ ss) s = ap (λ l. r ∷ l) (recommission_at-length ss s)

recommission_at-append :
    (n : ℕ) (ss : List RevisionStatus) (s : RevisionStatus)
    → n < length ss
    → recommission_at n (ss ++ s ∷ []) ≡ recommission_at n ss ++ s ∷ []
recommission_at-append n [] s h = absurd (omega arith)
recommission_at-append zero (r ∷ ss) s h = refl
recommission_at-append (suc n) (r ∷ ss) s h =
    ap (λ l. r ∷ l) (recommission_at-append n ss s (omega arith))

pub recommission_last_none :
    (ss : List RevisionStatus) → any_retired ss ≡ false → recommission_last ss ≡ ss
recommission_last_none [] h = refl
recommission_last_none (s ∷ ss) h = ground arith

-- The index is that of the last retired status.
abbrev pub LatestIs : Option ℕ → List RevisionStatus → Type 0
LatestIs none ss = any_retired ss ≡ false
LatestIs (some n) ss = (n < length ss) × (recommission_at n ss ≡ recommission_last ss)

pub LatestIs-append :
    (o : Option ℕ) (ss : List RevisionStatus) (s : RevisionStatus)
    → is_retired_status s ≡ false
    → LatestIs o ss
    → LatestIs o (ss ++ s ∷ [])
LatestIs-append none ss s other h = ground (arith, any_retired-append ss s)
LatestIs-append (some n) ss s other (below, at) = (
  omega (arith, length-append ss (s ∷ [])),
  recommission_at-append n ss s below
      ∙ ap (λ l. l ++ s ∷ []) at
      ∙ sym (recommission_last-append ss s ∙ rw other refl),
)

pub LatestIs-length :
    (ss : List RevisionStatus) (s : RevisionStatus)
    → is_retired_status s ≡ true
    → LatestIs (some (length ss)) (ss ++ s ∷ [])
LatestIs-length ss s retired = (
  omega (arith, length-append ss (s ∷ [])),
  recommission_at-length ss s ∙ sym (recommission_last-append ss s ∙ rw retired refl),
)
