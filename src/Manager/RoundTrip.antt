-- ===== src/Manager/RoundTrip.antt =====
-- controllers/syncer.go and api/v1alpha1/releasemanager_types.go: the statuses that a reconciliation
-- writes, read again by `RevisionStatus` in the next one.
use Prim.Native.String.{String}
use text.Mathlib.Text.{◌==◌ as str_eq}
use text.Mathlib.TextPositions.{eq_refl}
use picchu.Base.{
  ℕ, Bool, true, false, ◌||◌, Bool-cases, List, [], ◌∷◌, ◌++◌, any_if, All, All-map, finished,
  if◌then◌else◌, ◌≡◌, refl, sym, ap, ◌∙◌, inl, inr, arith, filter_if, subst,
}
use picchu.Api.{RevisionStatus}
use picchu.Incarnation.{Incarnation}
use picchu.Fleet.{has_tag}
use picchu.Sync.{release_statuses}
use picchu.Sync.Statuses.{reported, is_reported, any_good}
use picchu.Sync.Recommission.{release_statuses_lem}
use picchu.Rollback.Statuses.{find_revision, created_status}

-- The keys of a map of incarnations, each of which is the tag of its status.
abbrev pub IsDistinct : List Incarnation → Type 0
IsDistinct [] = Unit
IsDistinct (i ∷ is) = (has_tag i.tag is ≡ false) × (i.status.tag ≡ i.tag) × IsDistinct is

abbrev is_known : String → List RevisionStatus → Bool
is_known tag = any_if (λ s. str_eq s.tag tag)

find_revision-append :
    (tag : String) (now : ℕ) (ss : List RevisionStatus) (s : RevisionStatus)
    → find_revision tag now (ss ++ s ∷ [])
      ≡ (if is_known tag ss then find_revision tag now ss else find_revision tag now (s ∷ []))
unfolding find_revision
find_revision-append tag now [] s = ground arith
find_revision-append tag now (r ∷ ss) s = ground (arith, find_revision-append tag now ss s)

is_known-append :
    (tag : String) (ss : List RevisionStatus) (s : RevisionStatus)
    → is_known tag (ss ++ s ∷ []) ≡ (is_known tag ss || str_eq s.tag tag)
is_known-append tag [] s = ground arith
is_known-append tag (r ∷ ss) s = ground (arith, is_known-append tag ss s)

-- A tag that no incarnation has is in no status that is reported.
is_known-reported :
    (tag : String) (is : List Incarnation)
    → IsDistinct is
    → has_tag tag is ≡ false
    → is_known tag (reported is) ≡ false
unfolding has_tag
is_known-reported tag [] distinct h = refl
is_known-reported tag (i ∷ is) (fresh, same, rest) h = ground (
  arith,
  h,
  ap (λ t. str_eq t tag) same,
  is_known-append tag (reported is) i.status,
  is_known-reported tag is rest,
)

abbrev ReadsBack : ℕ → List RevisionStatus → Incarnation → Type 0
ReadsBack now ss i = (is_known i.tag ss ≡ true) × (find_revision i.tag now ss ≡ i.status)

ReadsBack-append :
    (now : ℕ) (ss : List RevisionStatus) (s : RevisionStatus) (i : Incarnation)
    → ReadsBack now ss i
    → ReadsBack now (ss ++ s ∷ []) i
ReadsBack-append now ss s i (known, found) = (
  ground (arith, known, is_known-append i.tag ss s),
  find_revision-append i.tag now ss s ∙ rw known found,
)

ReadsBack-last :
    (now : ℕ) (ss : List RevisionStatus) (i : Incarnation)
    → is_known i.tag ss ≡ false
    → i.status.tag ≡ i.tag
    → ReadsBack now (ss ++ i.status ∷ []) i
unfolding find_revision
ReadsBack-last now ss i unknown same =
    let mine : str_eq i.status.tag i.tag ≡ true = ap (λ t. str_eq t i.tag) same ∙ eq_refl i.tag in
    (
      ground (arith, mine, is_known-append i.tag ss i.status),
      find_revision-append i.tag now ss i.status
          ∙ rw unknown (ap (λ b. if b then i.status else created_status i.tag now) mine),
    )

reported-ReadsBack :
    (now : ℕ) (is : List Incarnation)
    → IsDistinct is
    → All (ReadsBack now (reported is)) (filter_if is_reported is)
reported-ReadsBack now [] distinct = tt
reported-ReadsBack now (i ∷ is) (fresh, same, rest) =
    let before = reported-ReadsBack now is rest in
    let Goal = λ (b : Bool).
      All (ReadsBack now (if b then reported is ++ i.status ∷ [] else reported is))
        (elim b as (λ _. List Incarnation) [
          | true ↦ i ∷ filter_if is_reported is
          | false ↦ filter_if is_reported is
        ]) in
    elim (Bool-cases (is_reported i)) [
      | inl e ↦ subst Goal (sym e) (
        ReadsBack-last now (reported is) i (is_known-reported i.tag is rest fresh) same,
        All-map (filter_if is_reported is) (ReadsBack-append now (reported is) i.status) before,
      )
      | inr e ↦ subst Goal (sym e) before
    ]

-- Where the incarnations have different tags and some release is good, the statuses that `sync`
-- returns hold, for each incarnation that is reported, its status where `RevisionStatus` finds it
-- by the tag.
pub release_statuses-found :
    (now : ℕ) (is : List Incarnation) (statuses : List RevisionStatus)
    → IsDistinct is
    → any_good is ≡ true
    → release_statuses is ≡ finished statuses
    → All (λ i. find_revision i.tag now statuses ≡ i.status) (filter_if is_reported is)
release_statuses-found now is statuses distinct good h =
    let same = release_statuses_lem is statuses h ∙ rw good refl in
    All-map (filter_if is_reported is)
      (λ i back. subst (λ ss. find_revision i.tag now ss ≡ i.status) (sym same) back.1)
      (reported-ReadsBack now is distinct)
