-- ===== src/Manager/Collected.antt =====
-- controllers/incarnation.go: the tags of a new collection of incarnations.
use Prim.Native.String.{String}
use text.Mathlib.Text.{◌==◌ as str_eq}
use text.Mathlib.TextEquality.{eq_iff}
use mathlib.Core.List.{Perm}
use picchu.Base.{
  ℕ, Bool, true, false, ◌||◌, Bool-cases, Option-cases, Option, none, some, List, [], ◌∷◌, count_if,
  count_if-perm, any_if, map, if◌then◌else◌, ◌≡◌, refl, ap, ◌∙◌, inl, inr, arith,
}
use picchu.Api.{Revision, RevisionStatus}
use picchu.Incarnation.{Incarnation, Controller}
use picchu.Fleet.{has_tag, first_ramping, releasable, mark_ramping}
use picchu.Observe.{Observation, update, update_observed}
use picchu.Manager.Collect.{put, new_incarnation, add_revisions, add_statuses, new_collection}

abbrev pub with_tag : String → List Incarnation → ℕ
with_tag tag = count_if (λ i. str_eq i.tag tag)

-- Once, if it is there.
abbrev pub once : Bool → ℕ
once b = if b then 1 else 0

-- What the map keeps: a tag is there once or not at all.
abbrev IsKeyed : (String → Bool) → List Incarnation → Type 0
IsKeyed known is = (tag : String) → with_tag tag is ≡ once (known tag)

with_tag-zero :
    (tag : String) (is : List Incarnation) → has_tag tag is ≡ false → with_tag tag is ≡ 0
unfolding has_tag
with_tag-zero tag [] h = refl
with_tag-zero tag (i ∷ is) h = ground (arith, h, with_tag-zero tag is)

has_tag-with_tag :
    (tag : String) (is : List Incarnation) → with_tag tag is ≡ 0 → has_tag tag is ≡ false
unfolding has_tag
has_tag-with_tag tag [] h = refl
has_tag-with_tag tag (i ∷ is) h = ground (arith, h, has_tag-with_tag tag is)

with_tag-put :
    (tag : String) (i : Incarnation) (is : List Incarnation)
    → with_tag tag (put i is) ≡ (
        if str_eq i.tag tag
        then (if has_tag tag is then with_tag tag is else 1)
        else with_tag tag is)
unfolding put has_tag
with_tag-put tag i [] = ground arith
with_tag-put tag i (j ∷ js) = ground (
  arith,
  eq_iff j.tag i.tag,
  eq_iff i.tag tag,
  eq_iff j.tag tag,
  with_tag-put tag i js,
  with_tag-zero tag js,
)

has_tag-known :
    (tag : String) (known : Bool) (is : List Incarnation)
    → with_tag tag is ≡ once known
    → has_tag tag is ≡ known
has_tag-known tag true is h = elim (Bool-cases (has_tag tag is)) [
  | inl e ↦ e
  | inr e ↦ absurd (omega (arith, with_tag-zero tag is e))
]
has_tag-known tag false is h = has_tag-with_tag tag is h

put-IsKeyed :
    (known : String → Bool) (i : Incarnation) (is : List Incarnation)
    → IsKeyed known is
    → IsKeyed (λ tag. str_eq i.tag tag || known tag) (put i is)
put-IsKeyed known i is keyed tag =
    ground (arith, with_tag-put tag i is, keyed tag, has_tag-known tag (known tag) is (keyed tag))

with_tag-map :
    (tag : String) (f : Incarnation → Incarnation) (is : List Incarnation)
    → ((i : Incarnation) → (f i).tag ≡ i.tag)
    → with_tag tag (map f is) ≡ with_tag tag is
with_tag-map tag f [] same = refl
with_tag-map tag f (i ∷ is) same =
    ground (arith, ap (λ t. str_eq t tag) (same i), with_tag-map tag f is same)

with_tag-mark_ramping :
    (tag : String) (is : List Incarnation) → with_tag tag (mark_ramping is) ≡ with_tag tag is
unfolding mark_ramping
with_tag-mark_ramping tag is = elim (Option-cases (first_ramping (releasable is))) [
  | inl e ↦ rw (e, mark_ramping)
  | inr (t, e) ↦ rw (e, mark_ramping) (with_tag-map tag _ is (λ i. ground arith))
]

module _ {F : Type 0} (c : Controller F) (now live_count : ℕ) (o : Observation) where
  new_incarnation-tag :
      (tag : String) (r : Option Revision) → (new_incarnation c now live_count o tag r).tag ≡ tag
  unfolding new_incarnation update_observed update
  new_incarnation-tag tag r = ground arith

  abbrev pub in_revisions : List (String × Revision) → String → Bool
  in_revisions rs tag = any_if (λ e. str_eq e.0 tag) rs

  abbrev pub in_statuses : List RevisionStatus → String → Bool
  in_statuses ss tag = any_if (λ s. str_eq s.tag tag) ss

  add_revisions-IsKeyed :
      (known : String → Bool) (rs : List (String × Revision)) (is : List Incarnation)
      → IsKeyed known is
      → IsKeyed (λ tag. in_revisions rs tag || known tag) (add_revisions c now live_count o rs is)
  unfolding add_revisions
  add_revisions-IsKeyed known [] is keyed tag = keyed tag
  add_revisions-IsKeyed known ((t, r) ∷ rs) is keyed tag =
      let i = new_incarnation c now live_count o t (some r) in
      ground (
        arith,
        ap (λ u. str_eq u tag) (new_incarnation-tag t (some r)),
        add_revisions-IsKeyed (λ u. str_eq i.tag u || known u) rs (put i is)
            (put-IsKeyed known i is keyed) tag,
      )

  added : RevisionStatus → List Incarnation → List Incarnation
  added s is =
      if has_tag s.tag is then is else put (new_incarnation c now live_count o s.tag none) is

  added-IsKeyed :
      (known : String → Bool) (s : RevisionStatus) (is : List Incarnation)
      → IsKeyed known is
      → IsKeyed (λ tag. str_eq s.tag tag || known tag) (added s is)
  unfolding added
  added-IsKeyed known s is keyed tag = elim (Bool-cases (has_tag s.tag is)) [
    | inl e ↦ rw e (
        ground (
          arith,
          e,
          keyed tag,
          eq_iff s.tag tag,
          ap known,
          has_tag-known s.tag (known s.tag) is (keyed s.tag),
        ))
    | inr e ↦
        let i = new_incarnation c now live_count o s.tag none in
        rw e (
          put-IsKeyed known i is keyed tag
          ∙ ap (λ t. once (str_eq t tag || known tag)) (new_incarnation-tag s.tag none))
  ]

  add_statuses-IsKeyed :
      (known : String → Bool) (ss : List RevisionStatus) (is : List Incarnation)
      → IsKeyed known is
      → IsKeyed (λ tag. in_statuses ss tag || known tag) (add_statuses c now live_count o ss is)
  unfolding add_statuses added
  add_statuses-IsKeyed known [] is keyed tag = keyed tag
  add_statuses-IsKeyed known (s ∷ ss) is keyed tag = ground (
    arith,
    add_statuses-IsKeyed (λ u. str_eq s.tag u || known u) ss (added s is)
        (added-IsKeyed known s is keyed) tag,
  )

  -- A new collection, in whatever order, has one incarnation for each tag of a revision or of a
  -- status of the release manager, and none for any other tag.
  pub new_collection-once :
      (sort : List Incarnation → List Incarnation) (rs : List (String × Revision)) (tag : String)
      → ((is : List Incarnation) → Perm (sort is) is)
      → with_tag tag (new_collection c now live_count o sort rs)
        ≡ once (in_revisions rs tag || in_statuses c.statuses tag)
  unfolding new_collection
  new_collection-once sort rs tag permutes =
      let first = add_revisions c now live_count o rs [] in
      let all = add_statuses c now live_count o c.statuses first in
      let known = λ (t : String). in_revisions rs t || false in
      ground (
        arith,
        with_tag-mark_ramping tag (sort all),
        count_if-perm (λ i. str_eq i.tag tag) (permutes all),
        add_statuses-IsKeyed known c.statuses first
            (add_revisions-IsKeyed (λ t. false) rs [] (λ t. refl)) tag,
      )
