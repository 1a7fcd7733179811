-- ===== src/Fleet.antt =====
-- controllers/incarnation.go: the selections of `IncarnationCollection`, over the incarnations in
-- the order of `sorted()`, newest first. Tags are the keys of `itemSet`, so no two are equal.
pub mod Order
pub mod Samples
use Prim.Native.String.{String}
use text.Mathlib.Text.{◌==◌ as str_eq}
use picchu.Base.{
  Bool, true, false, ◌&&◌, ◌||◌, not, List, [], ◌∷◌, ◌++◌, map, filter_if, if◌then◌else◌, ltb,
  Option, none, some,
}
use picchu.Deployment.{State}
use picchu.Incarnation.{Incarnation, Controller, in_state, has_revision, marked_as_failed, target}

-- Whether the state is one of a list, as in a `case` of a switch.
abbrev pub in_states : List State → Incarnation → Bool
in_states [] i = false
in_states (s ∷ ss) i = in_state s i || in_states ss i

-- `deployed`
unfoldable pub is_deployed_state : Incarnation → Bool
is_deployed_state = in_states (
    State.deployed ∷ State.pendingtest ∷ State.testing ∷ State.tested ∷ State.pendingrelease
    ∷ State.releasing ∷ State.released ∷ State.canarying ∷ State.canaried ∷ [])

unfoldable pub deployed : List Incarnation → List Incarnation
unfolding is_deployed_state
deployed = filter_if is_deployed_state

-- `willRelease`, whose state "precanary" is none of the machine's.
pub will_release : List Incarnation → List Incarnation
will_release = filter_if λ i.
    (in_states
        (State.deploying ∷ State.deployed ∷ State.canarying ∷ State.canaried ∷ State.pendingrelease
          ∷ [])
        i
      || str_eq i.status.state.current "precanary")
    && i.status.release_eligible

-- The three loops of `releasable`.
unfoldable pub is_canarying : Incarnation → Bool
is_canarying = in_state State.canarying

unfoldable pub is_releasing : Incarnation → Bool
is_releasing = in_states (State.releasing ∷ State.released ∷ [])

unfoldable pub is_draining : Incarnation → Bool
is_draining i =
    ltb 0 i.status.current_percent
    && in_states (State.retiring ∷ State.deleting ∷ State.failing ∷ []) i

unfoldable pub releasable : List Incarnation → List Incarnation
unfolding is_canarying is_releasing is_draining
releasable is = filter_if is_canarying is ++ filter_if is_releasing is ++ filter_if is_draining is

unfoldable pub has_tag : String → List Incarnation → Bool
has_tag tag [] = false
has_tag tag (i ∷ is) = str_eq i.tag tag || has_tag tag is

unfoldable pub unreleasable : List Incarnation → List Incarnation
unfolding releasable has_tag
unreleasable is = let r = releasable is in filter_if (λ i. not (has_tag i.tag r)) is

unfoldable pub revisioned : List Incarnation → List Incarnation
revisioned = filter_if has_revision

pub alertable : List Incarnation → List Incarnation
unfolding revisioned is_releasing
alertable is =
    filter_if (in_states (State.canarying ∷ State.canaried ∷ State.pendingrelease ∷ []))
      (revisioned is)
    ++ filter_if is_releasing (revisioned is)

pub unretirable : {F : Type 0} → Controller F → List Incarnation → List Incarnation
unfolding is_releasing
unretirable c = filter_if λ i.
    let elig : Bool = elim (target c i) [ none ↦ false | some t ↦ t.release.eligible ] in
    in_state State.retired i || is_releasing i && not elig && not (marked_as_failed i)

-- The first releasable incarnation that is no canary.
pub first_ramping : List Incarnation → Option String
first_ramping [] = none
first_ramping (i ∷ is) =
    if not (in_state State.canaried i) && not (in_state State.canarying i)
    then some i.tag
    else first_ramping is

-- The loop of `newIncarnationCollection` that sets `isRamping`.
unfoldable pub mark_ramping : List Incarnation → List Incarnation
unfolding first_ramping releasable
mark_ramping is = elim (first_ramping (releasable is)) [
  | none ↦ is
  | some tag ↦ map (λ i. if str_eq i.tag tag then record i { is_ramping = true } else i) is
]
