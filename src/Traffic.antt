-- ===== src/Traffic.antt =====
-- controllers/syncer.go: `prepareRevisions`, which divides the traffic among the releasable
-- incarnations. `now` is the clock. The Istio traffic policy of a route is left out: it is passed on.
pub mod Steps
pub mod Sums
pub mod Limits
pub mod FallBack
pub mod Samples
use Prim.Native.String.{String}
use picchu.Base.{
  ℕ, ◌+◌, ◌-◌, Bool, true, false, ◌&&◌, ◌||◌, not, List, [], ◌∷◌, ◌++◌, map, filter_if, length,
  if◌then◌else◌, ltb, leb, ◌==◌, Option, none, some, u32, Panics, panicked, finished, ◌>>=◌,
}
use picchu.Incarnation.{
  Incarnation, Controller, has_revision, is_routable, current_percent_target,
  update_current_percent, set_release_eligible,
}
use picchu.Fleet.{deployed, releasable, unreleasable, has_tag}

-- A releasable incarnation with the weight of its revision in `revisionsMap`.
pub record Entry : Type 0 where
  pub incarnation : Incarnation
  pub weight : ℕ

-- `plan.Revision`
pub record Route : Type 0 where
  pub tag : String
  pub weight : ℕ
  pub tag_routing_header : String

-- `utils.Min(int32(a), int32(b))` as a uint32: from 2^31 on a number is negative as an int32.
abbrev pub min_int32 : ℕ → ℕ → ℕ
min_int32 a b =
    let less =
      if leb 2147483648 a then ltb b 2147483648 || ltb a b else ltb b 2147483648 && ltb a b in
    if less then a else b

abbrev pub with_entry : Entry → List Entry × ℕ → Panics (List Entry × ℕ)
with_entry e (entries, left) = finished (e ∷ entries, left)

-- The most that an incarnation may get: behind the ramping one it cannot gain.
abbrev pub percent_limit : Bool → ℕ → Incarnation → ℕ
percent_limit behind remaining i =
    if behind then min_int32 i.status.current_percent remaining else remaining

module _ (now : ℕ) where
  -- One round of the loop, after the new percentage is known.
  abbrev pub assigned : Bool → ℕ → Incarnation → Entry
  assigned behind percent i = record {
    incarnation =
        (let i' = update_current_percent now percent i in
          if leb percent 0 && behind then set_release_eligible false i' else i');
    weight = percent;
  }

  abbrev pub top_up : ℕ → Entry → Entry
  top_up left e = record {
    incarnation =
        update_current_percent now (u32 (e.incarnation.status.current_percent + left))
          e.incarnation;
    weight = u32 (e.weight + left);
  }

  -- What is left goes to the ramping incarnation, or else to the first.
  pub top_up_ramping : ℕ → List Entry → Option (List Entry)
  top_up_ramping left [] = none
  top_up_ramping left (e ∷ es) =
      let rest = top_up_ramping left es in
      if e.incarnation.is_ramping
      then some (top_up left e ∷ es)
      else elim rest [ none ↦ none | some es' ↦ some (e ∷ es') ]

  abbrev pub top_up_first : ℕ → List Entry → List Entry
  top_up_first left [] = []
  top_up_first left (e ∷ es) =
      let percent = u32 (e.incarnation.status.current_percent + left) in
      record { incarnation = update_current_percent now percent e.incarnation; weight = percent }
      ∷ es

  pub spend : ℕ → List Entry → List Entry
  unfolding top_up_ramping
  spend left es =
      if ltb 0 left
      then elim (top_up_ramping left es) [ none ↦ top_up_first left es | some es' ↦ es' ]
      else es

  -- The incarnations that are not releasable have their percentage set to 0.
  abbrev pub reset_unreleasable : List Incarnation → List Incarnation
  reset_unreleasable is =
      let r = releasable is in
      map (λ i. if has_tag i.tag r then i else update_current_percent now 0 i) is

module _ {F : Type 0} (c : Controller F) (now : ℕ) where
  -- The loop: `behind` says that `firstNonCanary` is set, and the result has what is left of the
  -- 100 percent.
  pub assign : Bool → ℕ → List Incarnation → Panics (List Entry × ℕ)
  assign behind remaining [] = finished ([], remaining)
  assign behind remaining (i ∷ is) =
      current_percent_target c now (percent_limit behind remaining i) i >>= λ percent.
      let rest = assign (behind || i.is_ramping) (remaining - percent) is in
      if ltb remaining percent
      then panicked
      else rest >>= with_entry (assigned now behind percent i)

  pub divide : List Incarnation → Panics (List Entry)
  unfolding assign
  divide is = assign false 100 is >>= λ (entries, left). finished (spend now left entries)

abbrev pub routing_header : Incarnation → String
routing_header i = elim i.revision [
  | none ↦ ""
  | some r ↦ if is_routable i then r.tag_routing_header else ""
]

abbrev pub route_of : Entry → Route
route_of e = record {
  tag = e.incarnation.tag;
  weight = e.weight;
  tag_routing_header = routing_header e.incarnation;
}

-- The entry of a deployed incarnation, which an entry for the same tag overwrites.
abbrev pub idle_route : Incarnation → Route
idle_route i = record { tag = i.tag; weight = 0; tag_routing_header = routing_header i }

-- The incarnations with their new statuses, and the routes: those of the map, in any order.
pub record Prepared : Type 0 where
  pub entries : List Entry
  pub others : List Incarnation
  pub routes : List Route

abbrev pub incarnations_of : List Entry → List Incarnation
incarnations_of = map (λ e. e.incarnation)

module _ {F : Type 0} (c : Controller F) (now : ℕ) where
  abbrev pub prepared : List Incarnation → List Incarnation → List Entry → Prepared
  prepared before is entries = record {
    entries = entries;
    others = unreleasable is;
    routes =
        map route_of entries
        ++ map idle_route
            (filter_if (λ i. not (has_tag i.tag (incarnations_of entries))) (deployed before));
  }

  pub prepare_revisions : List Incarnation → Panics Prepared
  unfolding divide spend
  prepare_revisions is =
      if length (deployed is) == 0
      then finished (record { entries = []; others = is; routes = [] })
      else let is' = reset_unreleasable now is in
        divide c now (releasable is') >>= λ entries. finished (prepared is is' entries)
