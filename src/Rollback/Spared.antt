-- ===== src/Rollback/Spared.antt =====
-- controllers/revision_controller.go: which revisions are not marked as failed.
use text.Mathlib.Text.{◌==◌ as str_eq}
use Prim.Native.String.{String}
use picchu.Base.{
  Bool, true, false, Bool-cases, ◌&&◌, not, none, some, Option-cases, some-injective, List, [], ◌∷◌,
  leb, ◌≡◌, refl, sym, ap, ◌∙◌, inl, inr, arith, every,
}
use picchu.Rollback.{Target, Instance, TargetStatus}
use picchu.Rollback.Statuses.{
  is_timing_out, acceptance_percentage, guards_slos, find_status, violated_target, slo_violation,
  is_failing,
}

-- A target status that has been accepted, and does not time out.
abbrev pub is_accepted : TargetStatus → Bool
is_accepted s = not (str_eq s.state "timingout") && leb acceptance_percentage s.peak_percent

accepted-timing_out :
    (ss : List TargetStatus) → every is_accepted ss ≡ true → is_timing_out ss ≡ false
accepted-timing_out [] h = refl
accepted-timing_out (s ∷ ss) h = ground (arith, accepted-timing_out ss (ground (arith, h)), h)

accepted-find_status :
    (name : String) (ss : List TargetStatus) (s : TargetStatus)
    → every is_accepted ss ≡ true
    → find_status name ss ≡ some s
    → leb acceptance_percentage s.peak_percent ≡ true
unfolding find_status
accepted-find_status name [] s h found = absurd (ground arith)
accepted-find_status name (t ∷ ss) s h found = elim (Option-cases (find_status name ss)) [
  | inr (later, e) ↦
      accepted-find_status name ss s (ground (arith, h)) (e ∙ ground (arith, e, found))
  | inl e ↦ elim (Bool-cases (str_eq t.name name)) [
    | inl same ↦
        let is_t : t ≡ s = some-injective (ground (arith, e, same, found)) in
        ap (λ x. leb acceptance_percentage x.peak_percent) (sym is_t) ∙ ground (arith, h)
    | inr differ ↦ absurd (ground (arith, e, differ, found))
  ]
]

accepted-violated_target :
    (ss : List TargetStatus) (ts : List Target)
    → every is_accepted ss ≡ true
    → violated_target ss ts ≡ none
unfolding violated_target
accepted-violated_target ss [] h = refl
accepted-violated_target ss (t ∷ ts) h = elim (Bool-cases (guards_slos t)) [
  | inr e ↦ ground (arith, e, accepted-violated_target ss ts h)
  | inl e ↦ elim (Option-cases (find_status t.name ss)) [
    | inl gone ↦ ground (arith, e, gone, accepted-violated_target ss ts h)
    | inr (s, found) ↦ ground (arith, e, found, accepted-find_status t.name ss s h found)
  ]
]

-- A revision that does not time out and has had at least half of the traffic in each target that
-- has a status is not marked as failed, whatever the alerts say.
pub is_failing-accepted :
    (r : Instance) (ss : List TargetStatus) (triggered : Bool)
    → every is_accepted ss ≡ true
    → is_failing r ss triggered ≡ false
unfolding is_failing slo_violation
is_failing-accepted r ss triggered h =
    ground (arith, accepted-timing_out ss h, accepted-violated_target ss r.targets h)
