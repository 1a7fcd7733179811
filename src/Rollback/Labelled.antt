-- ===== src/Rollback/Labelled.antt =====
-- controllers/revision_controller.go: the labels that `LabelWithAppAndFleets` leaves.
use Prim.Native.String.{String}
use text.Mathlib.Text.{◌==◌ as str_eq, starts_with}
use text.Mathlib.TextEquality.{eq_iff}
use text.Mathlib.TextPositions.{eq_refl, starts_with-append}
use picchu.Base.{
  Bool, true, false, Bool-cases, ◌||◌, not, Option, none, some, subst, List, [], ◌∷◌, map, any_if,
  every, every-map, ◌≡◌, refl, sym, ap, ◌∙◌, ◌⊎◌, inl, inr, arith, Panics, panicked, finished,
  ◌>>=◌,
}
use picchu.Objects.{Entries, StringMap, has_key, insert, lookup}
use picchu.Objects.Maps.{lookup-insert, lookup-insert-other}
use picchu.Rollback.{Target, Instance}
use picchu.Rollback.Labels.{
  label_app, label_fleet_prefix, fleet_label, ensure_label, add_fleet_labels, is_stale, drop_stale,
  drop_stale_labels, labelled,
}

has_key-insert :
    (x key value : String) (m : Entries)
    → has_key x (insert key value m) ≡ (str_eq key x || has_key x m)
unfolding has_key insert
has_key-insert x key value [] = refl
has_key-insert x key value ((k, v) ∷ m) = elim (Bool-cases (str_eq k key)) [
  | inl e ↦ ground (arith, e, ap (λ s. str_eq s x) ((eq_iff k key).0 e))
  | inr e ↦ ground (arith, e, has_key-insert x key value m)
]

-- The labels without what is stale, and their keys.
drop_stale-has_key :
    (ts : List Target) (x : String) (m : Entries)
    → is_stale ts x ≡ false
    → has_key x (drop_stale ts m).0 ≡ has_key x m
unfolding has_key drop_stale
drop_stale-has_key ts x [] fresh = refl
drop_stale-has_key ts x ((k, v) ∷ m) fresh = elim (Bool-cases (is_stale ts k)) [
  | inr e ↦ ground (arith, e, drop_stale-has_key ts x m fresh)
  | inl e ↦ elim (Bool-cases (str_eq k x)) [
    | inl same ↦ absurd (ground (arith, fresh, sym (ap (is_stale ts) ((eq_iff k x).0 same)) ∙ e))
    | inr differ ↦ ground (arith, e, differ, drop_stale-has_key ts x m fresh)
  ]
]

drop_stale-lookup :
    (ts : List Target) (x : String) (m : Entries)
    → is_stale ts x ≡ false
    → lookup x (drop_stale ts m).0 ≡ lookup x m
unfolding lookup drop_stale
drop_stale-lookup ts x [] fresh = refl
drop_stale-lookup ts x ((k, v) ∷ m) fresh = elim (Bool-cases (is_stale ts k)) [
  | inr e ↦ ground (arith, e, drop_stale-lookup ts x m fresh)
  | inl e ↦ elim (Bool-cases (str_eq k x)) [
    | inl same ↦ absurd (ground (arith, fresh, sym (ap (is_stale ts) ((eq_iff k x).0 same)) ∙ e))
    | inr differ ↦ ground (arith, e, differ, drop_stale-lookup ts x m fresh)
  ]
]

abbrev pub is_fresh : List Target → String × String → Bool
is_fresh ts e = not (is_stale ts e.0)

drop_stale-fresh : (ts : List Target) (m : Entries) → every (is_fresh ts) (drop_stale ts m).0 ≡ true
unfolding drop_stale
drop_stale-fresh ts [] = refl
drop_stale-fresh ts ((k, v) ∷ m) = ground (arith, drop_stale-fresh ts m)

drop_stale-same :
    (ts : List Target) (m : Entries) → ((drop_stale ts m).1 ≡ true) ⊎ ((drop_stale ts m).0 ≡ m)
unfolding drop_stale
drop_stale-same ts [] = inr refl
drop_stale-same ts ((k, v) ∷ m) = elim (Bool-cases (is_stale ts k)) [
  | inl e ↦ inl (ground (arith, e))
  | inr e ↦ elim (drop_stale-same ts m) [
    | inl h ↦ inl (ground (arith, e, h))
    | inr h ↦ inr (ground (arith, e, h))
  ]
]

insert-fresh :
    (ts : List Target) (key value : String) (m : Entries)
    → is_stale ts key ≡ false
    → every (is_fresh ts) m ≡ true
    → every (is_fresh ts) (insert key value m) ≡ true
unfolding insert
insert-fresh ts key value [] fresh h = ground (arith, fresh)
insert-fresh ts key value ((k, v) ∷ m) fresh h =
    ground (arith, fresh, h, insert-fresh ts key value m fresh (ground (arith, h)))

abbrev is_expected : List Target → String → Bool
is_expected ts name = any_if (λ t. str_eq (fleet_label t) name) ts

fleet_label-expected : (ts : List Target) → every (is_expected ts) (map fleet_label ts) ≡ true
fleet_label-expected [] = refl
fleet_label-expected (t ∷ ts) = ground (
  arith,
  eq_refl (fleet_label t),
  every-map (is_expected ts) (is_expected (t ∷ ts)) (map fleet_label ts) (λ x h. ground (arith, h))
      (fleet_label-expected ts),
)

-- What a step that adds labels keeps to: it succeeds on a map, has the labels `ks` afterwards, keeps
-- the others, and says whether it wrote one.
record Adds (ks : List String) (m : Entries) (updated : Bool) (result : Panics (StringMap × Bool))
    : Type 0 where
  after : Entries
  says : Bool
  made : result ≡ finished (some after, says)
  has : every (λ k. has_key k after) ks ≡ true
  keeps : (x : String) → has_key x m ≡ true → has_key x after ≡ true
  looks : (x : String) → any_if (λ k. str_eq k x) ks ≡ false → lookup x after ≡ lookup x m
  same : (says ≡ true) ⊎ ((after ≡ m) × (says ≡ updated))
  fresh :
      (ts : List Target)
      → every (λ k. not (is_stale ts k)) ks ≡ true
      → every (is_fresh ts) m ≡ true
      → every (is_fresh ts) after ≡ true

ensure_label-Adds :
    (key value : String) (m : Entries) (u : Bool)
    → Adds (key ∷ []) m u (ensure_label key value (some m, u))
ensure_label-Adds key value m u = elim (Bool-cases (has_key key m)) [
  | inl e ↦ record {
    after = m;
    says = u;
    made = ground (arith, e);
    has = ground (arith, e);
    keeps = λ x h. h;
    looks = λ x h. refl;
    same = inr (refl, refl);
    fresh = λ ts k h. h;
  }
  | inr e ↦ record {
    after = insert key value m;
    says = true;
    made = ground (arith, e);
    has = ground (arith, eq_refl key, has_key-insert key key value m);
    keeps = λ x h. ground (arith, h, has_key-insert x key value m);
    looks = λ x h. lookup-insert-other key x (ground (arith, h)) value m;
    same = inl refl;
    fresh = λ ts k h. insert-fresh ts key value m (ground (arith, k)) h;
  }
]

add_fleet_labels-Adds :
    (ts : List Target) (m : Entries) (u : Bool)
    → Adds (map fleet_label ts) m u (add_fleet_labels ts (some m, u))
unfolding add_fleet_labels
add_fleet_labels-Adds [] m u = record {
  after = m;
  says = u;
  made = refl;
  has = refl;
  keeps = λ x h. h;
  looks = λ x h. refl;
  same = inr (refl, refl);
  fresh = λ ts k h. h;
}
add_fleet_labels-Adds (t ∷ ts) m u =
    let a = ensure_label-Adds (fleet_label t) "" m u in
    let b = add_fleet_labels-Adds ts a.after a.says in
    record {
      after = b.after;
      says = b.says;
      made = ap (λ o. o >>= add_fleet_labels ts) a.made ∙ b.made;
      has = ground (arith, b.has, b.keeps (fleet_label t) (ground (arith, a.has)));
      keeps = λ x h. b.keeps x (a.keeps x h);
      looks = λ x h. b.looks x (ground (arith, h)) ∙ a.looks x (ground (arith, h));
      same = elim b.same [
        | inl h ↦ inl h
        | inr (h, k) ↦ elim a.same [ inl h' ↦ inl (k ∙ h') | inr (h', k') ↦ inr (h ∙ h', k ∙ k') ]
      ];
      fresh = λ ts' k h. b.fresh ts' (ground (arith, k)) (a.fresh ts' (ground (arith, k)) h);
    }

every-both :
    (p q s : String → Bool) (xs : List String)
    → ((x : String) → p x ≡ true → q x ≡ true → s x ≡ true)
    → every p xs ≡ true
    → every q xs ≡ true
    → every s xs ≡ true
every-both p q s [] f h k = refl
every-both p q s (x ∷ xs) f h k = ground (
  arith,
  f x (ground (arith, h)) (ground (arith, k)),
  every-both p q s xs f (ground (arith, h)) (ground (arith, k)),
)

label_app-fresh : (ts : List Target) → is_stale ts label_app ≡ false
label_app-fresh ts = refl

-- A label that was there keeps its value.
abbrev pub or_value : Option String → String → Option String
or_value none v = some v
or_value (some u) v = some u

has_key-lookup :
    (key : String) (m : Entries)
    → (has_key key m ≡ false → lookup key m ≡ none)
      × (has_key key m ≡ true → (v : String) × (lookup key m ≡ some v))
unfolding has_key lookup
has_key-lookup key [] = (λ h. refl, λ h. absurd (ground (arith, h)))
has_key-lookup key ((k, v) ∷ m) = elim (Bool-cases (str_eq k key)) [
  | inl e ↦ (λ h. absurd (ground (arith, e, h)), λ h. (v, rw e refl))
  | inr e ↦
      let (gone, there) = has_key-lookup key m in
      (
        λ h. rw e (gone (ground (arith, e, h))),
        λ h. let (u, found) = there (ground (arith, e, h)) in (u, rw e found),
      )
]

ensure_label-lookup :
    (key value : String) (m after : Entries) (u says : Bool)
    → ensure_label key value (some m, u) ≡ finished (some after, says)
    → lookup key after ≡ or_value (lookup key m) value
ensure_label-lookup key value m after u says h = elim (Bool-cases (has_key key m)) [
  | inl e ↦
      let (v, found) = (has_key-lookup key m).1 e in
      let same : m ≡ after = ground (arith, e, h) in
      ap (lookup key) (sym same) ∙ found ∙ sym (ap (λ o. or_value o value) found)
  | inr e ↦
      let same : insert key value m ≡ after = ground (arith, e, h) in
      ap (lookup key) (sym same)
      ∙ lookup-insert key value m
      ∙ sym (ap (λ o. or_value o value) ((has_key-lookup key m).0 e))
]

no_fleet_label : (ts : List Target) → any_if (λ k. str_eq k label_app) (map fleet_label ts) ≡ false
no_fleet_label [] = refl
no_fleet_label (t ∷ ts) = elim (Bool-cases (str_eq (fleet_label t) label_app)) [
  | inl e ↦
      let prefixed =
        subst (λ s. starts_with s label_fleet_prefix ≡ true)
          ((eq_iff (fleet_label t) label_app).0 e)
          (starts_with-append label_fleet_prefix t.fleet) in
      absurd (ground (arith, prefixed))
  | inr e ↦ ground (arith, e, no_fleet_label ts)
]

-- For a revision with a map of labels, `LabelWithAppAndFleets` does not panic; afterwards the
-- revision has the label of each target fleet and no label of another fleet, its app under the key
-- of the app unless that had a value, which it keeps, and its labels are written back where they
-- changed.
pub labelled_lem :
    (r : Instance) (m : Entries)
    → r.labels ≡ some m
    → (after : Entries) × (updated : Bool) × (labelled r ≡ finished (some after, updated))
      × (every (λ k. has_key k after) (map fleet_label r.targets) ≡ true)
      × (lookup label_app after ≡ or_value (lookup label_app m) r.app)
      × (every (is_fresh r.targets) after ≡ true)
      × ((updated ≡ true) ⊎ (after ≡ m))
unfolding labelled
labelled_lem r m given =
    let ts = r.targets in
    let a = add_fleet_labels-Adds ts m false in
    let kept = (drop_stale ts a.after).0 in
    let dropped = (drop_stale ts a.after).1 in
    let b = ensure_label-Adds label_app r.app kept (a.says || dropped) in
    (
      b.after,
      b.says,
      ap
            (λ l. add_fleet_labels ts (l, false) >>= λ acc.
              ensure_label label_app r.app (drop_stale_labels ts acc))
            given
          ∙ ap (λ o. o >>= λ acc. ensure_label label_app r.app (drop_stale_labels ts acc)) a.made
          ∙ b.made,
      every-both (λ k. has_key k a.after) (is_expected ts) (λ k. has_key k b.after)
          (map fleet_label ts)
          (λ x h k. b.keeps x (drop_stale-has_key ts x a.after (ground (arith, k)) ∙ h)) a.has
          (fleet_label-expected ts),
      ensure_label-lookup label_app r.app kept b.after (a.says || dropped) b.says b.made
          ∙ ap (λ o. or_value o r.app)
              (drop_stale-lookup ts label_app a.after (label_app-fresh ts)
                ∙ a.looks label_app (no_fleet_label ts)),
      b.fresh ts (ground (arith, label_app-fresh ts)) (drop_stale-fresh ts a.after),
      elim b.same [
        | inl h ↦ inl h
        | inr (h, k) ↦ elim a.same [
          | inl h' ↦ inl (ground (arith, k, h'))
          | inr (h', k') ↦ elim (drop_stale-same ts a.after) [
            | inl d ↦ inl (ground (arith, k, d))
            | inr d ↦ inr (h ∙ d ∙ h')
          ]
        ]
      ],
    )

nil_panics :
    (r : Instance) (ts : List Target)
    → (add_fleet_labels ts (none, false) >>= λ acc.
        ensure_label label_app r.app (drop_stale_labels r.targets acc))
      ≡ panicked
unfolding add_fleet_labels has_key
nil_panics r [] = refl
nil_panics r (t ∷ ts) = refl

-- A revision whose map of labels is nil makes it panic.
labelled-nil : (r : Instance) → r.labels ≡ none → labelled r ≡ panicked
unfolding labelled
labelled-nil r h =
    ap
      (λ l. add_fleet_labels r.targets (l, false) >>= λ acc.
        ensure_label label_app r.app (drop_stale_labels r.targets acc))
      h
    ∙ nil_panics r r.targets
