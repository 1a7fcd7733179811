-- ===== src/Routes/Exposed.antt =====
-- controllers/plan/syncApp.go: which hosts and gateways the virtual service serves.
use Prim.Native.String.{String, ◌++◌ as append}
use text.Mathlib.Text.{◌==◌ as str_eq}
use text.Mathlib.TextEquality.{eq_iff}
use mathlib.Core.List.{Memᴰ}
use mathlib.Core.List.Memᴰ.{not-nil}
use picchu.Base.{
  true, false, Bool-cases, Option-cases, List, [], ◌∷◌, ◌||◌, ◌≡◌, refl, ap, subst, ◌⊎◌, inl, inr,
  arith, any_if,
}
use picchu.Objects.{lookup}
use picchu.Routes.{SyncApp, PortInfo, Library, has, add_host, add_hosts}
use picchu.Routes.Hosts.{
  is_user_defined, is_default_port, add_default_host, add_domain, add_domains, ingress_hosts, under,
}

pub has-add_host : (x h : String) (m : List String) → has x (add_host h m) ≡ (str_eq h x || has x m)
unfolding add_host
has-add_host x h [] = refl
has-add_host x h (k ∷ m) = elim (Bool-cases (str_eq k h)) [
  | inl e ↦ ground (arith, e, ap (λ s. str_eq s x) ((eq_iff k h).0 e))
  | inr e ↦ ground (arith, e, has-add_host x h m)
]

pub has-add_hosts :
    (x : String) (hs m : List String) → has x (add_hosts hs m) ≡ (has x hs || has x m)
unfolding add_hosts
has-add_hosts x [] m = refl
has-add_hosts x (h ∷ hs) m = ground (arith, has-add_hosts x hs (add_host h m), has-add_host x h m)

module _ {V : Type 0} (lib : Library V) (p : SyncApp V) (x : String) where
  -- The host is one that the port gets by default.
  abbrev ByDefault : String → PortInfo → Type 0
  ByDefault ingress port =
      (is_user_defined lib p x ≡ false) × (is_default_port lib p ingress port ≡ true)

  add_default_host-has :
      (port : PortInfo) (ingress h : String) (m : List String)
      → has x (add_default_host lib p port ingress h m) ≡ true
      → ByDefault ingress port ⊎ (has x m ≡ true)
  unfolding add_default_host
  add_default_host-has port ingress h m found = elim (Bool-cases (is_user_defined lib p h)) [
    | inl user ↦ inr (ground (arith, user, found))
    | inr free ↦ elim (Bool-cases (is_default_port lib p ingress port)) [
      | inr other ↦ inr (ground (arith, free, other, found))
      | inl default ↦ elim (Bool-cases (str_eq h x)) [
        | inl same ↦
            inl (subst (λ s. is_user_defined lib p s ≡ false) ((eq_iff h x).0 same) free, default)
        | inr differ ↦ inr (ground (arith, free, default, differ, found, has-add_host x h m))
      ]
    ]
  ]

  add_twice-has :
      (port : PortInfo) (ingress h k : String) (m : List String)
      → has x (add_default_host lib p port ingress h (add_default_host lib p port ingress k m))
        ≡ true
      → ByDefault ingress port ⊎ (has x m ≡ true)
  add_twice-has port ingress h k m found =
      elim (add_default_host-has port ingress h (add_default_host lib p port ingress k m) found) [
        | inl by ↦ inl by
        | inr found' ↦ add_default_host-has port ingress k m found'
      ]

  add_domain-has :
      (port : PortInfo) (ingress d : String) (m : List String)
      → has x (add_domain lib p port ingress d m) ≡ true
      → ByDefault ingress port ⊎ (has x m ≡ true)
  unfolding add_domain
  add_domain-has port ingress d m found = elim (Bool-cases (str_eq p.target p.fleet)) [
    | inl e ↦
        add_twice-has port ingress (under lib p p.app d) (under lib p p.namespace d) m
          (ground (arith, e, found))
    | inr e ↦ elim (Option-cases (lib.trim_suffix p.namespace (append "-" p.fleet))) [
      | inl e' ↦
          add_default_host-has port ingress (under lib p p.namespace d) m
            (ground (arith, e, e', found))
      | inr (b, e') ↦
          add_twice-has port ingress (under lib p b d) (under lib p p.namespace d) m
            (ground (arith, e, e', found))
    ]
  ]

  add_domains-has :
      (port : PortInfo) (ingress : String) (ds m : List String)
      → has x (add_domains lib p port ingress ds m) ≡ true
      → ByDefault ingress port ⊎ (has x m ≡ true)
  unfolding add_domains
  add_domains-has port ingress [] m found = inr found
  add_domains-has port ingress (d ∷ ds) m found =
      elim (add_domains-has port ingress ds (add_domain lib p port ingress d m) found) [
        | inl by ↦ inl by
        | inr h ↦ add_domain-has port ingress d m h
      ]

  -- Where a host of a port comes from.
  pub ingress_hosts-has :
      (port : PortInfo) (ingress : String) (ds : List String)
      → has x (ingress_hosts lib p port ds ingress) ≡ true
      → (has x port.hosts ≡ true) ⊎ ByDefault ingress port
  unfolding ingress_hosts
  ingress_hosts-has port ingress ds found = elim (Bool-cases (has x port.hosts)) [
    | inl e ↦ inl e
    | inr e ↦
        elim (add_domains-has port ingress ds [] (
          ground
            (arith, e, found, has-add_hosts x port.hosts (add_domains lib p port ingress ds [])))) [
              | inl by ↦ inr by
              | inr h ↦ absurd (ground arith)
            ]
  ]

  user-defined :
      (port : PortInfo) (ports : List PortInfo)
      → Memᴰ port ports
      → has x port.hosts ≡ true
      → any_if (λ q. has x q.hosts) ports ≡ true
  user-defined port [] m h = absurd (not-nil m)
  user-defined port (q ∷ qs) (Memᴰ.head e) h = ground (arith, ap (λ r. has x r.hosts) e, h)
  user-defined port (q ∷ qs) (Memᴰ.tail m) h = ground (arith, user-defined port qs m h)

  default_port_unique :
      (a b : PortInfo) (ingress : String)
      → str_eq a.name b.name ≡ false
      → is_default_port lib p ingress a ≡ true
      → is_default_port lib p ingress b ≡ true
      → ⊥
  default_port_unique a b ingress differ for_a for_b =
      elim (Option-cases (lookup ingress p.default_ingress_ports)) [
        | inl e ↦ ground (arith, e, for_a)
        | inr (n, e) ↦
            let is_a : str_eq n a.name ≡ true = ground (arith, e, for_a) in
            let is_b : str_eq n b.name ≡ true = ground (arith, e, for_b) in
            ground (arith, differ, is_b, ap (λ s. str_eq s b.name) ((eq_iff n a.name).0 is_a))
      ]

  -- If two ports of the app with different names are served at the same host through an ingress,
  -- the host is one that the user gave to both.
  pub ingress_hosts-shared :
      (a b : PortInfo) (ingress : String) (ds : List String)
      → Memᴰ a p.ports
      → Memᴰ b p.ports
      → str_eq a.name b.name ≡ false
      → has x (ingress_hosts lib p a ds ingress) ≡ true
      → has x (ingress_hosts lib p b ds ingress) ≡ true
      → (has x a.hosts ≡ true) × (has x b.hosts ≡ true)
  ingress_hosts-shared a b ingress ds of_a of_b differ at_a at_b =
      elim (ingress_hosts-has a ingress ds at_a) [
        | inl u ↦ elim (ingress_hosts-has b ingress ds at_b) [
          | inl v ↦ (u, v)
          | inr (free, default) ↦ absurd (ground (arith, free, user-defined a p.ports of_a u))
        ]
        | inr (free, default) ↦ elim (ingress_hosts-has b ingress ds at_b) [
          | inl v ↦ absurd (ground (arith, free, user-defined b p.ports of_b v))
          | inr (free', default') ↦ absurd (default_port_unique a b ingress differ default default')
        ]
      ]
