-- ===== src/Routes/Order.antt =====
-- controllers/plan/syncApp.go: `Apply` where the deletion of the rules fails.
use picchu.Base.{false, none, some, List, [], ◌∷◌, ◌≡◌, ap, ◌∙◌, arith}
use picchu.Traffic.{Route}
use picchu.Routes.{SyncApp, PortInfo, Cluster, Library}
use picchu.Routes.Resources.{
  Resource, Outside, service_resource, destination_rule, prometheus_rule, apply_sidecar,
  apply_deployed, apply_rules, after_delete, apply_ports, apply, ◌and_then◌,
}

module _ {V W Err : Type 0} (api : Outside V W Err) (lib : Library V) (p : SyncApp V) where
  -- Where an app with ports and deployed revisions has no alert rules, and the deletion of the
  -- rules fails with another error than that they are not there, `Apply` returns nil in the state
  -- that the deletion left, without the virtual service.
  pub apply-delete_fails :
      (cluster : Cluster) (w₀ w₁ w₂ w₃ w₄ : W) (e : Err) (port : PortInfo) (ports : List PortInfo)
      (r : Route) (rs : List Route)
      → p.ports ≡ port ∷ ports
      → api.create_or_update (service_resource lib p) w₀ ≡ (none, w₁)
      → apply_sidecar api lib p w₁ ≡ (none, w₂)
      → p.deployed_revisions ≡ r ∷ rs
      → api.create_or_update (Resource.destination_rule_object p.labels (destination_rule lib p)) w₂
        ≡ (none, w₃)
      → p.alert_rules ≡ []
      → api.delete (prometheus_rule lib p []) w₃ ≡ (some e, w₄)
      → api.is_not_found e ≡ false
      → apply api lib p cluster w₀ ≡ (none, w₄)
  unfolding apply apply_ports
  apply-delete_fails cluster w₀ w₁ w₂ w₃ w₄ e port ports r rs some_port served sided some_revision
        ruled no_alerts failed other =
      ap (λ ps. apply_ports api lib p cluster ps w₀) some_port
      ∙ ap
          (λ o.
            o
            and_then apply_sidecar api lib p
            and_then apply_deployed api lib p cluster p.deployed_revisions)
          served
      ∙ ap (λ o. o and_then apply_deployed api lib p cluster p.deployed_revisions) sided
      ∙ ap (λ d. apply_deployed api lib p cluster d w₂) some_revision
      ∙ ap (λ o. o and_then apply_rules api lib p cluster p.alert_rules) ruled
      ∙ ap (λ a. apply_rules api lib p cluster a w₃) no_alerts
      ∙ ap (after_delete api lib p cluster) failed
      ∙ ground (arith, other)
