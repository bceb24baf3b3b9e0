-- ===== src/Camp/Settings/Observer.antt =====
-- The observers of `list`, `get`, `watch` and `serve`.
use zero_conf_mesh.Prelude.{ℕ, String, false, ◌≡◌, refl, ◌∙◌, Option}
use mathlib.Core.Path.{subst}
use zero_conf_mesh.Types.Announcement.{IpAddr}
use zero_conf_mesh.Config.{ZeroConfConfig}
use zero_conf_mesh.Error.{ok}
use zero_conf_mesh.Builder
use zero_conf_mesh.Builder.{SharedSecretBuilderConfig, ZeroConfMeshBuilder, build_config}
use zero_conf_mesh.Builder.Laws.{IsSecured, build_config-Builds}
use zero_conf_mesh.Camp.Outcome.{Outcome, done, >>=-eq-done}
use zero_conf_mesh.Camp.Files.{Disk}
use zero_conf_mesh.Camp.Options.{DiscoveryOptions, ResolvedDiscoveryOptions}
use zero_conf_mesh.Camp.Settings.{
  TomlApi, resolve_discovery_options, observer, observing, build_observer,
}
use zero_conf_mesh.Camp.Settings.Builders.{
  chosen_secret, apply_interfaces-keeps, apply_shared_secret-keeps,
}

-- What a builder keeps while interfaces are chosen: it announces nothing, with this authentication.
abbrev Observes : Option SharedSecretBuilderConfig → ZeroConfMeshBuilder → Type 0
Observes secret b = (b.advertise_local ≡ false) × (b.shared_secret_auth ≡ secret)

observing-Observes :
    (mdns_port : ℕ) (uuid : String) (port : ℕ) (resolved : ResolvedDiscoveryOptions)
    → Observes
        (chosen_secret resolved.shared_secret resolved.shared_secret_accept
          resolved.shared_secret_mode)
        (observing (Builder.default mdns_port) uuid port resolved)
unfolding observing observer Builder.default Builder.ttl Builder.heartbeat_interval
    Builder.discover_only Builder.service_type Builder.mdns_port Builder.port Builder.branch
    Builder.project Builder.role Builder.agent_id
observing-Observes mdns_port uuid port resolved =
    let kept =
      apply_shared_secret-keeps (observer (Builder.default mdns_port) uuid port resolved)
        resolved.shared_secret resolved.shared_secret_accept resolved.shared_secret_mode refl in
    (kept.0, kept.1)

-- If an observer's builder can be made and builds a configuration, the discovery options could be
-- resolved (from the config file, if they name one), and that configuration announces nothing, and has
-- authentication exactly if the resolved options have a secret, in their mode, and then accepts its own
-- signatures.
pub observer_config :
    (parse_ip : String → Outcome IpAddr) (toml : TomlApi) (mdns_port : ℕ) (uuid : String) (port : ℕ)
    (options : DiscoveryOptions) (disk : Disk) (generated : String) {b : ZeroConfMeshBuilder}
    {c : ZeroConfConfig}
    → build_observer parse_ip toml (Builder.default mdns_port) uuid port options disk ≡ done b
    → build_config generated b ≡ ok c
    → (resolved : ResolvedDiscoveryOptions) × (resolve_discovery_options toml options disk
        ≡ done resolved)
      × (c.advertise_local ≡ false)
      × IsSecured
          (chosen_secret resolved.shared_secret resolved.shared_secret_accept
            resolved.shared_secret_mode)
          c.shared_secret_auth
unfolding build_observer Builder.enable_interface Builder.disable_interface
observer_config parse_ip toml mdns_port uuid port options disk generated {b} {c} h g =
    let (resolved, e, r) = >>=-eq-done (resolve_discovery_options toml options disk) _ h in
    let secret =
      chosen_secret resolved.shared_secret resolved.shared_secret_accept
        resolved.shared_secret_mode in
    let (silent, auth) =
      apply_interfaces-keeps parse_ip (Observes secret) (λ b i o. o) (λ b i o. o)
        resolved.enable_interface resolved.disable_interface
        (observing (Builder.default mdns_port) uuid port resolved) r
        (observing-Observes mdns_port uuid port resolved) in
    let (built, secured) = build_config-Builds generated b g in
    (
      resolved,
      e,
      built.advertise_local ∙ silent,
      subst (λ (s : Option SharedSecretBuilderConfig). IsSecured s c.shared_secret_auth) auth
          secured,
    )
