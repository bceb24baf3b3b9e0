-- ===== src/Builder/Laws.antt =====
-- What the builder builds.
use zero_conf_mesh.Prelude.{ℕ, String, Bool, ◌≡◌, refl, List, [], Option, none, some, arith}
use mathlib.Core.Path.{subst}
use zero_conf_mesh.Error.{ok, >>=-eq-ok}
use zero_conf_mesh.Types.Status.{AgentStatus}
use zero_conf_mesh.Types.Capabilities.{AgentMetadata, canonicalize_capabilities}
use zero_conf_mesh.Types.Capabilities.Laws.{IsCanonical, canonicalize-IsCanonical}
use zero_conf_mesh.Config.Secret.{
  SharedSecretAuth, AcceptsOwn, with_rotation, with_rotation-AcceptsOwn, with_rotation-mode,
}
use zero_conf_mesh.Config
use zero_conf_mesh.Config.{
  NetworkInterface, ZeroConfConfig, with_advertise_local, with_enabled_interfaces,
  with_disabled_interfaces, with_shared_secret_auth,
}
use zero_conf_mesh.Config.Laws.{IsConfigured, new-IsConfigured}
use zero_conf_mesh.Builder.{
  SharedSecretBuilderConfig, ZeroConfMeshBuilder, or_generated, port_or_error, base_config,
  with_auth, build_config,
}

-- The authentication of a configuration, from the builder's: none for none, and otherwise one that
-- accepts its own signatures.
abbrev pub IsSecured : Option SharedSecretBuilderConfig → Option SharedSecretAuth → Type 0
IsSecured none auth = auth ≡ none
IsSecured (some b) none = ⊥
IsSecured (some b) (some auth) = AcceptsOwn auth × (auth.mode ≡ b.mode)

-- The rest of a configuration, from the builder.
pub record Builds (b : ZeroConfMeshBuilder) (c : ZeroConfConfig) : Type 0 where
  pub configured : IsConfigured c
  pub capabilities : IsCanonical c.capabilities
  pub advertise_local : c.advertise_local ≡ b.advertise_local
  pub enabled_interfaces : c.enabled_interfaces ≡ b.enabled_interfaces
  pub disabled_interfaces : c.disabled_interfaces ≡ b.disabled_interfaces
  pub metadata : c.metadata ≡ b.metadata

new-fields :
    (id role project branch : String) (port mdns_port : ℕ) (t : String) (s : AgentStatus)
    (h ttl capacity : ℕ) (l : List String) (m : AgentMetadata) {c : ZeroConfConfig}
    → Config.new id role project branch port mdns_port t s h ttl capacity l m ≡ ok c
    → (c.capabilities ≡ l)
      × (c.metadata ≡ m)
      × (c.enabled_interfaces ≡ [])
      × (c.disabled_interfaces ≡ [])
      × (c.shared_secret_auth ≡ none)
unfolding Config.new
new-fields id role project branch port mdns_port t s h ttl capacity l m {c} e = ground arith

-- The interfaces, the flag and the authentication are no concern of the checks.
replace-IsConfigured :
    (c : ZeroConfConfig) (advertise : Bool) (enabled disabled : List NetworkInterface)
    (auth : Option SharedSecretAuth)
    → IsConfigured c
    → IsConfigured (record c {
      advertise_local = advertise;
      enabled_interfaces = enabled;
      disabled_interfaces = disabled;
      shared_secret_auth = auth;
    })
replace-IsConfigured c advertise enabled disabled auth w = record {
  agent_id = w.agent_id;
  role = w.role;
  project = w.project;
  branch = w.branch;
  service_type = w.service_type;
  port = w.port;
  mdns_port = w.mdns_port;
  timing = w.timing;
  event_capacity = w.event_capacity;
  service_type_shape = w.service_type_shape;
  no_blank_key = w.no_blank_key;
  no_reserved_key = w.no_reserved_key;
}

base_config-Builds :
    (generated : String) (b : ZeroConfMeshBuilder) {c : ZeroConfConfig}
    → base_config generated b ≡ ok c
    → Builds b c × (c.shared_secret_auth ≡ none)
unfolding base_config with_advertise_local with_enabled_interfaces with_disabled_interfaces
base_config-Builds generated b {c} h =
    let (port, p, hp) = >>=-eq-ok (port_or_error b.port) _ h in
    let (caps, q, hq) = >>=-eq-ok (canonicalize_capabilities b.capabilities) _ hp in
    let (base, r, hr) =
      >>=-eq-ok
        (Config.new (or_generated generated b.agent_id) b.role b.project b.branch port b.mdns_port
          b.service_type b.initial_status b.heartbeat_interval b.ttl b.event_capacity caps
          b.metadata)
        _ hq in
    let w =
      new-IsConfigured (or_generated generated b.agent_id) b.role b.project b.branch port
        b.mdns_port b.service_type b.initial_status b.heartbeat_interval b.ttl b.event_capacity caps
        b.metadata r in
    let (kept, metadata, enabled, disabled, auth) =
      new-fields (or_generated generated b.agent_id) b.role b.project b.branch port b.mdns_port
        b.service_type b.initial_status b.heartbeat_interval b.ttl b.event_capacity caps b.metadata
        r in
    let final = with_disabled_interfaces b.disabled_interfaces (
      with_enabled_interfaces b.enabled_interfaces (with_advertise_local b.advertise_local base)) in
    let same : final ≡ c = cc in
    subst (λ c. Builds b c × (c.shared_secret_auth ≡ none)) same
      (
        record {
          configured =
              replace-IsConfigured base b.advertise_local final.enabled_interfaces
                final.disabled_interfaces base.shared_secret_auth w;
          capabilities = rw kept (canonicalize-IsCanonical b.capabilities caps q);
          advertise_local = refl;
          enabled_interfaces = rw enabled;
          disabled_interfaces = rw disabled;
          metadata = metadata;
        },
        auth,
      )

with_auth-Builds :
    (b : ZeroConfMeshBuilder) (secret : Option SharedSecretBuilderConfig) (c : ZeroConfConfig)
    {d : ZeroConfConfig}
    → Builds b c
    → c.shared_secret_auth ≡ none
    → with_auth secret c ≡ ok d
    → Builds b d × IsSecured secret d.shared_secret_auth
unfolding with_auth with_shared_secret_auth
with_auth-Builds b none c {d} w n h =
    let same : c ≡ d = cc in subst (λ d. Builds b d × (d.shared_secret_auth ≡ none)) same (w, n)
with_auth-Builds b (some s) c {d} w n h =
    let (auth, r, hr) =
      >>=-eq-ok (with_rotation s.signing_secret s.verification_secrets s.mode) _ h in
    let same : with_shared_secret_auth auth c ≡ d = cc in
    subst (λ d. Builds b d × IsSecured (some s) d.shared_secret_auth) same
      (
        record {
          configured =
              replace-IsConfigured c c.advertise_local c.enabled_interfaces c.disabled_interfaces
                (some auth) w.configured;
          capabilities = w.capabilities;
          advertise_local = w.advertise_local;
          enabled_interfaces = w.enabled_interfaces;
          disabled_interfaces = w.disabled_interfaces;
          metadata = w.metadata;
        },
        (
          with_rotation-AcceptsOwn s.signing_secret s.verification_secrets s.mode r,
          with_rotation-mode s.signing_secret s.verification_secrets s.mode r,
        ),
      )

-- A configuration that the builder returns passed every check, has canonical capabilities and the
-- builder's flag, interfaces and metadata; it has authentication exactly if the builder does, in the
-- builder's mode, and then accepts its own signatures.
pub build_config-Builds :
    (generated : String) (b : ZeroConfMeshBuilder) {c : ZeroConfConfig}
    → build_config generated b ≡ ok c
    → Builds b c × IsSecured b.shared_secret_auth c.shared_secret_auth
unfolding build_config
build_config-Builds generated b h =
    let (base, p, q) = >>=-eq-ok (base_config generated b) _ h in
    let (w, n) = base_config-Builds generated b p in
    with_auth-Builds b b.shared_secret_auth base w n q
