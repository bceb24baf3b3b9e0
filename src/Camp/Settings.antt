-- ===== src/Camp/Settings.antt =====
-- src/bin/camp.rs: from the options to the builder of a mesh, for an announced agent and for an
-- observer. The TOML codec is a parameter; the parser of IP addresses, the text of an error of the
-- crate, the generated id and the ports that the system hands out are arguments.
pub mod Builders
pub mod Interchange
pub mod Observer
use Prim.Native.Nat.{◌*◌}
use Prim.Native.String.{◌++◌}
use mathlib.Core.List
use zero_conf_mesh.Prelude.{
  ℕ, String, Bool, true, false, not, ◌&&◌, ◌≡◌, if◌then◌else◌, List, [], ◌∷◌, Option, none, some,
}
use zero_conf_mesh.Prelude.BTreeMap
use zero_conf_mesh.Types.Announcement.{IpAddr}
use zero_conf_mesh.Config.{NetworkInterface}
use zero_conf_mesh.Config.Secret.{SharedSecretMode}
use zero_conf_mesh.Builder
use zero_conf_mesh.Builder.{ZeroConfMeshBuilder}
use zero_conf_mesh.Camp.Outcome.{Outcome, done, failed, ◌>>=◌}
use zero_conf_mesh.Camp.Files.{
  FilePath, Disk, Operation, prepare, write, read_to_string, perform_all,
}
use zero_conf_mesh.Camp.Options.{
  SharedSecretModeArg, into_mode, DiscoveryOptions, InitCommand, UpCommand, AnnounceCommand,
  CampAgentConfig, CampDiscoveryConfig, CampConfigFile, AnnounceSettings, ResolvedDiscoveryOptions,
  from_config, from_command, default_agent_role, default_agent_port,
}
use zero_conf_mesh.Camp.Parse.{parse_network_interface}

-- The `toml` crate on config files: what it prints, with a newline behind it, it parses back.
pub record TomlApi : Type 0 where
  pub to_string_pretty : CampConfigFile → Outcome String
  pub from_str : String → Outcome CampConfigFile
  pub from_str-to_string :
      (config : CampConfigFile) (text : String)
      → BTreeMap.IsSorted config.agent.metadata
      → to_string_pretty config ≡ done text
      → from_str (text ++ "\n") ≡ done config

unfoldable pub apply_metadata : ZeroConfMeshBuilder → List (String × String) → ZeroConfMeshBuilder
apply_metadata builder [] = builder
apply_metadata builder ((key, value) ∷ metadata) =
    apply_metadata (Builder.metadata builder key value) metadata

unfoldable pub apply_shared_secret :
    ZeroConfMeshBuilder → Option String → List String → SharedSecretMode → ZeroConfMeshBuilder
apply_shared_secret builder none accept mode = builder
apply_shared_secret builder (some secret) [] mode =
    Builder.shared_secret_with_mode builder secret mode
apply_shared_secret builder (some secret) (other ∷ accept) mode =
    Builder.shared_secret_rotation_with_mode builder secret (other ∷ accept) mode

-- `Duration::from_millis`
abbrev pub from_millis : ℕ → ℕ
from_millis ms = ms * 1_000_000

-- The setters that `run_announce_with_settings` chains, on the builder it starts with, and then the
-- metadata and the secret.
unfoldable pub described : ZeroConfMeshBuilder → AnnounceSettings → ZeroConfMeshBuilder
described start settings =
    let b₁ = Builder.agent_id start settings.id in
    let b₂ = Builder.role b₁ settings.role in
    let b₃ = Builder.project b₂ settings.project in
    let b₄ = Builder.branch b₃ settings.branch in
    let b₅ = Builder.port b₄ settings.port in
    let b₆ = Builder.mdns_port b₅ settings.mdns_port in
    let b₇ = Builder.service_type b₆ settings.service_type in
    let b₈ = Builder.status b₇ settings.status in
    let b₉ = Builder.heartbeat_interval b₈ (from_millis settings.heartbeat_ms) in
    let b₁₀ = Builder.ttl b₉ (from_millis settings.ttl_ms) in
    Builder.capabilities b₁₀ settings.capabilities

unfoldable pub announced : ZeroConfMeshBuilder → AnnounceSettings → ZeroConfMeshBuilder
unfolding described apply_metadata apply_shared_secret
announced start settings =
    apply_shared_secret (apply_metadata (described start settings) settings.metadata)
      settings.shared_secret settings.shared_secret_accept settings.shared_secret_mode

-- The builder of an observer, on the one it starts with, with its fresh id and port, before and
-- after its secret.
unfoldable pub observer :
    ZeroConfMeshBuilder → String → ℕ → ResolvedDiscoveryOptions → ZeroConfMeshBuilder
observer start uuid port resolved =
    let b₁ = Builder.agent_id start ("camp-observer-" ++ uuid) in
    let b₂ = Builder.role b₁ "observer" in
    let b₃ = Builder.project b₂ "observer" in
    let b₄ = Builder.branch b₃ "watch" in
    let b₅ = Builder.port b₄ port in
    let b₆ = Builder.mdns_port b₅ resolved.mdns_port in
    let b₇ = Builder.service_type b₆ resolved.service_type in
    let b₈ = Builder.discover_only b₇ in
    let b₉ = Builder.heartbeat_interval b₈ (from_millis 200) in Builder.ttl b₉ 2_000_000_000

unfoldable pub observing :
    ZeroConfMeshBuilder → String → ℕ → ResolvedDiscoveryOptions → ZeroConfMeshBuilder
unfolding observer apply_shared_secret
observing start uuid port resolved =
    apply_shared_secret (observer start uuid port resolved) resolved.shared_secret
      resolved.shared_secret_accept resolved.shared_secret_mode

abbrev pub write_printed : FilePath → Outcome String → List Operation × Outcome (Unit {0})
write_printed path (failed message) = (prepare path, failed message)
write_printed path (done contents) =
    (List.◌++◌ (prepare path) (write path (contents ++ "\n")), done tt)

module _ (toml : TomlApi) where
  unfoldable pub read_camp_config : FilePath → Disk → Outcome CampConfigFile
  unfolding read_to_string
  read_camp_config path disk = do contents ← read_to_string path disk; toml.from_str contents

  -- The operations, and whether the file could be written: the parent is created first.
  unfoldable pub write_camp_config : FilePath → CampConfigFile → List Operation × Outcome (Unit {0})
  write_camp_config path config = write_printed path (toml.to_string_pretty config)

  unfoldable pub resolve_discovery_options :
      DiscoveryOptions → Disk → Outcome ResolvedDiscoveryOptions
  unfolding read_camp_config into_mode
  resolve_discovery_options options disk = elim options.config [
    | some path ↦ do
      config ← read_camp_config path disk
      done (record {
        service_type = config.discovery.service_type;
        mdns_port = config.discovery.mdns_port;
        shared_secret = config.discovery.shared_secret;
        shared_secret_accept = config.discovery.shared_secret_accept;
        shared_secret_mode = into_mode config.discovery.shared_secret_mode;
        enable_interface = config.discovery.enable_interface;
        disable_interface = config.discovery.disable_interface;
      })
    | none ↦ done (record {
      service_type = options.service_type;
      mdns_port = options.mdns_port;
      shared_secret = options.shared_secret;
      shared_secret_accept = options.shared_secret_accept;
      shared_secret_mode = into_mode options.shared_secret_mode;
      enable_interface = options.enable_interface;
      disable_interface = options.disable_interface;
    })
  ]

module _ (parse_ip : String → Outcome IpAddr) where
  -- One of the two loops: the setter is `enable_interface` or `disable_interface`.
  unfoldable pub apply_each :
      (ZeroConfMeshBuilder → NetworkInterface → ZeroConfMeshBuilder)
      → List String
      → ZeroConfMeshBuilder
      → Outcome ZeroConfMeshBuilder
  apply_each setter [] builder = done builder
  apply_each setter (interface ∷ interfaces) builder = do
    parsed ← parse_network_interface parse_ip interface
    apply_each setter interfaces (setter builder parsed)

  unfoldable pub apply_interfaces :
      ZeroConfMeshBuilder → List String → List String → Outcome ZeroConfMeshBuilder
  unfolding apply_each
  apply_interfaces builder enabled disabled = do
    with_enabled ← apply_each Builder.enable_interface enabled builder
    apply_each Builder.disable_interface disabled with_enabled

  unfoldable pub announce_builder :
      ZeroConfMeshBuilder → AnnounceSettings → Outcome ZeroConfMeshBuilder
  unfolding announced apply_interfaces
  announce_builder start settings =
      apply_interfaces (announced start settings) settings.enable_interface
        settings.disable_interface

  -- The builders that `run_announce` and `run_up` reach.
  unfoldable pub run_announce : ZeroConfMeshBuilder → AnnounceCommand → Outcome ZeroConfMeshBuilder
  unfolding from_command announce_builder
  run_announce start command = announce_builder start (from_command command)

  module _ (toml : TomlApi) where
    unfoldable pub build_observer :
        ZeroConfMeshBuilder → String → ℕ → DiscoveryOptions → Disk → Outcome ZeroConfMeshBuilder
    unfolding resolve_discovery_options observing apply_interfaces
    build_observer start uuid port options disk = do
      resolved ← resolve_discovery_options toml options disk
      apply_interfaces (observing start uuid port resolved) resolved.enable_interface
          resolved.disable_interface

    unfoldable pub run_up : ZeroConfMeshBuilder → UpCommand → Disk → Outcome ZeroConfMeshBuilder
    unfolding read_camp_config from_config announce_builder
    run_up start command disk = do
      config ← read_camp_config toml command.config disk
      announce_builder start (from_config config)
