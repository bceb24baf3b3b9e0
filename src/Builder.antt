-- ===== src/Builder.antt =====
-- src/builder.rs: the builder of a mesh. Every setter takes the builder and returns it changed. The
-- generated agent id and the mDNS library's port are arguments.
pub mod Laws
use zero_conf_mesh.Prelude.{ℕ, String, Bool, true, false, List, [], ◌∷◌, ◌++◌, Option, none, some}
use zero_conf_mesh.Prelude.BTreeMap
use zero_conf_mesh.Error.{Result, ok, err, ◌>>=◌, invalid_port}
use zero_conf_mesh.Types.Status.{AgentStatus, idle}
use zero_conf_mesh.Types.Capabilities.{AgentMetadata, canonicalize_capabilities}
use zero_conf_mesh.Config.Secret
use zero_conf_mesh.Config.Secret.{
  SharedSecretMode, SharedSecretAuth, sign_and_verify, with_rotation,
}
use zero_conf_mesh.Config
use zero_conf_mesh.Config.{
  NetworkInterface, ZeroConfConfig, default_service_type, default_heartbeat_interval, default_ttl,
  default_event_capacity, with_advertise_local, with_enabled_interfaces, with_disabled_interfaces,
  with_shared_secret_auth,
}

pub record SharedSecretBuilderConfig : Type 0 where
  pub signing_secret : String
  pub verification_secrets : List String
  pub mode : SharedSecretMode

pub record ZeroConfMeshBuilder : Type 0 where
  pub agent_id : Option String
  pub role : String
  pub project : String
  pub branch : String
  pub port : Option ℕ
  pub mdns_port : ℕ
  pub service_type : String
  pub initial_status : AgentStatus
  pub heartbeat_interval : ℕ
  pub ttl : ℕ
  pub event_capacity : ℕ
  pub metadata : AgentMetadata
  pub capabilities : List String
  pub advertise_local : Bool
  pub enabled_interfaces : List NetworkInterface
  pub disabled_interfaces : List NetworkInterface
  pub shared_secret_auth : Option SharedSecretBuilderConfig

unfoldable pub default : ℕ → ZeroConfMeshBuilder
default mdns_port = record {
  agent_id = none;
  role = "agent";
  project = "default";
  branch = "unknown";
  port = none;
  mdns_port = mdns_port;
  service_type = default_service_type;
  initial_status = idle;
  heartbeat_interval = default_heartbeat_interval;
  ttl = default_ttl;
  event_capacity = default_event_capacity;
  metadata = [];
  capabilities = [];
  advertise_local = true;
  enabled_interfaces = [];
  disabled_interfaces = [];
  shared_secret_auth = none;
}

module _ (b : ZeroConfMeshBuilder) where
  unfoldable pub agent_id : String → ZeroConfMeshBuilder
  agent_id id = record b { agent_id = some id }

  unfoldable pub role : String → ZeroConfMeshBuilder
  role r = record b { role = r }

  unfoldable pub project : String → ZeroConfMeshBuilder
  project p = record b { project = p }

  unfoldable pub branch : String → ZeroConfMeshBuilder
  branch name = record b { branch = name }

  unfoldable pub port : ℕ → ZeroConfMeshBuilder
  port p = record b { port = some p }

  unfoldable pub mdns_port : ℕ → ZeroConfMeshBuilder
  mdns_port p = record b { mdns_port = p }

  unfoldable pub service_type : String → ZeroConfMeshBuilder
  service_type t = record b { service_type = t }

  unfoldable pub status : AgentStatus → ZeroConfMeshBuilder
  status s = record b { initial_status = s }

  unfoldable pub heartbeat_interval : ℕ → ZeroConfMeshBuilder
  heartbeat_interval d = record b { heartbeat_interval = d }

  unfoldable pub ttl : ℕ → ZeroConfMeshBuilder
  ttl d = record b { ttl = d }

  unfoldable pub event_capacity : ℕ → ZeroConfMeshBuilder
  event_capacity n = record b { event_capacity = n }

  unfoldable pub metadata : String → String → ZeroConfMeshBuilder
  metadata key value = record b { metadata = BTreeMap.insert key value b.metadata }

  unfoldable pub metadata_map : AgentMetadata → ZeroConfMeshBuilder
  metadata_map m = record b { metadata = m }

  unfoldable pub capability : String → ZeroConfMeshBuilder
  capability c = record b { capabilities = b.capabilities ++ c ∷ [] }

  unfoldable pub capabilities : List String → ZeroConfMeshBuilder
  capabilities l = record b { capabilities = l }

  unfoldable pub advertise_local : Bool → ZeroConfMeshBuilder
  advertise_local advertise = record b { advertise_local = advertise }

  unfoldable pub discover_only : ZeroConfMeshBuilder
  discover_only = record b { advertise_local = false }

  unfoldable pub enable_interface : NetworkInterface → ZeroConfMeshBuilder
  enable_interface i = record b { enabled_interfaces = b.enabled_interfaces ++ i ∷ [] }

  unfoldable pub disable_interface : NetworkInterface → ZeroConfMeshBuilder
  disable_interface i = record b { disabled_interfaces = b.disabled_interfaces ++ i ∷ [] }

  unfoldable pub shared_secret_rotation_with_mode :
      String → List String → SharedSecretMode → ZeroConfMeshBuilder
  shared_secret_rotation_with_mode signing verification mode = record b {
    shared_secret_auth =
        some
          (record { signing_secret = signing; verification_secrets = verification; mode = mode });
  }

  unfoldable pub shared_secret_with_mode : String → SharedSecretMode → ZeroConfMeshBuilder
  unfolding shared_secret_rotation_with_mode
  shared_secret_with_mode secret mode = shared_secret_rotation_with_mode secret [] mode

  unfoldable pub shared_secret : String → ZeroConfMeshBuilder
  unfolding shared_secret_rotation_with_mode
  shared_secret secret = shared_secret_rotation_with_mode secret [] sign_and_verify

  unfoldable pub shared_secret_rotation : String → List String → ZeroConfMeshBuilder
  unfolding shared_secret_rotation_with_mode
  shared_secret_rotation signing verification =
      shared_secret_rotation_with_mode signing verification sign_and_verify

abbrev pub or_generated : String → Option String → String
or_generated generated none = generated
or_generated generated (some id) = id

abbrev pub port_or_error : Option ℕ → Result ℕ
port_or_error none = err invalid_port
port_or_error (some p) = ok p

-- The configuration without its authentication.
unfoldable pub base_config : String → ZeroConfMeshBuilder → Result ZeroConfConfig
base_config generated b = do
  port ← port_or_error b.port
  capabilities ← canonicalize_capabilities b.capabilities
  config ←
      Config.new (or_generated generated b.agent_id) b.role b.project b.branch port b.mdns_port
        b.service_type b.initial_status b.heartbeat_interval b.ttl b.event_capacity capabilities
        b.metadata
  ok (
      with_disabled_interfaces b.disabled_interfaces (
        with_enabled_interfaces b.enabled_interfaces
          (with_advertise_local b.advertise_local config)))

unfoldable pub with_auth : Option SharedSecretBuilderConfig → ZeroConfConfig → Result ZeroConfConfig
with_auth none config = ok config
with_auth (some auth) config = do
  built ← with_rotation auth.signing_secret auth.verification_secrets auth.mode
  ok (with_shared_secret_auth built config)

unfoldable pub build_config : String → ZeroConfMeshBuilder → Result ZeroConfConfig
build_config generated b = do
  config ← base_config generated b
  with_auth b.shared_secret_auth config
