-- ===== src/Config.antt =====
-- src/config.rs: interface selectors and the validated configuration. Durations are nanoseconds.
pub mod Secret
pub mod Laws
use Prim.Native.String.{◌++◌}
use mathlib.Core.List
use text.Mathlib.Text.{starts_with}
use zero_conf_mesh.Prelude.{
  ℕ, String, Bool, true, false, not, ◌&&◌, ◌||◌, if◌then◌else◌, List, [], ◌∷◌, Option, none, some,
  find_by, leb, eqb,
}
use zero_conf_mesh.Prelude.Text.{trim, is_empty, ends_with, contains}
use zero_conf_mesh.Prelude.Assoc.{keys}
use zero_conf_mesh.Prelude.BTreeMap
use zero_conf_mesh.Error.{
  Result, ok, err, ◌>>=◌, ◌>>◌, invalid_port, invalid_mdns_port, invalid_timing,
  invalid_event_capacity, invalid_service_type, empty_metadata_key, reserved_metadata_key,
}
use zero_conf_mesh.Types.Keys.{
  agent_id_metadata_key, agent_role_metadata_key, agent_project_metadata_key,
  agent_branch_metadata_key, agent_status_metadata_key, is_reserved_metadata_key,
}
use zero_conf_mesh.Types.Status.{AgentStatus, as_str}
use zero_conf_mesh.Types.Normalize.{normalize_required}
use zero_conf_mesh.Types.Capabilities.{AgentMetadata, sync_capabilities_metadata}
use zero_conf_mesh.Types.Announcement
use zero_conf_mesh.Types.Announcement.{IpAddr, AgentAnnouncement, has_blank_key}
use zero_conf_mesh.Config.Secret.{SharedSecretAuth}

abbrev pub default_service_type : String
default_service_type = "_agent-mesh._tcp.local."

-- 30 and 120 seconds.
abbrev pub default_heartbeat_interval : ℕ
default_heartbeat_interval = 30_000_000_000

abbrev pub default_ttl : ℕ
default_ttl = 120_000_000_000

abbrev pub default_event_capacity : ℕ
default_event_capacity = 256

pub data NetworkInterface : Type 0 where
  all_interfaces ipv4 ipv6 loopback_v4 loopback_v6 : NetworkInterface
  name : String → NetworkInterface
  addr : IpAddr → NetworkInterface
  index_v4 index_v6 : ℕ → NetworkInterface

pub record ZeroConfConfig : Type 0 where
  pub agent_id : String
  pub role : String
  pub project : String
  pub branch : String
  pub port : ℕ
  pub mdns_port : ℕ
  pub service_type : String
  pub initial_status : AgentStatus
  pub heartbeat_interval : ℕ
  pub ttl : ℕ
  pub event_capacity : ℕ
  pub capabilities : List String
  pub metadata : AgentMetadata
  pub advertise_local : Bool
  pub enabled_interfaces : List NetworkInterface
  pub disabled_interfaces : List NetworkInterface
  pub shared_secret_auth : Option SharedSecretAuth

unfoldable pub is_valid_service_type : String → Bool
is_valid_service_type service_type =
    if not (starts_with service_type "_") || not (ends_with service_type ".local.")
    then false
    else contains service_type "._tcp." || contains service_type "._udp."

unfoldable pub reserved_key : AgentMetadata → Option String
reserved_key metadata = find_by is_reserved_metadata_key (keys metadata)

unfoldable pub validate : ZeroConfConfig → Result (Unit {0})
validate c =
    if eqb c.port 0
    then err invalid_port
    else if eqb c.mdns_port 0
    then err invalid_mdns_port
    else if leb c.ttl c.heartbeat_interval
    then err (invalid_timing c.heartbeat_interval c.ttl)
    else if eqb c.event_capacity 0
    then err invalid_event_capacity
    else if not (is_valid_service_type c.service_type)
    then err (invalid_service_type c.service_type)
    else if has_blank_key c.metadata
    then err empty_metadata_key
    else elim (reserved_key c.metadata) [
      | some key ↦ err (reserved_metadata_key key)
      | none ↦ ok tt
    ]

unfoldable pub new :
    String
    → String
    → String
    → String
    → ℕ
    → ℕ
    → String
    → AgentStatus
    → ℕ
    → ℕ
    → ℕ
    → List String
    → AgentMetadata
    → Result ZeroConfConfig
new agent_id role project branch port mdns_port service_type status heartbeat ttl capacity
      capabilities metadata =
    do
      agent_id' ← normalize_required agent_id "agent_id"
      role' ← normalize_required role "role"
      project' ← normalize_required project "project"
      branch' ← normalize_required branch "branch"
      service_type' ← normalize_required service_type "service_type"
      let config : ZeroConfConfig = record {
        agent_id = agent_id';
        role = role';
        project = project';
        branch = branch';
        port = port;
        mdns_port = mdns_port;
        service_type = service_type';
        initial_status = status;
        heartbeat_interval = heartbeat;
        ttl = ttl;
        event_capacity = capacity;
        capabilities = capabilities;
        metadata = metadata;
        advertise_local = true;
        enabled_interfaces = [];
        disabled_interfaces = [];
        shared_secret_auth = none;
      }
      validate config
      ok config

unfoldable pub with_advertise_local : Bool → ZeroConfConfig → ZeroConfConfig
with_advertise_local advertise c = record c { advertise_local = advertise }

unfoldable pub with_enabled_interface : NetworkInterface → ZeroConfConfig → ZeroConfConfig
with_enabled_interface interface c = record c {
  enabled_interfaces = List.◌++◌ c.enabled_interfaces (interface ∷ []);
}

unfoldable pub with_disabled_interface : NetworkInterface → ZeroConfConfig → ZeroConfConfig
with_disabled_interface interface c = record c {
  disabled_interfaces = List.◌++◌ c.disabled_interfaces (interface ∷ []);
}

unfoldable pub with_enabled_interfaces : List NetworkInterface → ZeroConfConfig → ZeroConfConfig
with_enabled_interfaces interfaces c = record c {
  enabled_interfaces = List.◌++◌ c.enabled_interfaces interfaces;
}

unfoldable pub with_disabled_interfaces : List NetworkInterface → ZeroConfConfig → ZeroConfConfig
with_disabled_interfaces interfaces c = record c {
  disabled_interfaces = List.◌++◌ c.disabled_interfaces interfaces;
}

unfoldable pub with_shared_secret_auth : SharedSecretAuth → ZeroConfConfig → ZeroConfConfig
with_shared_secret_auth auth c = record c { shared_secret_auth = some auth }

unfoldable pub instance_name : ZeroConfConfig → String
instance_name c = c.agent_id ++ ("." ++ c.service_type)

unfoldable pub host_name : ZeroConfConfig → String
host_name c = c.agent_id ++ ".local."

-- The metadata of the configuration under the configured fields.
unfoldable pub local_metadata : ZeroConfConfig → AgentMetadata
local_metadata c =
    let m₁ = BTreeMap.insert agent_id_metadata_key c.agent_id c.metadata in
    let m₂ = BTreeMap.insert agent_role_metadata_key c.role m₁ in
    let m₃ = BTreeMap.insert agent_project_metadata_key c.project m₂ in
    let m₄ = BTreeMap.insert agent_branch_metadata_key c.branch m₃ in
    let m₅ = BTreeMap.insert agent_status_metadata_key (as_str c.initial_status) m₄ in
    sync_capabilities_metadata m₅ c.capabilities

unfoldable pub local_announcement : ZeroConfConfig → Result AgentAnnouncement
local_announcement c =
    Announcement.new (instance_name c) c.agent_id c.role c.project c.branch c.initial_status c.port
      [] (local_metadata c)
