-- ===== src/Camp/Options.antt =====
-- src/bin/camp.rs: the options of the commands, the config file, and what both are turned into.
-- Durations are numbers of milliseconds.
use zero_conf_mesh.Prelude.{ℕ, String, Bool, List, Option}
use zero_conf_mesh.Types.Status.{AgentStatus}
use zero_conf_mesh.Types.Capabilities.{AgentMetadata}
use zero_conf_mesh.Config.Secret
use zero_conf_mesh.Config.Secret.{SharedSecretMode}
use zero_conf_mesh.Camp.Files.{FilePath}

abbrev pub default_agent_role : String
default_agent_role = "agent"

abbrev pub default_agent_project : String
default_agent_project = "default"

abbrev pub default_agent_branch : String
default_agent_branch = "main"

abbrev pub default_agent_port : ℕ
default_agent_port = 7000

pub data SharedSecretModeArg : Type 0 where
  sign_only sign_and_verify : SharedSecretModeArg

unfoldable pub into_mode : SharedSecretModeArg → SharedSecretMode
into_mode sign_only = Secret.sign_only
into_mode sign_and_verify = Secret.sign_and_verify

pub record DiscoveryOptions : Type 0 where
  pub config : Option FilePath
  pub service_type : String
  pub mdns_port : ℕ
  pub discover_ms : ℕ
  pub shared_secret : Option String
  pub shared_secret_accept : List String
  pub shared_secret_mode : SharedSecretModeArg
  pub enable_interface : List String
  pub disable_interface : List String

pub record InitCommand : Type 0 where
  pub config : FilePath
  pub agents_file : FilePath
  pub force : Bool
  pub id : Option String
  pub role : Option String
  pub project : Option String
  pub branch : Option String
  pub port : Option ℕ
  pub status : AgentStatus
  pub capabilities : List String
  pub metadata : List (String × String)
  pub service_type : String
  pub mdns_port : ℕ
  pub heartbeat_ms : ℕ
  pub ttl_ms : ℕ
  pub shared_secret : Option String
  pub shared_secret_accept : List String
  pub shared_secret_mode : SharedSecretModeArg
  pub enable_interface : List String
  pub disable_interface : List String

pub record UpCommand : Type 0 where
  pub config : FilePath
  pub duration_secs : Option ℕ
  pub json : Bool

pub record AnnounceCommand : Type 0 where
  pub id : String
  pub role : String
  pub project : String
  pub branch : String
  pub port : ℕ
  pub status : AgentStatus
  pub capabilities : List String
  pub metadata : List (String × String)
  pub service_type : String
  pub mdns_port : ℕ
  pub heartbeat_ms : ℕ
  pub ttl_ms : ℕ
  pub shared_secret : Option String
  pub shared_secret_accept : List String
  pub shared_secret_mode : SharedSecretModeArg
  pub enable_interface : List String
  pub disable_interface : List String
  pub duration_secs : Option ℕ
  pub json : Bool

pub record CampAgentConfig : Type 0 where
  pub id : String
  pub role : String
  pub project : String
  pub branch : String
  pub port : ℕ
  pub status : AgentStatus
  pub capabilities : List String
  pub metadata : AgentMetadata

pub record CampDiscoveryConfig : Type 0 where
  pub service_type : String
  pub mdns_port : ℕ
  pub heartbeat_ms : ℕ
  pub ttl_ms : ℕ
  pub shared_secret : Option String
  pub shared_secret_accept : List String
  pub shared_secret_mode : SharedSecretModeArg
  pub enable_interface : List String
  pub disable_interface : List String

pub record CampConfigFile : Type 0 where
  pub agent : CampAgentConfig
  pub discovery : CampDiscoveryConfig

pub record AnnounceSettings : Type 0 where
  pub id : String
  pub role : String
  pub project : String
  pub branch : String
  pub port : ℕ
  pub status : AgentStatus
  pub capabilities : List String
  pub metadata : List (String × String)
  pub service_type : String
  pub mdns_port : ℕ
  pub heartbeat_ms : ℕ
  pub ttl_ms : ℕ
  pub shared_secret : Option String
  pub shared_secret_accept : List String
  pub shared_secret_mode : SharedSecretMode
  pub enable_interface : List String
  pub disable_interface : List String

pub record ResolvedDiscoveryOptions : Type 0 where
  pub service_type : String
  pub mdns_port : ℕ
  pub shared_secret : Option String
  pub shared_secret_accept : List String
  pub shared_secret_mode : SharedSecretMode
  pub enable_interface : List String
  pub disable_interface : List String

-- `AnnounceSettings::from`: the entries of the metadata, in the order of their keys.
unfoldable pub from_config : CampConfigFile → AnnounceSettings
unfolding into_mode
from_config value = record {
  id = value.agent.id;
  role = value.agent.role;
  project = value.agent.project;
  branch = value.agent.branch;
  port = value.agent.port;
  status = value.agent.status;
  capabilities = value.agent.capabilities;
  metadata = value.agent.metadata;
  service_type = value.discovery.service_type;
  mdns_port = value.discovery.mdns_port;
  heartbeat_ms = value.discovery.heartbeat_ms;
  ttl_ms = value.discovery.ttl_ms;
  shared_secret = value.discovery.shared_secret;
  shared_secret_accept = value.discovery.shared_secret_accept;
  shared_secret_mode = into_mode value.discovery.shared_secret_mode;
  enable_interface = value.discovery.enable_interface;
  disable_interface = value.discovery.disable_interface;
}

-- The settings that `run_announce` takes from its options.
unfoldable pub from_command : AnnounceCommand → AnnounceSettings
unfolding into_mode
from_command command = record {
  id = command.id;
  role = command.role;
  project = command.project;
  branch = command.branch;
  port = command.port;
  status = command.status;
  capabilities = command.capabilities;
  metadata = command.metadata;
  service_type = command.service_type;
  mdns_port = command.mdns_port;
  heartbeat_ms = command.heartbeat_ms;
  ttl_ms = command.ttl_ms;
  shared_secret = command.shared_secret;
  shared_secret_accept = command.shared_secret_accept;
  shared_secret_mode = into_mode command.shared_secret_mode;
  enable_interface = command.enable_interface;
  disable_interface = command.disable_interface;
}
