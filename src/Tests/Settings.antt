-- ===== src/Tests/Settings.antt =====
-- src/bin/camp.rs: `init`, then `up`; and an observer.
use zero_conf_mesh.Prelude.{
  ℕ, String, Bool, true, false, ◌&&◌, ◌≡◌, ◌↔◌, refl, arith, List, [], ◌∷◌, Option, none, some,
  ◌==◌, eq_iff, eqb, eqb_iff, if◌then◌else◌, Bool-cases, inl, inr,
}
use zero_conf_mesh.Prelude.BTreeMap
use zero_conf_mesh.Types.Announcement.{IpAddr}
use zero_conf_mesh.Types.Status.{idle, status_eq, status_eq_iff}
use zero_conf_mesh.Types.Capabilities.{AgentMetadata}
use zero_conf_mesh.Error.{ok}
use zero_conf_mesh.Config.Secret
use zero_conf_mesh.Config.{ZeroConfConfig, ipv4}
use zero_conf_mesh.Builder
use zero_conf_mesh.Builder.{ZeroConfMeshBuilder, build_config}
use zero_conf_mesh.Builder.Laws.{IsSecured}
use zero_conf_mesh.Camp.Outcome.{Outcome, done, failed}
use zero_conf_mesh.Camp.Files.{FilePath, path_eq, Disk, Operation, perform_all}
use zero_conf_mesh.Camp.Options.{
  SharedSecretModeArg, sign_only, sign_and_verify, DiscoveryOptions, ResolvedDiscoveryOptions,
  InitCommand, UpCommand, CampAgentConfig, CampDiscoveryConfig, CampConfigFile,
}
use zero_conf_mesh.Camp.Init.{Surroundings, run_init}
use zero_conf_mesh.Camp.Settings.{
  TomlApi, resolve_discovery_options, build_observer, run_up, run_announce,
}
use zero_conf_mesh.Camp.Settings.Builders.{chosen_secret}
use zero_conf_mesh.Camp.Settings.Observer.{observer_config}
use zero_conf_mesh.Camp.Settings.Interchange.{announce_of, run_up-run_init}

-- A codec that knows one config. Its lists are short and it has no secret.
abbrev metadata_eq : AgentMetadata → Bool
metadata_eq ((k, v) ∷ []) = k == "team" && v == "blue"
metadata_eq _ = false

abbrev lists_empty : List String → List String → List String → List String → Bool
lists_empty [] [] [] [] = true
lists_empty _ _ _ _ = false

abbrev open_mode : Option String → SharedSecretModeArg → Bool
open_mode none sign_and_verify = true
open_mode _ _ = false

abbrev saved : CampConfigFile
saved = record {
  agent = record {
    id = "agent-1";
    role = "coder";
    project = "alpha";
    branch = "main";
    port = 8080;
    status = idle;
    capabilities = [];
    metadata = ("team", "blue") ∷ [];
  };
  discovery = record {
    service_type = "_agent-mesh._tcp.local.";
    mdns_port = 5353;
    heartbeat_ms = 30000;
    ttl_ms = 120000;
    shared_secret = none;
    shared_secret_accept = [];
    shared_secret_mode = sign_and_verify;
    enable_interface = [];
    disable_interface = [];
  };
}

abbrev agent_saved : CampAgentConfig → Bool
agent_saved a =
    a.id == "agent-1"
    && a.role == "coder"
    && a.project == "alpha"
    && a.branch == "main"
    && eqb a.port 8080
    && status_eq a.status idle
    && metadata_eq a.metadata
    && lists_empty a.capabilities [] [] []

abbrev discovery_saved : CampDiscoveryConfig → Bool
discovery_saved d =
    d.service_type == "_agent-mesh._tcp.local."
    && eqb d.mdns_port 5353
    && eqb d.heartbeat_ms 30000
    && eqb d.ttl_ms 120000
    && open_mode d.shared_secret d.shared_secret_mode
    && lists_empty d.shared_secret_accept d.enable_interface d.disable_interface []

abbrev is_saved : CampConfigFile → Bool
is_saved c = agent_saved c.agent && discovery_saved c.discovery

metadata_eq_lem : (m : AgentMetadata) → metadata_eq m ≡ true → m ≡ ("team", "blue") ∷ []
metadata_eq_lem [] h = cc
metadata_eq_lem ((k, v) ∷ []) h = ground (arith, eq_iff k "team", eq_iff v "blue")
metadata_eq_lem (e ∷ f ∷ m) h = cc

lists_empty_lem :
    (a b c d : List String) → lists_empty a b c d ≡ true → (a ≡ []) × (b ≡ []) × (c ≡ []) × (d ≡ [])
lists_empty_lem a b c d h = ground arith

open_mode_lem :
    (o : Option String) (m : SharedSecretModeArg)
    → open_mode o m ≡ true
    → (o ≡ none) × (m ≡ sign_and_verify)
open_mode_lem o m h = ground arith

agent_saved_lem : (a : CampAgentConfig) → agent_saved a ≡ true → saved.agent ≡ a
agent_saved_lem a h = ground (
  arith,
  eq_iff a.id "agent-1",
  eq_iff a.role "coder",
  eq_iff a.project "alpha",
  eq_iff a.branch "main",
  eqb_iff a.port 8080,
  status_eq_iff a.status idle,
  metadata_eq_lem a.metadata,
  lists_empty_lem a.capabilities [] [] [],
)

discovery_saved_lem : (d : CampDiscoveryConfig) → discovery_saved d ≡ true → saved.discovery ≡ d
discovery_saved_lem d h = ground (
  arith,
  eq_iff d.service_type "_agent-mesh._tcp.local.",
  eqb_iff d.mdns_port 5353,
  eqb_iff d.heartbeat_ms 30000,
  eqb_iff d.ttl_ms 120000,
  open_mode_lem d.shared_secret d.shared_secret_mode,
  lists_empty_lem d.shared_secret_accept d.enable_interface d.disable_interface [],
)

and_both : (a b : Bool) → (a && b) ≡ true → (a ≡ true) × (b ≡ true)
and_both a b h = ground arith

is_saved_lem : (c : CampConfigFile) → is_saved c ≡ true → saved ≡ c
is_saved_lem c h =
    let (a, d) = and_both (agent_saved c.agent) (discovery_saved c.discovery) h in
    λ i. record {
      agent = agent_saved_lem c.agent a i;
      discovery = discovery_saved_lem c.discovery d i;
    }

abbrev toml_print : CampConfigFile → Outcome String
toml_print c = if is_saved c then done "saved" else failed "unknown"

toml_law :
    (config : CampConfigFile) (text : String)
    → BTreeMap.IsSorted config.agent.metadata
    → toml_print config ≡ done text
    → done saved ≡ done config
toml_law config text s h = elim (Bool-cases (is_saved config)) [
  | inl e ↦ rw (is_saved_lem config e) refl
  | inr e ↦ absurd (ground (arith, e, h))
]

abbrev toml : TomlApi
toml = record {
  to_string_pretty = toml_print;
  from_str = λ text. done saved;
  from_str-to_string = toml_law;
}

abbrev config_file : FilePath
config_file = record { parent = []; file_name = some ".camp.toml" }

abbrev agents_file : FilePath
agents_file = record { parent = []; file_name = some "AGENTS.md" }

abbrev display : FilePath → String
display path = elim path.file_name [ none ↦ "" | some name ↦ name ]

abbrev around : Surroundings
around = record {
  package_name = some "alpha";
  directory_name = none;
  current_branch = some "main";
  user = none;
  hostname = none;
  printed_hostname = none;
}

abbrev command : InitCommand
command = record {
  config = config_file;
  agents_file = agents_file;
  force = false;
  id = some "agent-1";
  role = some "coder";
  project = none;
  branch = some "main";
  port = some 8080;
  status = idle;
  capabilities = [];
  metadata = ("team", "red") ∷ ("team", "blue") ∷ [];
  service_type = "_agent-mesh._tcp.local.";
  mdns_port = 5353;
  heartbeat_ms = 30000;
  ttl_ms = 120000;
  shared_secret = none;
  shared_secret_accept = [];
  shared_secret_mode = sign_and_verify;
  enable_interface = [];
  disable_interface = [];
}

abbrev up : UpCommand
up = record { config = config_file; duration_secs = none; json = false }

abbrev no_files : Disk
no_files path = none

abbrev operations : List Operation
operations = (run_init toml display around command no_files).0

apart : path_eq agents_file config_file ≡ false
unfolding path_eq
apart = refl

initialized : run_init toml display around command no_files ≡ (operations, done tt)
unfolding run_init zero_conf_mesh.Prelude.Text.trim status_eq
initialized = refl

abbrev no_address : String → Outcome IpAddr
no_address raw = failed "invalid IP address syntax"

run_up-run_init_example :
    run_up no_address toml (Builder.default 5353) up (perform_all operations no_files)
    ≡ run_announce no_address (Builder.default 5353) (announce_of around command)
run_up-run_init_example =
    run_up-run_init no_address toml display around command up 5353 no_files apart refl initialized

abbrev options : DiscoveryOptions
options = record {
  config = none;
  service_type = "_agent-mesh._tcp.local.";
  mdns_port = 5353;
  discover_ms = 1500;
  shared_secret = some "s3cret";
  shared_secret_accept = "old" ∷ [];
  shared_secret_mode = sign_and_verify;
  enable_interface = "ipv4" ∷ [];
  disable_interface = [];
}

abbrev done_or {ℓ} : {A : Type ℓ} → A → Outcome A → A
done_or otherwise (failed message) = otherwise
done_or otherwise (done a) = a

abbrev observer_builder : ZeroConfMeshBuilder
observer_builder =
    done_or (Builder.default 5353)
      (build_observer no_address toml (Builder.default 5353) "1" 4242 options no_files)

observer_made :
    build_observer no_address toml (Builder.default 5353) "1" 4242 options no_files
    ≡ done observer_builder
unfolding build_observer zero_conf_mesh.Camp.Parse.parse_network_interface
observer_made = refl

abbrev observer : ZeroConfConfig
observer = record {
  agent_id = "camp-observer-1";
  role = "observer";
  project = "observer";
  branch = "watch";
  port = 4242;
  mdns_port = 5353;
  service_type = "_agent-mesh._tcp.local.";
  initial_status = idle;
  heartbeat_interval = 200_000_000;
  ttl = 2_000_000_000;
  event_capacity = 256;
  capabilities = [];
  metadata = [];
  advertise_local = false;
  enabled_interfaces = ipv4 ∷ [];
  disabled_interfaces = [];
  shared_secret_auth = some (record {
    signing_secret = "s3cret";
    verification_secrets = "old" ∷ "s3cret" ∷ [];
    mode = Secret.sign_and_verify;
  });
}

observer_built : build_config "generated" observer_builder ≡ ok observer
unfolding build_config zero_conf_mesh.Builder.base_config zero_conf_mesh.Builder.with_auth
    zero_conf_mesh.Config.with_disabled_interfaces zero_conf_mesh.Config.with_enabled_interfaces
    zero_conf_mesh.Config.with_advertise_local zero_conf_mesh.Config.with_shared_secret_auth
    Secret.with_rotation Secret.normalize_shared_secret zero_conf_mesh.Config.new
    zero_conf_mesh.Types.Normalize.normalize_required zero_conf_mesh.Prelude.Text.trim
    zero_conf_mesh.Config.validate zero_conf_mesh.Config.is_valid_service_type
    zero_conf_mesh.Prelude.Text.ends_with zero_conf_mesh.Prelude.Text.contains
    zero_conf_mesh.Config.reserved_key zero_conf_mesh.Types.Keys.is_reserved_metadata_key
    zero_conf_mesh.Types.Capabilities.canonicalize_capabilities
    zero_conf_mesh.Types.Normalize.normalize_capability zero_conf_mesh.Prelude.Text.contains_char
    zero_conf_mesh.Prelude.Sort.Texts.dedup zero_conf_mesh.Prelude.Sort.Texts.sort build_observer
    resolve_discovery_options zero_conf_mesh.Camp.Settings.apply_interfaces
    zero_conf_mesh.Camp.Settings.apply_each zero_conf_mesh.Camp.Settings.observing
    zero_conf_mesh.Camp.Settings.observer zero_conf_mesh.Camp.Settings.apply_shared_secret
    zero_conf_mesh.Camp.Options.into_mode zero_conf_mesh.Camp.Parse.parse_network_interface
    Builder.default Builder.agent_id Builder.role Builder.project Builder.branch Builder.port
    Builder.mdns_port Builder.service_type Builder.discover_only Builder.heartbeat_interval
    Builder.ttl Builder.enable_interface Builder.shared_secret_rotation_with_mode
observer_built = refl

observer_config_example :
    (resolved : ResolvedDiscoveryOptions) × (resolve_discovery_options toml options no_files
      ≡ done resolved)
    × (observer.advertise_local ≡ false)
    × IsSecured
        (chosen_secret resolved.shared_secret resolved.shared_secret_accept
          resolved.shared_secret_mode)
        observer.shared_secret_auth
observer_config_example =
    observer_config no_address toml 5353 "1" 4242 options no_files "generated" observer_made
      observer_built
