-- ===== src/Camp/Init.antt =====
-- src/bin/camp.rs: `camp init`, from its options to the operations on the disk. What it infers for
-- options that are not given, and how a path is displayed, are arguments.
pub mod Again
use Prim.Native.String.{◌++◌}
use mathlib.Core.List
use zero_conf_mesh.Prelude.{
  String, Bool, true, false, not, ◌&&◌, if◌then◌else◌, List, [], Option, none, some,
}
use zero_conf_mesh.Prelude.BTreeMap
use zero_conf_mesh.Camp.Outcome.{Outcome, done, failed}
use zero_conf_mesh.Camp.Files.{FilePath, Disk, Operation, or_empty, prepare, write, perform_all}
use zero_conf_mesh.Camp.Options.{
  InitCommand, CampConfigFile, default_agent_role, default_agent_port, default_agent_project,
  default_agent_branch,
}
use zero_conf_mesh.Camp.Slug.{slugify, or_else, filled, not_blank, infer_default_agent_id}
use zero_conf_mesh.Camp.Guidance.{
  agents_guidance_start, agents_guidance_end, replace_marked_block, render_agents_guidance,
}
use zero_conf_mesh.Camp.Settings.{TomlApi, write_camp_config}

abbrev pub unwrap_or {ℓ} : {A : Type ℓ} → A → Option A → A
unwrap_or otherwise none = otherwise
unwrap_or otherwise (some a) = a

-- What `init` finds around it: the package's name in `Cargo.toml`, the directory's name, what
-- `git branch --show-current` and `hostname` print, and the variables `USER` and `HOSTNAME`.
pub record Surroundings : Type 0 where
  pub package_name : Option String
  pub directory_name : Option String
  pub current_branch : Option String
  pub user : Option String
  pub hostname : Option String
  pub printed_hostname : Option String

unfoldable pub infer_default_project : Surroundings → String
infer_default_project around =
    unwrap_or default_agent_project
      (or_else (not_blank around.package_name) (not_blank around.directory_name))

unfoldable pub infer_default_branch : Surroundings → String
infer_default_branch around = unwrap_or default_agent_branch (filled around.current_branch)

-- The config that `init` writes.
unfoldable pub init_config : Surroundings → InitCommand → CampConfigFile
unfolding infer_default_project infer_default_branch infer_default_agent_id BTreeMap.extend
init_config around command =
    let project = unwrap_or (infer_default_project around) command.project in
    let branch = unwrap_or (infer_default_branch around) command.branch in
    let agent_id =
      unwrap_or
        (infer_default_agent_id around.user around.hostname around.printed_hostname project branch)
        command.id in
    record {
      agent = record {
        id = agent_id;
        role = unwrap_or default_agent_role command.role;
        project = project;
        branch = branch;
        port = unwrap_or default_agent_port command.port;
        status = command.status;
        capabilities = command.capabilities;
        metadata = BTreeMap.extend [] command.metadata;
      };
      discovery = record {
        service_type = command.service_type;
        mdns_port = command.mdns_port;
        heartbeat_ms = command.heartbeat_ms;
        ttl_ms = command.ttl_ms;
        shared_secret = command.shared_secret;
        shared_secret_accept = command.shared_secret_accept;
        shared_secret_mode = command.shared_secret_mode;
        enable_interface = command.enable_interface;
        disable_interface = command.disable_interface;
      };
    }

unfoldable pub upsert_agents_guidance :
    (FilePath → String) → FilePath → FilePath → CampConfigFile → Disk → List Operation
unfolding prepare write replace_marked_block render_agents_guidance slugify
upsert_agents_guidance display path config_path config disk =
    let guidance =
      render_agents_guidance (display config_path) config.agent.project
        (slugify config.agent.project) in
    let existing = or_empty (disk path) in
    let updated =
      replace_marked_block existing agents_guidance_start agents_guidance_end guidance in
    List.◌++◌ (prepare path) (write path updated)

abbrev pub exists : FilePath → Disk → Bool
exists path disk = elim (disk path) [ none ↦ false | some _ ↦ true ]

-- The guidance is written after the config, if that could be written.
abbrev pub then_guidance :
    (FilePath → String)
    → InitCommand
    → CampConfigFile
    → Disk
    → List Operation × Outcome (Unit {0})
    → List Operation × Outcome (Unit {0})
then_guidance display command config disk (ops, failed message) = (ops, failed message)
then_guidance display command config disk (ops, done _) = (
  List.◌++◌ ops (
      upsert_agents_guidance display command.agents_file command.config config
        (perform_all ops disk)),
  done tt,
)

-- The operations that `run_init` performs once it has the config, and how it ends.
unfoldable pub write_files :
    TomlApi
    → (FilePath → String)
    → InitCommand
    → CampConfigFile
    → Disk
    → List Operation × Outcome (Unit {0})
unfolding write_camp_config
write_files toml display command config disk =
    then_guidance display command config disk (write_camp_config toml command.config config)

unfoldable pub run_init :
    TomlApi
    → (FilePath → String)
    → Surroundings
    → InitCommand
    → Disk
    → List Operation × Outcome (Unit {0})
unfolding init_config write_files
run_init toml display around command disk =
    if exists command.config disk && not command.force
    then (
      [],
      failed (
          "camp config already exists at "
          ++ (display command.config ++ "; rerun with --force to overwrite")),
    )
    else write_files toml display command (init_config around command) disk
