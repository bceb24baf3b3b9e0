-- ===== src/Camp/Settings/Interchange.antt =====
-- The config file in the place of the options: `init` and then `up` announce what `announce` does.
use Prim.Native.String.{◌++◌}
use mathlib.Core.List
use zero_conf_mesh.Prelude.{
  ℕ, String, Bool, true, false, not, ◌&&◌, if◌then◌else◌, ◌≡◌, refl, ap, ◌∙◌, sym, List, [], none,
  some, inl, inr,
}
use zero_conf_mesh.Prelude.BTreeMap
use zero_conf_mesh.Types.Announcement.{IpAddr}
use zero_conf_mesh.Builder
use zero_conf_mesh.Builder.{ZeroConfMeshBuilder}
use zero_conf_mesh.Camp.Outcome.{Outcome, done, failed, Outcome-cases}
use zero_conf_mesh.Camp.Files.{
  FilePath, Disk, Operation, path_eq, prepare, write, perform_all, read_to_string,
}
use zero_conf_mesh.Camp.Files.Laws.{
  Spares, perform_all-Spares, perform_all-append, prepare-write-Spares, perform-prepare-write,
}
use zero_conf_mesh.Camp.Options.{
  InitCommand, UpCommand, AnnounceCommand, CampConfigFile, into_mode, from_config, from_command,
}
use zero_conf_mesh.Camp.Settings.{
  TomlApi, apply_shared_secret, described, announced, announce_builder, apply_interfaces,
  read_camp_config, write_printed, write_camp_config, run_announce, run_up,
}
use zero_conf_mesh.Camp.Settings.Builders.{apply_metadata_collected}
use zero_conf_mesh.Camp.Init.{
  Surroundings, init_config, exists, upsert_agents_guidance, then_guidance, write_files, run_init,
}

-- The options of `announce` that say what `init` was told, or inferred.
unfoldable pub announce_of : Surroundings → InitCommand → AnnounceCommand
announce_of around command =
    let config = init_config around command in
    record {
      id = config.agent.id;
      role = config.agent.role;
      project = config.agent.project;
      branch = config.agent.branch;
      port = config.agent.port;
      status = command.status;
      capabilities = command.capabilities;
      metadata = command.metadata;
      service_type = command.service_type;
      mdns_port = command.mdns_port;
      heartbeat_ms = command.heartbeat_ms;
      ttl_ms = command.ttl_ms;
      shared_secret = command.shared_secret;
      shared_secret_accept = command.shared_secret_accept;
      shared_secret_mode = command.shared_secret_mode;
      enable_interface = command.enable_interface;
      disable_interface = command.disable_interface;
      duration_secs = none;
      json = false;
    }

described_metadata :
    (mdns_port : ℕ) (command : AnnounceCommand)
    → (described (Builder.default mdns_port) (from_command command)).metadata ≡ []
unfolding described Builder.default Builder.capabilities Builder.ttl Builder.heartbeat_interval
    Builder.status Builder.service_type Builder.mdns_port Builder.port Builder.branch
    Builder.project Builder.role Builder.agent_id
described_metadata mdns_port command = refl

-- The settings differ in the order and the repetitions of the metadata only.
announced_alike :
    (mdns_port : ℕ) (around : Surroundings) (command : InitCommand)
    → announced (Builder.default mdns_port) (from_config (init_config around command))
      ≡ announced (Builder.default mdns_port) (from_command (announce_of around command))
unfolding announced described from_config from_command announce_of init_config Builder.default
announced_alike mdns_port around command =
    let b = described (Builder.default mdns_port) (from_command (announce_of around command)) in
    ap
      (λ (b : ZeroConfMeshBuilder).
        apply_shared_secret b command.shared_secret command.shared_secret_accept
          (into_mode command.shared_secret_mode))
      (apply_metadata_collected b command.metadata
        (described_metadata mdns_port (announce_of around command)))

failed_not_done :
    {message : String} {ops more : List Operation}
    → ◌≡◌ {A = List Operation × Outcome (Unit {0})} (ops, failed message) (more, done tt)
    → ⊥
failed_not_done e = cc

guidance-Spares :
    (display : FilePath → String) (command : InitCommand) (config : CampConfigFile) (disk : Disk)
    → path_eq command.agents_file command.config ≡ false
    → Spares command.config
        (upsert_agents_guidance display command.agents_file command.config config disk)
unfolding upsert_agents_guidance
guidance-Spares display command config disk apart =
    prepare-write-Spares command.config command.agents_file _ apart

-- What `init` leaves under the path of the config, if it ends well, is read as the config it wrote.
read-write_files :
    (toml : TomlApi) (display : FilePath → String) (command : InitCommand) (config : CampConfigFile)
    (disk : Disk) {ops : List Operation}
    → BTreeMap.IsSorted config.agent.metadata
    → path_eq command.agents_file command.config ≡ false
    → write_files toml display command config disk ≡ (ops, done tt)
    → read_camp_config toml command.config (perform_all ops disk) ≡ done config
unfolding write_files write_camp_config read_camp_config read_to_string
read-write_files toml display command config disk {ops} s apart h =
    elim (Outcome-cases (toml.to_string_pretty config)) [
      | inl (text, e) ↦
          let saved = List.◌++◌ (prepare command.config) (write command.config (text ++ "\n")) in
          let after = perform_all saved disk in
          let more =
            upsert_agents_guidance display command.agents_file command.config config after in
          let same : write_files toml display command config disk
              ≡ (List.◌++◌ saved more, done tt) =
            ap
              (λ (o : Outcome String).
                then_guidance display command config disk (write_printed command.config o))
              e in
          let all_ops : List.◌++◌ saved more ≡ ops =
            ap (λ (p : List Operation × Outcome (Unit {0})). p.0) (sym same ∙ h) in
          let content : perform_all ops disk command.config ≡ some (text ++ "\n") =
            ap (λ (l : List Operation). perform_all l disk command.config) (sym all_ops)
            ∙ ap (λ (d : Disk). d command.config) (perform_all-append saved more disk)
            ∙ perform_all-Spares command.config more after
                (guidance-Spares display command config after apart)
            ∙ perform-prepare-write command.config (text ++ "\n") disk in
          rw content (toml.from_str-to_string config text s e)
      | inr (message, e) ↦ absurd (
          failed_not_done (
            sym (
              ap
                (λ (o : Outcome String).
                  then_guidance display command config disk (write_printed command.config o))
                e)
            ∙ h))
    ]

collected-IsSorted :
    (around : Surroundings) (command : InitCommand)
    → BTreeMap.IsSorted (init_config around command).agent.metadata
unfolding init_config
collected-IsSorted around command = BTreeMap.extend-IsSorted [] command.metadata tt

-- A run that ends well went on.
not_refused :
    (refuse : Bool) (message : String) (run : List Operation × Outcome (Unit {0}))
    {ops : List Operation}
    → ◌≡◌ {A = List Operation × Outcome (Unit {0})}
        (if refuse then ([], failed message) else run)
        (ops, done tt)
    → run ≡ (ops, done tt)
not_refused true message run h = absurd (failed_not_done h)
not_refused false message run h = h

-- If `init` ends well, its two files are not one and the config file was not a file it refuses to
-- overwrite, then `up` from that config builds exactly what `announce` builds from the same options,
-- with what `init` inferred for those that were not given; also the errors are the same.
pub run_up-run_init :
    (parse_ip : String → Outcome IpAddr) (toml : TomlApi) (display : FilePath → String)
    (around : Surroundings) (command : InitCommand) (up : UpCommand) (mdns_port : ℕ) (disk : Disk)
    {ops : List Operation}
    → path_eq command.agents_file command.config ≡ false
    → up.config ≡ command.config
    → run_init toml display around command disk ≡ (ops, done tt)
    → run_up parse_ip toml (Builder.default mdns_port) up (perform_all ops disk)
      ≡ run_announce parse_ip (Builder.default mdns_port) (announce_of around command)
unfolding run_init run_up run_announce announce_builder announce_of
run_up-run_init parse_ip toml display around command up mdns_port disk {ops} apart same h =
    let config = init_config around command in
    let begun : write_files toml display command config disk ≡ (ops, done tt) =
      not_refused (exists command.config disk && not command.force) _ _ h in
    let read =
      read-write_files toml display command config disk (collected-IsSorted around command) apart
        begun in
    rw (same, read)
      (ap
        (λ (b : ZeroConfMeshBuilder).
          apply_interfaces parse_ip b command.enable_interface command.disable_interface)
        (announced_alike mdns_port around command))
