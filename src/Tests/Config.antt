-- ===== src/Tests/Config.antt =====
-- src/config.rs and src/builder.rs: a configuration and what is made of it.
use zero_conf_mesh.Prelude.{String, ◌≡◌}
use zero_conf_mesh.Error.{ok}
use zero_conf_mesh.Types.Announcement.{AgentAnnouncement}
use zero_conf_mesh.Types.Announcement.Valid
use zero_conf_mesh.Prelude.Assoc.{lookup}
use zero_conf_mesh.Config.{local_announcement}
use zero_conf_mesh.Config.Laws.{Announces, announced_entry, local_announcement_lem}
use zero_conf_mesh.Builder.Laws.{Builds, IsSecured, build_config-Builds}
use zero_conf_mesh.Tests.Data.{config, builder, built, config-IsConfigured}

build_config-Builds_example :
    Builds builder config × IsSecured builder.shared_secret_auth config.shared_secret_auth
build_config-Builds_example = build_config-Builds "generated" builder built

local_announcement_lem_example :
    (a : AgentAnnouncement) × (local_announcement config ≡ ok a)
    × Valid.IsValid a
    × Announces config a
    × (a.capabilities ≡ config.capabilities)
    × ((k : String) → lookup k a.metadata ≡ announced_entry config k)
local_announcement_lem_example =
    local_announcement_lem config config-IsConfigured (tt, tt)
      (build_config-Builds "generated" builder built).0.capabilities
