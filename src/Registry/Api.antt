-- ===== src/Registry/Api.antt =====
-- src/registry.rs: the public names for operations on remote agents.
use zero_conf_mesh.Prelude.{ℕ, String, List, Option}
use zero_conf_mesh.Types.Announcement.{AgentAnnouncement}
use zero_conf_mesh.Types.Info.{AgentInfo}
use zero_conf_mesh.Config.{default_event_capacity}
use zero_conf_mesh.Registry.{
  Registry, RegistryUpsert, with_event_capacity, upsert_remote, remove_remote,
  remove_remote_by_instance_name, evict_stale_at,
}

unfoldable pub new : ℕ → Registry
new ttl = with_event_capacity ttl default_event_capacity

unfoldable pub upsert : AgentAnnouncement → ℕ → Registry → Registry × RegistryUpsert
upsert = upsert_remote

unfoldable pub remove : String → Registry → Registry × Option AgentInfo
remove = remove_remote

unfoldable pub remove_by_instance_name : String → Registry → Registry × Option AgentInfo
remove_by_instance_name = remove_remote_by_instance_name

unfoldable pub evict_stale : ℕ → Registry → Registry × List AgentInfo
evict_stale now = evict_stale_at now
