-- ===== src/Mesh.antt =====
-- src/mesh.rs: the running node. A task handle that is held is `true`; the tasks themselves are the
-- rounds they repeat. `now` is the time an upsert reads.
pub mod Runtime
pub mod Updates
pub mod Discovery
pub mod Steps
pub mod Invariant
pub mod Safety
pub mod Mutate
pub mod Shutdown
pub mod Start
pub mod Unlisted
pub mod Progress
pub mod Queries
use zero_conf_mesh.Prelude.{
  ℕ, String, Bool, true, false, not, if◌then◌else◌, List, [], ◌∷◌, Option, none, some,
}
use zero_conf_mesh.Error.{Result, ok, err, ◌>>=◌, ◌>>◌}
use zero_conf_mesh.Config.Secret.{SharedSecretAuth}
use zero_conf_mesh.Config.{
  NetworkInterface, ZeroConfConfig, local_announcement, instance_name, host_name,
}
use zero_conf_mesh.Types.Status.{AgentStatus}
use zero_conf_mesh.Types.Announcement
use zero_conf_mesh.Types.Announcement.{
  AgentAnnouncement, set_status, set_capabilities, set_project, set_branch, set_metadata,
}
use zero_conf_mesh.Types.Txt.{TxtApi}
use zero_conf_mesh.Types.Auth.{MacApi, apply_shared_secret_auth}
use zero_conf_mesh.Registry.{
  Registry, with_event_capacity, upsert_local, remove_local, evict_stale_at,
}
use zero_conf_mesh.Broadcaster.{MdnsApi, Broadcaster, announce, unregister}
use zero_conf_mesh.Listener.{Listener, Input, run_listener}

-- The calls that change the local agent.
pub data Update : Type 0 where
  update_status : AgentStatus → Update
  update_project update_branch : String → Update
  update_metadata : String → String → Update
  remove_metadata : String → Update
  update_capabilities : List String → Update
  add_capability remove_capability : String → Update

unfoldable pub mutator : Update → AgentAnnouncement → Result AgentAnnouncement
mutator (update_status s) a = ok (set_status s a)
mutator (update_project p) a = set_project p a
mutator (update_branch b) a = set_branch b a
mutator (update_metadata k v) a = set_metadata k v a
mutator (remove_metadata k) a = Announcement.remove_metadata k a
mutator (update_capabilities l) a = set_capabilities l a
mutator (add_capability c) a = Announcement.add_capability c a
mutator (remove_capability c) a = Announcement.remove_capability c a

unfoldable pub broadcaster_of : ZeroConfConfig → Broadcaster
broadcaster_of c = record { service_type = c.service_type; host_name = host_name c }

unfoldable pub listener_of : ZeroConfConfig → Listener
listener_of c = record {
  service_type = c.service_type;
  local_agent_id = c.agent_id;
  local_instance_name = instance_name c;
  shared_secret_auth = c.shared_secret_auth;
}

module _ (mac : MacApi) where
  -- The announcement, signed where the configuration has authentication.
  unfoldable pub signed : Option SharedSecretAuth → AgentAnnouncement → AgentAnnouncement
  signed none a = a
  signed (some auth) a = apply_shared_secret_auth mac auth a

module _ (txt : TxtApi) (mac : MacApi) (mdns : MdnsApi txt) where
  pub record ZeroConfMesh : Type 0 where
    pub config : ZeroConfConfig
    pub registry : Registry
    pub local_agent : AgentAnnouncement
    pub daemon : mdns.ServiceDaemon
    pub shutdown_sent : Bool
    pub heartbeat_task : Bool
    pub sweeper_task : Bool
    pub listener_task : Bool
    pub shutdown_requested : Bool

  -- The interfaces one after the other, up to the first error.
  unfoldable pub apply_interfaces :
      (NetworkInterface → mdns.ServiceDaemon → mdns.ServiceDaemon × Result (Unit {0}))
      → List NetworkInterface
      → mdns.ServiceDaemon
      → Result mdns.ServiceDaemon
  apply_interfaces call [] daemon = ok daemon
  apply_interfaces call (i ∷ rest) daemon =
      let (next, result) = call i daemon in
      elim result [ err e ↦ err e | ok _ ↦ apply_interfaces call rest next ]

  -- A listener that fails to start takes the announcement and the daemon down again.
  unfoldable pub announce_and_start_listener :
      ZeroConfConfig
      → AgentAnnouncement
      → mdns.ServiceDaemon
      → mdns.ServiceDaemon × Result (Unit {0})
  announce_and_start_listener c a daemon =
      let (announced, result) = announce txt mdns (broadcaster_of c) a daemon in
      elim result [
        | err e ↦ (announced, err e)
        | ok _ ↦
            let (browsing, started) = mdns.browse c.service_type announced in
            elim started [
              | ok _ ↦ (browsing, ok tt)
              | err e ↦ (mdns.shutdown (unregister txt mdns (broadcaster_of c) a browsing).0, err e)
            ]
      ]

  unfoldable pub start_listener :
      ZeroConfConfig
      → AgentAnnouncement
      → mdns.ServiceDaemon
      → mdns.ServiceDaemon × Result (Unit {0})
  start_listener c a daemon =
      if c.advertise_local
      then announce_and_start_listener c a daemon
      else mdns.browse c.service_type daemon

  -- The registry once the local agent is in it: the listener runs by then, and may have handled
  -- `earlier` inputs. What it does afterwards are steps of the node that has started.
  unfoldable pub first_registry :
      List (ℕ × Input txt) → ℕ → ZeroConfConfig → AgentAnnouncement → Registry
  first_registry earlier now c a =
      let r =
        run_listener txt mac (listener_of c) earlier (with_event_capacity c.ttl c.event_capacity) in
      if c.advertise_local then (upsert_local a now r).0 else r

  unfoldable pub from_config : List (ℕ × Input txt) → ℕ → ZeroConfConfig → Result ZeroConfMesh
  from_config earlier now c = do
    unsigned ← local_announcement c
    let announcement = signed mac c.shared_secret_auth unsigned
    fresh ← mdns.new_with_port c.mdns_port
    enabled ← apply_interfaces mdns.enable_interface c.enabled_interfaces fresh
    disabled ← apply_interfaces mdns.disable_interface c.disabled_interfaces enabled
    let (daemon, started) = start_listener c announcement disabled
    started
        >> ok (record {
          config = c;
          registry = first_registry earlier now c announcement;
          local_agent = announcement;
          daemon = daemon;
          shutdown_sent = false;
          heartbeat_task = c.advertise_local;
          sweeper_task = true;
          listener_task = true;
          shutdown_requested = false;
        })
