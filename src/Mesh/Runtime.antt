-- ===== src/Mesh/Runtime.antt =====
-- src/mesh.rs: what a running node does. Each function is a stretch of code that holds its locks from
-- beginning to end, or the composition the code makes of such stretches.
use zero_conf_mesh.Prelude.{ℕ, true, false, not, if◌then◌else◌}
use zero_conf_mesh.Error.{Result, ok, err}
use zero_conf_mesh.Types.Announcement.{AgentAnnouncement}
use zero_conf_mesh.Types.Txt.{TxtApi}
use zero_conf_mesh.Types.Auth.{MacApi}
use zero_conf_mesh.Registry.{upsert_local, remove_local, evict_stale_at}
use zero_conf_mesh.Broadcaster.{MdnsApi, announce, unregister}
use zero_conf_mesh.Mesh.{Update, mutator, broadcaster_of, signed, ZeroConfMesh}

module _ (txt : TxtApi) (mac : MacApi) (mdns : MdnsApi txt) where
  -- `broadcaster.announce`: the daemon is told of a snapshot.
  unfoldable pub announcing :
      AgentAnnouncement → ZeroConfMesh txt mac mdns → ZeroConfMesh txt mac mdns × Result (Unit {0})
  announcing a m =
      let (daemon, result) = announce txt mdns (broadcaster_of m.config) a m.daemon in
      (record m { daemon = daemon }, result)

  -- `registry.upsert_local`: the snapshot goes into the registry.
  unfoldable pub store :
      ℕ → AgentAnnouncement → ZeroConfMesh txt mac mdns → ZeroConfMesh txt mac mdns
  store now a m = record m { registry = (upsert_local a now m.registry).0 }

  -- How an update ends: a failed announcement is returned, and not stored.
  unfoldable pub publish :
      ℕ
      → AgentAnnouncement
      → ZeroConfMesh txt mac mdns
      → ZeroConfMesh txt mac mdns × Result (Unit {0})
  unfolding announcing store
  publish now a m =
      let (told, result) = announcing a m in
      elim result [ err e ↦ (told, err e) | ok _ ↦ (store now a told, ok tt) ]

  -- How a round of the heartbeat ends: a failed announcement is only logged, and stored.
  unfoldable pub republish :
      ℕ → AgentAnnouncement → ZeroConfMesh txt mac mdns → ZeroConfMesh txt mac mdns
  unfolding announcing store
  republish now a m = store now a (announcing a m).0

  -- The write lock under which the local agent is signed and cloned.
  unfoldable pub sign_local : ZeroConfMesh txt mac mdns → ZeroConfMesh txt mac mdns
  sign_local m = record m { local_agent = signed mac m.config.shared_secret_auth m.local_agent }

  unfoldable pub refresh_local_agent :
      ℕ → ZeroConfMesh txt mac mdns → ZeroConfMesh txt mac mdns × Result (Unit {0})
  refresh_local_agent now m =
      if not m.config.advertise_local
      then (m, ok tt)
      else publish now (sign_local m).local_agent (sign_local m)

  unfoldable pub mutate_local_agent :
      Update → ℕ → ZeroConfMesh txt mac mdns → ZeroConfMesh txt mac mdns × Result (Unit {0})
  mutate_local_agent update now m = elim (mutator update m.local_agent) [
    | err e ↦ (m, err e)
    | ok a ↦ refresh_local_agent now (record m { local_agent = a })
  ]

  -- One round of the heartbeat.
  unfoldable pub heartbeat : ℕ → ZeroConfMesh txt mac mdns → ZeroConfMesh txt mac mdns
  heartbeat now m = republish now m.local_agent m

  -- One round of the sweeper.
  unfoldable pub sweep : ℕ → ZeroConfMesh txt mac mdns → ZeroConfMesh txt mac mdns
  sweep now m = record m { registry = (evict_stale_at now m.registry).0 }

  -- `shutdown` until it has read the local agent.
  unfoldable pub request_shutdown : ZeroConfMesh txt mac mdns → ZeroConfMesh txt mac mdns
  request_shutdown m = record m { shutdown_requested = true; shutdown_sent = true }

  -- Takes the announcement down and the local agent out of the registry; an error is only logged.
  unfoldable pub leave : AgentAnnouncement → ZeroConfMesh txt mac mdns → ZeroConfMesh txt mac mdns
  leave a m =
      if m.config.advertise_local
      then record m {
        daemon = (unregister txt mdns (broadcaster_of m.config) a m.daemon).0;
        registry = (remove_local a.agent_id m.registry).0;
      }
      else m

  -- Takes the handles and waits; the first task that fails to join ends it, with the later handles
  -- still held and the daemon running.
  unfoldable pub join_tasks :
      Result (Unit {0})
      → Result (Unit {0})
      → Result (Unit {0})
      → ZeroConfMesh txt mac mdns
      → ZeroConfMesh txt mac mdns × Result (Unit {0})
  join_tasks heartbeat_end sweeper_end listener_end m =
      let m₁ = record m { heartbeat_task = false } in
      let m₂ = record m₁ { sweeper_task = false } in
      let m₃ = record m₂ { listener_task = false } in
      elim (if m.heartbeat_task then heartbeat_end else ok tt) [
        | err e ↦ (m₁, err e)
        | ok _ ↦ elim (if m.sweeper_task then sweeper_end else ok tt) [
          | err e ↦ (m₂, err e)
          | ok _ ↦ elim (if m.listener_task then listener_end else ok tt) [
            | err e ↦ (m₃, err e)
            | ok _ ↦ (record m₃ { daemon = mdns.shutdown m₃.daemon }, ok tt)
          ]
        ]
      ]

  -- `between` is what the tasks do to the node while `shutdown` waits for them.
  unfoldable pub shutdown :
      Result (Unit {0})
      → Result (Unit {0})
      → Result (Unit {0})
      → (ZeroConfMesh txt mac mdns → ZeroConfMesh txt mac mdns)
      → ZeroConfMesh txt mac mdns
      → ZeroConfMesh txt mac mdns × Result (Unit {0})
  shutdown heartbeat_end sweeper_end listener_end between m =
      if m.shutdown_requested
      then (m, ok tt)
      else join_tasks heartbeat_end sweeper_end listener_end
          (between (leave m.local_agent (request_shutdown m)))

  -- `Drop`: aborts the tasks without touching the registry.
  unfoldable pub drop : ZeroConfMesh txt mac mdns → ZeroConfMesh txt mac mdns
  drop m = if m.shutdown_requested then m else record m {
    shutdown_requested = true;
    shutdown_sent = true;
    heartbeat_task = false;
    sweeper_task = false;
    listener_task = false;
    daemon = mdns.shutdown m.daemon;
  }
