-- ===== src/Tests/Mesh.antt =====
-- src/mesh.rs: a node starts, beats, hears of a peer, is updated and shut down.
use zero_conf_mesh.Prelude.{
  ℕ, String, Bool, true, false, ◌≡◌, refl, List, [], ◌∷◌, Option, none, some,
}
use zero_conf_mesh.Prelude.Text.{trim}
use zero_conf_mesh.Prelude.BTreeMap
use zero_conf_mesh.Error.{ok, err, task_join, empty_field}
use zero_conf_mesh.Types.Announcement.{AgentAnnouncement}
use zero_conf_mesh.Types.Status.{idle, busy}
use zero_conf_mesh.Types.Info.{into_agent_info}
use zero_conf_mesh.Config.{ZeroConfConfig, local_announcement}
use zero_conf_mesh.Config.Laws.{IsConfigured}
use zero_conf_mesh.Registry.{get}
use zero_conf_mesh.Mesh.{
  Update, update_project, update_status, mutator, signed, ZeroConfMesh, first_registry, from_config,
}
use zero_conf_mesh.Mesh.Runtime.{
  publish, republish, announcing, store, mutate_local_agent, shutdown,
}
use zero_conf_mesh.Mesh.Steps.{
  System, Reach, here, further, beats, announces, stores, stops, updates, skips, leaving,
  to_refresh,
}
use zero_conf_mesh.Mesh.Progress.{IsDown, shutdown_reachable}
use zero_conf_mesh.Mesh.Safety.{IsRunning, Reach-IsRunning}
use zero_conf_mesh.Mesh.Start.{own_listing, from_config-IsRunning}
use zero_conf_mesh.Config.Secret.{SharedSecretAuth, AcceptsOwn}
use zero_conf_mesh.Types.Auth.{verify_shared_secret_auth}
use zero_conf_mesh.Tests.Listener.{inputs}
use zero_conf_mesh.Mesh.Mutate.{mutate-visible, mutate-failed}
use zero_conf_mesh.Mesh.Unlisted.{discover_only-absent}
use zero_conf_mesh.Mesh.Shutdown.{shutdown-twice, shutdown-absent, shutdown-late_heartbeat}
use zero_conf_mesh.Tests.Data.{txt, mac, mdns, config, config-IsConfigured}

-- The announcement of the configuration.
abbrev announced : AgentAnnouncement
announced = record {
  instance_name = "agent-1._agent-mesh._tcp.local.";
  agent_id = "agent-1";
  role = "coder";
  project = "alpha";
  branch = "main";
  status = idle;
  capabilities = "plan" ∷ "review" ∷ [];
  port = 8080;
  addresses = [];
  metadata =
      ("agent_id", "agent-1")
      ∷ ("capabilities", "plan,review")
      ∷ ("current_branch", "main")
      ∷ ("current_project", "alpha")
      ∷ ("role", "coder")
      ∷ ("status", "idle")
      ∷ ("team", "blue")
      ∷ [];
}

abbrev node : ZeroConfMesh txt mac mdns
node = record {
  config = config;
  registry =
      first_registry txt mac mdns inputs 1 config (signed mac config.shared_secret_auth announced);
  local_agent = signed mac config.shared_secret_auth announced;
  daemon = "browse _agent-mesh._tcp.local." ∷ "register agent-1" ∷ [];
  shutdown_sent = false;
  heartbeat_task = true;
  sweeper_task = true;
  listener_task = true;
  shutdown_requested = false;
}

config-announced : local_announcement config ≡ ok announced
unfolding local_announcement zero_conf_mesh.Config.instance_name
    zero_conf_mesh.Config.local_metadata zero_conf_mesh.Types.Announcement.new
    zero_conf_mesh.Types.Normalize.normalize_required trim
    zero_conf_mesh.Types.Capabilities.capabilities_from_metadata zero_conf_mesh.Prelude.Assoc.lookup
    zero_conf_mesh.Types.Capabilities.canonicalize_capabilities
    zero_conf_mesh.Types.Capabilities.listed_capabilities zero_conf_mesh.Prelude.Text.split
    zero_conf_mesh.Types.Normalize.normalize_capability zero_conf_mesh.Prelude.Text.contains_char
    zero_conf_mesh.Prelude.Sort.Texts.dedup
    zero_conf_mesh.Types.Capabilities.sync_capabilities_metadata
    zero_conf_mesh.Prelude.Sort.Texts.sort zero_conf_mesh.Prelude.BTreeMap.insert
    zero_conf_mesh.Prelude.Text.join zero_conf_mesh.Types.Status.as_str
config-announced = refl

starts : from_config txt mac mdns inputs 1 config ≡ ok node
unfolding from_config zero_conf_mesh.Mesh.apply_interfaces zero_conf_mesh.Mesh.start_listener
    zero_conf_mesh.Mesh.announce_and_start_listener zero_conf_mesh.Broadcaster.announce
    zero_conf_mesh.Broadcaster.to_service_info signed
    zero_conf_mesh.Types.Auth.apply_shared_secret_auth
starts = rw config-announced refl

from_config-IsRunning_example :
    IsRunning txt mac mdns config (node, [])
    × (get config.agent_id node.registry ≡ own_listing txt mac mdns config node.local_agent 1)
    × ((auth : SharedSecretAuth)
        → config.shared_secret_auth ≡ some auth
        → AcceptsOwn auth
        → verify_shared_secret_auth mac auth node.local_agent ≡ ok tt)
from_config-IsRunning_example =
    from_config-IsRunning txt mac mdns inputs 1 config config-IsConfigured (tt, tt) starts

-- A heartbeat reads, the shutdown begins, and then the heartbeat publishes.
abbrev stopping : ZeroConfMesh txt mac mdns
stopping = record node { shutdown_requested = true; shutdown_sent = true }

abbrev late : System txt mac mdns
late = (republish txt mac mdns 2 node.local_agent stopping, leaving node.local_agent ∷ [])

late-Reach : Reach txt mac mdns (node, []) late
unfolding zero_conf_mesh.Mesh.Runtime.request_shutdown republish announcing store
late-Reach =
    further
      (further (further (further here (beats refl)) (stops refl))
        (announces (leaving node.local_agent ∷ []) [] true node.local_agent))
      (stores [] (leaving node.local_agent ∷ []) 2 node.local_agent)

Reach-IsRunning_example : IsRunning txt mac mdns config late
Reach-IsRunning_example =
    Reach-IsRunning txt mac mdns config (node, []) late late-Reach
      (from_config-IsRunning txt mac mdns inputs 1 config config-IsConfigured (tt, tt) starts).0

updated : (mutate_local_agent txt mac mdns (update_status busy) 3 node).1 ≡ ok tt
unfolding mutate_local_agent mutator zero_conf_mesh.Mesh.Runtime.refresh_local_agent publish
    announcing store zero_conf_mesh.Broadcaster.announce zero_conf_mesh.Broadcaster.to_service_info
updated = refl

mutate-visible_example :
    (a : AgentAnnouncement) × (mutator (update_status busy) node.local_agent ≡ ok a)
    × (let b = signed mac config.shared_secret_auth a in
        ((mutate_local_agent txt mac mdns (update_status busy) 3 node).0.local_agent ≡ b)
        × (get b.agent_id (mutate_local_agent txt mac mdns (update_status busy) 3 node).0.registry
            ≡ some (into_agent_info b 3)))
mutate-visible_example = mutate-visible txt mac mdns (update_status busy) 3 node refl updated

abbrev discover_only : ZeroConfConfig
discover_only = record config { advertise_local = false }

abbrev observer : ZeroConfMesh txt mac mdns
observer = record {
  config = discover_only;
  registry =
      first_registry txt mac mdns inputs 1 discover_only
        (signed mac config.shared_secret_auth announced);
  local_agent = signed mac config.shared_secret_auth announced;
  daemon = "browse _agent-mesh._tcp.local." ∷ [];
  shutdown_sent = false;
  heartbeat_task = false;
  sweeper_task = true;
  listener_task = true;
  shutdown_requested = false;
}

discover_only-announced : local_announcement discover_only ≡ ok announced
unfolding local_announcement zero_conf_mesh.Config.local_metadata
    zero_conf_mesh.Config.instance_name
discover_only-announced = config-announced

observes : from_config txt mac mdns inputs 1 discover_only ≡ ok observer
unfolding from_config zero_conf_mesh.Mesh.apply_interfaces zero_conf_mesh.Mesh.start_listener
observes = rw discover_only-announced refl

discover_only-IsConfigured : IsConfigured discover_only
discover_only-IsConfigured =
    let w = config-IsConfigured in
    record {
      agent_id = w.agent_id;
      role = w.role;
      project = w.project;
      branch = w.branch;
      service_type = w.service_type;
      port = w.port;
      mdns_port = w.mdns_port;
      timing = w.timing;
      event_capacity = w.event_capacity;
      service_type_shape = w.service_type_shape;
      no_blank_key = w.no_blank_key;
      no_reserved_key = w.no_reserved_key;
    }

-- An update of the project is set and then not announced.
abbrev moved : AgentAnnouncement
moved = record observer.local_agent {
  metadata = BTreeMap.insert "current_project" "beta" observer.local_agent.metadata;
  project = "beta";
}

moves : mutator (update_project "beta") observer.local_agent ≡ ok moved
unfolding mutator zero_conf_mesh.Types.Announcement.set_project
    zero_conf_mesh.Types.Normalize.normalize_required trim
moves = refl

discover_only-absent_example :
    get config.agent_id (record observer { local_agent = moved }).registry ≡ none
discover_only-absent_example =
    discover_only-absent txt mac mdns inputs 1 discover_only discover_only-IsConfigured (tt, tt)
      refl observes
      (further (further here (updates (update_project "beta") moved moves)) (skips [] [] refl))

shutdown-twice_example :
    shutdown txt mac mdns
      (ok tt)
      (ok tt)
      (ok tt)
      (λ m. m)
      (shutdown txt mac mdns (err (task_join "panic")) (ok tt) (ok tt) (λ m. m) node).0
    ≡ ((shutdown txt mac mdns (err (task_join "panic")) (ok tt) (ok tt) (λ m. m) node).0, ok tt)
shutdown-twice_example =
    shutdown-twice txt mac mdns (err (task_join "panic")) (ok tt) (ok tt) (ok tt) (ok tt) (ok tt)
      (λ m. m) (λ m. m) node (λ m. refl)

shutdown-absent_example :
    get node.local_agent.agent_id
      (shutdown txt mac mdns (ok tt) (ok tt) (ok tt) (λ n. n) node).0.registry
    ≡ none
shutdown-absent_example = shutdown-absent txt mac mdns (ok tt) (ok tt) (ok tt) node refl refl

shutdown-late_heartbeat_example :
    get node.local_agent.agent_id
      (shutdown txt mac mdns
        (ok tt)
        (ok tt)
        (ok tt)
        (λ n. republish txt mac mdns 2 node.local_agent n)
        node).0.registry
    ≡ some (into_agent_info node.local_agent 2)
shutdown-late_heartbeat_example =
    shutdown-late_heartbeat txt mac mdns (ok tt) (ok tt) (ok tt) 2 node refl

refused :
    (mutate_local_agent txt mac mdns (update_project " ") 3 node).1 ≡ err (empty_field "project")
unfolding mutate_local_agent mutator zero_conf_mesh.Types.Announcement.set_project
    zero_conf_mesh.Types.Normalize.normalize_required trim
refused = refl

mutate-failed_example :
    (mutate_local_agent txt mac mdns (update_project " ") 3 node).0.registry ≡ node.registry
mutate-failed_example = mutate-failed txt mac mdns (update_project " ") 3 node refused

shutdown_reachable_example :
    (n : ZeroConfMesh txt mac mdns) × Reach txt mac mdns (node, to_refresh ∷ []) (n, [])
    × IsDown txt mac mdns n
    × (get node.local_agent.agent_id n.registry ≡ none)
shutdown_reachable_example = shutdown_reachable txt mac mdns node (to_refresh ∷ []) refl refl
