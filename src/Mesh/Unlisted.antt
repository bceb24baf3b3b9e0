-- ===== src/Mesh/Unlisted.antt =====
-- A node that only discovers.
use zero_conf_mesh.Prelude.{ℕ, false, ◌≡◌, ap, ◌∙◌, arith, List, [], All, none}
use zero_conf_mesh.Config.{ZeroConfConfig}
use zero_conf_mesh.Config.Laws.{IsConfigured}
use zero_conf_mesh.Error.{Result, ok}
use zero_conf_mesh.Prelude.BTreeMap
use zero_conf_mesh.Types.Txt.{TxtApi}
use zero_conf_mesh.Types.Auth.{MacApi}
use zero_conf_mesh.Registry.{get}
use zero_conf_mesh.Registry.Lookup.{fresh, get-evict_stale_at}
use zero_conf_mesh.Broadcaster.{MdnsApi}
use zero_conf_mesh.Listener.{Input}
use zero_conf_mesh.Mesh.{ZeroConfMesh, from_config}
use zero_conf_mesh.Mesh.Runtime.{sweep, request_shutdown, leave, join_tasks}
use zero_conf_mesh.Mesh.Invariant.{round-own}
use zero_conf_mesh.Mesh.Safety.{All-at, All-without, IsRunning, Step-IsRunning}
use zero_conf_mesh.Mesh.Start.{from_config-IsRunning, from_config-tasks}
use zero_conf_mesh.Mesh.Steps.{
  Pending, to_refresh, publishing, storing, leaving, System, Step, updates, signs, skips, beats,
  announces, stores, sweeps, listens, stops, leaves, joins, Reach, here, further,
}

-- A task that announces nothing.
abbrev IsSilent : Pending → Type 0
IsSilent to_refresh = Unit
IsSilent (publishing always a) = ⊥
IsSilent (storing a) = ⊥
IsSilent (leaving a) = Unit

module _ (txt : TxtApi) (mac : MacApi) (mdns : MdnsApi txt) where
  -- The local agent is not in the registry, and no task is there to put it in.
  record IsUnlisted (c : ZeroConfConfig) (s : System txt mac mdns) : Type 0 where
    running : IsRunning txt mac mdns c s
    no_heartbeat : s.0.heartbeat_task ≡ false
    silent : All IsSilent s.1
    absent : get c.agent_id s.0.registry ≡ none

  joins-heartbeat :
      (x y z : Result (Unit {0})) (m : ZeroConfMesh txt mac mdns)
      → m.heartbeat_task ≡ false
      → ((join_tasks txt mac mdns x y z m).0.heartbeat_task ≡ false)
        × ((join_tasks txt mac mdns x y z m).0.registry ≡ m.registry)
  unfolding join_tasks
  joins-heartbeat x y z m h = ground arith

  Step-IsUnlisted :
      (c : ZeroConfConfig) (s t : System txt mac mdns)
      → c.advertise_local ≡ false
      → Step txt mac mdns s t
      → IsUnlisted c s
      → IsUnlisted c t
  unfolding sweep request_shutdown leave
  Step-IsUnlisted c s t off (updates {m} {ps} u a e) w = record {
    running = Step-IsRunning txt mac mdns c s t (updates u a e) w.running;
    no_heartbeat = w.no_heartbeat;
    silent = (tt, w.silent);
    absent = w.absent;
  }
  Step-IsUnlisted c s t off (signs {m} before later e) w =
      let kept = w.running.config in absurd (ground arith)
  Step-IsUnlisted c s t off (skips before later e) w = record {
    running = Step-IsRunning txt mac mdns c s t (skips before later e) w.running;
    no_heartbeat = w.no_heartbeat;
    silent = All-without IsSilent before later to_refresh w.silent;
    absent = w.absent;
  }
  Step-IsUnlisted c s t off (beats e) w = let quiet = w.no_heartbeat in absurd (ground arith)
  Step-IsUnlisted c s t off (announces before later always a) w =
      absurd (All-at IsSilent before later (publishing always a) w.silent)
  Step-IsUnlisted c s t off (stores before later now a) w =
      absurd (All-at IsSilent before later (storing a) w.silent)
  Step-IsUnlisted c s t off (sweeps {m} now e) w = record {
    running = Step-IsRunning txt mac mdns c s t (sweeps now e) w.running;
    no_heartbeat = w.no_heartbeat;
    silent = w.silent;
    absent =
        get-evict_stale_at now m.registry c.agent_id w.running.registry.valid
        ∙ ap (fresh now m.registry.ttl) w.absent;
  }
  Step-IsUnlisted c s t off (listens {m} now input e) w = record {
    running = Step-IsRunning txt mac mdns c s t (listens now input e) w.running;
    no_heartbeat = w.no_heartbeat;
    silent = w.silent;
    absent =
        rw w.running.config
          (round-own txt mac c now input m.registry w.running.registry ∙ w.absent);
  }
  Step-IsUnlisted c s t off (stops e) w = record {
    running = Step-IsRunning txt mac mdns c s t (stops e) w.running;
    no_heartbeat = w.no_heartbeat;
    silent = (tt, w.silent);
    absent = w.absent;
  }
  Step-IsUnlisted c s t off (leaves {m} before later a) w =
      let kept : m.config.advertise_local ≡ false = rw w.running.config off in
      record {
        running = Step-IsRunning txt mac mdns c s t (leaves before later a) w.running;
        no_heartbeat = rw kept w.no_heartbeat;
        silent = All-without IsSilent before later (leaving a) w.silent;
        absent = rw kept w.absent;
      }
  Step-IsUnlisted c s t off (joins {m} x y z e) w =
      let (quiet, same) = joins-heartbeat x y z m w.no_heartbeat in
      record {
        running = Step-IsRunning txt mac mdns c s t (joins x y z e) w.running;
        no_heartbeat = quiet;
        silent = w.silent;
        absent = rw same w.absent;
      }

  Reach-IsUnlisted :
      (c : ZeroConfConfig) (s t : System txt mac mdns)
      → c.advertise_local ≡ false
      → Reach txt mac mdns s t
      → IsUnlisted c s
      → IsUnlisted c t
  Reach-IsUnlisted c s t off here w = w
  Reach-IsUnlisted c s t off (further {t = u} p e) w =
      Step-IsUnlisted c u t off e (Reach-IsUnlisted c s u off p w)

  -- If a node that only discovers starts without an error, with a configuration that passed its checks
  -- and whose metadata is a map, then its registry never has the node itself, whatever the listener
  -- handled before and however the owner's calls (updates of the local agent among them) and the tasks
  -- then interleave.
  pub discover_only-absent :
      (earlier : List (ℕ × Input txt)) (now : ℕ) (c : ZeroConfConfig)
      {m n : ZeroConfMesh txt mac mdns} {ps : List Pending}
      → IsConfigured c
      → BTreeMap.IsSorted c.metadata
      → c.advertise_local ≡ false
      → from_config txt mac mdns earlier now c ≡ ok m
      → Reach txt mac mdns (m, []) (n, ps)
      → get c.agent_id n.registry ≡ none
  discover_only-absent earlier now c {m} {n} {ps} w sorted off started reached =
      let (running, listed, verifies) =
        from_config-IsRunning txt mac mdns earlier now c w sorted started in
      let start : IsUnlisted c (m, []) = record {
        running = running;
        no_heartbeat = from_config-tasks txt mac mdns earlier now c m started ∙ off;
        silent = tt;
        absent = rw off at listed;
      } in
      let held = Reach-IsUnlisted c (m, []) (n, ps) off reached start in held.absent
