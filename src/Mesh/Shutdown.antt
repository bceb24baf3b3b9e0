-- ===== src/Mesh/Shutdown.antt =====
-- The shutdown, as its callers see it.
use zero_conf_mesh.Prelude.{
  ℕ, Bool, true, false, ◌≡◌, refl, ap, ◌∙◌, arith, none, some, eq_refl, if◌then◌else◌, Bool-cases,
  inl, inr,
}
use zero_conf_mesh.Error.{Result, ok}
use zero_conf_mesh.Types.Announcement.{AgentAnnouncement}
use zero_conf_mesh.Types.Info.{into_agent_info}
use zero_conf_mesh.Types.Txt.{TxtApi}
use zero_conf_mesh.Types.Auth.{MacApi}
use zero_conf_mesh.Events.{local, graceful}
use zero_conf_mesh.Registry.{get, upsert_local, remove_local}
use zero_conf_mesh.Registry.Lookup.{get-remove}
use zero_conf_mesh.Broadcaster.{MdnsApi}
use zero_conf_mesh.Mesh.{ZeroConfMesh}
use zero_conf_mesh.Mesh.Runtime.{
  republish, announcing, store, request_shutdown, leave, join_tasks, shutdown,
}
use zero_conf_mesh.Mesh.Mutate.{get-upsert_local}

module _ (txt : TxtApi) (mac : MacApi) (mdns : MdnsApi txt) where
  pub joins-requested :
      (a b c : Result (Unit {0})) (m : ZeroConfMesh txt mac mdns)
      → (join_tasks txt mac mdns a b c m).0.shutdown_requested ≡ m.shutdown_requested
  unfolding join_tasks
  joins-requested a b c m = ground arith

  pub joins-registry :
      (a b c : Result (Unit {0})) (m : ZeroConfMesh txt mac mdns)
      → (join_tasks txt mac mdns a b c m).0.registry ≡ m.registry
  unfolding join_tasks
  joins-registry a b c m = ground arith

  pub leave-requested :
      (a : AgentAnnouncement) (m : ZeroConfMesh txt mac mdns)
      → (leave txt mac mdns a m).shutdown_requested ≡ m.shutdown_requested
  unfolding leave
  leave-requested a m = ground arith

  -- The running tasks do not take a request to shut down back.
  abbrev KeepsRequest : (ZeroConfMesh txt mac mdns → ZeroConfMesh txt mac mdns) → Type 0
  KeepsRequest between =
      (m : ZeroConfMesh txt mac mdns) → (between m).shutdown_requested ≡ m.shutdown_requested

  shutdown_first :
      (a b c : Result (Unit {0})) (between : ZeroConfMesh txt mac mdns → ZeroConfMesh txt mac mdns)
      (m : ZeroConfMesh txt mac mdns)
      → m.shutdown_requested ≡ false
      → shutdown txt mac mdns a b c between m
        ≡ join_tasks txt mac mdns a b c
            (between (leave txt mac mdns m.local_agent (request_shutdown txt mac mdns m)))
  unfolding shutdown
  shutdown_first a b c between m e =
      ap
        (λ (x : Bool).
          if x
          then (m, ok tt)
          else join_tasks txt mac mdns a b c
              (between (leave txt mac mdns m.local_agent (request_shutdown txt mac mdns m))))
        e

  again :
      (a b c : Result (Unit {0})) (between : ZeroConfMesh txt mac mdns → ZeroConfMesh txt mac mdns)
      (m : ZeroConfMesh txt mac mdns)
      → m.shutdown_requested ≡ true
      → shutdown txt mac mdns a b c between m ≡ (m, ok tt)
  unfolding shutdown
  again a b c between m e =
      ap
        (λ (x : Bool).
          if x
          then (m, ok tt)
          else join_tasks txt mac mdns a b c
              (between (leave txt mac mdns m.local_agent (request_shutdown txt mac mdns m))))
        e

  shutdown-requested :
      (a b c : Result (Unit {0})) (between : ZeroConfMesh txt mac mdns → ZeroConfMesh txt mac mdns)
      (m : ZeroConfMesh txt mac mdns)
      → KeepsRequest between
      → (shutdown txt mac mdns a b c between m).0.shutdown_requested ≡ true
  unfolding request_shutdown
  shutdown-requested a b c between m k = elim (Bool-cases m.shutdown_requested) [
    | inl e ↦ ap (λ x. x.0.shutdown_requested) (again a b c between m e) ∙ e
    | inr e ↦
        let n = request_shutdown txt mac mdns m in
        ap (λ x. x.0.shutdown_requested) (shutdown_first a b c between m e)
        ∙ joins-requested a b c (between (leave txt mac mdns m.local_agent n))
        ∙ k (leave txt mac mdns m.local_agent n)
        ∙ leave-requested m.local_agent n
  ]

  -- A second shutdown changes nothing and returns without an error, whatever the first returned,
  -- if the running tasks do not take the request back.
  pub shutdown-twice :
      (a b c a' b' c' : Result (Unit {0}))
      (between between' : ZeroConfMesh txt mac mdns → ZeroConfMesh txt mac mdns)
      (m : ZeroConfMesh txt mac mdns)
      → KeepsRequest between
      → shutdown txt mac mdns a' b' c' between' (shutdown txt mac mdns a b c between m).0
        ≡ ((shutdown txt mac mdns a b c between m).0, ok tt)
  shutdown-twice a b c a' b' c' between between' m k =
      again a' b' c' between' (shutdown txt mac mdns a b c between m).0
        (shutdown-requested a b c between m k)

  pub get-leave :
      (a : AgentAnnouncement) (m : ZeroConfMesh txt mac mdns)
      → m.config.advertise_local ≡ true
      → get a.agent_id (leave txt mac mdns a m).registry ≡ none
  unfolding leave remove_local
  get-leave a m e =
      rw e (get-remove a.agent_id local graceful m.registry a.agent_id ∙ rw eq_refl refl)

  -- A first shutdown of an advertising node, with no round of a task while it waits, takes the
  -- local agent out of the registry, whatever ends the tasks come to.
  pub shutdown-absent :
      (a b c : Result (Unit {0})) (m : ZeroConfMesh txt mac mdns)
      → m.shutdown_requested ≡ false
      → m.config.advertise_local ≡ true
      → get m.local_agent.agent_id (shutdown txt mac mdns a b c (λ n. n) m).0.registry ≡ none
  unfolding request_shutdown
  shutdown-absent a b c m e f =
      let n = request_shutdown txt mac mdns m in
      ap (λ x. get m.local_agent.agent_id x.0.registry) (shutdown_first a b c (λ n. n) m e)
      ∙ ap (get m.local_agent.agent_id) (joins-registry a b c (leave txt mac mdns m.local_agent n))
      ∙ get-leave m.local_agent n f

  heartbeat-registry :
      (now : ℕ) (a : AgentAnnouncement) (m : ZeroConfMesh txt mac mdns)
      → (republish txt mac mdns now a m).registry ≡ (upsert_local a now m.registry).0
  unfolding republish announcing store
  heartbeat-registry now a m = refl

  -- If a heartbeat that has read the local agent before a first shutdown publishes it while the
  -- shutdown waits, the agent is in the registry when the shutdown returns.
  pub shutdown-late_heartbeat :
      (a b c : Result (Unit {0})) (now : ℕ) (m : ZeroConfMesh txt mac mdns)
      → m.shutdown_requested ≡ false
      → get m.local_agent.agent_id
          (shutdown txt mac mdns a b c
            (λ n. republish txt mac mdns now m.local_agent n)
            m).0.registry
        ≡ some (into_agent_info m.local_agent now)
  shutdown-late_heartbeat a b c now m e =
      let n = leave txt mac mdns m.local_agent (request_shutdown txt mac mdns m) in
      let beat : ZeroConfMesh txt mac mdns → ZeroConfMesh txt mac mdns =
        λ n. republish txt mac mdns now m.local_agent n in
      ap (λ x. get m.local_agent.agent_id x.0.registry) (shutdown_first a b c beat m e)
      ∙ ap (get m.local_agent.agent_id)
          (joins-registry a b c (beat n) ∙ heartbeat-registry now m.local_agent n)
      ∙ get-upsert_local txt mac mdns m.local_agent now n.registry
