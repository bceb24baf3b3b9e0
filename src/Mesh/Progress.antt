-- ===== src/Mesh/Progress.antt =====
-- What a node can still do: its pending tasks can go on to their ends, and a shutdown can complete.
use zero_conf_mesh.Prelude.{
  Bool, true, false, ◌||◌, ◌≡◌, refl, ap, ◌∙◌, arith, List, [], ◌∷◌, ◌++◌, none, Bool-cases, inl,
  inr,
}
use mathlib.Core.Path.{subst}
use mathlib.Core.List
use zero_conf_mesh.Config.{ZeroConfConfig}
use zero_conf_mesh.Error.{ok}
use zero_conf_mesh.Types.Announcement.{AgentAnnouncement}
use zero_conf_mesh.Types.Txt.{TxtApi}
use zero_conf_mesh.Types.Auth.{MacApi}
use zero_conf_mesh.Registry.{get}
use zero_conf_mesh.Broadcaster.{MdnsApi}
use zero_conf_mesh.Mesh.{ZeroConfMesh}
use zero_conf_mesh.Mesh.Runtime.{announcing, store, sign_local, request_shutdown, leave, join_tasks}
use zero_conf_mesh.Mesh.Shutdown.{get-leave, joins-requested, joins-registry}
use zero_conf_mesh.Mesh.Steps.{
  Pending, to_refresh, publishing, storing, leaving, is_ok, then_storing, System, signs, skips,
  announces, stores, stops, leaves, joins, Reach, here, further,
}

module _ (txt : TxtApi) (mac : MacApi) (mdns : MdnsApi txt) where
  Reach-trans :
      (s t u : System txt mac mdns)
      → Reach txt mac mdns s t
      → Reach txt mac mdns t u
      → Reach txt mac mdns s u
  Reach-trans s t u p here = p
  Reach-trans s t u p (further {t = v} q e) = further (Reach-trans s t v p q) e

  -- What the refreshes and the heartbeats do not touch.
  record Keeps (m n : ZeroConfMesh txt mac mdns) : Type 0 where
    pub config : n.config ≡ m.config
    pub shutdown_sent : n.shutdown_sent ≡ m.shutdown_sent
    pub shutdown_requested : n.shutdown_requested ≡ m.shutdown_requested

  announcing-Keeps :
      (a : AgentAnnouncement) (m : ZeroConfMesh txt mac mdns)
      → Keeps m (announcing txt mac mdns a m).0
  unfolding announcing
  announcing-Keeps a m = record { config = refl; shutdown_sent = refl; shutdown_requested = refl }

  Keeps-trans : (m n o : ZeroConfMesh txt mac mdns) → Keeps m n → Keeps n o → Keeps m o
  Keeps-trans m n o k l = record {
    config = l.config ∙ k.config;
    shutdown_sent = l.shutdown_sent ∙ k.shutdown_sent;
    shutdown_requested = l.shutdown_requested ∙ k.shutdown_requested;
  }

  leave-Keeps :
      (a : AgentAnnouncement) (m : ZeroConfMesh txt mac mdns) → Keeps m (leave txt mac mdns a m)
  unfolding leave
  leave-Keeps a m = record {
    config = ground arith;
    shutdown_sent = ground arith;
    shutdown_requested = ground arith;
  }

  -- A snapshot that was announced is stored, if it is to be.
  stored :
      (goes_on : Bool) (a : AgentAnnouncement) (ps : List Pending) (m : ZeroConfMesh txt mac mdns)
      → (n : ZeroConfMesh txt mac mdns) × Reach txt mac mdns (m, then_storing goes_on a ps) (n, ps)
        × Keeps m n
  unfolding store
  stored true a ps m = (
    store txt mac mdns 0 a m,
    further here (stores [] ps 0 a),
    record { config = refl; shutdown_sent = refl; shutdown_requested = refl },
  )
  stored false a ps m =
      (m, here, record { config = refl; shutdown_sent = refl; shutdown_requested = refl })

  published :
      (kept later : List Pending) (always : Bool) (a : AgentAnnouncement)
      (m : ZeroConfMesh txt mac mdns)
      → (n : ZeroConfMesh txt mac mdns) × Reach txt mac mdns
          (m, kept ++ publishing always a ∷ later)
          (n, kept ++ later)
        × Keeps m n
  published kept later always a m =
      let (told, result) = announcing txt mac mdns a m in
      let goes_on = always || is_ok result in
      let (n, reached, keeps) = stored goes_on a (kept ++ later) told in
      (
        n,
        Reach-trans (m, kept ++ publishing always a ∷ later)
            (told, then_storing goes_on a (kept ++ later)) (n, kept ++ later)
            (further here (announces kept later always a)) reached,
        Keeps-trans m told n (announcing-Keeps a m) keeps,
      )

  -- One pending task runs to its end.
  finish :
      (kept later : List Pending) (p : Pending) (m : ZeroConfMesh txt mac mdns)
      → (n : ZeroConfMesh txt mac mdns) × Reach txt mac mdns
          (m, kept ++ p ∷ later)
          (n, kept ++ later)
        × Keeps m n
  unfolding sign_local store
  finish kept later (leaving a) m =
      (leave txt mac mdns a m, further here (leaves kept later a), leave-Keeps a m)
  finish kept later (publishing always a) m = published kept later always a m
  finish kept later (storing a) m = (
    store txt mac mdns 0 a m,
    further here (stores kept later 0 a),
    record { config = refl; shutdown_sent = refl; shutdown_requested = refl },
  )
  finish kept later to_refresh m = elim (Bool-cases m.config.advertise_local) [
    | inl e ↦
        let n = sign_local txt mac mdns m in
        let (o, reached, keeps) = published [] (kept ++ later) false n.local_agent n in
        (
          o,
          Reach-trans (m, kept ++ to_refresh ∷ later)
              (n, publishing false n.local_agent ∷ (kept ++ later)) (o, kept ++ later)
              (further here (signs kept later e)) reached,
          Keeps-trans m n o
              (record { config = refl; shutdown_sent = refl; shutdown_requested = refl }) keeps,
        )
    | inr e ↦ (
      m,
      further here (skips kept later e),
      record { config = refl; shutdown_sent = refl; shutdown_requested = refl },
    )
  ]

  -- All pending tasks behind some that wait run to their ends.
  drain :
      (kept ps : List Pending) (m : ZeroConfMesh txt mac mdns)
      → (n : ZeroConfMesh txt mac mdns) × Reach txt mac mdns (m, kept ++ ps) (n, kept) × Keeps m n
  drain kept [] m = (
    m,
    subst (λ (l : List Pending). Reach txt mac mdns (m, kept ++ []) (m, l)) (List.append-nil kept)
        here,
    record { config = refl; shutdown_sent = refl; shutdown_requested = refl },
  )
  drain kept (p ∷ later) m =
      let (n, first, k) = finish kept later p m in
      let (o, rest, l) = drain kept later n in
      (
        o,
        Reach-trans (m, kept ++ p ∷ later) (n, kept ++ later) (o, kept) first rest,
        Keeps-trans m n o k l,
      )

  joined-tasks :
      (m : ZeroConfMesh txt mac mdns)
      → let n = (join_tasks txt mac mdns (ok tt) (ok tt) (ok tt) m).0 in
        (n.heartbeat_task ≡ false) × (n.sweeper_task ≡ false) × (n.listener_task ≡ false)
  unfolding join_tasks
  joined-tasks m = ground arith

  -- A node that was shut down: asked once, no task held or pending.
  pub record IsDown (m : ZeroConfMesh txt mac mdns) : Type 0 where
    pub requested : m.shutdown_requested ≡ true
    pub heartbeat_task : m.heartbeat_task ≡ false
    pub sweeper_task : m.sweeper_task ≡ false
    pub listener_task : m.listener_task ≡ false

  -- From whatever state of an advertising node that was not asked to shut down, with whatever tasks
  -- pending, the steps can go on to one in which the shutdown is complete: it was requested, nothing is
  -- pending, no task handle is held, and the local agent is not in the registry.
  pub shutdown_reachable :
      (m : ZeroConfMesh txt mac mdns) (ps : List Pending)
      → m.shutdown_requested ≡ false
      → m.config.advertise_local ≡ true
      → (n : ZeroConfMesh txt mac mdns) × Reach txt mac mdns (m, ps) (n, [])
        × IsDown n
        × (get m.local_agent.agent_id n.registry ≡ none)
  unfolding request_shutdown
  shutdown_reachable m ps fresh advertises =
      let a = m.local_agent in
      let asked = request_shutdown txt mac mdns m in
      let (n, drained, k) = drain (leaving a ∷ []) ps asked in
      let left = leave txt mac mdns a n in
      let l = leave-Keeps a n in
      let down = (join_tasks txt mac mdns (ok tt) (ok tt) (ok tt) left).0 in
      let (heartbeat, sweeper, listener) = joined-tasks left in
      (
        down,
        Reach-trans (m, ps) (asked, leaving a ∷ ps) (down, []) (further here (stops fresh))
            (further (further drained (leaves [] [] a))
              (joins (ok tt) (ok tt) (ok tt) (l.shutdown_sent ∙ k.shutdown_sent))),
        record {
          requested =
              joins-requested txt mac mdns (ok tt) (ok tt) (ok tt) left
              ∙ l.shutdown_requested
              ∙ k.shutdown_requested;
          heartbeat_task = heartbeat;
          sweeper_task = sweeper;
          listener_task = listener;
        },
        ap (get a.agent_id) (joins-registry txt mac mdns (ok tt) (ok tt) (ok tt) left)
            ∙ get-leave txt mac mdns a n
                (ap (λ (c : ZeroConfConfig). c.advertise_local) k.config ∙ advertises),
      )
