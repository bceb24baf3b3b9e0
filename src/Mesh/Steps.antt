-- ===== src/Mesh/Steps.antt =====
-- The interleavings of a node's tasks: the calls of its owner, the heartbeat, the sweeper, the
-- listener and the shutdown, one lock at a time. A task that has let a lock go and has more to do is
-- pending; any pending task may go on next.
use zero_conf_mesh.Prelude.{ℕ, Bool, true, false, ◌||◌, ◌≡◌, List, ◌∷◌, ◌++◌}
use zero_conf_mesh.Error.{Result, ok, err}
use zero_conf_mesh.Types.Announcement.{AgentAnnouncement}
use zero_conf_mesh.Types.Txt.{TxtApi}
use zero_conf_mesh.Types.Auth.{MacApi}
use zero_conf_mesh.Listener.{Input, round}
use zero_conf_mesh.Broadcaster.{MdnsApi}
use zero_conf_mesh.Mesh.{Update, mutator, listener_of, ZeroConfMesh}
use zero_conf_mesh.Mesh.Runtime.{
  announcing, store, sign_local, sweep, request_shutdown, leave, join_tasks,
}

-- What is left to do of a call or of a round.
pub data Pending : Type 0 where
  -- an update whose announcement is not yet signed
  to_refresh : Pending
  -- a snapshot that is not yet announced; whether it is stored if that fails
  publishing : Bool → AgentAnnouncement → Pending
  -- a snapshot that is announced and not yet stored
  storing : AgentAnnouncement → Pending
  -- a shutdown that has read the local agent
  leaving : AgentAnnouncement → Pending

abbrev pub is_ok : Result (Unit {0}) → Bool
is_ok (ok _) = true
is_ok (err _) = false

-- Whether a snapshot that was announced is to be stored.
abbrev pub then_storing : Bool → AgentAnnouncement → List Pending → List Pending
then_storing true a ps = storing a ∷ ps
then_storing false a ps = ps

module _ (txt : TxtApi) (mac : MacApi) (mdns : MdnsApi txt) where
  abbrev pub System : Type 0
  System = ZeroConfMesh txt mac mdns × List Pending

  pub data Step : System → System → Type 0 where
    updates :
        {m : ZeroConfMesh txt mac mdns} {ps : List Pending} (u : Update) (a : AgentAnnouncement)
        → mutator u m.local_agent ≡ ok a
        → Step (m, ps) (record m { local_agent = a }, to_refresh ∷ ps)
    signs :
        {m : ZeroConfMesh txt mac mdns} (before later : List Pending)
        → m.config.advertise_local ≡ true
        → Step
            (m, before ++ to_refresh ∷ later)
            (
              sign_local txt mac mdns m,
              publishing false (sign_local txt mac mdns m).local_agent ∷ (before ++ later),
            )
    -- a node that only discovers has nothing to refresh
    skips :
        {m : ZeroConfMesh txt mac mdns} (before later : List Pending)
        → m.config.advertise_local ≡ false
        → Step (m, before ++ to_refresh ∷ later) (m, before ++ later)
    beats :
        {m : ZeroConfMesh txt mac mdns} {ps : List Pending}
        → m.heartbeat_task ≡ true
        → Step (m, ps) (m, publishing true m.local_agent ∷ ps)
    announces :
        {m : ZeroConfMesh txt mac mdns} (before later : List Pending) (always : Bool)
        (a : AgentAnnouncement)
        → Step
            (m, before ++ publishing always a ∷ later)
            (
              (announcing txt mac mdns a m).0,
              then_storing (always || is_ok (announcing txt mac mdns a m).1) a (before ++ later),
            )
    stores :
        {m : ZeroConfMesh txt mac mdns} (before later : List Pending) (now : ℕ)
        (a : AgentAnnouncement)
        → Step (m, before ++ storing a ∷ later) (store txt mac mdns now a m, before ++ later)
    sweeps :
        {m : ZeroConfMesh txt mac mdns} {ps : List Pending} (now : ℕ)
        → m.sweeper_task ≡ true
        → Step (m, ps) (sweep txt mac mdns now m, ps)
    listens :
        {m : ZeroConfMesh txt mac mdns} {ps : List Pending} (now : ℕ) (input : Input txt)
        → m.listener_task ≡ true
        → Step
            (m, ps)
            (
              record m { registry = (round txt mac (listener_of m.config) now input m.registry).0 },
              ps,
            )
    stops :
        {m : ZeroConfMesh txt mac mdns} {ps : List Pending}
        → m.shutdown_requested ≡ false
        → Step (m, ps) (request_shutdown txt mac mdns m, leaving m.local_agent ∷ ps)
    leaves :
        {m : ZeroConfMesh txt mac mdns} (before later : List Pending) (a : AgentAnnouncement)
        → Step (m, before ++ leaving a ∷ later) (leave txt mac mdns a m, before ++ later)
    joins :
        {m : ZeroConfMesh txt mac mdns} {ps : List Pending}
        (heartbeat_end sweeper_end listener_end : Result (Unit {0}))
        → m.shutdown_sent ≡ true
        → Step (m, ps) ((join_tasks txt mac mdns heartbeat_end sweeper_end listener_end m).0, ps)

  -- Any number of steps.
  pub data Reach (s : System) : System → Type 0 where
    here : Reach s s
    further : {t u : System} → Reach s t → Step t u → Reach s u
