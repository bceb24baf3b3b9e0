-- ===== src/Listener.antt =====
-- src/listener.rs: the task that turns browse events into registry updates. The mDNS library's events
-- and the closing of their channel are the inputs of the loop, each with the time it is handled at.
-- The call that stops browsing at a shutdown, whose result the loop drops, is left out.
pub mod Effects
pub mod Laws
pub mod Discovery
use zero_conf_mesh.Prelude.{
  ℕ, String, Bool, true, false, not, ◌&&◌, if◌then◌else◌, List, [], ◌∷◌, Option, none, some, ◌==◌,
}
use zero_conf_mesh.Error.{Result, ok, err}
use zero_conf_mesh.Config.Secret.{SharedSecretAuth, verifies_incoming}
use zero_conf_mesh.Types.Announcement.{IpAddr, AgentAnnouncement}
use zero_conf_mesh.Types.Txt.{TxtApi, from_txt_properties}
use zero_conf_mesh.Types.Auth.{MacApi, verify_shared_secret_auth}
use zero_conf_mesh.Registry.{Registry, upsert_remote, remove_remote_by_instance_name}

pub record Listener : Type 0 where
  pub service_type : String
  pub local_agent_id : String
  pub local_instance_name : String
  pub shared_secret_auth : Option SharedSecretAuth

-- Whether the authentication verifies peers and refuses this one.
module _ (mac : MacApi) where
  unfoldable pub refuses : Option SharedSecretAuth → AgentAnnouncement → Bool
  refuses none a = false
  refuses (some auth) a =
      verifies_incoming auth
      && elim (verify_shared_secret_auth mac auth a) [ ok _ ↦ false | err _ ↦ true ]

module _ (txt : TxtApi) where
  -- `ResolvedService`, by the four accessors that the crate reads.
  pub record ResolvedService : Type 0 where
    pub fullname : String
    pub port : ℕ
    pub addresses : List IpAddr
    pub properties : List txt.TxtProperty

  pub data ServiceEvent : Type 0 where
    service_resolved : ResolvedService → ServiceEvent
    -- the service type and the full name
    service_removed : String → String → ServiceEvent
    search_started search_stopped : String → ServiceEvent
    service_found : String → String → ServiceEvent
    other_event : ServiceEvent

  -- What the loop selects on: the shutdown signal, an event, or the end of the channel.
  pub data Input : Type 0 where
    shutdown_changed : Input
    received : ServiceEvent → Input
    disconnected : Input

  unfoldable pub from_resolved_service : ResolvedService → Result AgentAnnouncement
  from_resolved_service service =
      from_txt_properties txt service.fullname service.port service.addresses service.properties

module _ (txt : TxtApi) (mac : MacApi) (l : Listener) where
  unfoldable pub handle_resolved : ℕ → ResolvedService txt → Registry → Registry
  handle_resolved now resolved r = elim (from_resolved_service txt resolved) [
    | err _ ↦ r
    | ok announcement ↦
        if announcement.agent_id == l.local_agent_id
        then r
        else if refuses mac l.shared_secret_auth announcement
        then r
        else (upsert_remote announcement now r).0
  ]

  unfoldable pub handle_removed : String → Registry → Registry
  handle_removed fullname r =
      if not (fullname == l.local_instance_name)
      then (remove_remote_by_instance_name fullname r).0
      else r

  -- One round of the loop: the registry after it, and whether the loop goes on.
  unfoldable pub round : ℕ → Input txt → Registry → Registry × Bool
  round now shutdown_changed r = (r, false)
  round now (received (service_resolved resolved)) r = (handle_resolved now resolved r, true)
  round now (received (service_removed _ fullname)) r = (handle_removed fullname r, true)
  round now (received (search_started _)) r = (r, true)
  round now (received (search_stopped _)) r = (r, false)
  round now (received (service_found _ _)) r = (r, true)
  round now (received other_event) r = (r, true)
  round now disconnected r = (r, false)

  -- The loop on the inputs that come; it leaves the rest when it ends.
  unfoldable pub run_listener : List (ℕ × Input txt) → Registry → Registry
  unfolding round
  run_listener [] r = r
  run_listener ((now, input) ∷ inputs) r =
      let (next, goes_on) = round now input r in
      let rest = run_listener inputs next in if goes_on then rest else next
