-- ===== src/Listener/Discovery.antt =====
-- From one node's announcement to another's registry.
use zero_conf_mesh.Prelude.{ℕ, false, ◌≡◌, refl, ◌∙◌, some, ◌==◌, eq_refl}
use zero_conf_mesh.Types.Announcement.{AgentAnnouncement}
use zero_conf_mesh.Types.Announcement.Valid.{IsValid}
use zero_conf_mesh.Types.Info.{into_agent_info}
use zero_conf_mesh.Types.Txt.{TxtApi, to_txt_properties, advertised_metadata}
use zero_conf_mesh.Types.Txt.RoundTrip.{from_txt-to_txt}
use zero_conf_mesh.Types.Auth.{MacApi}
use zero_conf_mesh.Events.{remote}
use zero_conf_mesh.Registry.{Registry, get, upsert_remote}
use zero_conf_mesh.Registry.Lookup.{get-upsert}
use zero_conf_mesh.Listener.{
  Listener, refuses, ResolvedService, received, service_resolved, from_resolved_service,
  handle_resolved, round,
}

-- What the network makes of an announcement: its properties, at the addresses it is resolved to.
abbrev pub service_of : (txt : TxtApi) → AgentAnnouncement → ResolvedService txt
service_of txt a = record {
  fullname = a.instance_name;
  port = a.port;
  addresses = a.addresses;
  properties = to_txt_properties txt a;
}

-- The announcement as a receiver has it.
abbrev pub as_received : AgentAnnouncement → AgentAnnouncement
as_received a = record a { metadata = advertised_metadata a }

module _ (txt : TxtApi) (mac : MacApi) (l : Listener) where
  -- When a well-formed announcement of another node is resolved with its own properties and the
  -- listener's authentication does not refuse it, its agent is found from then on with every field
  -- of the announcement, the metadata that was sent, and the time of the event.
  pub get-round_resolved :
      (a : AgentAnnouncement) (now : ℕ) (r : Registry)
      → IsValid a
      → (a.agent_id == l.local_agent_id) ≡ false
      → refuses mac l.shared_secret_auth (as_received a) ≡ false
      → get a.agent_id (round txt mac l now (received (service_resolved (service_of txt a))) r).0
        ≡ some (into_agent_info (as_received a) now)
  unfolding round handle_resolved from_resolved_service upsert_remote
  get-round_resolved a now r v other accepted =
      rw (from_txt-to_txt txt a v, handle_resolved)
        (rw (other, accepted)
          (get-upsert (as_received a) now remote r a.agent_id ∙ rw eq_refl refl))
