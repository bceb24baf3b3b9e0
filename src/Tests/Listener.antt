-- ===== src/Tests/Listener.antt =====
-- src/listener.rs: a signed peer, an unsigned one and a removal of the local service come in.
use zero_conf_mesh.Prelude.{none, false, ℕ, ◌≡◌, refl, sym, ◌∙◌, arith, List, [], ◌∷◌, some}
use zero_conf_mesh.Types.Announcement.{AgentAnnouncement}
use zero_conf_mesh.Types.Info.{AgentInfo, into_agent_info}
use zero_conf_mesh.Types.Txt.{to_txt_properties}
use zero_conf_mesh.Types.Auth.{apply_shared_secret_auth}
use zero_conf_mesh.Events.{local}
use zero_conf_mesh.Registry.{Registry, get, with_event_capacity, upsert_with_origin_at}
use zero_conf_mesh.Config
use zero_conf_mesh.Registry.Lookup.{get-upsert}
use zero_conf_mesh.Prelude.Assoc.{lookup}
use zero_conf_mesh.Registry.Valid.{with_event_capacity-IsValid, upsert-IsValid}
use zero_conf_mesh.Listener.{
  Listener, ResolvedService, Input, received, service_resolved, service_removed, disconnected,
  run_listener,
}
use zero_conf_mesh.Listener.Laws.{PeersSigned, run_listener-local, run_listener-PeersSigned}
use zero_conf_mesh.Listener.{refuses, round}
use zero_conf_mesh.Listener.Discovery.{service_of, as_received, get-round_resolved}
use zero_conf_mesh.Mesh.Discovery.{get-round_signed}
use zero_conf_mesh.Mesh.{signed}
use zero_conf_mesh.Tests.Data.{sample-IsValid, peer-IsValid}
use zero_conf_mesh.Mesh.{listener_of}
use zero_conf_mesh.Tests.Data.{txt, mac, auth, sample, peer, config}

abbrev l : Listener
l = listener_of config

abbrev service : AgentAnnouncement → ResolvedService txt
service a = record {
  fullname = a.instance_name;
  port = a.port;
  addresses = [];
  properties = to_txt_properties txt a;
}

abbrev pub inputs : List (ℕ × Input txt)
inputs =
    (1, received (service_resolved (service peer)))
    ∷ (2, received (service_resolved (service (apply_shared_secret_auth mac auth peer))))
    ∷ (3, received (service_removed "_agent-mesh._tcp.local." "agent-1._agent-mesh._tcp.local."))
    ∷ (4, disconnected)
    ∷ []

abbrev empty : Registry
empty = with_event_capacity 120 256

abbrev alone : Registry
alone = (upsert_with_origin_at sample 0 local empty).0

empty-PeersSigned : PeersSigned txt mac l auth empty
unfolding PeersSigned with_event_capacity get lookup
empty-PeersSigned k agent other found = ground arith

run_listener-PeersSigned_example : PeersSigned txt mac l auth (run_listener txt mac l inputs empty)
unfolding listener_of zero_conf_mesh.Config.Secret.verifies_incoming
run_listener-PeersSigned_example =
    run_listener-PeersSigned txt mac l auth refl refl inputs empty empty-PeersSigned

local_name :
    (a : AgentInfo) → get l.local_agent_id alone ≡ some a → a.instance_name ≡ l.local_instance_name
unfolding into_agent_info listener_of Config.instance_name
local_name a h =
    let e : some (into_agent_info sample 0) ≡ some a =
      sym (get-upsert sample 0 local empty "agent-1") ∙ h in
    ground (arith, e)

run_listener-local_example :
    get l.local_agent_id (run_listener txt mac l inputs alone) ≡ get l.local_agent_id alone
run_listener-local_example =
    run_listener-local txt mac l inputs alone
      (upsert-IsValid sample 0 local empty (with_event_capacity-IsValid 120 256)) local_name

-- Another node without authentication hears of the agent.
abbrev open_listener : Listener
open_listener = record {
  service_type = "_agent-mesh._tcp.local.";
  local_agent_id = "agent-2";
  local_instance_name = "agent-2._agent-mesh._tcp.local.";
  shared_secret_auth = none;
}

admitted : refuses mac open_listener.shared_secret_auth (as_received sample) ≡ false
unfolding refuses
admitted = refl

get-round_resolved_example :
    get sample.agent_id
      (round txt mac open_listener 5 (received (service_resolved (service_of txt sample))) empty).0
    ≡ some (into_agent_info (as_received sample) 5)
get-round_resolved_example =
    get-round_resolved txt mac open_listener sample 5 empty sample-IsValid refl admitted

get-round_signed_example :
    get
      (signed mac (some auth) peer).agent_id
      (round txt mac l 5
        (received (service_resolved (service_of txt (signed mac (some auth) peer))))
        empty).0
    ≡ some (into_agent_info (as_received (signed mac (some auth) peer)) 5)
unfolding listener_of
get-round_signed_example =
    get-round_signed txt mac l auth auth peer 5 empty refl refl peer-IsValid refl
