-- ===== src/Camp/Records.antt =====
-- src/bin/camp.rs: what the tool prints and serves: the records of agents and events, and the answers
-- of `list`, `get` and the HTTP handlers. How an address is displayed is an argument.
pub mod Laws
use zero_conf_mesh.Prelude.{
  ℕ, String, Bool, true, List, Option, none, some, find_by, keep, map, ◌==◌,
}
use zero_conf_mesh.Types.Status.{as_str}
use zero_conf_mesh.Types.Announcement.{IpAddr}
use zero_conf_mesh.Types.Capabilities.{AgentMetadata}
use zero_conf_mesh.Types.Info.{AgentInfo}
use zero_conf_mesh.Events.{
  EventOrigin, local, remote, DepartureReason, graceful, expired, AgentEvent, joined, updated, left,
}
use zero_conf_mesh.Registry.{Registry, get}
use zero_conf_mesh.Registry.Queries.{RegexApi, list}
use zero_conf_mesh.Camp.{ListCommand, AgentQuery, matches_agent_query, matches_filters}

pub record AgentRecord : Type 0 where
  pub id : String
  pub instance_name : String
  pub role : String
  pub project : String
  pub branch : String
  pub status : String
  pub capabilities : List String
  pub port : ℕ
  pub addresses : List String
  pub metadata : AgentMetadata

pub record EventRecord : Type 0 where
  pub kind : String
  pub origin : String
  pub reason : Option String
  pub previous : Option AgentRecord
  pub current : Option AgentRecord

pub record SnapshotRecord : Type 0 where
  pub kind : String
  pub agents : List AgentRecord

pub record HealthRecord : Type 0 where
  pub ok : Bool

-- An answer of a handler: a body with the status 200, or a bare 404.
pub data Response : Type 0 where
  found : AgentRecord → Response
  not_found : Response

unfoldable pub origin_label : EventOrigin → String
origin_label local = "local"
origin_label remote = "remote"

unfoldable pub reason_label : DepartureReason → String
reason_label graceful = "graceful"
reason_label expired = "expired"

unfoldable pub health_handler : HealthRecord
health_handler = record { ok = true }

module _ (to_string : IpAddr → String) where
  unfoldable pub to_agent_record : AgentInfo → AgentRecord
  to_agent_record agent = record {
    id = agent.id;
    instance_name = agent.instance_name;
    role = agent.role;
    project = agent.project;
    branch = agent.branch;
    status = as_str agent.status;
    capabilities = agent.capabilities;
    port = agent.port;
    addresses = map to_string agent.addresses;
    metadata = agent.metadata;
  }

  unfoldable pub to_event_record : AgentEvent → Option EventRecord
  unfolding to_agent_record origin_label reason_label
  to_event_record (joined agent origin) = some (record {
    kind = "joined";
    origin = origin_label origin;
    reason = none;
    previous = none;
    current = some (to_agent_record agent);
  })
  to_event_record (updated previous current origin) = some (record {
    kind = "updated";
    origin = origin_label origin;
    reason = none;
    previous = some (to_agent_record previous);
    current = some (to_agent_record current);
  })
  to_event_record (left agent origin reason) = some (record {
    kind = "left";
    origin = origin_label origin;
    reason = some (reason_label reason);
    previous = none;
    current = some (to_agent_record agent);
  })

  unfoldable pub snapshot : Registry → SnapshotRecord
  unfolding to_agent_record
  snapshot r = record { kind = "snapshot"; agents = map to_agent_record (list r) }

  -- What `list` prints, with its filters, once its observer has waited.
  unfoldable pub run_list : RegexApi → ListCommand → Registry → List AgentRecord
  unfolding to_agent_record
  run_list regexes command r =
      map to_agent_record (keep (λ agent. matches_filters regexes agent command) (list r))

  abbrev pub record? : Option AgentInfo → Option AgentRecord
  record? none = none
  record? (some agent) = some (to_agent_record agent)

  -- What `get` prints: the record, or `null`.
  unfoldable pub run_get : String → Registry → Option AgentRecord
  unfolding to_agent_record
  run_get id r = record? (find_by (λ agent. agent.id == id) (list r))

  unfoldable pub list_agents_handler : AgentQuery → Registry → List AgentRecord
  unfolding to_agent_record
  list_agents_handler query r =
      map to_agent_record (keep (λ agent. matches_agent_query agent query) (list r))

  unfoldable pub get_agent_handler : String → Registry → Response
  unfolding to_agent_record
  get_agent_handler id r = elim (get id r) [
    | some agent ↦ found (to_agent_record agent)
    | none ↦ not_found
  ]
