-- ===== src/Registry.antt =====
-- src/registry.rs: the registry. Each operation holds the lock from its first read to its last
-- write, so it is one step on the state; it returns the new state and its result. `sent` is what
-- has gone into the broadcast channel, oldest first.
pub mod Valid
pub mod Lookup
pub mod Sent
pub mod Mirror
pub mod Evict
pub mod Query
pub mod Queries
pub mod Api
use zero_conf_mesh.Prelude.{
  ℕ, String, Bool, true, false, if◌then◌else◌, List, [], ◌∷◌, ◌++◌, Option, none, some, keep,
  find_by, any, ◌==◌, ◌&&◌, map, length,
}
use zero_conf_mesh.Prelude.Assoc.{keys, lookup, contains_key, remove}
use zero_conf_mesh.Prelude.HashMap
use zero_conf_mesh.Prelude.Sort.{sort_by}
use zero_conf_mesh.Types.Status.{AgentStatus, status_eq}
use zero_conf_mesh.Types.Announcement.{AgentAnnouncement}
use zero_conf_mesh.Types.Info.{
  AgentInfo, into_agent_info, same_payload_as, refresh_last_seen, is_stale, has_capability,
}
use zero_conf_mesh.Events.{
  EventOrigin, local, remote, DepartureReason, graceful, expired, AgentEvent, joined, updated, left,
}

pub record Registry : Type 0 where
  pub inner : List (String × AgentInfo)
  pub ttl : ℕ
  pub event_capacity : ℕ
  pub sent : List AgentEvent

pub data RegistryUpsert : Type 0 where
  inserted : AgentInfo → RegistryUpsert
  -- the previous and the current state
  changed : AgentInfo → AgentInfo → RegistryUpsert
  refreshed : AgentInfo → RegistryUpsert

unfoldable pub with_event_capacity : ℕ → ℕ → Registry
with_event_capacity ttl capacity = record {
  inner = [];
  ttl = ttl;
  event_capacity = capacity;
  sent = [];
}

abbrev pub send : AgentEvent → List AgentEvent → List AgentEvent
send event sent = sent ++ event ∷ []

unfoldable pub upsert_with_origin_at :
    AgentAnnouncement → ℕ → EventOrigin → Registry → Registry × RegistryUpsert
upsert_with_origin_at announcement seen_at origin r =
    let incoming = into_agent_info announcement seen_at in
    elim (lookup incoming.id r.inner) [
      | some existing ↦
          if same_payload_as existing incoming
          then (
            record r {
              inner = HashMap.insert incoming.id (refresh_last_seen seen_at existing) r.inner;
            },
            refreshed (refresh_last_seen seen_at existing),
          )
          else (
            record r {
              inner = HashMap.insert incoming.id incoming r.inner;
              sent = send (updated existing incoming origin) r.sent;
            },
            changed existing incoming,
          )
      | none ↦ (
        record r {
          inner = HashMap.insert incoming.id incoming r.inner;
          sent = send (joined incoming origin) r.sent;
        },
        inserted incoming,
      )
    ]

unfoldable pub upsert_local : AgentAnnouncement → ℕ → Registry → Registry × RegistryUpsert
upsert_local announcement now = upsert_with_origin_at announcement now local

unfoldable pub upsert_remote : AgentAnnouncement → ℕ → Registry → Registry × RegistryUpsert
upsert_remote announcement now = upsert_with_origin_at announcement now remote

-- Takes the entry out and sends that it left.
unfoldable pub remove_with_origin :
    String → EventOrigin → DepartureReason → Registry → Registry × Option AgentInfo
remove_with_origin agent_id origin reason r = elim (lookup agent_id r.inner) [
  | some agent ↦ (
    record r { inner = remove agent_id r.inner; sent = send (left agent origin reason) r.sent },
    some agent,
  )
  | none ↦ (record r { inner = remove agent_id r.inner }, none)
]

unfoldable pub remove_local : String → Registry → Registry × Option AgentInfo
remove_local agent_id = remove_with_origin agent_id local graceful

unfoldable pub remove_remote : String → Registry → Registry × Option AgentInfo
remove_remote agent_id = remove_with_origin agent_id remote graceful

-- The key of the first entry, in the map's order, with the instance name.
unfoldable pub find_instance : String → List (String × AgentInfo) → Option String
find_instance name [] = none
find_instance name ((id, agent) ∷ m) =
    if agent.instance_name == name then some id else find_instance name m

unfoldable pub remove_remote_by_instance_name : String → Registry → Registry × Option AgentInfo
remove_remote_by_instance_name name r = elim (find_instance name r.inner) [
  | none ↦ (r, none)
  | some agent_id ↦ remove_remote agent_id r
]

unfoldable pub get : String → Registry → Option AgentInfo
get agent_id r = lookup agent_id r.inner

abbrev pub id_of : AgentInfo → String
id_of agent = agent.id

abbrev pub values : List (String × AgentInfo) → List AgentInfo
values = map (λ e. e.1)

unfoldable pub query : (AgentInfo → Bool) → Registry → List AgentInfo
query predicate r = sort_by id_of (keep predicate (values r.inner))

-- The ids of the entries that are stale at `now`, in the map's order.
unfoldable pub stale_ids : ℕ → ℕ → List (String × AgentInfo) → List String
stale_ids now ttl [] = []
stale_ids now ttl ((id, agent) ∷ m) =
    let rest = stale_ids now ttl m in if is_stale agent now ttl then id ∷ rest else rest

-- The loop that removes them one by one; the agents evicted, oldest first.
unfoldable pub evict_ids : List String → Registry → Registry × List AgentInfo
evict_ids [] r = (r, [])
evict_ids (id ∷ ids) r =
    let (r', removed) = remove_with_origin id remote expired r in
    let (r'', evicted) = evict_ids ids r' in
    (r'', elim removed [ none ↦ evicted | some agent ↦ agent ∷ evicted ])

unfoldable pub evict_stale_at : ℕ → Registry → Registry × List AgentInfo
evict_stale_at now r = evict_ids (stale_ids now r.ttl r.inner) r

-- Where a new receiver of the channel begins: behind the events that were sent.
unfoldable pub subscribe : Registry → ℕ
subscribe r = length r.sent
