-- ===== src/Config/Laws.antt =====
-- What a configuration that was accepted guarantees, and the announcement made from it.
use zero_conf_mesh.Prelude.{
  ℕ, ◌<◌, String, Bool, true, false, ◌≡◌, ◌≢◌, refl, ap, ◌∙◌, arith, List, [], Option, none, some,
  All, ◌==◌, if◌then◌else◌,
}
use zero_conf_mesh.Prelude.Assoc.{lookup}
use zero_conf_mesh.Types.Keys.{
  agent_id_metadata_key, agent_role_metadata_key, agent_project_metadata_key,
  agent_branch_metadata_key, agent_status_metadata_key,
}
use zero_conf_mesh.Prelude.Text.{trim, is_empty}
use zero_conf_mesh.Prelude.Text.Trim.{trim-append, is_empty-append}
use zero_conf_mesh.Prelude.BTreeMap
use zero_conf_mesh.Error.{ok}
use zero_conf_mesh.Types.Status.{AgentStatus, as_str}
use zero_conf_mesh.Types.Normalize.{
  IsNormal, normalize_required, normalize_required-IsNormal, normalize_required_of_IsNormal,
}
use zero_conf_mesh.Types.Capabilities.{
  AgentMetadata, sync_capabilities_metadata, capabilities_from_metadata,
}
use zero_conf_mesh.Types.Capabilities.Laws.{
  IsCanonical, capabilities_key, capabilities_entry, capabilities_from_metadata_total,
  capabilities_from_entry, lookup-sync, sync-IsSorted,
}
use zero_conf_mesh.Types.Announcement.{AgentAnnouncement, has_blank_key}
use zero_conf_mesh.Types.Announcement.Valid.{
  IsValid, HasFilledKey, filled_keys_of_test, no_blank_key, sync-filled_keys, Built-new,
  new-IsValid,
}
use zero_conf_mesh.Config
use zero_conf_mesh.Config.{
  ZeroConfConfig, is_valid_service_type, reserved_key, validate, new, instance_name, local_metadata,
  local_announcement,
}

-- Everything that the constructor and `validate` check.
pub record IsConfigured (c : ZeroConfConfig) : Type 0 where
  pub agent_id : IsNormal c.agent_id
  pub role : IsNormal c.role
  pub project : IsNormal c.project
  pub branch : IsNormal c.branch
  pub service_type : IsNormal c.service_type
  pub port : c.port ≢ 0
  pub mdns_port : c.mdns_port ≢ 0
  pub timing : c.heartbeat_interval < c.ttl
  pub event_capacity : c.event_capacity ≢ 0
  pub service_type_shape : is_valid_service_type c.service_type ≡ true
  pub no_blank_key : has_blank_key c.metadata ≡ false
  pub no_reserved_key : reserved_key c.metadata ≡ none

record Validated (c : ZeroConfConfig) : Type 0 where
  port : c.port ≢ 0
  mdns_port : c.mdns_port ≢ 0
  timing : c.heartbeat_interval < c.ttl
  event_capacity : c.event_capacity ≢ 0
  service_type_shape : is_valid_service_type c.service_type ≡ true
  no_blank_key : has_blank_key c.metadata ≡ false
  no_reserved_key : reserved_key c.metadata ≡ none

validate-Validated : (c : ZeroConfConfig) → validate c ≡ ok tt → Validated c
unfolding validate
validate-Validated c h = ground arith

Validated-validate : (c : ZeroConfConfig) → Validated c → validate c ≡ ok tt
unfolding validate
Validated-validate c w = ground arith

module _ (agent_id role project branch : String) (port mdns_port : ℕ) (service_type : String)
    (status : AgentStatus) (heartbeat ttl capacity : ℕ) (capabilities : List String)
    (metadata : AgentMetadata) where
  -- What the constructor has made of its arguments.
  record Made (c : ZeroConfConfig) : Type 0 where
    agent_id_kept : normalize_required agent_id "agent_id" ≡ ok c.agent_id
    role_kept : normalize_required role "role" ≡ ok c.role
    project_kept : normalize_required project "project" ≡ ok c.project
    branch_kept : normalize_required branch "branch" ≡ ok c.branch
    service_type_kept : normalize_required service_type "service_type" ≡ ok c.service_type
    validated : validate c ≡ ok tt

  new-Made :
      (c : ZeroConfConfig)
      → new agent_id role project branch port mdns_port service_type status heartbeat ttl capacity
          capabilities metadata
        ≡ ok c
      → Made c
  unfolding new
  new-Made c h = ground arith

  -- A configuration that the constructor returns has trimmed, filled names, positive ports and
  -- event capacity, a heartbeat shorter than the TTL, a service type of the required shape, and no
  -- blank or reserved metadata key.
  pub new-IsConfigured :
      {c : ZeroConfConfig}
      → new agent_id role project branch port mdns_port service_type status heartbeat ttl capacity
          capabilities metadata
        ≡ ok c
      → IsConfigured c
  new-IsConfigured {c} h =
      let m = new-Made c h in
      let w = validate-Validated c m.validated in
      record {
        agent_id = normalize_required-IsNormal agent_id "agent_id" m.agent_id_kept;
        role = normalize_required-IsNormal role "role" m.role_kept;
        project = normalize_required-IsNormal project "project" m.project_kept;
        branch = normalize_required-IsNormal branch "branch" m.branch_kept;
        service_type = normalize_required-IsNormal service_type "service_type" m.service_type_kept;
        port = w.port;
        mdns_port = w.mdns_port;
        timing = w.timing;
        event_capacity = w.event_capacity;
        service_type_shape = w.service_type_shape;
        no_blank_key = w.no_blank_key;
        no_reserved_key = w.no_reserved_key;
      }

-- The announcement's own fields, from the configuration.
pub record Announces (c : ZeroConfConfig) (a : AgentAnnouncement) : Type 0 where
  pub instance_name : a.instance_name ≡ Config.instance_name c
  pub agent_id : a.agent_id ≡ c.agent_id
  pub role : a.role ≡ c.role
  pub project : a.project ≡ c.project
  pub branch : a.branch ≡ c.branch
  pub status : a.status ≡ c.initial_status
  pub port : a.port ≡ c.port
  pub addresses : a.addresses ≡ []

instance_name-IsNormal : (c : ZeroConfConfig) → IsConfigured c → IsNormal (instance_name c)
unfolding Config.instance_name
instance_name-IsNormal c w = record {
  trimmed =
      trim-append c.agent_id "." c.service_type w.agent_id.trimmed w.agent_id.filled
        w.service_type.trimmed w.service_type.filled;
  filled = is_empty-append c.agent_id _ (is_empty-append "." c.service_type w.service_type.filled);
}

-- Metadata whose keys are all filled, before and after the configured fields are written over it.
local_metadata-HasFilledKey :
    (c : ZeroConfConfig) → All HasFilledKey c.metadata → All HasFilledKey (local_metadata c)
unfolding local_metadata trim
local_metadata-HasFilledKey c h =
    let f = λ (k v : String) (m : AgentMetadata) (e : is_empty (trim k) ≡ false).
      BTreeMap.insert-All HasFilledKey k v m e in
    sync-filled_keys _ c.capabilities (
      f "status" _ _ refl (
        f "current_branch" _ _ refl
          (f "current_project" _ _ refl (f "role" _ _ refl (f "agent_id" _ _ refl h)))))

local_metadata-IsSorted :
    (c : ZeroConfConfig) → BTreeMap.IsSorted c.metadata → BTreeMap.IsSorted (local_metadata c)
unfolding local_metadata
local_metadata-IsSorted c s =
    let f = λ (k v : String) (m : AgentMetadata) (p : BTreeMap.IsSorted m).
      BTreeMap.insert-IsSorted k v m p in
    sync-IsSorted _ c.capabilities (f _ _ _ (f _ _ _ (f _ _ _ (f _ _ _ (f _ _ _ s)))))

announced-Made :
    (c : ZeroConfConfig)
    → IsConfigured c
    → BTreeMap.IsSorted c.metadata
    → (a : AgentAnnouncement) × (local_announcement c ≡ ok a)
      × IsValid a
      × Announces c a
      × (capabilities_from_metadata (local_metadata c) ≡ ok a.capabilities)
      × (a.metadata ≡ sync_capabilities_metadata (local_metadata c) a.capabilities)
unfolding local_announcement
announced-Made c w s =
    let m = local_metadata c in
    let sorted = local_metadata-IsSorted c s in
    let filled = local_metadata-HasFilledKey c (filled_keys_of_test c.metadata w.no_blank_key) in
    let (caps, read, canonical) = capabilities_from_metadata_total m in
    let a : AgentAnnouncement = record {
      instance_name = instance_name c;
      agent_id = c.agent_id;
      role = c.role;
      project = c.project;
      branch = c.branch;
      status = c.initial_status;
      capabilities = caps;
      port = c.port;
      addresses = [];
      metadata = sync_capabilities_metadata m caps;
    } in
    let built =
      Built-new (instance_name c) c.agent_id c.role c.project c.branch c.initial_status c.port [] m
        (record {
          instance_name_kept =
              normalize_required_of_IsNormal (instance_name c) "instance_name"
                (instance_name-IsNormal c w);
          agent_id_kept = normalize_required_of_IsNormal c.agent_id "agent_id" w.agent_id;
          role_kept = normalize_required_of_IsNormal c.role "role" w.role;
          project_kept = normalize_required_of_IsNormal c.project "project" w.project;
          branch_kept = normalize_required_of_IsNormal c.branch "branch" w.branch;
          status_kept = refl;
          port_kept = refl;
          port_positive = w.port;
          addresses_kept = refl;
          no_blank_key = no_blank_key m filled;
          capabilities_read = read;
          metadata_synced = refl;
        }) in
    (
      a,
      built,
      new-IsValid (instance_name c) c.agent_id c.role c.project c.branch c.initial_status c.port []
          m sorted built,
      record {
        instance_name = refl;
        agent_id = refl;
        role = refl;
        project = refl;
        branch = refl;
        status = refl;
        port = refl;
        addresses = refl;
      },
      read,
      refl,
    )

pub local_announcement-Announces :
    (c : ZeroConfConfig)
    → IsConfigured c
    → BTreeMap.IsSorted c.metadata
    → (a : AgentAnnouncement) × (local_announcement c ≡ ok a) × IsValid a × Announces c a
local_announcement-Announces c w s =
    let (a, made, valid, announces, read, synced) = announced-Made c w s in
    (a, made, valid, announces)

-- What the announced metadata has under a key.
abbrev pub announced_entry : ZeroConfConfig → String → Option String
announced_entry c k =
    if capabilities_key == k
    then capabilities_entry c.capabilities
    else if agent_status_metadata_key == k
    then some (as_str c.initial_status)
    else if agent_branch_metadata_key == k
    then some c.branch
    else if agent_project_metadata_key == k
    then some c.project
    else if agent_role_metadata_key == k
    then some c.role
    else if agent_id_metadata_key == k
    then some c.agent_id
    else lookup k c.metadata

lookup-local_metadata :
    (c : ZeroConfConfig) (k : String) → lookup k (local_metadata c) ≡ announced_entry c k
unfolding local_metadata
lookup-local_metadata c k = simp (lookup-sync, BTreeMap.lookup-insert)

entry_kept :
    (b : Bool) (entry rest : Option String)
    → (if b then entry else (if b then entry else rest)) ≡ (if b then entry else rest)
entry_kept true entry rest = refl
entry_kept false entry rest = refl

-- A configuration that passed its checks, with its metadata a map and its capabilities canonical,
-- always has an announcement; it is well formed, has the configured fields and exactly the configured
-- capabilities, and its metadata has under the keys of the crate the fields, under the key of the
-- capabilities their list, and under every other key what the configured metadata has there.
pub local_announcement_lem :
    (c : ZeroConfConfig)
    → IsConfigured c
    → BTreeMap.IsSorted c.metadata
    → IsCanonical c.capabilities
    → (a : AgentAnnouncement) × (local_announcement c ≡ ok a)
      × IsValid a
      × Announces c a
      × (a.capabilities ≡ c.capabilities)
      × ((k : String) → lookup k a.metadata ≡ announced_entry c k)
local_announcement_lem c w s canonical =
    let (a, made, valid, announces, read, synced) = announced-Made c w s in
    let listed = lookup-local_metadata c capabilities_key in
    let kept : a.capabilities ≡ c.capabilities =
      let parsed = capabilities_from_entry (local_metadata c) c.capabilities canonical listed in
      cc in
    (
      a,
      made,
      valid,
      announces,
      kept,
      λ k.
          ap (lookup k) synced
          ∙ lookup-sync k (local_metadata c) a.capabilities
          ∙ (rw (kept, lookup-local_metadata c k) (entry_kept (capabilities_key == k) _ _)),
    )
