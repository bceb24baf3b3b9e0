-- ===== src/Types/Txt/RoundTrip.antt =====
-- An announcement that is sent as TXT properties is read back.
use zero_conf_mesh.Prelude.{String, ◌≡◌, refl, sym, List, [], ◌∷◌, map, some}
use zero_conf_mesh.Prelude.Text.{trim, join}
use zero_conf_mesh.Prelude.Assoc.{lookup}
use zero_conf_mesh.Prelude.BTreeMap
use zero_conf_mesh.Error.{ok, collect_results}
use zero_conf_mesh.Types.Status.{AgentStatus, idle, busy, error, as_str, from_str-as_str}
use zero_conf_mesh.Types.Normalize.{IsNormal, normalize_required_of_IsNormal}
use zero_conf_mesh.Types.Capabilities.{AgentMetadata, sync_capabilities_metadata}
use zero_conf_mesh.Types.Capabilities.Laws.{capabilities_key, lookup-sync, capabilities_from_entry}
use zero_conf_mesh.Types.Announcement.{AgentAnnouncement, new}
use zero_conf_mesh.Types.Announcement.Valid.{
  IsValid, IsSynced, no_blank_key, sync-IsSynced, insert-IsSynced, Built-new,
}
use zero_conf_mesh.Types.Txt.{
  TxtApi, advertised_metadata, required_metadata, to_txt_properties, property_entry,
  metadata_from_txt_properties, from_txt_properties,
}

ruleset found_laws = (lookup-sync, BTreeMap.lookup-insert)

-- Synchronised metadata is not changed by another synchronisation.
pub sync_of_IsSynced :
    (m : AgentMetadata) (l : List String) → IsSynced m l → sync_capabilities_metadata m l ≡ m
unfolding sync_capabilities_metadata
sync_of_IsSynced m [] s = BTreeMap.remove_absent capabilities_key m s.sorted s.entry
sync_of_IsSynced m (c ∷ l) s =
    BTreeMap.insert_same capabilities_key (join "," (c ∷ l)) m s.sorted s.entry

required_of_IsNormal :
    (m : AgentMetadata) (k v : String)
    → lookup k m ≡ some v
    → IsNormal v
    → required_metadata m k ≡ ok v
unfolding required_metadata
required_of_IsNormal m k v e n = rw (e, n.trimmed, n.filled)

as_str-IsNormal : (s : AgentStatus) → IsNormal (as_str s)
unfolding as_str trim
as_str-IsNormal idle = record { trimmed = refl; filled = refl }
as_str-IsNormal busy = record { trimmed = refl; filled = refl }
as_str-IsNormal error = record { trimmed = refl; filled = refl }

pub advertised-IsSynced :
    (a : AgentAnnouncement) → IsValid a → IsSynced (advertised_metadata a) a.capabilities
unfolding advertised_metadata trim
advertised-IsSynced a v =
    let s₁ = insert-IsSynced "agent_id" v.synced a.agent_id refl refl in
    let s₂ = insert-IsSynced "role" s₁ a.role refl refl in
    let s₃ = insert-IsSynced "current_project" s₂ a.project refl refl in
    let s₄ = insert-IsSynced "current_branch" s₃ a.branch refl refl in
    let s₅ = insert-IsSynced "status" s₄ (as_str a.status) refl refl in
    sync-IsSynced _ a.capabilities s₅.sorted s₅.filled_keys

-- What a receiver finds under the five keys of an announcement's own fields.
lookup-advertised :
    (a : AgentAnnouncement)
    → (lookup "agent_id" (advertised_metadata a) ≡ some a.agent_id)
      × (lookup "role" (advertised_metadata a) ≡ some a.role)
      × (lookup "current_project" (advertised_metadata a) ≡ some a.project)
      × (lookup "current_branch" (advertised_metadata a) ≡ some a.branch)
      × (lookup "status" (advertised_metadata a) ≡ some (as_str a.status))
unfolding advertised_metadata
lookup-advertised a =
    (simp found_laws, simp found_laws, simp found_laws, simp found_laws, simp found_laws)

-- The constructor, on what a receiver of a well-formed announcement has read.
new_of_advertised :
    (a : AgentAnnouncement)
    → IsValid a
    → new a.instance_name a.agent_id a.role a.project a.branch a.status a.port a.addresses
        (advertised_metadata a)
      ≡ ok (record a { metadata = advertised_metadata a })
new_of_advertised a v =
    let s = advertised-IsSynced a v in
    let m = advertised_metadata a in
    Built-new a.instance_name a.agent_id a.role a.project a.branch a.status a.port a.addresses m
      (record {
        instance_name_kept =
            normalize_required_of_IsNormal a.instance_name "instance_name" v.instance_name;
        agent_id_kept = normalize_required_of_IsNormal a.agent_id "agent_id" v.agent_id;
        role_kept = normalize_required_of_IsNormal a.role "role" v.role;
        project_kept = normalize_required_of_IsNormal a.project "project" v.project;
        branch_kept = normalize_required_of_IsNormal a.branch "branch" v.branch;
        status_kept = refl;
        port_kept = refl;
        port_positive = v.port;
        addresses_kept = refl;
        no_blank_key = no_blank_key m s.filled_keys;
        capabilities_read = capabilities_from_entry m a.capabilities v.capabilities s.entry;
        metadata_synced = sym (sync_of_IsSynced m a.capabilities s);
      })

module _ (api : TxtApi) where
  open api use {from_entry, key-from_entry, val-from_entry}

  property_entry-from_entry : (e : String × String) → property_entry api (from_entry e) ≡ ok e
  unfolding property_entry
  property_entry-from_entry e = rw (val-from_entry e, property_entry) (rw (key-from_entry e))

  collect-from_entry :
      (m : AgentMetadata) → collect_results (property_entry api) (map from_entry m) ≡ ok m
  collect-from_entry [] = refl
  collect-from_entry (e ∷ m) = rw (property_entry-from_entry e, collect-from_entry m)

  metadata-map-from_entry :
      (m : AgentMetadata)
      → BTreeMap.IsSorted m
      → metadata_from_txt_properties api (map from_entry m) ≡ ok m
  unfolding metadata_from_txt_properties
  metadata-map-from_entry m s = rw (collect-from_entry m, BTreeMap.extend_of_IsSorted m s)

  -- A well-formed announcement, turned into TXT properties, is read back from them with the same
  -- name, port and addresses: every field is the same, and the metadata is the map that was sent.
  pub from_txt-to_txt :
      (a : AgentAnnouncement)
      → IsValid a
      → from_txt_properties api a.instance_name a.port a.addresses (to_txt_properties api a)
        ≡ ok (record a { metadata = advertised_metadata a })
  unfolding from_txt_properties to_txt_properties
  from_txt-to_txt a v =
      let m = advertised_metadata a in
      let (id, role, project, branch, status) = lookup-advertised a in
      rw
        (
          metadata-map-from_entry m (advertised-IsSynced a v).sorted,
          required_of_IsNormal m "agent_id" a.agent_id id v.agent_id,
          required_of_IsNormal m "role" a.role role v.role,
          required_of_IsNormal m "current_project" a.project project v.project,
          required_of_IsNormal m "current_branch" a.branch branch v.branch,
          required_of_IsNormal m "status" (as_str a.status) status (as_str-IsNormal a.status),
          from_str-as_str a.status,
        )
        (new_of_advertised a v)
