-- ===== src/Types/Announcement/Valid.antt =====
-- The well-formedness of announcements: the constructor makes it and every setter keeps it.
use zero_conf_mesh.Prelude.{ℕ, String, false, ◌≡◌, ◌≢◌, refl, ◌∙◌, arith, List, [], ◌∷◌, All, ◌==◌}
use zero_conf_mesh.Prelude.Text.{trim, is_empty, join}
use zero_conf_mesh.Prelude.Assoc.{lookup, remove, remove-All, lookup-remove}
use zero_conf_mesh.Prelude.BTreeMap
use zero_conf_mesh.Error.{ok}
use zero_conf_mesh.Types.Status.{AgentStatus}
use zero_conf_mesh.Types.Normalize.{IsNormal, normalize_required, normalize_required-IsNormal}
use zero_conf_mesh.Types.Capabilities.{
  AgentMetadata, sync_capabilities_metadata, capabilities_from_metadata,
}
use zero_conf_mesh.Types.Capabilities.Laws.{
  IsCanonical, capabilities_key, capabilities_entry, lookup-sync, sync-IsSorted,
  capabilities_from_metadata_total,
}
use zero_conf_mesh.Types.Announcement.{IpAddr, AgentAnnouncement, has_blank_key, new}

abbrev pub HasFilledKey : String × String → Type 0
HasFilledKey e = is_empty (trim e.0) ≡ false

-- The metadata of a capability list: sorted, with no blank key, and with the list's own entry.
pub record IsSynced (m : AgentMetadata) (l : List String) : Type 0 where
  pub entry : lookup capabilities_key m ≡ capabilities_entry l
  pub sorted : BTreeMap.IsSorted m
  pub filled_keys : All HasFilledKey m

pub record IsValid (a : AgentAnnouncement) : Type 0 where
  pub instance_name : IsNormal a.instance_name
  pub agent_id : IsNormal a.agent_id
  pub role : IsNormal a.role
  pub project : IsNormal a.project
  pub branch : IsNormal a.branch
  pub port : a.port ≢ 0
  pub capabilities : IsCanonical a.capabilities
  pub synced : IsSynced a.metadata a.capabilities

pub filled_keys_of_test : (m : AgentMetadata) → has_blank_key m ≡ false → All HasFilledKey m
filled_keys_of_test [] h = tt
filled_keys_of_test ((k, v) ∷ m) h = ground (arith, filled_keys_of_test m)

pub sync-filled_keys :
    (m : AgentMetadata) (l : List String)
    → All HasFilledKey m
    → All HasFilledKey (sync_capabilities_metadata m l)
unfolding sync_capabilities_metadata trim
sync-filled_keys m [] h = remove-All HasFilledKey capabilities_key m h
sync-filled_keys m (c ∷ l) h =
    BTreeMap.insert-All HasFilledKey capabilities_key (join "," (c ∷ l)) m refl h

-- To synchronise any sorted metadata without blank keys makes it agree with the list.
pub sync-IsSynced :
    (m : AgentMetadata) (l : List String)
    → BTreeMap.IsSorted m
    → All HasFilledKey m
    → IsSynced (sync_capabilities_metadata m l) l
sync-IsSynced m l s h = record {
  entry = lookup-sync capabilities_key m l;
  sorted = sync-IsSorted m l s;
  filled_keys = sync-filled_keys m l h;
}

module _ {m : AgentMetadata} {l : List String} (k : String) (s : IsSynced m l) where
  pub insert-IsSynced :
      (v : String)
      → (k == capabilities_key) ≡ false
      → is_empty (trim k) ≡ false
      → IsSynced (BTreeMap.insert k v m) l
  insert-IsSynced v other filled = record {
    entry = BTreeMap.lookup-insert k capabilities_key v m ∙ rw other s.entry;
    sorted = BTreeMap.insert-IsSorted k v m s.sorted;
    filled_keys = BTreeMap.insert-All HasFilledKey k v m filled s.filled_keys;
  }

  pub remove-IsSynced : (k == capabilities_key) ≡ false → IsSynced (remove k m) l
  remove-IsSynced other = record {
    entry = lookup-remove k capabilities_key m ∙ rw other s.entry;
    sorted = BTreeMap.remove-IsSorted k m s.sorted;
    filled_keys = remove-All HasFilledKey k m s.filled_keys;
  }

pub no_blank_key : (m : AgentMetadata) → All HasFilledKey m → has_blank_key m ≡ false
no_blank_key [] h = refl
no_blank_key ((k, v) ∷ m) h = rw (h.0, no_blank_key m h.1)

-- What a constructor that returns has checked and stored.
pub record Built (instance_name agent_id role project branch : String) (status : AgentStatus)
    (port : ℕ) (addresses : List IpAddr) (metadata : AgentMetadata) (a : AgentAnnouncement)
    : Type 0 where
  pub instance_name_kept : normalize_required instance_name "instance_name" ≡ ok a.instance_name
  pub agent_id_kept : normalize_required agent_id "agent_id" ≡ ok a.agent_id
  pub role_kept : normalize_required role "role" ≡ ok a.role
  pub project_kept : normalize_required project "project" ≡ ok a.project
  pub branch_kept : normalize_required branch "branch" ≡ ok a.branch
  pub status_kept : a.status ≡ status
  pub port_kept : a.port ≡ port
  pub port_positive : port ≢ 0
  pub addresses_kept : a.addresses ≡ addresses
  pub no_blank_key : has_blank_key metadata ≡ false
  pub capabilities_read : capabilities_from_metadata metadata ≡ ok a.capabilities
  pub metadata_synced : a.metadata ≡ sync_capabilities_metadata metadata a.capabilities

module _ (i n r p b : String) (s : AgentStatus) (port : ℕ) (addresses : List IpAddr)
    (m : AgentMetadata) where
  pub new-Built :
      {a : AgentAnnouncement}
      → new i n r p b s port addresses m ≡ ok a
      → Built i n r p b s port addresses m a
  unfolding new
  new-Built h = ground arith

  pub Built-new :
      {a : AgentAnnouncement}
      → Built i n r p b s port addresses m a
      → new i n r p b s port addresses m ≡ ok a
  unfolding new
  Built-new h = ground arith

  -- An announcement that the constructor returns is well formed, if the metadata it was given is a
  -- map.
  pub new-IsValid :
      {a : AgentAnnouncement}
      → BTreeMap.IsSorted m
      → new i n r p b s port addresses m ≡ ok a
      → IsValid a
  new-IsValid {a} sorted h =
      let w = new-Built h in
      let (caps, total, canonical) = capabilities_from_metadata_total m in
      let e : caps ≡ a.capabilities = cc (total, w.capabilities_read) in
      record {
        instance_name = normalize_required-IsNormal i "instance_name" w.instance_name_kept;
        agent_id = normalize_required-IsNormal n "agent_id" w.agent_id_kept;
        role = normalize_required-IsNormal r "role" w.role_kept;
        project = normalize_required-IsNormal p "project" w.project_kept;
        branch = normalize_required-IsNormal b "branch" w.branch_kept;
        port = rw w.port_kept w.port_positive;
        capabilities = rw (← e) canonical;
        synced =
            rw w.metadata_synced
              (sync-IsSynced m a.capabilities sorted (filled_keys_of_test m w.no_blank_key));
      }
