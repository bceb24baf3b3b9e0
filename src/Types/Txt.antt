-- ===== src/Types/Txt.antt =====
-- src/types.rs: announcements to TXT properties and back. The property type and its accessors are
-- the mDNS library's.
pub mod RoundTrip
pub mod Checked
use zero_conf_mesh.Prelude.{
  ℕ, String, Bool, true, false, not, ◌≡◌, if◌then◌else◌, List, [], ◌∷◌, map, Option, none, some,
}
use zero_conf_mesh.Prelude.Text.{trim, is_empty}
use zero_conf_mesh.Prelude.Assoc.{lookup}
use zero_conf_mesh.Prelude.BTreeMap
use zero_conf_mesh.Error.{
  Result, ok, err, ◌>>=◌, collect_results, ZeroConfError, missing_txt_property,
  invalid_txt_property_encoding,
}
use zero_conf_mesh.Types.Keys.{
  agent_id_metadata_key, agent_role_metadata_key, agent_project_metadata_key,
  agent_branch_metadata_key, agent_status_metadata_key,
}
use zero_conf_mesh.Types.Status.{AgentStatus, as_str, from_str}
use zero_conf_mesh.Types.Capabilities.{AgentMetadata, sync_capabilities_metadata}
use zero_conf_mesh.Types.Announcement.{IpAddr, AgentAnnouncement, new}

-- `Vec<u8>`: the UTF-8 of one text, or bytes that are the UTF-8 of none.
pub data ByteString : Type 0 where
  utf8 : String → ByteString
  malformed : List ℕ → ByteString

-- `String::from_utf8`
abbrev pub from_utf8 : ByteString → Option String
from_utf8 (utf8 s) = some s
from_utf8 (malformed _) = none

-- `TxtProperty` of the mDNS library: `TxtProperty::from((key, value))` keeps both.
pub record TxtApi : Type 1 where
  pub TxtProperty : Type 0
  pub from_entry : String × String → TxtProperty
  pub key : TxtProperty → String
  pub val : TxtProperty → Option ByteString
  pub key-from_entry : (e : String × String) → key (from_entry e) ≡ e.0
  pub val-from_entry : (e : String × String) → val (from_entry e) ≡ some (utf8 e.1)

-- The map that `to_txt_properties` sends: the announcement's own fields over its metadata.
unfoldable pub advertised_metadata : AgentAnnouncement → AgentMetadata
advertised_metadata a =
    let m₁ = BTreeMap.insert agent_id_metadata_key a.agent_id a.metadata in
    let m₂ = BTreeMap.insert agent_role_metadata_key a.role m₁ in
    let m₃ = BTreeMap.insert agent_project_metadata_key a.project m₂ in
    let m₄ = BTreeMap.insert agent_branch_metadata_key a.branch m₃ in
    let m₅ = BTreeMap.insert agent_status_metadata_key (as_str a.status) m₄ in
    sync_capabilities_metadata m₅ a.capabilities

-- `get(key).filter(|value| !value.trim().is_empty()).ok_or(missing)`
abbrev pub filled_or : ZeroConfError → Option String → Result String
filled_or missing none = err missing
filled_or missing (some value) = if is_empty (trim value) then err missing else ok value

unfoldable pub required_metadata : AgentMetadata → String → Result String
required_metadata metadata key = filled_or (missing_txt_property key) (lookup key metadata)

module _ (api : TxtApi) where
  open api use {TxtProperty, from_entry, key, val}

  unfoldable pub to_txt_properties : AgentAnnouncement → List TxtProperty
  to_txt_properties a = map from_entry (advertised_metadata a)

  unfoldable pub property_entry : TxtProperty → Result (String × String)
  property_entry property = elim (val property) [
    | some value ↦ elim (from_utf8 value) [
      | some text ↦ ok (key property, text)
      | none ↦ err (invalid_txt_property_encoding (key property))
    ]
    | none ↦ ok (key property, "")
  ]

  unfoldable pub metadata_from_txt_properties : List TxtProperty → Result AgentMetadata
  metadata_from_txt_properties properties = do
    entries ← collect_results property_entry properties
    ok (BTreeMap.extend [] entries)

  unfoldable pub from_txt_properties :
      String → ℕ → List IpAddr → List TxtProperty → Result AgentAnnouncement
  from_txt_properties instance_name port addresses properties = do
    metadata ← metadata_from_txt_properties properties
    agent_id ← required_metadata metadata agent_id_metadata_key
    role ← required_metadata metadata agent_role_metadata_key
    project ← required_metadata metadata agent_project_metadata_key
    branch ← required_metadata metadata agent_branch_metadata_key
    status_text ← required_metadata metadata agent_status_metadata_key
    status ← from_str status_text
    new instance_name agent_id role project branch status port addresses metadata
