-- ===== src/Types/Announcement.antt =====
-- src/types.rs: `AgentAnnouncement`, its validating constructor and its setters. A setter returns
-- the changed announcement; the borrow of `&mut self` is the argument and the result.
pub mod Valid
pub mod Setters
use zero_conf_mesh.Prelude.{
  ℕ, String, Bool, true, false, not, if◌then◌else◌, List, [], ◌∷◌, ◌++◌, any, keep, has, eqb, ◌==◌,
}
use zero_conf_mesh.Prelude.Text.{trim, is_empty}
use zero_conf_mesh.Prelude.Sort.Texts.{sort}
use zero_conf_mesh.Prelude.Assoc.{keys, remove}
use zero_conf_mesh.Prelude.BTreeMap
use zero_conf_mesh.Error.{
  Result, ok, err, ◌>>=◌, ◌>>◌, map_ok, invalid_port, empty_metadata_key, reserved_metadata_key,
}
use zero_conf_mesh.Types.Keys.{
  agent_status_metadata_key, agent_project_metadata_key, agent_branch_metadata_key,
  is_reserved_metadata_key,
}
use zero_conf_mesh.Types.Status.{AgentStatus, as_str}
use zero_conf_mesh.Types.Normalize.{
  normalize_required, normalize_metadata_key, normalize_capability,
}
use zero_conf_mesh.Types.Capabilities.{
  AgentMetadata, canonicalize_capabilities, sync_capabilities_metadata, capabilities_from_metadata,
}

-- `std::net::IpAddr`: the 32 or 128 bits as a number.
pub data IpAddr : Type 0 where
  v4 v6 : ℕ → IpAddr

pub record AgentAnnouncement : Type 0 where
  pub instance_name : String
  pub agent_id : String
  pub role : String
  pub project : String
  pub branch : String
  pub status : AgentStatus
  pub capabilities : List String
  pub port : ℕ
  pub addresses : List IpAddr
  pub metadata : AgentMetadata

abbrev pub has_blank_key : AgentMetadata → Bool
has_blank_key metadata = any (λ key. is_empty (trim key)) (keys metadata)

unfoldable pub new :
    String
    → String
    → String
    → String
    → String
    → AgentStatus
    → ℕ
    → List IpAddr
    → AgentMetadata
    → Result AgentAnnouncement
new instance_name agent_id role project branch status port addresses metadata = do
  instance_name' ← normalize_required instance_name "instance_name"
  agent_id' ← normalize_required agent_id "agent_id"
  role' ← normalize_required role "role"
  project' ← normalize_required project "project"
  branch' ← normalize_required branch "branch"
  if eqb port 0
      then err invalid_port
      else if has_blank_key metadata
      then err empty_metadata_key
      else do
        capabilities ← capabilities_from_metadata metadata
        ok (record {
          instance_name = instance_name';
          agent_id = agent_id';
          role = role';
          project = project';
          branch = branch';
          status = status;
          capabilities = capabilities;
          port = port;
          addresses = addresses;
          metadata = sync_capabilities_metadata metadata capabilities;
        })

unfoldable pub set_status : AgentStatus → AgentAnnouncement → AgentAnnouncement
set_status status a = record a {
  status = status;
  metadata = BTreeMap.insert agent_status_metadata_key (as_str status) a.metadata;
}

-- The list and its metadata entry, written together.
unfoldable pub with_capabilities : AgentAnnouncement → List String → AgentAnnouncement
with_capabilities a capabilities = record a {
  capabilities = capabilities;
  metadata = sync_capabilities_metadata a.metadata capabilities;
}

unfoldable pub set_capabilities : List String → AgentAnnouncement → Result AgentAnnouncement
set_capabilities capabilities a =
    map_ok (with_capabilities a) (canonicalize_capabilities capabilities)

unfoldable pub add_capability : String → AgentAnnouncement → Result AgentAnnouncement
add_capability capability a = do
  c ← normalize_capability capability
  ok (
      if not (has c a.capabilities)
      then with_capabilities a (sort (a.capabilities ++ c ∷ []))
      else a)

unfoldable pub remove_capability : String → AgentAnnouncement → Result AgentAnnouncement
remove_capability capability a = do
  c ← normalize_capability capability
  ok (with_capabilities a (keep (λ entry. not (entry == c)) a.capabilities))

unfoldable pub set_project : String → AgentAnnouncement → Result AgentAnnouncement
set_project project a = do
  p ← normalize_required project "project"
  ok (record a { metadata = BTreeMap.insert agent_project_metadata_key p a.metadata; project = p })

unfoldable pub set_branch : String → AgentAnnouncement → Result AgentAnnouncement
set_branch branch a = do
  b ← normalize_required branch "branch"
  ok (record a { metadata = BTreeMap.insert agent_branch_metadata_key b a.metadata; branch = b })

unfoldable pub set_metadata : String → String → AgentAnnouncement → Result AgentAnnouncement
set_metadata key value a = do
  k ← normalize_metadata_key key
  if is_reserved_metadata_key k
      then err (reserved_metadata_key k)
      else ok (record a { metadata = BTreeMap.insert k value a.metadata })

unfoldable pub remove_metadata : String → AgentAnnouncement → Result AgentAnnouncement
remove_metadata key a = do
  k ← normalize_metadata_key key
  if is_reserved_metadata_key k
      then err (reserved_metadata_key k)
      else ok (record a { metadata = remove k a.metadata })
