-- ===== src/Types/Txt/Checked.antt =====
-- What is read from the network is well formed.
use zero_conf_mesh.Prelude.{ℕ, String, ◌≡◌, List, []}
use zero_conf_mesh.Prelude.BTreeMap
use zero_conf_mesh.Error.{ok, ◌>>=◌, >>=-eq-ok, collect_results}
use zero_conf_mesh.Types.Keys.{
  agent_id_metadata_key, agent_role_metadata_key, agent_project_metadata_key,
  agent_branch_metadata_key, agent_status_metadata_key,
}
use zero_conf_mesh.Types.Status.{AgentStatus, from_str}
use zero_conf_mesh.Types.Capabilities.{AgentMetadata}
use zero_conf_mesh.Types.Announcement.{IpAddr, AgentAnnouncement, new}
use zero_conf_mesh.Types.Announcement.Valid.{IsValid, new-IsValid}
use zero_conf_mesh.Types.Txt.{
  TxtApi, required_metadata, property_entry, metadata_from_txt_properties, from_txt_properties,
}

module _ (api : TxtApi) where
  metadata_from_txt-IsSorted :
      (properties : List api.TxtProperty) (m : AgentMetadata)
      → metadata_from_txt_properties api properties ≡ ok m
      → BTreeMap.IsSorted m
  unfolding metadata_from_txt_properties
  metadata_from_txt-IsSorted properties m h =
      let (entries, p, q) = >>=-eq-ok (collect_results (property_entry api) properties) _ h in
      let e : BTreeMap.extend [] entries ≡ m = cc in
      rw (← e) (BTreeMap.extend-IsSorted [] entries tt)

  -- The reader's arguments to the constructor.
  record Read (name : String) (port : ℕ) (addresses : List IpAddr) (m : AgentMetadata)
      (a : AgentAnnouncement) : Type 0 where
    id : String
    role : String
    project : String
    branch : String
    status : AgentStatus
    built : new name id role project branch status port addresses m ≡ ok a

  fields-Read :
      (name : String) (port : ℕ) (addresses : List IpAddr) (m : AgentMetadata)
      (a : AgentAnnouncement)
      → (do
        agent_id ← required_metadata m agent_id_metadata_key
        role ← required_metadata m agent_role_metadata_key
        project ← required_metadata m agent_project_metadata_key
        branch ← required_metadata m agent_branch_metadata_key
        status_text ← required_metadata m agent_status_metadata_key
        status ← from_str status_text
        new name agent_id role project branch status port addresses m)
        ≡ ok a
      → Read name port addresses m a
  fields-Read name port addresses m a h =
      let (id, p₁, h₁) = >>=-eq-ok (required_metadata m agent_id_metadata_key) _ h in
      let (role, p₂, h₂) = >>=-eq-ok (required_metadata m agent_role_metadata_key) _ h₁ in
      let (project, p₃, h₃) = >>=-eq-ok (required_metadata m agent_project_metadata_key) _ h₂ in
      let (branch, p₄, h₄) = >>=-eq-ok (required_metadata m agent_branch_metadata_key) _ h₃ in
      let (text, p₅, h₅) = >>=-eq-ok (required_metadata m agent_status_metadata_key) _ h₄ in
      let (status, p₆, h₆) = >>=-eq-ok (from_str text) _ h₅ in
      record {
        id = id;
        role = role;
        project = project;
        branch = branch;
        status = status;
        built = h₆;
      }

  -- Every announcement that is successfully read from TXT properties is well formed.
  pub from_txt-IsValid :
      (name : String) (port : ℕ) (addresses : List IpAddr) (properties : List api.TxtProperty)
      {a : AgentAnnouncement}
      → from_txt_properties api name port addresses properties ≡ ok a
      → IsValid a
  unfolding from_txt_properties
  from_txt-IsValid name port addresses properties {a} h =
      let (m, p, q) = >>=-eq-ok (metadata_from_txt_properties api properties) _ h in
      let w = fields-Read name port addresses m a q in
      new-IsValid name w.id w.role w.project w.branch w.status port addresses m
        (metadata_from_txt-IsSorted properties m p) w.built
