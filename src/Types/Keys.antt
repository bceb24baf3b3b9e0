-- ===== src/Types/Keys.antt =====
-- src/types.rs: the metadata keys that the crate keeps for itself.
use zero_conf_mesh.Prelude.{String, Bool, ◌||◌, ◌==◌}

abbrev pub agent_id_metadata_key : String
agent_id_metadata_key = "agent_id"

abbrev pub agent_role_metadata_key : String
agent_role_metadata_key = "role"

abbrev pub agent_project_metadata_key : String
agent_project_metadata_key = "current_project"

abbrev pub agent_branch_metadata_key : String
agent_branch_metadata_key = "current_branch"

abbrev pub agent_status_metadata_key : String
agent_status_metadata_key = "status"

abbrev pub agent_capabilities_metadata_key : String
agent_capabilities_metadata_key = "capabilities"

abbrev pub agent_auth_scheme_metadata_key : String
agent_auth_scheme_metadata_key = "zcm_auth"

abbrev pub agent_signature_metadata_key : String
agent_signature_metadata_key = "zcm_sig"

unfoldable pub is_reserved_metadata_key : String → Bool
is_reserved_metadata_key key =
    key == agent_id_metadata_key
    || key == agent_role_metadata_key
    || key == agent_project_metadata_key
    || key == agent_branch_metadata_key
    || key == agent_status_metadata_key
    || key == agent_capabilities_metadata_key
    || key == agent_auth_scheme_metadata_key
    || key == agent_signature_metadata_key

unfoldable pub is_auth_metadata_key : String → Bool
is_auth_metadata_key key =
    key == agent_auth_scheme_metadata_key || key == agent_signature_metadata_key
