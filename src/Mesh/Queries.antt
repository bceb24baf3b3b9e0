-- ===== src/Mesh/Queries.antt =====
-- src/mesh.rs: the calls that only read a node: its configuration, its announcement and its registry.
use zero_conf_mesh.Prelude.{String, Bool, List, Option}
use zero_conf_mesh.Error.{Result}
use zero_conf_mesh.Types.Status.{AgentStatus}
use zero_conf_mesh.Types.Info.{AgentInfo}
use zero_conf_mesh.Types.Txt.{TxtApi}
use zero_conf_mesh.Types.Auth.{MacApi}
use zero_conf_mesh.Registry.{get, query}
use zero_conf_mesh.Registry.Queries.{
  RegexApi, list, get_all_by_project, get_all_by_branch, get_all_by_project_and_branch,
  get_all_by_status, get_all_by_role, get_all_with_metadata_key, get_all_by_metadata,
  get_all_with_metadata_key_prefix, get_all_by_metadata_prefix, get_all_with_capability,
  get_all_by_metadata_regex,
}
use zero_conf_mesh.Broadcaster.{MdnsApi}
use zero_conf_mesh.Mesh.{ZeroConfMesh}

module _ (txt : TxtApi) (mac : MacApi) (mdns : MdnsApi txt) (m : ZeroConfMesh txt mac mdns) where
  unfoldable pub local_agent_id : String
  local_agent_id = m.config.agent_id

  unfoldable pub get_agent : String → Option AgentInfo
  unfolding get
  get_agent agent_id = get agent_id m.registry

  unfoldable pub agents : List AgentInfo
  unfolding list
  agents = list m.registry

  unfoldable pub agents_by_project : String → List AgentInfo
  unfolding get_all_by_project
  agents_by_project project = get_all_by_project project m.registry

  unfoldable pub agents_by_branch : String → List AgentInfo
  unfolding get_all_by_branch
  agents_by_branch branch = get_all_by_branch branch m.registry

  unfoldable pub agents_by_project_and_branch : String → String → List AgentInfo
  unfolding get_all_by_project_and_branch
  agents_by_project_and_branch project branch =
      get_all_by_project_and_branch project branch m.registry

  unfoldable pub agents_by_status : AgentStatus → List AgentInfo
  unfolding get_all_by_status
  agents_by_status status = get_all_by_status status m.registry

  unfoldable pub agents_by_role : String → List AgentInfo
  unfolding get_all_by_role
  agents_by_role role = get_all_by_role role m.registry

  unfoldable pub agents_with_metadata_key : String → List AgentInfo
  unfolding get_all_with_metadata_key
  agents_with_metadata_key key = get_all_with_metadata_key key m.registry

  unfoldable pub agents_with_metadata : String → String → List AgentInfo
  unfolding get_all_by_metadata
  agents_with_metadata key value = get_all_by_metadata key value m.registry

  unfoldable pub agents_with_metadata_key_prefix : String → List AgentInfo
  unfolding get_all_with_metadata_key_prefix
  agents_with_metadata_key_prefix prefix = get_all_with_metadata_key_prefix prefix m.registry

  unfoldable pub agents_with_metadata_prefix : String → String → List AgentInfo
  unfolding get_all_by_metadata_prefix
  agents_with_metadata_prefix key prefix = get_all_by_metadata_prefix key prefix m.registry

  unfoldable pub agents_with_metadata_regex : RegexApi → String → String → Result (List AgentInfo)
  unfolding get_all_by_metadata_regex
  agents_with_metadata_regex regexes key pattern =
      get_all_by_metadata_regex regexes key pattern m.registry

  unfoldable pub agents_with_capability : String → List AgentInfo
  unfolding get_all_with_capability
  agents_with_capability capability = get_all_with_capability capability m.registry

  unfoldable pub query_agents : (AgentInfo → Bool) → List AgentInfo
  unfolding query
  query_agents predicate = query predicate m.registry

  unfoldable pub who_is_on_branch : String → List AgentInfo
  unfolding agents_by_branch
  who_is_on_branch branch = agents_by_branch branch
