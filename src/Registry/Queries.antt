-- ===== src/Registry/Queries.antt =====
-- src/registry.rs: the queries by field. The regex compiler is another crate's.
use text.Mathlib.Text.{starts_with}
use zero_conf_mesh.Prelude.{
  String, Bool, true, false, ◌&&◌, ◌≡◌, List, any, Option, none, some, ◌==◌,
}
use zero_conf_mesh.Prelude.Assoc.{keys, lookup, contains_key}
use zero_conf_mesh.Prelude.Sort.{find_key, Ascending}
use zero_conf_mesh.Error.{Result, ok, ◌>>=◌, >>=-eq-ok}
use zero_conf_mesh.Types.Status.{AgentStatus, status_eq}
use zero_conf_mesh.Types.Info.{AgentInfo, has_capability}
use zero_conf_mesh.Registry.{Registry, id_of, get, query}
use zero_conf_mesh.Registry.Valid.{IsValid}
use zero_conf_mesh.Registry.Query.{matching, query_exact}

-- `Regex::new` with its complaint, and `is_match`.
pub record RegexApi : Type 1 where
  pub Regex : Type 0
  pub compile : String → Result Regex
  pub is_match : Regex → String → Bool

-- `is_some_and(test)`
abbrev pub is_some_and : (String → Bool) → Option String → Bool
is_some_and test none = false
is_some_and test (some value) = test value

unfoldable pub list : Registry → List AgentInfo
list = query (λ _. true)

unfoldable pub get_all_by_project : String → Registry → List AgentInfo
get_all_by_project project = query (λ agent. agent.project == project)

unfoldable pub get_all_by_branch : String → Registry → List AgentInfo
get_all_by_branch branch = query (λ agent. agent.branch == branch)

unfoldable pub get_all_by_project_and_branch : String → String → Registry → List AgentInfo
get_all_by_project_and_branch project branch =
    query (λ agent. agent.project == project && agent.branch == branch)

unfoldable pub get_all_by_status : AgentStatus → Registry → List AgentInfo
get_all_by_status status = query (λ agent. status_eq agent.status status)

unfoldable pub get_all_by_role : String → Registry → List AgentInfo
get_all_by_role role = query (λ agent. agent.role == role)

unfoldable pub get_all_with_metadata_key : String → Registry → List AgentInfo
get_all_with_metadata_key key = query (λ agent. contains_key key agent.metadata)

unfoldable pub get_all_by_metadata : String → String → Registry → List AgentInfo
get_all_by_metadata key value =
    query (λ agent. is_some_and (λ stored. stored == value) (lookup key agent.metadata))

unfoldable pub get_all_with_metadata_key_prefix : String → Registry → List AgentInfo
get_all_with_metadata_key_prefix prefix =
    query (λ agent. any (λ key. starts_with key prefix) (keys agent.metadata))

unfoldable pub get_all_by_metadata_prefix : String → String → Registry → List AgentInfo
get_all_by_metadata_prefix key prefix =
    query (λ agent. is_some_and (λ stored. starts_with stored prefix) (lookup key agent.metadata))

unfoldable pub get_all_with_capability : String → Registry → List AgentInfo
get_all_with_capability capability = query (λ agent. has_capability agent capability)

module _ (regexes : RegexApi) where
  abbrev pub regex_test : String → regexes.Regex → AgentInfo → Bool
  regex_test key regex agent = is_some_and (regexes.is_match regex) (lookup key agent.metadata)

  -- The compiler's error is returned in place of the agents.
  unfoldable pub get_all_by_metadata_regex : String → String → Registry → Result (List AgentInfo)
  get_all_by_metadata_regex key pattern r = do
    regex ← regexes.compile pattern
    ok (query (regex_test key regex) r)

  -- If a regex query on a valid registry returns agents, its pattern was compiled, and they are
  -- the agents whose value under the key matches, once each, in the order of their ids.
  pub get_all_by_metadata_regex_exact :
      (key pattern : String) (r : Registry) {l : List AgentInfo}
      → IsValid r
      → get_all_by_metadata_regex key pattern r ≡ ok l
      → (regex : regexes.Regex) × (regexes.compile pattern ≡ ok regex)
        × Ascending id_of l
        × ((k : String) → find_key id_of k l ≡ matching (regex_test key regex) (get k r))
  unfolding get_all_by_metadata_regex
  get_all_by_metadata_regex_exact key pattern r {l} v h =
      let (regex, p, q) = >>=-eq-ok (regexes.compile pattern) _ h in
      let e : query (regex_test key regex) r ≡ l = cc in
      let w = query_exact (regex_test key regex) r v in
      (regex, p, rw (← e) w.0, λ k. rw (← e) (w.1 k))
