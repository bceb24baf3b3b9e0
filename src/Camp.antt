-- ===== src/Camp.antt =====
-- src/bin/camp.rs: the filters of the command-line tool, of its `list` command and of the `/agents`
-- endpoint. The `if let … { return false }` chain is a conjunction.
pub mod Filters
pub mod Outcome
pub mod Options
pub mod Files
pub mod Parse
pub mod Slug
pub mod Guidance
pub mod Settings
pub mod Records
pub mod Stream
pub mod Init
use text.Mathlib.Text.{starts_with}
use zero_conf_mesh.Prelude.{
  ℕ, String, Bool, true, false, not, ◌&&◌, List, [], ◌∷◌, Option, none, some, any, ◌==◌,
}
use zero_conf_mesh.Prelude.Assoc.{keys, lookup, contains_key}
use zero_conf_mesh.Error.{Result, ok, err}
use zero_conf_mesh.Types.Status.{AgentStatus, as_str, status_eq}
use zero_conf_mesh.Types.Info.{AgentInfo, has_capability}
use zero_conf_mesh.Registry.Queries.{RegexApi, is_some_and}

-- The options of `list` that filter.
pub record ListCommand : Type 0 where
  pub id : Option String
  pub role : Option String
  pub project : Option String
  pub branch : Option String
  pub status : Option AgentStatus
  pub capability : Option String
  pub metadata : List (String × String)
  pub metadata_keys : List String
  pub metadata_key_prefixes : List String
  pub metadata_prefixes : List (String × String)
  pub metadata_regexes : List (String × String)

pub record AgentQuery : Type 0 where
  pub id : Option String
  pub role : Option String
  pub project : Option String
  pub branch : Option String
  pub status : Option String
  pub capability : Option String

-- An option that is not given, or whose test holds.
abbrev pub passes {ℓ} : {A : Type ℓ} → Option A → (A → Bool) → Bool
passes none test = true
passes (some wanted) test = test wanted

-- The value under the key does not pass the test, or is not there.
abbrev pub fails_at : AgentInfo → String → (String → Bool) → Bool
fails_at agent key test = not (is_some_and test (lookup key agent.metadata))

unfoldable pub matches_agent_query : AgentInfo → AgentQuery → Bool
matches_agent_query agent query =
    passes query.id (λ id. agent.id == id)
    && passes query.role (λ role. agent.role == role)
    && passes query.project (λ project. agent.project == project)
    && passes query.branch (λ branch. agent.branch == branch)
    && passes query.status (λ status. as_str agent.status == status)
    && passes query.capability (has_capability agent)

module _ (regexes : RegexApi) where
  -- A pattern that does not compile fails.
  unfoldable pub fails_regex : AgentInfo → String × String → Bool
  fails_regex agent (key, pattern) = elim (regexes.compile pattern) [
    | err _ ↦ true
    | ok regex ↦ fails_at agent key (regexes.is_match regex)
  ]

  unfoldable pub matches_filters : AgentInfo → ListCommand → Bool
  matches_filters agent command =
      passes command.id (λ id. agent.id == id)
      && passes command.role (λ role. agent.role == role)
      && passes command.project (λ project. agent.project == project)
      && passes command.branch (λ branch. agent.branch == branch)
      && passes command.status (λ status. status_eq agent.status status)
      && passes command.capability (has_capability agent)
      && not (any (λ e. fails_at agent e.0 (λ stored. stored == e.1)) command.metadata)
      && not (any (λ key. not (contains_key key agent.metadata)) command.metadata_keys)
      && not (
          any (λ prefix. not (any (λ key. starts_with key prefix) (keys agent.metadata)))
            command.metadata_key_prefixes)
      && not (
          any (λ e. fails_at agent e.0 (λ stored. starts_with stored e.1))
            command.metadata_prefixes)
      && not (any (fails_regex agent) command.metadata_regexes)
