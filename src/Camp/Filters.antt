-- ===== src/Camp/Filters.antt =====
-- The two filters agree.
use zero_conf_mesh.Prelude.{
  String, Bool, true, false, ◌&&◌, ◌≡◌, refl, [], Option, none, some, ◌==◌,
}
use zero_conf_mesh.Types.Status.{AgentStatus, idle, busy, error, as_str, status_eq}
use zero_conf_mesh.Types.Info.{AgentInfo}
use zero_conf_mesh.Registry.Queries.{RegexApi}
use zero_conf_mesh.Camp.{ListCommand, AgentQuery, passes, matches_agent_query, matches_filters}

abbrev pub printed : Option AgentStatus → Option String
printed none = none
printed (some status) = some (as_str status)

-- The command that asks what a query with a known status asks, and that query.
abbrev pub command_of :
    Option String
    → Option String
    → Option String
    → Option String
    → Option AgentStatus
    → Option String
    → ListCommand
command_of id role project branch status capability = record {
  id = id;
  role = role;
  project = project;
  branch = branch;
  status = status;
  capability = capability;
  metadata = [];
  metadata_keys = [];
  metadata_key_prefixes = [];
  metadata_prefixes = [];
  metadata_regexes = [];
}

abbrev pub query_of :
    Option String
    → Option String
    → Option String
    → Option String
    → Option AgentStatus
    → Option String
    → AgentQuery
query_of id role project branch status capability = record {
  id = id;
  role = role;
  project = project;
  branch = branch;
  status = printed status;
  capability = capability;
}

as_str_eq : (s t : AgentStatus) → (as_str s == as_str t) ≡ status_eq s t
unfolding as_str status_eq
as_str_eq idle idle = refl
as_str_eq idle busy = refl
as_str_eq idle error = refl
as_str_eq busy idle = refl
as_str_eq busy busy = refl
as_str_eq busy error = refl
as_str_eq error idle = refl
as_str_eq error busy = refl
as_str_eq error error = refl

passes-printed :
    (s : AgentStatus) (wanted : Option AgentStatus)
    → passes (printed wanted) (λ status. as_str s == status)
      ≡ passes wanted (λ status. status_eq s status)
passes-printed s none = refl
passes-printed s (some t) = as_str_eq s t

and_true : (b : Bool) → (b && true) ≡ b
and_true true = refl
and_true false = refl

pub matches_filters-command_of :
    (regexes : RegexApi) (agent : AgentInfo) (id role project branch : Option String)
    (status : Option AgentStatus) (capability : Option String)
    → matches_filters regexes agent (command_of id role project branch status capability)
      ≡ matches_agent_query agent (query_of id role project branch status capability)
unfolding matches_filters matches_agent_query
matches_filters-command_of regexes agent id role project branch status capability =
    simp (and_true, passes-printed)
