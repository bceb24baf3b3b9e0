-- ===== src/Tests/Camp.antt =====
-- src/bin/camp.rs: the answers over a registry of one agent.
use zero_conf_mesh.Prelude.{String, ◌≡◌, none, some, ◌==◌}
use zero_conf_mesh.Error.{ok}
use zero_conf_mesh.Types.Status.{idle}
use zero_conf_mesh.Registry.Queries.{RegexApi}
use zero_conf_mesh.Camp.{matches_agent_query}
use zero_conf_mesh.Camp.Filters.{command_of, query_of}
use zero_conf_mesh.Types.Announcement.{IpAddr}
use zero_conf_mesh.Events.{local}
use zero_conf_mesh.Registry.{Registry, with_event_capacity, upsert_with_origin_at, get}
use zero_conf_mesh.Registry.Query.{matching}
use zero_conf_mesh.Registry.Valid.{IsValid, with_event_capacity-IsValid, upsert-IsValid}
use zero_conf_mesh.Camp.Records.{record?, run_list, run_get, list_agents_handler, get_agent_handler}
use zero_conf_mesh.Camp.Records.Laws.{respond, find_record, answers_agree}
use zero_conf_mesh.Tests.Data.{sample}

abbrev regexes : RegexApi
regexes = record {
  Regex = String;
  compile = λ pattern. ok pattern;
  is_match = λ regex text. regex == text;
}

abbrev display : IpAddr → String
display address = "address"

abbrev registry : Registry
registry = (upsert_with_origin_at sample 1 local (with_event_capacity 120 256)).0

registry-IsValid : IsValid registry
registry-IsValid =
    upsert-IsValid sample 1 local (with_event_capacity 120 256)
      (with_event_capacity-IsValid 120 256)

answers_agree_example :
    let query = query_of none (some "coder") none none (some idle) (some "plan") in
    (run_get display "agent-1" registry ≡ record? display (get "agent-1" registry))
    × (get_agent_handler display "agent-1" registry ≡ respond (run_get display "agent-1" registry))
    × (find_record "agent-1" (list_agents_handler display query registry)
        ≡ record? display
            (matching (λ agent. matches_agent_query agent query) (get "agent-1" registry)))
    × (run_list display regexes
          (command_of none (some "coder") none none (some idle) (some "plan"))
          registry
        ≡ list_agents_handler display query registry)
answers_agree_example =
    answers_agree display regexes registry "agent-1" none (some "coder") none none (some idle)
      (some "plan") registry-IsValid
