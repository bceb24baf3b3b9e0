-- ===== src/Camp/Records/Laws.antt =====
-- What the commands and the handlers answer, from the registry that they read.
use zero_conf_mesh.Prelude.{
  String, Bool, true, ◌≡◌, refl, sym, ap, ◌∙◌, arith, List, [], ◌∷◌, Option, none, some, keep,
  find_by, map, ◌==◌, if◌then◌else◌, eq_iff,
}
use zero_conf_mesh.Prelude.Sort.{find_key, Ascending, AllAbove-find_key}
use zero_conf_mesh.Types.Announcement.{IpAddr}
use zero_conf_mesh.Types.Status.{AgentStatus}
use zero_conf_mesh.Types.Info.{AgentInfo}
use zero_conf_mesh.Registry.{Registry, get, id_of}
use zero_conf_mesh.Registry.Queries.{RegexApi, list}
use zero_conf_mesh.Registry.Query.{matching, query_exact}
use zero_conf_mesh.Registry.Valid.{IsValid}
use zero_conf_mesh.Camp.{matches_agent_query, matches_filters}
use zero_conf_mesh.Camp.Filters.{command_of, query_of, matches_filters-command_of}
use zero_conf_mesh.Camp.Records.{
  AgentRecord, Response, found, not_found, to_agent_record, record?, run_list, run_get,
  list_agents_handler, get_agent_handler,
}

-- The record with an id, if there is one.
abbrev pub find_record : String → List AgentRecord → Option AgentRecord
find_record k [] = none
find_record k (a ∷ l) = if a.id == k then some a else find_record k l

-- In a list whose ids ascend, to filter is to filter what is found.
find_key-keep-Ascending :
    (p : AgentInfo → Bool) (k : String) (l : List AgentInfo)
    → Ascending id_of l
    → find_key id_of k (keep p l) ≡ matching p (find_key id_of k l)
unfolding find_key
find_key-keep-Ascending p k [] a = refl
find_key-keep-Ascending p k (x ∷ l) a =
    ground
      (arith, find_key-keep-Ascending p k l a.1, AllAbove-find_key id_of x.id l a.0, eq_iff x.id k)

find_by_key :
    (k : String) (l : List AgentInfo) → find_by (λ agent. agent.id == k) l ≡ find_key id_of k l
unfolding find_key
find_by_key k [] = refl
find_by_key k (x ∷ l) = ground (arith, find_by_key k l)

matching_all : (o : Option AgentInfo) → matching (λ _. true) o ≡ o
matching_all none = refl
matching_all (some a) = refl

keep_alike :
    (p q : AgentInfo → Bool) (l : List AgentInfo)
    → ((a : AgentInfo) → p a ≡ q a)
    → keep p l ≡ keep q l
keep_alike p q [] h = refl
keep_alike p q (x ∷ l) h = ground (arith, keep_alike p q l h, h x)

-- The agent found in the list of all.
pub find_key-list : (k : String) (r : Registry) → IsValid r → find_key id_of k (list r) ≡ get k r
unfolding list
find_key-list k r v = (query_exact (λ _. true) r v).1 k ∙ matching_all (get k r)

list-Ascending : (r : Registry) → IsValid r → Ascending id_of (list r)
unfolding list
list-Ascending r v = (query_exact (λ _. true) r v).0

-- The answer that a record, or its absence, stands for.
abbrev pub respond : Option AgentRecord → Response
respond none = not_found
respond (some a) = found a

module _ (display : IpAddr → String) where
  pub find_record-map :
      (k : String) (l : List AgentInfo)
      → find_record k (map (to_agent_record display) l) ≡ record? display (find_key id_of k l)
  unfolding to_agent_record find_key
  find_record-map k [] = refl
  find_record-map k (a ∷ l) = ground (arith, find_record-map k l)

  responds :
      (o : Option AgentInfo)
      → (elim o [ some a ↦ found (to_agent_record display a) | none ↦ not_found ])
        ≡ respond (record? display o)
  responds none = refl
  responds (some a) = refl

  -- On a valid registry, for every id: `get` and the handler of `/agents/{id}` answer with the record of
  -- the agent with that id exactly if it is there; the handler of `/agents` lists its record exactly if
  -- the agent is there and satisfies the query; and `list` prints what that handler lists, for the same
  -- id, role, project, branch, status and capability.
  pub answers_agree :
      (regexes : RegexApi) (r : Registry) (k : String) (id role project branch : Option String)
      (status : Option AgentStatus) (capability : Option String)
      → IsValid r
      → let query = query_of id role project branch status capability in
        (run_get display k r ≡ record? display (get k r))
        × (get_agent_handler display k r ≡ respond (run_get display k r))
        × (find_record k (list_agents_handler display query r)
            ≡ record? display (matching (λ agent. matches_agent_query agent query) (get k r)))
        × (run_list display regexes (command_of id role project branch status capability) r
            ≡ list_agents_handler display query r)
  unfolding run_get get_agent_handler list_agents_handler run_list
  answers_agree regexes r k id role project branch status capability v =
      let query = query_of id role project branch status capability in
      let here = find_key-list k r v in
      let got : run_get display k r ≡ record? display (get k r) =
        ap (record? display) (find_by_key k (list r) ∙ here) in
      (
        got,
        responds (get k r) ∙ ap respond (sym got),
        find_record-map k (keep (λ agent. matches_agent_query agent query) (list r))
            ∙ ap (record? display) (
                find_key-keep-Ascending (λ agent. matches_agent_query agent query) k (list r)
                  (list-Ascending r v)
                ∙ ap (matching (λ agent. matches_agent_query agent query)) here),
        ap (map (to_agent_record display)) (
            keep_alike
              (λ agent.
                matches_filters regexes agent (command_of id role project branch status capability))
              (λ agent. matches_agent_query agent query) (list r)
              (λ a. matches_filters-command_of regexes a id role project branch status capability)),
      )
