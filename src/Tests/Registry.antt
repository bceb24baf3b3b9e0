-- ===== src/Tests/Registry.antt =====
-- src/registry.rs: two agents come, one is seen again, and the other goes stale.
use zero_conf_mesh.Prelude.{
  ℕ, String, Bool, true, false, ◌≡◌, refl, List, [], ◌∷◌, ◌++◌, Option, none, some, keep, map, ◌==◌,
  eq_iff, sym, ◌∙◌, inl, inr, Bool-cases, if◌then◌else◌,
}
use mathlib.Core.Path.{subst}
use zero_conf_mesh.Prelude.Sort.{find_key, Ascending}
use zero_conf_mesh.Error.{ok, err, mdns}
use zero_conf_mesh.Types.Info.{AgentInfo, into_agent_info, is_stale}
use zero_conf_mesh.Events.{local, remote}
use zero_conf_mesh.Registry.{
  Registry, with_event_capacity, get, id_of, values, upsert_with_origin_at, remove_with_origin,
  evict_stale_at, query,
}
use zero_conf_mesh.Registry.Valid.{IsValid, with_event_capacity-IsValid, upsert-IsValid}
use zero_conf_mesh.Registry.Lookup.{get-upsert, fresh, get-evict_stale_at}
use zero_conf_mesh.Registry.Sent.{upsert_events, upsert_result, upsert_reports}
use zero_conf_mesh.Registry.Evict.{expiry, evict_reports}
use zero_conf_mesh.Registry.Mirror.{Mirrors, new-Mirrors, upsert-Mirrors}
use zero_conf_mesh.Registry.Query.{matching, query_exact}
use zero_conf_mesh.Registry.Queries.{
  RegexApi, regex_test, get_all_by_metadata_regex, get_all_by_metadata_regex_exact,
}
use zero_conf_mesh.Tests.Data.{sample, peer}

abbrev empty : Registry
empty = with_event_capacity 120 256

abbrev one : Registry
one = (upsert_with_origin_at peer 5 remote empty).0

abbrev two : Registry
two = (upsert_with_origin_at sample 100 local one).0

one-IsValid : IsValid one
one-IsValid = upsert-IsValid peer 5 remote empty (with_event_capacity-IsValid 120 256)

two-IsValid : IsValid two
two-IsValid = upsert-IsValid sample 100 local one one-IsValid

one-Mirrors : Mirrors one
one-Mirrors =
    upsert-Mirrors empty (with_event_capacity-IsValid 120 256) (new-Mirrors 120 256) peer 5 remote

upsert-Mirrors_example : Mirrors two
upsert-Mirrors_example = upsert-Mirrors one one-IsValid one-Mirrors sample 100 local

get-upsert_example :
    get "agent-1" two
    ≡ (if "agent-1" == "agent-1" then some (into_agent_info sample 100) else get "agent-1" one)
get-upsert_example = get-upsert sample 100 local one "agent-1"

get-evict_stale_at_example :
    get "peer-1" (evict_stale_at 130 two).0 ≡ fresh 130 two.ttl (get "peer-1" two)
get-evict_stale_at_example = get-evict_stale_at 130 two "peer-1" two-IsValid

-- The run that the theorem speaks of: the peer is gone and the local agent is not.
evicted : (evict_stale_at 130 two).1 ≡ into_agent_info peer 5 ∷ []
unfolding evict_stale_at zero_conf_mesh.Registry.evict_ids zero_conf_mesh.Registry.stale_ids
    upsert_with_origin_at zero_conf_mesh.Prelude.Assoc.lookup with_event_capacity
    zero_conf_mesh.Prelude.HashMap.insert into_agent_info is_stale remove_with_origin
evicted = refl

evict_reports_example :
    ((evict_stale_at 130 two).1 ≡ keep (λ a. is_stale a 130 two.ttl) (values two.inner))
    × ((evict_stale_at 130 two).0.sent
        ≡ two.sent ++ map expiry (keep (λ a. is_stale a 130 two.ttl) (values two.inner)))
evict_reports_example = evict_reports 130 two two-IsValid

upsert_reports_example :
    ((upsert_with_origin_at sample 110 local two).0.sent
      ≡ two.sent ++ upsert_events (get "agent-1" two) (into_agent_info sample 110) local)
    × ((upsert_with_origin_at sample 110 local two).1
        ≡ upsert_result (get "agent-1" two) (into_agent_info sample 110))
upsert_reports_example = upsert_reports sample 110 local two

query_exact_example :
    Ascending id_of (query (λ a. a.role == "coder") two)
    × ((k : String)
        → find_key id_of k (query (λ a. a.role == "coder") two)
          ≡ matching (λ a. a.role == "coder") (get k two))
query_exact_example = query_exact (λ a. a.role == "coder") two two-IsValid

-- The same two agents, in the other order.
abbrev first : Registry
first = (upsert_with_origin_at sample 100 local empty).0

abbrev swapped : Registry
swapped = (upsert_with_origin_at peer 5 remote first).0

swapped-IsValid : IsValid swapped
swapped-IsValid =
    upsert-IsValid peer 5 remote first
      (upsert-IsValid sample 100 local empty (with_event_capacity-IsValid 120 256))

same_local : get "agent-1" two ≡ get "agent-1" swapped
unfolding get upsert_with_origin_at into_agent_info zero_conf_mesh.Types.Info.refresh_last_seen
    zero_conf_mesh.Prelude.HashMap.insert with_event_capacity
    zero_conf_mesh.Types.Info.same_payload_as zero_conf_mesh.Prelude.Assoc.lookup
same_local = refl

same_peer : get "peer-1" two ≡ get "peer-1" swapped
unfolding get upsert_with_origin_at into_agent_info zero_conf_mesh.Types.Info.refresh_last_seen
    zero_conf_mesh.Prelude.HashMap.insert with_event_capacity
    zero_conf_mesh.Types.Info.same_payload_as zero_conf_mesh.Prelude.Assoc.lookup
same_peer = refl

absent-two :
    (k : String) → ("agent-1" == k) ≡ false → ("peer-1" == k) ≡ false → get k two ≡ get k empty
absent-two k e f =
    (get-upsert sample 100 local one k ∙ simp e) ∙ (get-upsert peer 5 remote empty k ∙ simp f)

absent-swapped :
    (k : String) → ("agent-1" == k) ≡ false → ("peer-1" == k) ≡ false → get k swapped ≡ get k empty
absent-swapped k e f =
    (get-upsert peer 5 remote first k ∙ simp f) ∙ (get-upsert sample 100 local empty k ∙ simp e)

get-swapped : (k : String) → get k two ≡ get k swapped
get-swapped k = elim (Bool-cases ("agent-1" == k)) [
  | inl e ↦ subst (λ j. get j two ≡ get j swapped) ((eq_iff "agent-1" k).0 e) same_local
  | inr e ↦ elim (Bool-cases ("peer-1" == k)) [
    | inl f ↦ subst (λ j. get j two ≡ get j swapped) ((eq_iff "peer-1" k).0 f) same_peer
    | inr f ↦ absent-two k e f ∙ sym (absent-swapped k e f)
  ]
]

-- A compiler that refuses the open bracket, and takes every other text as itself.
abbrev regexes : RegexApi
regexes = record {
  Regex = String;
  compile = λ pattern. if pattern == "(" then err (mdns "unclosed group") else ok pattern;
  is_match = λ regex text. regex == text;
}

regex_found :
    get_all_by_metadata_regex regexes "team" "blue" two
    ≡ ok (query (regex_test regexes "team" "blue") two)
unfolding get_all_by_metadata_regex
regex_found = refl

get_all_by_metadata_regex_exact_example :
    (regex : String) × (regexes.compile "blue" ≡ ok regex)
    × Ascending id_of (query (regex_test regexes "team" "blue") two)
    × ((k : String)
        → find_key id_of k (query (regex_test regexes "team" "blue") two)
          ≡ matching (regex_test regexes "team" regex) (get k two))
get_all_by_metadata_regex_exact_example =
    get_all_by_metadata_regex_exact regexes "team" "blue" two two-IsValid regex_found
