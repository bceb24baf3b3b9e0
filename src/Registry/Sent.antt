-- ===== src/Registry/Sent.antt =====
-- The event and the result of an operation, from what a reader found before it.
use zero_conf_mesh.Prelude.{
  ℕ, String, ◌≡◌, refl, arith, List, [], ◌∷◌, ◌++◌, Option, some, none, if◌then◌else◌, Bool-cases,
  inl, inr, ap,
}
use zero_conf_mesh.Prelude.Assoc.{lookup}
use zero_conf_mesh.Types.Announcement.{AgentAnnouncement}
use zero_conf_mesh.Types.Info.{AgentInfo, into_agent_info, same_payload_as, same_payload_as_iff}
use zero_conf_mesh.Events.{EventOrigin, DepartureReason, AgentEvent, joined, updated, left}
use zero_conf_mesh.Registry.{
  Registry, RegistryUpsert, inserted, changed, refreshed, get, upsert_with_origin_at,
  remove_with_origin,
}

-- A join where there was no agent, an update where the payload differs, and else nothing.
abbrev pub upsert_events : Option AgentInfo → AgentInfo → EventOrigin → List AgentEvent
upsert_events none incoming o = joined incoming o ∷ []
upsert_events (some existing) incoming o =
    if same_payload_as existing incoming then [] else updated existing incoming o ∷ []

abbrev pub upsert_result : Option AgentInfo → AgentInfo → RegistryUpsert
upsert_result none incoming = inserted incoming
upsert_result (some existing) incoming =
    if same_payload_as existing incoming then refreshed incoming else changed existing incoming

abbrev pub remove_events : Option AgentInfo → EventOrigin → DepartureReason → List AgentEvent
remove_events none o why = []
remove_events (some agent) o why = left agent o why ∷ []

append_nil : (l : List AgentEvent) → l ≡ l ++ []
append_nil [] = refl
append_nil (e ∷ l) = rw (← append_nil l)

upsert_at_found :
    (found : Option AgentInfo) (a : AgentAnnouncement) (t : ℕ) (o : EventOrigin) (r : Registry)
    → lookup a.agent_id r.inner ≡ found
    → ((upsert_with_origin_at a t o r).0.sent
        ≡ r.sent ++ upsert_events found (into_agent_info a t) o)
      × ((upsert_with_origin_at a t o r).1 ≡ upsert_result found (into_agent_info a t))
unfolding upsert_with_origin_at into_agent_info
upsert_at_found none a t o r e = (rw (e, upsert_with_origin_at), rw (e, upsert_with_origin_at))
upsert_at_found (some x) a t o r e =
    let incoming = into_agent_info a t in
    elim (Bool-cases (same_payload_as x incoming)) [
      | inl p ↦ (
        rw (e, upsert_with_origin_at) (rw p (append_nil r.sent)),
        rw (e, upsert_with_origin_at) (rw p (ap refreshed ((same_payload_as_iff x incoming).0 p))),
      )
      | inr p ↦
          (rw (e, upsert_with_origin_at) (rw p refl), rw (e, upsert_with_origin_at) (rw p refl))
    ]

-- Each upsert sends one event or none and returns the matching result, as the agent was absent, had
-- another payload, or had the same.
pub upsert_reports :
    (a : AgentAnnouncement) (t : ℕ) (o : EventOrigin) (r : Registry)
    → ((upsert_with_origin_at a t o r).0.sent
        ≡ r.sent ++ upsert_events (get a.agent_id r) (into_agent_info a t) o)
      × ((upsert_with_origin_at a t o r).1 ≡ upsert_result (get a.agent_id r) (into_agent_info a t))
unfolding get
upsert_reports a t o r = upsert_at_found (lookup a.agent_id r.inner) a t o r refl

remove_at_found :
    (found : Option AgentInfo) (id : String) (o : EventOrigin) (why : DepartureReason)
    (r : Registry)
    → lookup id r.inner ≡ found
    → ((remove_with_origin id o why r).0.sent ≡ r.sent ++ remove_events found o why)
      × ((remove_with_origin id o why r).1 ≡ found)
unfolding remove_with_origin
remove_at_found none id o why r e = ground (arith, append_nil r.sent)
remove_at_found (some x) id o why r e = ground (arith)

-- A removal returns the agent that was there and sends that it left, or does neither.
pub remove_reports :
    (id : String) (o : EventOrigin) (why : DepartureReason) (r : Registry)
    → ((remove_with_origin id o why r).0.sent ≡ r.sent ++ remove_events (get id r) o why)
      × ((remove_with_origin id o why r).1 ≡ get id r)
unfolding get
remove_reports id o why r = remove_at_found (lookup id r.inner) id o why r refl
