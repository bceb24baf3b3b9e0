-- ===== src/Registry/Mirror.antt =====
-- The events as a faithful log: a subscriber that applies every event from the start has the
-- registry's agents, up to the time they were last seen.
use zero_conf_mesh.Prelude.{
  ℕ, String, ◌≡◌, refl, ap, ◌∙◌, arith, List, [], ◌∷◌, ◌++◌, Option, some, none, ◌==◌, eq_iff,
  if◌then◌else◌, Bool-cases, Option-cases, inl, inr,
}
use zero_conf_mesh.Prelude.Assoc.{lookup, lookup-All}
use zero_conf_mesh.Types.Announcement.{AgentAnnouncement}
use zero_conf_mesh.Types.Info.{
  AgentInfo, into_agent_info, refresh_last_seen, same_payload_as, same_payload_as_iff,
}
use zero_conf_mesh.Events.{
  EventOrigin, DepartureReason, AgentEvent, joined, updated, left, remote, expired, graceful,
}
use zero_conf_mesh.Registry.{
  Registry, with_event_capacity, get, upsert_with_origin_at, remove_with_origin, remove_remote,
  find_instance, remove_remote_by_instance_name, evict_ids, stale_ids, evict_stale_at,
}
use zero_conf_mesh.Registry.Valid.{IsValid, IsOwnId, remove-IsValid}
use zero_conf_mesh.Registry.Sent.{upsert_events, upsert_reports, remove_reports}
use zero_conf_mesh.Registry.Lookup.{get-upsert, get-remove}

-- A snapshot without the time it was seen.
abbrev pub payload : AgentInfo → AgentInfo
payload a = record a { last_seen = 0 }

abbrev pub payload? : Option AgentInfo → Option AgentInfo
payload? none = none
payload? (some a) = some (payload a)

-- What a subscriber holds of one agent after an event.
abbrev pub after_event : String → Option AgentInfo → AgentEvent → Option AgentInfo
after_event k held (joined a _) = if a.id == k then some (payload a) else held
after_event k held (updated _ a _) = if a.id == k then some (payload a) else held
after_event k held (left a _ _) = if a.id == k then none else held

abbrev pub replay_from : String → Option AgentInfo → List AgentEvent → Option AgentInfo
replay_from k held [] = held
replay_from k held (e ∷ es) = replay_from k (after_event k held e) es

unfoldable pub replay : String → List AgentEvent → Option AgentInfo
replay k es = replay_from k none es

pub replay_from-append :
    (k : String) (held : Option AgentInfo) (es fs : List AgentEvent)
    → replay_from k held (es ++ fs) ≡ replay_from k (replay_from k held es) fs
replay_from-append k held [] fs = refl
replay_from-append k held (d ∷ es) fs = replay_from-append k (after_event k held d) es fs

unfoldable pub Mirrors : Registry → Type 0
Mirrors r = (k : String) → replay k r.sent ≡ payload? (get k r)

-- A new registry is mirrored.
pub new-Mirrors : (ttl capacity : ℕ) → Mirrors (with_event_capacity ttl capacity)
unfolding Mirrors replay with_event_capacity get lookup
new-Mirrors ttl capacity k = refl

own_id : (r : Registry) (k : String) (a : AgentInfo) → IsValid r → get k r ≡ some a → a.id ≡ k
unfolding get
own_id r k a v e = lookup-All IsOwnId k r.inner v.own_ids e

-- The events of an upsert change what is held of its agent to the new payload.
upsert_events_replay :
    (found held : Option AgentInfo) (a : AgentAnnouncement) (t : ℕ) (o : EventOrigin) (k : String)
    → (a.agent_id ≡ k → held ≡ payload? found)
    → replay_from k held (upsert_events found (into_agent_info a t) o)
      ≡ (if a.agent_id == k then some (payload (into_agent_info a t)) else held)
unfolding into_agent_info
upsert_events_replay none held a t o k h = refl
upsert_events_replay (some x) held a t o k h =
    let incoming = into_agent_info a t in
    elim (Bool-cases (same_payload_as x incoming)) [
      | inl p ↦
          let e : payload x ≡ payload incoming =
            unfold refresh_last_seen in ap payload ((same_payload_as_iff x incoming).0 p) in
          rw p (ground (arith, eq_iff a.agent_id k))
      | inr p ↦ rw p refl
    ]

module _ (r : Registry) (v : IsValid r) (h : Mirrors r) where
  -- If a registry is valid and a subscriber that replays its events holds exactly its agents (up
  -- to the time each was seen), the same is so after any upsert.
  pub upsert-Mirrors :
      (a : AgentAnnouncement) (t : ℕ) (o : EventOrigin) → Mirrors (upsert_with_origin_at a t o r).0
  unfolding Mirrors replay
  upsert-Mirrors a t o k =
      rw ((upsert_reports a t o r).0, replay_from-append, get-upsert)
        (upsert_events_replay (get a.agent_id r) (replay_from k none r.sent) a t o k
            (λ e. rw e (h k))
          ∙ ground (arith, h k))

  -- A removal sends that the agent left, if it was there.
  pub remove-Mirrors :
      (id : String) (o : EventOrigin) (why : DepartureReason)
      → Mirrors (remove_with_origin id o why r).0
  unfolding Mirrors replay
  remove-Mirrors id o why k = elim (Option-cases (get id r)) [
    | inl e ↦
        rw ((remove_reports id o why r).0, replay_from-append, get-remove, e)
          (ground (arith, h k, eq_iff id k))
    | inr (a, e) ↦
        rw ((remove_reports id o why r).0, replay_from-append, get-remove, e)
          (ground (arith, h k, eq_iff id k, own_id r id a v e))
  ]

pub evict_ids-Mirrors :
    (ids : List String) (r : Registry) → IsValid r → Mirrors r → Mirrors (evict_ids ids r).0
unfolding evict_ids
evict_ids-Mirrors [] r v h = h
evict_ids-Mirrors (id ∷ ids) r v h =
    evict_ids-Mirrors ids (remove_with_origin id remote expired r).0
      (remove-IsValid id remote expired r v) (remove-Mirrors r v h id remote expired)

-- If a registry is valid and replaying its events gives exactly its agents (up to the time each
-- was seen), the same is so after an eviction at any time.
pub evict_stale_at-Mirrors :
    (now : ℕ) (r : Registry) → IsValid r → Mirrors r → Mirrors (evict_stale_at now r).0
unfolding evict_stale_at
evict_stale_at-Mirrors now r v h = evict_ids-Mirrors (stale_ids now r.ttl r.inner) r v h

pub remove_by_instance_name-Mirrors :
    (name : String) (r : Registry)
    → IsValid r
    → Mirrors r
    → Mirrors (remove_remote_by_instance_name name r).0
unfolding remove_remote_by_instance_name remove_remote
remove_by_instance_name-Mirrors name r v h = elim (Option-cases (find_instance name r.inner)) [
  | inl e ↦ rw (e, remove_remote_by_instance_name) h
  | inr (k, e) ↦ rw (e, remove_remote_by_instance_name) (remove-Mirrors r v h k remote graceful)
]
