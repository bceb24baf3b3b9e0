-- ===== src/Registry/Valid.antt =====
-- The registry's invariant: one entry for a key, stored under the agent's own id.
use zero_conf_mesh.Prelude.{
  ℕ, String, ◌≡◌, refl, ap, arith, List, [], ◌∷◌, All, Bool-cases, Option-cases, inl, inr,
}
use zero_conf_mesh.Prelude.Assoc.{lookup, remove, Distinct, remove-Distinct, remove-All}
use zero_conf_mesh.Prelude.HashMap
use zero_conf_mesh.Types.Announcement.{AgentAnnouncement}
use zero_conf_mesh.Types.Info.{AgentInfo, into_agent_info, same_payload_as, same_payload_as_iff}
use zero_conf_mesh.Events.{EventOrigin, DepartureReason, remote, graceful, expired}
use zero_conf_mesh.Registry.{
  Registry, with_event_capacity, upsert_with_origin_at, remove_with_origin, remove_remote,
  find_instance, remove_remote_by_instance_name, evict_ids, stale_ids, evict_stale_at,
}

abbrev pub IsOwnId : String × AgentInfo → Type 0
IsOwnId e = e.1.id ≡ e.0

pub record IsValid (r : Registry) : Type 0 where
  pub distinct : Distinct r.inner
  pub own_ids : All IsOwnId r.inner

pub with_event_capacity-IsValid : (ttl capacity : ℕ) → IsValid (with_event_capacity ttl capacity)
unfolding with_event_capacity
with_event_capacity-IsValid ttl capacity = record { distinct = tt; own_ids = tt }

-- A map with another entry under the agent's own id.
IsValid-insert :
    (r s : Registry) (agent : AgentInfo)
    → IsValid r
    → s.inner ≡ HashMap.insert agent.id agent r.inner
    → IsValid s
IsValid-insert r s agent v e = record {
  distinct = rw e (HashMap.insert-Distinct agent.id agent r.inner v.distinct);
  own_ids = rw e (HashMap.insert-All IsOwnId agent.id agent r.inner refl v.own_ids);
}

IsValid-remove : (r s : Registry) (k : String) → IsValid r → s.inner ≡ remove k r.inner → IsValid s
IsValid-remove r s k v e = record {
  distinct = rw e (remove-Distinct k r.inner v.distinct);
  own_ids = rw e (remove-All IsOwnId k r.inner v.own_ids);
}

-- The snapshot that an upsert stores, whichever branch it takes.
pub inner-upsert :
    (a : AgentAnnouncement) (t : ℕ) (o : EventOrigin) (r : Registry)
    → (upsert_with_origin_at a t o r).0.inner
      ≡ HashMap.insert a.agent_id (into_agent_info a t) r.inner
unfolding upsert_with_origin_at into_agent_info
inner-upsert a t o r = elim (Option-cases (lookup a.agent_id r.inner)) [
  | inl e ↦ rw (e, upsert_with_origin_at)
  | inr (agent, e) ↦
      let same = same_payload_as_iff agent (into_agent_info a t) in
      elim (Bool-cases (same_payload_as agent (into_agent_info a t))) [
        | inl p ↦
            rw (e, upsert_with_origin_at)
              (rw p (ap (λ (x : AgentInfo). HashMap.insert a.agent_id x r.inner) (same.0 p)))
        | inr p ↦ rw (e, upsert_with_origin_at) (rw p refl)
      ]
]

pub inner-remove :
    (k : String) (o : EventOrigin) (why : DepartureReason) (r : Registry)
    → (remove_with_origin k o why r).0.inner ≡ remove k r.inner
unfolding remove_with_origin
inner-remove k o why r = ground arith

pub ttl-upsert :
    (a : AgentAnnouncement) (t : ℕ) (o : EventOrigin) (r : Registry)
    → (upsert_with_origin_at a t o r).0.ttl ≡ r.ttl
unfolding upsert_with_origin_at
ttl-upsert a t o r = ground arith

pub ttl-remove :
    (k : String) (o : EventOrigin) (why : DepartureReason) (r : Registry)
    → (remove_with_origin k o why r).0.ttl ≡ r.ttl
unfolding remove_with_origin
ttl-remove k o why r = ground arith

pub upsert-IsValid :
    (a : AgentAnnouncement) (t : ℕ) (o : EventOrigin) (r : Registry)
    → IsValid r
    → IsValid (upsert_with_origin_at a t o r).0
unfolding into_agent_info
upsert-IsValid a t o r v =
    IsValid-insert r (upsert_with_origin_at a t o r).0 (into_agent_info a t) v
      (inner-upsert a t o r)

pub remove-IsValid :
    (k : String) (o : EventOrigin) (why : DepartureReason) (r : Registry)
    → IsValid r
    → IsValid (remove_with_origin k o why r).0
remove-IsValid k o why r v =
    IsValid-remove r (remove_with_origin k o why r).0 k v (inner-remove k o why r)

pub remove_by_instance_name-IsValid :
    (name : String) (r : Registry) → IsValid r → IsValid (remove_remote_by_instance_name name r).0
unfolding remove_remote_by_instance_name remove_remote
remove_by_instance_name-IsValid name r v = elim (Option-cases (find_instance name r.inner)) [
  | inl e ↦ rw (e, remove_remote_by_instance_name) v
  | inr (k, e) ↦ rw (e, remove_remote_by_instance_name) (remove-IsValid k remote graceful r v)
]

pub evict_ids-IsValid : (ids : List String) (r : Registry) → IsValid r → IsValid (evict_ids ids r).0
unfolding evict_ids
evict_ids-IsValid [] r v = v
evict_ids-IsValid (id ∷ ids) r v =
    evict_ids-IsValid ids (remove_with_origin id remote expired r).0
      (remove-IsValid id remote expired r v)

pub evict_stale_at-IsValid : (now : ℕ) (r : Registry) → IsValid r → IsValid (evict_stale_at now r).0
unfolding evict_stale_at
evict_stale_at-IsValid now r v = evict_ids-IsValid (stale_ids now r.ttl r.inner) r v
