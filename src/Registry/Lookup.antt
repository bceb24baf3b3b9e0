-- ===== src/Registry/Lookup.antt =====
-- What a reader of the registry finds after each operation.
use zero_conf_mesh.Prelude.{
  ℕ, String, Bool, false, ◌≡◌, refl, ◌∙◌, arith, List, [], ◌∷◌, Option, some, none, has, ◌==◌,
  eq_iff, if◌then◌else◌,
}
use zero_conf_mesh.Prelude.Assoc.{lookup, Distinct, lookup-remove}
use zero_conf_mesh.Prelude.HashMap
use zero_conf_mesh.Types.Announcement.{AgentAnnouncement}
use zero_conf_mesh.Types.Info.{AgentInfo, into_agent_info, is_stale}
use zero_conf_mesh.Events.{EventOrigin, DepartureReason, remote, expired}
use zero_conf_mesh.Registry.{
  Registry, get, upsert_with_origin_at, remove_with_origin, evict_ids, stale_ids, evict_stale_at,
}
use zero_conf_mesh.Registry.Valid.{IsValid, inner-upsert, inner-remove}

-- After an upsert, its agent is found as the announcement's snapshot at the time of the upsert,
-- and any other agent as before.
pub get-upsert :
    (a : AgentAnnouncement) (t : ℕ) (o : EventOrigin) (r : Registry) (k : String)
    → get k (upsert_with_origin_at a t o r).0
      ≡ (if a.agent_id == k then some (into_agent_info a t) else get k r)
unfolding get
get-upsert a t o r k =
    rw inner-upsert (HashMap.lookup-insert a.agent_id k (into_agent_info a t) r.inner)

pub get-remove :
    (id : String) (o : EventOrigin) (why : DepartureReason) (r : Registry) (k : String)
    → get k (remove_with_origin id o why r).0 ≡ (if id == k then none else get k r)
unfolding get
get-remove id o why r k = rw inner-remove (lookup-remove id k r.inner)

-- What stays of an agent when the stale are evicted.
abbrev pub fresh : ℕ → ℕ → Option AgentInfo → Option AgentInfo
fresh now ttl none = none
fresh now ttl (some agent) = if is_stale agent now ttl then none else some agent

get-evict_ids :
    (ids : List String) (r : Registry) (k : String)
    → get k (evict_ids ids r).0 ≡ (if has k ids then none else get k r)
unfolding evict_ids
get-evict_ids [] r k = refl
get-evict_ids (id ∷ ids) r k = ground (
  arith,
  get-evict_ids ids (remove_with_origin id remote expired r).0 k,
  get-remove id remote expired r k,
)

abbrev is_stale_in : ℕ → ℕ → Option AgentInfo → Bool
is_stale_in now ttl none = false
is_stale_in now ttl (some agent) = is_stale agent now ttl

stale_ids_absent :
    (now ttl : ℕ) (m : List (String × AgentInfo)) (k : String)
    → lookup k m ≡ none
    → has k (stale_ids now ttl m) ≡ false
unfolding stale_ids lookup
stale_ids_absent now ttl [] k e = refl
stale_ids_absent now ttl ((id, agent) ∷ m) k e = ground (arith, stale_ids_absent now ttl m k)

has-stale_ids :
    (now ttl : ℕ) (m : List (String × AgentInfo)) (k : String)
    → Distinct m
    → has k (stale_ids now ttl m) ≡ is_stale_in now ttl (lookup k m)
unfolding stale_ids lookup
has-stale_ids now ttl [] k d = refl
has-stale_ids now ttl ((id, agent) ∷ m) k d =
    ground (arith, has-stale_ids now ttl m k d.1, stale_ids_absent now ttl m id d.0, eq_iff id k)

-- After an eviction from a valid registry exactly the agents that were not stale are found, each
-- as before.
pub get-evict_stale_at :
    (now : ℕ) (r : Registry) (k : String)
    → IsValid r
    → get k (evict_stale_at now r).0 ≡ fresh now r.ttl (get k r)
unfolding evict_stale_at
get-evict_stale_at now r k v =
    get-evict_ids (stale_ids now r.ttl r.inner) r k
    ∙ (unfold get in ground (arith, has-stale_ids now r.ttl r.inner k v.distinct))
