-- ===== src/Registry/Evict.antt =====
-- What an eviction returns and sends.
use zero_conf_mesh.Prelude.{
  ℕ, String, ◌≡◌, refl, ap, ◌∙◌, sym, arith, List, [], ◌∷◌, ◌++◌, map, some, none, All, keep,
  eq_iff, Bool-cases, inl, inr,
}
use zero_conf_mesh.Prelude.Assoc.{lookup, Distinct, lookup_self}
use zero_conf_mesh.Types.Info.{AgentInfo, is_stale}
use zero_conf_mesh.Events.{AgentEvent, left, remote, expired}
use zero_conf_mesh.Registry.{
  Registry, get, values, remove_with_origin, evict_ids, stale_ids, evict_stale_at,
}
use zero_conf_mesh.Registry.Valid.{IsValid}
use zero_conf_mesh.Registry.Lookup.{get-remove}
use zero_conf_mesh.Registry.Sent.{remove_reports}
use mathlib.Core.List.{append_assoc, append-nil}

-- Every entry is found in the registry.
abbrev AllFound : List (String × AgentInfo) → Registry → Type 0
AllFound m r = All (λ e. get e.0 r ≡ some e.1) m

abbrev pub expiry : AgentInfo → AgentEvent
expiry a = left a remote expired

AllFound-remove :
    (id : String) (m : List (String × AgentInfo)) (r : Registry)
    → lookup id m ≡ none
    → AllFound m r
    → AllFound m (remove_with_origin id remote expired r).0
unfolding lookup
AllFound-remove id [] r e f = tt
AllFound-remove id ((k, a) ∷ m) r e f = (
  ground (arith, get-remove id remote expired r k, eq_iff id k, eq_iff k id, f.0),
  AllFound-remove id m r (ground arith) f.1,
)

abbrev stale_of : ℕ → ℕ → List (String × AgentInfo) → List AgentInfo
stale_of now ttl m = keep (λ a. is_stale a now ttl) (values m)

evict_ids_found :
    (k : String) (a : AgentInfo) (ids : List String) (r : Registry)
    → get k r ≡ some a
    → ((evict_ids (k ∷ ids) r).1 ≡ a ∷ (evict_ids ids (remove_with_origin k remote expired r).0).1)
      × ((evict_ids (k ∷ ids) r).0.sent
          ≡ (evict_ids ids (remove_with_origin k remote expired r).0).0.sent)
unfolding evict_ids
evict_ids_found k a ids r e = (ground (arith, (remove_reports k remote expired r).1), refl)

evict_stale_ids :
    (now ttl : ℕ) (m : List (String × AgentInfo)) (r : Registry)
    → Distinct m
    → AllFound m r
    → ((evict_ids (stale_ids now ttl m) r).1 ≡ stale_of now ttl m)
      × ((evict_ids (stale_ids now ttl m) r).0.sent ≡ r.sent ++ map expiry (stale_of now ttl m))
unfolding evict_ids stale_ids
evict_stale_ids now ttl [] r d f = (refl, sym (append-nil r.sent))
evict_stale_ids now ttl ((k, a) ∷ m) r d f = elim (Bool-cases (is_stale a now ttl)) [
  | inl p ↦
      let r' = (remove_with_origin k remote expired r).0 in
      let (sent, removed) = remove_reports k remote expired r in
      let (evicted, later) = evict_stale_ids now ttl m r' d.1 (AllFound-remove k m r d.0 f.1) in
      let gone = stale_of now ttl m in
      let step = evict_ids_found k a (stale_ids now ttl m) r f.0 in
      rw p (
        step.0 ∙ ap (◌∷◌ a) evicted,
        step.1
            ∙ later
            ∙ ap (λ (l : List AgentEvent). l ++ map expiry gone) (rw f.0 at sent)
            ∙ append_assoc r.sent (expiry a ∷ []) (map expiry gone),
      )
  | inr p ↦ rw p (evict_stale_ids now ttl m r d.1 f.1)
]

-- An eviction from a valid registry returns the stale agents, in the map's order, and sends for
-- each, the node's own agent not excepted, that it left expired, with the remote origin, and nothing
-- else.
pub evict_reports :
    (now : ℕ) (r : Registry)
    → IsValid r
    → ((evict_stale_at now r).1 ≡ keep (λ a. is_stale a now r.ttl) (values r.inner))
      × ((evict_stale_at now r).0.sent
          ≡ r.sent ++ map expiry (keep (λ a. is_stale a now r.ttl) (values r.inner)))
unfolding evict_stale_at
evict_reports now r v =
    evict_stale_ids now r.ttl r.inner r v.distinct (unfold get in lookup_self r.inner v.distinct)
