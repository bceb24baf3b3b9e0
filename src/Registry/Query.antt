-- ===== src/Registry/Query.antt =====
-- Queries: the matching agents, once each, in the order of their ids, however the map orders them.
use zero_conf_mesh.Prelude.{
  String, Bool, ◌≡◌, refl, ap, ◌∙◌, sym, arith, List, [], ◌∷◌, Option, some, none, All, keep,
  eq_iff, if◌then◌else◌, Bool-cases, inl, inr,
}
use zero_conf_mesh.Prelude.Assoc.{lookup, Distinct}
use zero_conf_mesh.Prelude.Sort.{
  find_key, find_key-sort_by, Ascending, DistinctBy, sort_by-Ascending, Ascending-ext,
}
use zero_conf_mesh.Types.Info.{AgentInfo}
use zero_conf_mesh.Registry.{Registry, get, values, id_of, query}
use zero_conf_mesh.Registry.Valid.{IsValid, IsOwnId}

module _ (p : AgentInfo → Bool) where
  -- The agent, if it satisfies the predicate.
  abbrev pub matching : Option AgentInfo → Option AgentInfo
  matching none = none
  matching (some a) = if p a then some a else none

  find_key-keep_absent :
      (m : List (String × AgentInfo)) (k : String)
      → All IsOwnId m
      → lookup k m ≡ none
      → find_key id_of k (keep p (values m)) ≡ none
  unfolding find_key lookup
  find_key-keep_absent [] k o e = refl
  find_key-keep_absent ((j, a) ∷ m) k o e = ground (arith, find_key-keep_absent m k o.1)

  find_key-keep :
      (m : List (String × AgentInfo)) (k : String)
      → All IsOwnId m
      → Distinct m
      → find_key id_of k (keep p (values m)) ≡ matching (lookup k m)
  unfolding find_key lookup
  find_key-keep [] k o d = refl
  find_key-keep ((j, a) ∷ m) k o d =
      ground (arith, find_key-keep m k o.1 d.1, find_key-keep_absent m j o.1 d.0, eq_iff j k, o.0)

  keep-DistinctBy :
      (m : List (String × AgentInfo))
      → All IsOwnId m
      → Distinct m
      → DistinctBy id_of (keep p (values m))
  keep-DistinctBy [] o d = tt
  keep-DistinctBy ((j, a) ∷ m) o d = elim (Bool-cases (p a)) [
    | inl e ↦ rw e (rw o.0 (find_key-keep_absent m j o.1 d.0), keep-DistinctBy m o.1 d.1)
    | inr e ↦ rw e (keep-DistinctBy m o.1 d.1)
  ]

  -- On a valid registry the ids in a query's result ascend strictly, and an agent is in it exactly
  -- when the registry holds it and it satisfies the predicate.
  pub query_exact :
      (r : Registry)
      → IsValid r
      → Ascending id_of (query p r)
        × ((k : String) → find_key id_of k (query p r) ≡ matching (get k r))
  unfolding query get
  query_exact r v = (
    sort_by-Ascending id_of (keep p (values r.inner))
        (keep-DistinctBy r.inner v.own_ids v.distinct),
    λ k.
        find_key-sort_by id_of k (keep p (values r.inner))
        ∙ find_key-keep r.inner k v.own_ids v.distinct,
  )

  -- Two valid registries with the same agents answer a query alike, whatever the order of their
  -- maps.
  pub query_order_irrelevant :
      (r s : Registry)
      → IsValid r
      → IsValid s
      → ((k : String) → get k r ≡ get k s)
      → query p r ≡ query p s
  query_order_irrelevant r s v w h =
      let (ascends, finds) = query_exact r v in
      let (ascends', finds') = query_exact s w in
      Ascending-ext id_of (query p r) (query p s) ascends ascends'
        (λ k. finds k ∙ ap matching (h k) ∙ sym (finds' k))
