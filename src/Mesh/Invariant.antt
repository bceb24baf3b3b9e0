-- ===== src/Mesh/Invariant.antt =====
-- What every interleaving of a node's tasks keeps.
use zero_conf_mesh.Prelude.{
  ℕ, String, true, ◌≡◌, refl, sym, ◌∙◌, arith, List, [], ◌∷◌, Option, none, some, eq_iff,
  Bool-cases, inl, inr,
}
use zero_conf_mesh.Config.Secret.{SharedSecretAuth, verifies_incoming}
use zero_conf_mesh.Config
use zero_conf_mesh.Config.{ZeroConfConfig}
use zero_conf_mesh.Types.Announcement.{AgentAnnouncement}
use zero_conf_mesh.Types.Announcement.Valid
use zero_conf_mesh.Types.Info.{AgentInfo, into_agent_info}
use zero_conf_mesh.Types.Txt.{TxtApi}
use zero_conf_mesh.Types.Auth.{MacApi}
use zero_conf_mesh.Events.{local, graceful}
use zero_conf_mesh.Registry.{Registry, get, upsert_local, remove_local, evict_stale_at}
use zero_conf_mesh.Registry.Valid.{IsValid, upsert-IsValid, remove-IsValid, evict_stale_at-IsValid}
use zero_conf_mesh.Registry.Lookup.{get-upsert, get-remove, fresh, get-evict_stale_at}
use zero_conf_mesh.Registry.Mirror.{Mirrors, upsert-Mirrors, remove-Mirrors, evict_stale_at-Mirrors}
use zero_conf_mesh.Listener.{Input, round, run_listener}
use zero_conf_mesh.Listener.Effects.{round-Effect}
use zero_conf_mesh.Listener.Laws.{PeersSigned, Effect-Mirrors, Effect-IsLocal, Effect-PeersSigned}
use zero_conf_mesh.Mesh.{listener_of}

-- The node's own announcement.
pub record IsOwn (c : ZeroConfConfig) (a : AgentAnnouncement) : Type 0 where
  pub well_formed : Valid.IsValid a
  pub agent_id : a.agent_id ≡ c.agent_id
  pub instance_name : a.instance_name ≡ Config.instance_name c

module _ (txt : TxtApi) (mac : MacApi) (c : ZeroConfConfig) where
  -- The registry of a node: valid, mirrored by its events, the entry under the node's id its own,
  -- and, under authentication that verifies, every other entry signed.
  pub record IsSound (r : Registry) : Type 0 where
    pub valid : IsValid r
    pub mirrored : Mirrors r
    pub own_entry :
        (agent : AgentInfo)
        → get c.agent_id r ≡ some agent
        → agent.instance_name ≡ Config.instance_name c
    pub peers :
        (auth : SharedSecretAuth)
        → c.shared_secret_auth ≡ some auth
        → verifies_incoming auth ≡ true
        → PeersSigned txt mac (listener_of c) auth r

  pub upsert-IsSound :
      (a : AgentAnnouncement) (now : ℕ) (r : Registry)
      → IsOwn c a
      → IsSound r
      → IsSound (upsert_local a now r).0
  unfolding upsert_local PeersSigned listener_of into_agent_info
  upsert-IsSound a now r own s = record {
    valid = upsert-IsValid a now local r s.valid;
    mirrored = upsert-Mirrors r s.valid s.mirrored a now local;
    own_entry = λ agent found.
        let g = sym (get-upsert a now local r c.agent_id) ∙ found in
        ground (arith, g, eq_iff a.agent_id c.agent_id, own.agent_id, own.instance_name);
    peers = λ auth e f k agent other found.
        let g = sym (get-upsert a now local r k) ∙ found in
        s.peers auth e f k agent other
          (ground (arith, g, eq_iff a.agent_id k, eq_iff k c.agent_id, own.agent_id));
  }

  -- An operation that only takes agents out.
  fewer-IsSound :
      (r s : Registry)
      → IsSound r
      → IsValid s
      → Mirrors s
      → ((k : String) (agent : AgentInfo) → get k s ≡ some agent → get k r ≡ some agent)
      → IsSound s
  unfolding PeersSigned
  fewer-IsSound r s w v m h = record {
    valid = v;
    mirrored = m;
    own_entry = λ agent found. w.own_entry agent (h c.agent_id agent found);
    peers = λ auth e f k agent other found. w.peers auth e f k agent other (h k agent found);
  }

  pub remove-IsSound : (id : String) (r : Registry) → IsSound r → IsSound (remove_local id r).0
  unfolding remove_local
  remove-IsSound id r w =
      fewer-IsSound r (remove_local id r).0 w (remove-IsValid id local graceful r w.valid)
        (remove-Mirrors r w.valid w.mirrored id local graceful)
        (λ k agent found.
          let g = sym (get-remove id local graceful r k) ∙ found in ground (arith, g))

  found-fresh :
      (now ttl : ℕ) (held : Option AgentInfo) (agent : AgentInfo)
      → fresh now ttl held ≡ some agent
      → held ≡ some agent
  found-fresh now ttl none agent h = h
  found-fresh now ttl (some a) agent h = ground arith

  pub evict-IsSound : (now : ℕ) (r : Registry) → IsSound r → IsSound (evict_stale_at now r).0
  evict-IsSound now r w =
      fewer-IsSound r (evict_stale_at now r).0 w (evict_stale_at-IsValid now r w.valid)
        (evict_stale_at-Mirrors now r w.valid w.mirrored)
        (λ k agent found.
          found-fresh now r.ttl (get k r) agent (sym (get-evict_stale_at now r k w.valid) ∙ found))

  pub round-IsSound :
      (now : ℕ) (input : Input txt) (r : Registry)
      → IsSound r
      → IsSound (round txt mac (listener_of c) now input r).0
  unfolding listener_of
  round-IsSound now input r w =
      let l = listener_of c in
      let next = (round txt mac l now input r).0 in
      let effect = round-Effect txt mac l now input r in
      let (v, m) = Effect-Mirrors txt mac l r next effect (w.valid, w.mirrored) in
      let kept =
        Effect-IsLocal txt mac l (get c.agent_id r) w.own_entry r next effect (w.valid, refl) in
      record {
        valid = v;
        mirrored = m;
        own_entry = λ agent found. w.own_entry agent (sym kept.1 ∙ found);
        peers = λ auth e f. Effect-PeersSigned txt mac l auth e f r next effect (w.peers auth e f);
      }

  -- A round leaves the node's own entry alone.
  pub round-own :
      (now : ℕ) (input : Input txt) (r : Registry)
      → IsSound r
      → get c.agent_id (round txt mac (listener_of c) now input r).0 ≡ get c.agent_id r
  unfolding listener_of
  round-own now input r w =
      let l = listener_of c in
      (Effect-IsLocal txt mac l (get c.agent_id r) w.own_entry r (round txt mac l now input r).0
        (round-Effect txt mac l now input r) (w.valid, refl)).1

  -- The rounds of the listener, whatever the network sends.
  pub run_listener-IsSound :
      (inputs : List (ℕ × Input txt)) (r : Registry)
      → IsSound r
      → IsSound (run_listener txt mac (listener_of c) inputs r)
  unfolding run_listener
  run_listener-IsSound [] r w = w
  run_listener-IsSound ((now, input) ∷ inputs) r w =
      let next = round txt mac (listener_of c) now input r in
      let v = round-IsSound now input r w in
      elim (Bool-cases next.1) [
        | inl e ↦ rw e (run_listener-IsSound inputs next.0 v)
        | inr e ↦ rw e v
      ]
