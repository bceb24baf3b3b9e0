-- ===== src/Mesh/Start.antt =====
-- A node that has started.
use zero_conf_mesh.Prelude.{
  ℕ, true, ◌≡◌, ◌==◌, ◌∙◌, arith, List, [], Option, none, some, if◌then◌else◌, eq_refl, Bool-cases,
  inl, inr,
}
use zero_conf_mesh.Prelude.Assoc.{lookup}
use zero_conf_mesh.Prelude.BTreeMap
use zero_conf_mesh.Error.{ok, >>=-eq-ok}
use zero_conf_mesh.Config.{ZeroConfConfig, local_announcement}
use zero_conf_mesh.Config.Laws.{IsConfigured, local_announcement-Announces}
use zero_conf_mesh.Types.Announcement.{AgentAnnouncement}
use zero_conf_mesh.Types.Txt.{TxtApi}
use zero_conf_mesh.Types.Auth.{MacApi, verify_shared_secret_auth}
use zero_conf_mesh.Types.Auth.Verify.{verify-apply}
use zero_conf_mesh.Types.Info.{AgentInfo, into_agent_info}
use zero_conf_mesh.Events.{local}
use zero_conf_mesh.Config.Secret.{SharedSecretAuth, AcceptsOwn}
use zero_conf_mesh.Registry.Lookup.{get-upsert}
use zero_conf_mesh.Listener.{Input, run_listener}
use zero_conf_mesh.Registry.{upsert_local, get, with_event_capacity}
use zero_conf_mesh.Registry.Valid.{with_event_capacity-IsValid}
use zero_conf_mesh.Registry.Mirror.{new-Mirrors}
use zero_conf_mesh.Listener.Laws.{PeersSigned, run_listener-local}
use zero_conf_mesh.Broadcaster.{MdnsApi}
use zero_conf_mesh.Mesh.{
  listener_of, signed, ZeroConfMesh, apply_interfaces, start_listener, first_registry, from_config,
}
use zero_conf_mesh.Mesh.Updates.{signed-SameNode, signed-IsValid}
use zero_conf_mesh.Mesh.Invariant.{IsOwn, IsSound, upsert-IsSound, run_listener-IsSound}
use zero_conf_mesh.Mesh.Safety.{IsRunning}

module _ (txt : TxtApi) (mac : MacApi) (mdns : MdnsApi txt) where
  new-IsSound :
      (c : ZeroConfConfig) (ttl capacity : ℕ) → IsSound txt mac c (with_event_capacity ttl capacity)
  unfolding with_event_capacity get lookup PeersSigned
  new-IsSound c ttl capacity = record {
    valid = with_event_capacity-IsValid ttl capacity;
    mirrored = new-Mirrors ttl capacity;
    own_entry = λ agent found. ground arith;
    peers = λ auth e f k agent other found. ground arith;
  }

  first_registry-IsSound :
      (earlier : List (ℕ × Input txt)) (now : ℕ) (c : ZeroConfConfig) (a : AgentAnnouncement)
      → IsOwn c a
      → IsSound txt mac c (first_registry txt mac mdns earlier now c a)
  unfolding first_registry
  first_registry-IsSound earlier now c a own =
      let r = with_event_capacity c.ttl c.event_capacity in
      let heard = run_listener-IsSound txt mac c earlier r (new-IsSound c c.ttl c.event_capacity) in
      elim (Bool-cases c.advertise_local) [
        | inl e ↦ simp e (
            upsert-IsSound txt mac c a now (run_listener txt mac (listener_of c) earlier r) own
              heard)
        | inr e ↦ simp e heard
      ]

  -- What the registry has of the node itself: its announcement, if it is to be advertised.
  abbrev pub own_listing : ZeroConfConfig → AgentAnnouncement → ℕ → Option AgentInfo
  own_listing c a now = if c.advertise_local then some (into_agent_info a now) else none

  heard-absent :
      (earlier : List (ℕ × Input txt)) (c : ZeroConfConfig)
      → get c.agent_id (
          run_listener txt mac (listener_of c) earlier (with_event_capacity c.ttl c.event_capacity))
        ≡ none
  unfolding with_event_capacity get lookup listener_of
  heard-absent earlier c =
      run_listener-local txt mac (listener_of c) earlier
        (with_event_capacity c.ttl c.event_capacity)
        (with_event_capacity-IsValid c.ttl c.event_capacity) (λ agent found. ground arith)

  get-first_registry :
      (earlier : List (ℕ × Input txt)) (now : ℕ) (c : ZeroConfConfig) (a : AgentAnnouncement)
      → IsOwn c a
      → get c.agent_id (first_registry txt mac mdns earlier now c a) ≡ own_listing c a now
  unfolding first_registry upsert_local
  get-first_registry earlier now c a own =
      let heard =
        run_listener txt mac (listener_of c) earlier (with_event_capacity c.ttl c.event_capacity) in
      let stored = get-upsert a now local heard c.agent_id in
      let same : (a.agent_id == c.agent_id) ≡ true = rw own.agent_id (eq_refl c.agent_id) in
      elim (Bool-cases c.advertise_local) [
        | inl e ↦ simp e (simp same at stored)
        | inr e ↦ simp e (heard-absent earlier c)
      ]

  first-IsOwn :
      (c : ZeroConfConfig) (a : AgentAnnouncement)
      → IsConfigured c
      → BTreeMap.IsSorted c.metadata
      → local_announcement c ≡ ok a
      → IsOwn c (signed mac c.shared_secret_auth a)
  first-IsOwn c a w s h =
      let (b, e, v, n) = local_announcement-Announces c w s in
      let same = signed-SameNode mac c.shared_secret_auth b in
      let equal : b ≡ a = cc in
      rw (← equal) (record {
        well_formed = signed-IsValid mac c.shared_secret_auth b v;
        agent_id = same.agent_id ∙ n.agent_id;
        instance_name = same.instance_name ∙ n.instance_name;
      })

  -- What `from_config` has made.
  record Started (earlier : List (ℕ × Input txt)) (now : ℕ) (c : ZeroConfConfig)
      (m : ZeroConfMesh txt mac mdns) : Type 0 where
    unsigned : AgentAnnouncement
    announced : local_announcement c ≡ ok unsigned
    config_kept : m.config ≡ c
    local_kept : m.local_agent ≡ signed mac c.shared_secret_auth unsigned
    heartbeat : m.heartbeat_task ≡ c.advertise_local
    registry_kept :
        m.registry
        ≡ first_registry txt mac mdns earlier now c (signed mac c.shared_secret_auth unsigned)

  from_config-Started :
      (earlier : List (ℕ × Input txt)) (now : ℕ) (c : ZeroConfConfig)
      (m : ZeroConfMesh txt mac mdns)
      → from_config txt mac mdns earlier now c ≡ ok m
      → Started earlier now c m
  unfolding from_config
  from_config-Started earlier now c m h =
      let (unsigned, p₁, h₁) = >>=-eq-ok (local_announcement c) _ h in
      let (fresh, p₂, h₂) = >>=-eq-ok (mdns.new_with_port c.mdns_port) _ h₁ in
      let (enabled, p₃, h₃) =
        >>=-eq-ok (apply_interfaces txt mac mdns mdns.enable_interface c.enabled_interfaces fresh) _
          h₂ in
      let (disabled, p₄, h₄) =
        >>=-eq-ok
          (apply_interfaces txt mac mdns mdns.disable_interface c.disabled_interfaces enabled) _
          h₃ in
      let (u, p₅, h₅) =
        >>=-eq-ok
          (start_listener txt mac mdns c (signed mac c.shared_secret_auth unsigned) disabled).1 _
          h₄ in
      record {
        unsigned = unsigned;
        announced = p₁;
        config_kept = ground (arith, h₅);
        local_kept = ground (arith, h₅);
        heartbeat = ground (arith, h₅);
        registry_kept = ground (arith, h₅);
      }

  pub from_config-tasks :
      (earlier : List (ℕ × Input txt)) (now : ℕ) (c : ZeroConfConfig)
      (m : ZeroConfMesh txt mac mdns)
      → from_config txt mac mdns earlier now c ≡ ok m
      → m.heartbeat_task ≡ c.advertise_local
  from_config-tasks earlier now c m h = (from_config-Started earlier now c m h).heartbeat

  -- If a configuration passed its checks, its metadata is a map, and a node starts with it without
  -- an error, then whatever the listener has handled before the local agent is stored, the node
  -- satisfies the invariant, with nothing pending; the registry has the node itself exactly as it
  -- announces itself, or not at all if it is not to be advertised; and with authentication whose list
  -- has the signing secret, its announcement verifies.
  pub from_config-IsRunning :
      (earlier : List (ℕ × Input txt)) (now : ℕ) (c : ZeroConfConfig)
      {m : ZeroConfMesh txt mac mdns}
      → IsConfigured c
      → BTreeMap.IsSorted c.metadata
      → from_config txt mac mdns earlier now c ≡ ok m
      → IsRunning txt mac mdns c (m, [])
        × (get c.agent_id m.registry ≡ own_listing c m.local_agent now)
        × ((auth : SharedSecretAuth)
            → c.shared_secret_auth ≡ some auth
            → AcceptsOwn auth
            → verify_shared_secret_auth mac auth m.local_agent ≡ ok tt)
  from_config-IsRunning earlier now c {m} w s h =
      let e = from_config-Started earlier now c m h in
      let a = signed mac c.shared_secret_auth e.unsigned in
      let own = first-IsOwn c e.unsigned w s e.announced in
      (
        record {
          config = e.config_kept;
          local_agent = rw e.local_kept own;
          registry = rw e.registry_kept (first_registry-IsSound earlier now c a own);
          pending = tt;
        },
        rw (e.registry_kept, e.local_kept) (get-first_registry earlier now c a own),
        λ auth has_auth accepts.
            rw (e.local_kept, has_auth)
              (unfold signed in verify-apply mac auth auth e.unsigned accepts),
      )
