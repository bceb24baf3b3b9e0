-- ===== src/Mesh/Mutate.antt =====
-- Updates, as their callers see them.
use zero_conf_mesh.Prelude.{
  ℕ, Bool, true, ◌≡◌, refl, sym, ap, ◌∙◌, arith, some, not, eq_refl, if◌then◌else◌, Bool-cases, inl,
  inr,
}
use zero_conf_mesh.Error.{ZeroConfError, err, ok, Result-cases}
use zero_conf_mesh.Types.Announcement.{AgentAnnouncement}
use zero_conf_mesh.Types.Info.{into_agent_info}
use zero_conf_mesh.Types.Txt.{TxtApi}
use zero_conf_mesh.Types.Auth.{MacApi}
use zero_conf_mesh.Events.{local}
use zero_conf_mesh.Registry.{Registry, get, upsert_local}
use zero_conf_mesh.Registry.Lookup.{get-upsert}
use zero_conf_mesh.Broadcaster.{MdnsApi}
use zero_conf_mesh.Mesh.{Update, mutator, signed, ZeroConfMesh}
use zero_conf_mesh.Mesh.Runtime.{
  publish, announcing, store, sign_local, refresh_local_agent, mutate_local_agent,
}

module _ (txt : TxtApi) (mac : MacApi) (mdns : MdnsApi txt) where
  pub get-upsert_local :
      (a : AgentAnnouncement) (now : ℕ) (r : Registry)
      → get a.agent_id (upsert_local a now r).0 ≡ some (into_agent_info a now)
  unfolding upsert_local
  get-upsert_local a now r = get-upsert a now local r a.agent_id ∙ rw eq_refl refl

  publish-ok :
      (now : ℕ) (a : AgentAnnouncement) (m : ZeroConfMesh txt mac mdns)
      → (publish txt mac mdns now a m).1 ≡ ok tt
      → ((publish txt mac mdns now a m).0.registry ≡ (upsert_local a now m.registry).0)
        × ((publish txt mac mdns now a m).0.local_agent ≡ m.local_agent)
  unfolding publish announcing store
  publish-ok now a m h = ground arith

  refresh_of_advertise :
      (now : ℕ) (m : ZeroConfMesh txt mac mdns)
      → m.config.advertise_local ≡ true
      → refresh_local_agent txt mac mdns now m
        ≡ publish txt mac mdns now
            (sign_local txt mac mdns m).local_agent
            (sign_local txt mac mdns m)
  unfolding refresh_local_agent
  refresh_of_advertise now m e =
      ap
        (λ (x : Bool).
          if not x
          then (m, ok tt)
          else publish txt mac mdns now (sign_local txt mac mdns m).local_agent
              (sign_local txt mac mdns m))
        e

  refresh-ok :
      (now : ℕ) (m : ZeroConfMesh txt mac mdns)
      → m.config.advertise_local ≡ true
      → (refresh_local_agent txt mac mdns now m).1 ≡ ok tt
      → let a = signed mac m.config.shared_secret_auth m.local_agent in
        ((refresh_local_agent txt mac mdns now m).0.local_agent ≡ a)
        × (get a.agent_id (refresh_local_agent txt mac mdns now m).0.registry
            ≡ some (into_agent_info a now))
  unfolding sign_local
  refresh-ok now m e h =
      let n = sign_local txt mac mdns m in
      let p = refresh_of_advertise now m e in
      let w = publish-ok now n.local_agent n (sym (ap (λ x. x.1) p) ∙ h) in
      (
        ap (λ x. x.0.local_agent) p ∙ w.1,
        ap (λ x. get n.local_agent.agent_id x.0.registry) p
            ∙ ap (get n.local_agent.agent_id) w.0
            ∙ get-upsert_local n.local_agent now m.registry,
      )

  -- An update of an advertising node that returns without an error has changed the local agent as
  -- its setter does and signed it, and the registry has that snapshot at the time of the update.
  pub mutate-visible :
      (u : Update) (now : ℕ) (m : ZeroConfMesh txt mac mdns)
      → m.config.advertise_local ≡ true
      → (mutate_local_agent txt mac mdns u now m).1 ≡ ok tt
      → (a : AgentAnnouncement) × (mutator u m.local_agent ≡ ok a)
        × (let b = signed mac m.config.shared_secret_auth a in
            ((mutate_local_agent txt mac mdns u now m).0.local_agent ≡ b)
            × (get b.agent_id (mutate_local_agent txt mac mdns u now m).0.registry
                ≡ some (into_agent_info b now)))
  unfolding mutate_local_agent
  mutate-visible u now m e h = elim (Result-cases (mutator u m.local_agent)) [
    | inr (x, p) ↦ ground (arith, p)
    | inl (a, p) ↦
        let w = refresh-ok now (record m { local_agent = a }) e (rw (p, mutate_local_agent) at h) in
        (a, p, rw (p, mutate_local_agent) w)
  ]

  publish-err :
      (now : ℕ) (a : AgentAnnouncement) (m : ZeroConfMesh txt mac mdns) {e : ZeroConfError}
      → (publish txt mac mdns now a m).1 ≡ err e
      → (publish txt mac mdns now a m).0.registry ≡ m.registry
  unfolding publish announcing store
  publish-err now a m h = ground arith

  refresh-err :
      (now : ℕ) (m : ZeroConfMesh txt mac mdns) {e : ZeroConfError}
      → (refresh_local_agent txt mac mdns now m).1 ≡ err e
      → (refresh_local_agent txt mac mdns now m).0.registry ≡ m.registry
  unfolding refresh_local_agent sign_local
  refresh-err now m h = elim (Bool-cases m.config.advertise_local) [
    | inl p ↦
        let n = sign_local txt mac mdns m in
        let q = refresh_of_advertise now m p in
        ap (λ x. x.0.registry) q ∙ publish-err now n.local_agent n (sym (ap (λ x. x.1) q) ∙ h)
    | inr p ↦ ground arith
  ]

  -- An update that returns an error leaves the registry as it was.
  pub mutate-failed :
      (u : Update) (now : ℕ) (m : ZeroConfMesh txt mac mdns) {e : ZeroConfError}
      → (mutate_local_agent txt mac mdns u now m).1 ≡ err e
      → (mutate_local_agent txt mac mdns u now m).0.registry ≡ m.registry
  unfolding mutate_local_agent
  mutate-failed u now m h = elim (Result-cases (mutator u m.local_agent)) [
    | inr (x, p) ↦ rw (p, mutate_local_agent) refl
    | inl (a, p) ↦
        rw (p, mutate_local_agent)
          (refresh-err now (record m { local_agent = a }) (rw (p, mutate_local_agent) at h))
  ]
