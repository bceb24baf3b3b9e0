-- ===== src/Listener/Laws.antt =====
-- What the listener keeps, and whom it lets in.
use zero_conf_mesh.Prelude.{
  ℕ, String, true, false, ◌≡◌, refl, sym, ◌∙◌, arith, List, [], ◌∷◌, Option, some, ◌==◌, eq_iff,
  eq_refl, Bool-cases, Option-cases, inl, inr,
}
use zero_conf_mesh.Prelude.Assoc.{lookup, Distinct}
use zero_conf_mesh.Error.{Result-cases}
use zero_conf_mesh.Config.Secret.{SharedSecretAuth, verifies_incoming}
use zero_conf_mesh.Types.Announcement.{AgentAnnouncement}
use zero_conf_mesh.Types.Announcement.Valid
use zero_conf_mesh.Types.Info.{AgentInfo, into_agent_info}
use zero_conf_mesh.Types.Txt.{TxtApi}
use zero_conf_mesh.Types.Txt.Checked.{from_txt-IsValid}
use zero_conf_mesh.Types.Auth.{MacApi, verify_shared_secret_auth}
use zero_conf_mesh.Types.Auth.Verify.{Carries, verify_iff}
use zero_conf_mesh.Events.{remote, graceful}
use zero_conf_mesh.Registry.{
  Registry, get, find_instance, remove_remote, remove_remote_by_instance_name, upsert_remote,
}
use zero_conf_mesh.Registry.Valid.{IsValid, upsert-IsValid, remove_by_instance_name-IsValid}
use zero_conf_mesh.Registry.Lookup.{get-upsert, get-remove}
use zero_conf_mesh.Registry.Mirror.{Mirrors, upsert-Mirrors, remove_by_instance_name-Mirrors}
use zero_conf_mesh.Listener.{Listener, refuses, Input, from_resolved_service, run_listener}
use zero_conf_mesh.Listener.Effects.{Effect, unchanged, stored, dropped, run_listener_keeps}

-- The entry that a removal by instance name finds.
find_instance-lookup :
    (name : String) (m : List (String × AgentInfo)) (k : String)
    → Distinct m
    → find_instance name m ≡ some k
    → (a : AgentInfo) × (lookup k m ≡ some a) × (a.instance_name ≡ name)
unfolding find_instance lookup
find_instance-lookup name [] k d h = cc
find_instance-lookup name ((id, agent) ∷ m) k d h =
    elim (Bool-cases (agent.instance_name == name)) [
      | inl e ↦ (agent, ground (arith, eq_refl id), (eq_iff agent.instance_name name).0 e)
      | inr e ↦
          let (a, found, named) = find_instance-lookup name m k d.1 (rw e at h) in
          (a, ground (arith, d.0, eq_iff id k), named)
    ]

-- A removal by instance name leaves every agent with another instance name alone.
get-remove_by_instance_name :
    (name k : String) (r : Registry)
    → IsValid r
    → ((a : AgentInfo) → get k r ≡ some a → (a.instance_name == name) ≡ false)
    → get k (remove_remote_by_instance_name name r).0 ≡ get k r
unfolding remove_remote_by_instance_name remove_remote
get-remove_by_instance_name name k r v h = elim (Option-cases (find_instance name r.inner)) [
  | inl e ↦ rw (e, remove_remote_by_instance_name) refl
  | inr (id, e) ↦
      let (a, found, named) = find_instance-lookup name r.inner id v.distinct e in
      rw (e, remove_remote_by_instance_name)
        (get-remove id remote graceful r k
          ∙ (unfold get in ground (arith, h a, eq_iff id k, eq_iff a.instance_name name)))
]

-- What is found after a removal by instance name was there before.
found-remove_by_instance_name :
    (name k : String) (r : Registry) (a : AgentInfo)
    → get k (remove_remote_by_instance_name name r).0 ≡ some a
    → get k r ≡ some a
unfolding remove_remote_by_instance_name remove_remote
found-remove_by_instance_name name k r a h = elim (Option-cases (find_instance name r.inner)) [
  | inl e ↦ rw (e, remove_remote_by_instance_name) at h
  | inr (id, e) ↦
      let g =
        sym (get-remove id remote graceful r k) ∙ (rw (e, remove_remote_by_instance_name) at h) in
      ground (arith, g)
]

module _ (txt : TxtApi) (mac : MacApi) (l : Listener) where
  pub Effect-Mirrors :
      (r s : Registry) → Effect txt mac l r s → IsValid r × Mirrors r → IsValid s × Mirrors s
  unfolding upsert_remote
  Effect-Mirrors r s unchanged h = h
  Effect-Mirrors r s (stored a now w) (v, h) =
      (upsert-IsValid a now remote r v, upsert-Mirrors r v h a now remote)
  Effect-Mirrors r s (dropped name w) (v, h) =
      (remove_by_instance_name-IsValid name r v, remove_by_instance_name-Mirrors name r v h)

  -- The loop keeps a registry that is valid and mirrored by its events so, whatever the network
  -- sends.
  pub run_listener-Mirrors :
      (inputs : List (ℕ × Input txt)) (r : Registry)
      → IsValid r
      → Mirrors r
      → IsValid (run_listener txt mac l inputs r) × Mirrors (run_listener txt mac l inputs r)
  run_listener-Mirrors inputs r v h =
      run_listener_keeps txt mac l (λ s. IsValid s × Mirrors s) Effect-Mirrors inputs r (v, h)

  -- The state of the local agent's entry that the loop keeps.
  abbrev pub IsLocal : Option AgentInfo → Registry → Type 0
  IsLocal entry r = IsValid r × (get l.local_agent_id r ≡ entry)

  pub Effect-IsLocal :
      (entry : Option AgentInfo)
      → ((a : AgentInfo) → entry ≡ some a → a.instance_name ≡ l.local_instance_name)
      → (r s : Registry) → Effect txt mac l r s
      → IsLocal entry r
      → IsLocal entry s
  unfolding upsert_remote
  Effect-IsLocal entry named r s unchanged h = h
  Effect-IsLocal entry named r s (stored a now w) (v, h) =
      (upsert-IsValid a now remote r v, get-upsert a now remote r l.local_agent_id ∙ rw w.remote h)
  Effect-IsLocal entry named r s (dropped name w) (v, h) = (
    remove_by_instance_name-IsValid name r v,
    get-remove_by_instance_name name l.local_agent_id r v (λ a e.
          ground (arith, named a, eq_iff a.instance_name name, eq_iff name l.local_instance_name))
        ∙ h,
  )

  -- On a valid registry whose entry under the local id, if any, carries the local instance name,
  -- the loop leaves that entry as it is, or absent, whatever the network sends.
  pub run_listener-local :
      (inputs : List (ℕ × Input txt)) (r : Registry)
      → IsValid r
      → ((a : AgentInfo)
          → get l.local_agent_id r ≡ some a
          → a.instance_name ≡ l.local_instance_name)
      → get l.local_agent_id (run_listener txt mac l inputs r) ≡ get l.local_agent_id r
  run_listener-local inputs r v named =
      (run_listener_keeps txt mac l (IsLocal (get l.local_agent_id r))
        (Effect-IsLocal (get l.local_agent_id r) named) inputs r (v, refl)).1

  -- A snapshot of a well-formed announcement that carries an accepted signature.
  pub record IsSigned (auth : SharedSecretAuth) (agent : AgentInfo) : Type 0 where
    pub announcement : AgentAnnouncement
    pub seen_at : ℕ
    pub snapshot : agent ≡ into_agent_info announcement seen_at
    pub well_formed : Valid.IsValid announcement
    pub carries : Carries mac auth announcement

  -- Every agent but the local one is such a snapshot.
  unfoldable pub PeersSigned : SharedSecretAuth → Registry → Type 0
  PeersSigned auth r =
      (k : String) (agent : AgentInfo)
      → (k == l.local_agent_id) ≡ false
      → get k r ≡ some agent
      → IsSigned auth agent

  accepted-Carries :
      (auth : SharedSecretAuth) (a : AgentAnnouncement)
      → verifies_incoming auth ≡ true
      → refuses mac (some auth) a ≡ false
      → Carries mac auth a
  unfolding refuses
  accepted-Carries auth a e h =
      (verify_iff mac auth a).0 (elim (Result-cases (verify_shared_secret_auth mac auth a)) [
        | inl (u, p) ↦ p
        | inr (x, p) ↦ ground (arith, p)
      ])

  pub Effect-PeersSigned :
      (auth : SharedSecretAuth)
      → l.shared_secret_auth ≡ some auth
      → verifies_incoming auth ≡ true
      → (r s : Registry) → Effect txt mac l r s
      → PeersSigned auth r
      → PeersSigned auth s
  unfolding PeersSigned upsert_remote from_resolved_service
  Effect-PeersSigned auth e f r s unchanged h k agent other found = h k agent other found
  Effect-PeersSigned auth e f r s (stored a now w) h k agent other found =
      let g = sym (get-upsert a now remote r k) ∙ found in
      elim (Bool-cases (a.agent_id == k)) [
        | inl own ↦ record {
          announcement = a;
          seen_at = now;
          snapshot = ground (arith, g);
          well_formed =
              from_txt-IsValid txt w.service.fullname w.service.port w.service.addresses
                w.service.properties w.parsed;
          carries = accepted-Carries auth a f (rw e at w.accepted);
        }
        | inr not_own ↦ h k agent other (ground (arith, g))
      ]
  Effect-PeersSigned auth e f r s (dropped name w) h k agent other found =
      h k agent other (found-remove_by_instance_name name k r agent found)

  -- With authentication that verifies, if every peer in the registry is the snapshot of a
  -- well-formed announcement that names the scheme and carries a signature under an accepted
  -- secret, then it is so after the loop, whatever the network sends.
  pub run_listener-PeersSigned :
      (auth : SharedSecretAuth)
      → l.shared_secret_auth ≡ some auth
      → verifies_incoming auth ≡ true
      → (inputs : List (ℕ × Input txt)) (r : Registry) → PeersSigned auth r
      → PeersSigned auth (run_listener txt mac l inputs r)
  run_listener-PeersSigned auth e f inputs r h =
      run_listener_keeps txt mac l (PeersSigned auth) (Effect-PeersSigned auth e f) inputs r h
