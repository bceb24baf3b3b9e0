-- ===== src/Listener/Effects.antt =====
-- What one round and the whole loop can do to the registry.
use zero_conf_mesh.Prelude.{ℕ, String, false, ◌≡◌, List, [], ◌∷◌, ◌==◌, Bool-cases, inl, inr}
use zero_conf_mesh.Error.{ok, Result-cases}
use zero_conf_mesh.Types.Announcement.{AgentAnnouncement}
use zero_conf_mesh.Types.Txt.{TxtApi}
use zero_conf_mesh.Types.Auth.{MacApi}
use zero_conf_mesh.Registry.{Registry, upsert_remote, remove_remote_by_instance_name}
use zero_conf_mesh.Listener.{
  Listener, refuses, ResolvedService, service_resolved, service_removed, search_started,
  search_stopped, service_found, other_event, Input, shutdown_changed, received, disconnected,
  from_resolved_service, handle_resolved, handle_removed, round, run_listener,
}

module _ (txt : TxtApi) (mac : MacApi) (l : Listener) where
  -- An announcement that the listener lets in.
  pub record IsAdmitted (a : AgentAnnouncement) : Type 0 where
    pub service : ResolvedService txt
    pub parsed : from_resolved_service txt service ≡ ok a
    pub remote : (a.agent_id == l.local_agent_id) ≡ false
    pub accepted : refuses mac l.shared_secret_auth a ≡ false

  pub data Effect (r : Registry) : Registry → Type 0 where
    unchanged : Effect r r
    stored : (a : AgentAnnouncement) (now : ℕ) → IsAdmitted a → Effect r (upsert_remote a now r).0
    dropped :
        (name : String)
        → (name == l.local_instance_name) ≡ false
        → Effect r (remove_remote_by_instance_name name r).0

  resolved-Effect :
      (now : ℕ) (service : ResolvedService txt) (r : Registry)
      → Effect r (handle_resolved txt mac l now service r)
  unfolding handle_resolved
  resolved-Effect now service r = elim (Result-cases (from_resolved_service txt service)) [
    | inr (e, p) ↦ rw (p, handle_resolved) unchanged
    | inl (a, p) ↦ elim (Bool-cases (a.agent_id == l.local_agent_id)) [
      | inl own ↦ rw (p, handle_resolved) (rw own unchanged)
      | inr remote ↦ elim (Bool-cases (refuses mac l.shared_secret_auth a)) [
        | inl refused ↦ rw (p, handle_resolved) (rw (remote, refused) unchanged)
        | inr accepted ↦
            let w : IsAdmitted a = record {
              service = service;
              parsed = p;
              remote = remote;
              accepted = accepted;
            } in
            rw (p, handle_resolved) (rw (remote, accepted) (stored a now w))
      ]
    ]
  ]

  removed-Effect : (name : String) (r : Registry) → Effect r (handle_removed txt mac l name r)
  unfolding handle_removed
  removed-Effect name r = elim (Bool-cases (name == l.local_instance_name)) [
    | inl own ↦ rw own unchanged
    | inr other ↦ rw other (dropped name other)
  ]

  pub round-Effect :
      (now : ℕ) (input : Input txt) (r : Registry) → Effect r (round txt mac l now input r).0
  unfolding round
  round-Effect now shutdown_changed r = unchanged
  round-Effect now (received (service_resolved service)) r = resolved-Effect now service r
  round-Effect now (received (service_removed _ name)) r = removed-Effect name r
  round-Effect now (received (search_started _)) r = unchanged
  round-Effect now (received (search_stopped _)) r = unchanged
  round-Effect now (received (service_found _ _)) r = unchanged
  round-Effect now (received other_event) r = unchanged
  round-Effect now disconnected r = unchanged

  -- What every effect keeps, the loop keeps.
  pub run_listener_keeps {ℓ} :
      (P : Registry → Type ℓ)
      → ((r s : Registry) → Effect r s → P r → P s)
      → (inputs : List (ℕ × Input txt)) (r : Registry) → P r
      → P (run_listener txt mac l inputs r)
  unfolding run_listener
  run_listener_keeps P keep [] r p = p
  run_listener_keeps P keep ((now, input) ∷ inputs) r p =
      let next = round txt mac l now input r in
      let q = keep r next.0 (round-Effect now input r) p in
      elim (Bool-cases next.1) [
        | inl e ↦ rw e (run_listener_keeps P keep inputs next.0 q)
        | inr e ↦ rw e q
      ]
