-- ===== src/Mesh/Discovery.antt =====
-- One node hears of another that signs.
use zero_conf_mesh.Prelude.{arith, ℕ, true, false, ◌≡◌, ap, ◌∙◌, some, has, ◌==◌}
use zero_conf_mesh.Error.{ok}
use zero_conf_mesh.Config.Secret.{SharedSecretAuth}
use zero_conf_mesh.Types.Announcement.{AgentAnnouncement}
use zero_conf_mesh.Types.Announcement.Valid.{IsValid}
use zero_conf_mesh.Types.Info.{into_agent_info}
use zero_conf_mesh.Types.Txt.{TxtApi}
use zero_conf_mesh.Types.Auth.{MacApi, verify_shared_secret_auth}
use zero_conf_mesh.Types.Auth.Verify.{verify-apply}
use zero_conf_mesh.Types.Auth.Received.{verify-advertised}
use zero_conf_mesh.Registry.{Registry, get}
use zero_conf_mesh.Listener.{Listener, refuses, received, service_resolved, round}
use zero_conf_mesh.Listener.Discovery.{service_of, as_received, get-round_resolved}
use zero_conf_mesh.Mesh.{signed}
use zero_conf_mesh.Mesh.Updates.{signed-IsValid, signed-SameNode}

module _ (txt : TxtApi) (mac : MacApi) (l : Listener) where
  refuses_of_verified :
      (auth : SharedSecretAuth) (a : AgentAnnouncement)
      → verify_shared_secret_auth mac auth a ≡ ok tt
      → refuses mac (some auth) a ≡ false
  unfolding refuses
  refuses_of_verified auth a h = ground arith

  -- A node that has the signer's secret on its list, and is not the signer, has the signer in its
  -- registry once the signed announcement is resolved, with every field, the metadata that was sent
  -- and the time of the event, if the announcement was well formed before it was signed.
  pub get-round_signed :
      (signer auth : SharedSecretAuth) (a : AgentAnnouncement) (now : ℕ) (r : Registry)
      → l.shared_secret_auth ≡ some auth
      → has signer.signing_secret auth.verification_secrets ≡ true
      → IsValid a
      → (a.agent_id == l.local_agent_id) ≡ false
      → get
          (signed mac (some signer) a).agent_id
          (round txt mac l now
            (received (service_resolved (service_of txt (signed mac (some signer) a))))
            r).0
        ≡ some (into_agent_info (as_received (signed mac (some signer) a)) now)
  get-round_signed signer auth a now r e shared v other =
      let b = signed mac (some signer) a in
      let w = signed-IsValid mac (some signer) a v in
      let verified : verify_shared_secret_auth mac auth b ≡ ok tt =
        unfold signed in verify-apply mac signer auth a shared in
      get-round_resolved txt mac l b now r w
        (ap (λ id. id == l.local_agent_id) (signed-SameNode mac (some signer) a).agent_id ∙ other)
        (ap (λ auth. refuses mac auth (as_received b)) e
          ∙ refuses_of_verified auth (as_received b) (verify-advertised mac auth b w verified))
