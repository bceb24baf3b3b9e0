-- ===== src/Types/Auth/Received.antt =====
-- A signature survives the TXT properties.
use zero_conf_mesh.Prelude.{true, any, ◌==◌, ◌≡◌, refl, sym, ap, ◌∙◌}
use zero_conf_mesh.Prelude.Text.{trim}
use zero_conf_mesh.Prelude.BTreeMap
use zero_conf_mesh.Types.Status.{as_str}
use zero_conf_mesh.Types.Keys.{is_reserved_metadata_key}
use zero_conf_mesh.Types.Capabilities.{AgentMetadata}
use zero_conf_mesh.Types.Announcement.{AgentAnnouncement}
use zero_conf_mesh.Types.Announcement.Valid.{IsValid, insert-IsSynced}
use zero_conf_mesh.Types.Txt.{advertised_metadata}
use zero_conf_mesh.Types.Txt.RoundTrip.{sync_of_IsSynced}
use zero_conf_mesh.Error.{ok}
use zero_conf_mesh.Config.Secret.{SharedSecretAuth}
use zero_conf_mesh.Types.Capabilities.Laws.{lookup-sync}
use mathlib.Core.Path.{subst}
use zero_conf_mesh.Types.Auth.Verify.{verify_iff}
use zero_conf_mesh.Types.Auth.{
  MacApi, verify_shared_secret_auth, shared_secret_signature, is_signed_entry, signature_payload,
}
use zero_conf_mesh.Types.Auth.Payload.{signature_payload-insert}

ruleset received_laws = (lookup-sync, BTreeMap.lookup-insert)

-- The metadata that is sent changes nothing of what is signed.
pub signature_payload-advertised :
    (a : AgentAnnouncement)
    → IsValid a
    → signature_payload (record a { metadata = advertised_metadata a }) ≡ signature_payload a
unfolding advertised_metadata is_signed_entry is_reserved_metadata_key trim
signature_payload-advertised a v =
    let s₁ = insert-IsSynced "agent_id" v.synced a.agent_id refl refl in
    let s₂ = insert-IsSynced "role" s₁ a.role refl refl in
    let s₃ = insert-IsSynced "current_project" s₂ a.project refl refl in
    let s₄ = insert-IsSynced "current_branch" s₃ a.branch refl refl in
    let s₅ = insert-IsSynced "status" s₄ (as_str a.status) refl refl in
    let m₁ = BTreeMap.insert "agent_id" a.agent_id a.metadata in
    let m₂ = BTreeMap.insert "role" a.role m₁ in
    let m₃ = BTreeMap.insert "current_project" a.project m₂ in
    let m₄ = BTreeMap.insert "current_branch" a.branch m₃ in
    ap (λ (m : AgentMetadata). signature_payload (record a { metadata = m }))
      (sync_of_IsSynced _ a.capabilities s₅)
    ∙ signature_payload-insert (record a { metadata = m₄ }) "status" (as_str a.status) refl
    ∙ signature_payload-insert (record a { metadata = m₃ }) "current_branch" a.branch refl
    ∙ signature_payload-insert (record a { metadata = m₂ }) "current_project" a.project refl
    ∙ signature_payload-insert (record a { metadata = m₁ }) "role" a.role refl
    ∙ signature_payload-insert a "agent_id" a.agent_id refl

module _ (api : MacApi) where
  -- A well-formed announcement that is verified without an error is verified without an error by
  -- the same verifier when its metadata is the map that was sent.
  pub verify-advertised :
      (auth : SharedSecretAuth) (a : AgentAnnouncement)
      → IsValid a
      → verify_shared_secret_auth api auth a ≡ ok tt
      → verify_shared_secret_auth api auth (record a { metadata = advertised_metadata a }) ≡ ok tt
  unfolding advertised_metadata shared_secret_signature
  verify-advertised auth a v h =
      let c = (verify_iff api auth a).0 h in
      let b = record a { metadata = advertised_metadata a } in
      (verify_iff api auth b).1 (record {
        signature = c.signature;
        scheme_found = simp received_laws c.scheme_found;
        signature_found = simp received_laws c.signature_found;
        signature_filled = c.signature_filled;
        signed =
            subst
              (λ p.
                any (λ secret. c.signature == api.encode (api.hmac secret p))
                  auth.verification_secrets
                ≡ true)
              (sym (signature_payload-advertised a v)) c.signed;
      })
