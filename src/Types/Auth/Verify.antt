-- ===== src/Types/Auth/Verify.antt =====
-- Signing and verifying.
use zero_conf_mesh.Prelude.{
  String, Bool, true, false, not, ◌≡◌, ◌↔◌, refl, sym, ap, ◌∙◌, arith, List, [], ◌∷◌, some, any,
  has, ◌==◌, eq_iff, if◌then◌else◌,
}
use Prim.Native.String.{◌++◌}
use zero_conf_mesh.Prelude.Text.{trim, is_empty}
use zero_conf_mesh.Prelude.Assoc.{lookup}
use zero_conf_mesh.Prelude.BTreeMap
use zero_conf_mesh.Error.{
  ok, err, ◌>>=◌, >>=-eq-ok, invalid_auth_scheme, invalid_shared_secret_signature,
}
use zero_conf_mesh.Config.Secret.{SharedSecretAuth}
use zero_conf_mesh.Types.Keys.{
  agent_auth_scheme_metadata_key, agent_signature_metadata_key, is_reserved_metadata_key,
}
use zero_conf_mesh.Types.Announcement.{AgentAnnouncement}
use zero_conf_mesh.Types.Auth.{
  MacApi, auth_scheme, is_signed_entry, signature_payload, required_auth_metadata,
  shared_secret_signature, apply_shared_secret_auth, verify_shared_secret_auth,
}
use zero_conf_mesh.Types.Auth.Payload.{signature_payload-insert, signature_payload_shift}

module _ (api : MacApi) where
  any_own :
      (a : AgentAnnouncement) (s sig : String) (l : List String)
      → sig ≡ shared_secret_signature api s a
      → has s l ≡ true
      → any (λ secret. sig == shared_secret_signature api secret a) l ≡ true
  any_own a s sig [] e h = h
  any_own a s sig (x ∷ l) e h =
      ground (arith, any_own a s sig l e, eq_iff x s, eq_iff sig (shared_secret_signature api x a))

  -- What verification accepts: the scheme's name, and a signature of the announcement's payload under
  -- an accepted secret.
  pub record Carries (auth : SharedSecretAuth) (a : AgentAnnouncement) : Type 0 where
    pub signature : String
    pub scheme_found : lookup agent_auth_scheme_metadata_key a.metadata ≡ some auth_scheme
    pub signature_found : lookup agent_signature_metadata_key a.metadata ≡ some signature
    pub signature_filled : is_empty (trim signature) ≡ false
    pub signed :
        any (λ secret. signature == shared_secret_signature api secret a) auth.verification_secrets
        ≡ true

  Carries-verify :
      (auth : SharedSecretAuth) (a : AgentAnnouncement)
      → Carries auth a
      → verify_shared_secret_auth api auth a ≡ ok tt
  unfolding verify_shared_secret_auth required_auth_metadata trim
  Carries-verify auth a c = ground arith

  verify-Carries :
      (auth : SharedSecretAuth) (a : AgentAnnouncement)
      → verify_shared_secret_auth api auth a ≡ ok tt
      → Carries auth a
  unfolding verify_shared_secret_auth required_auth_metadata
  verify-Carries auth a h =
      let (scheme, e, hs) =
        >>=-eq-ok (required_auth_metadata a.metadata agent_auth_scheme_metadata_key) _ h in
      let (sig, f, ht) =
        >>=-eq-ok (required_auth_metadata a.metadata agent_signature_metadata_key) _ hs in
      record {
        signature = sig;
        scheme_found = ground (arith, eq_iff scheme auth_scheme);
        signature_found = ground arith;
        signature_filled = ground arith;
        signed = ground arith;
      }

  -- Verification succeeds exactly for an announcement that names the scheme and carries a filled
  -- signature of its own payload under an accepted secret.
  pub verify_iff :
      (auth : SharedSecretAuth) (a : AgentAnnouncement)
      → (verify_shared_secret_auth api auth a ≡ ok tt) ↔ Carries auth a
  verify_iff auth a = (verify-Carries auth a, Carries-verify auth a)

  apply_payload :
      (auth : SharedSecretAuth) (a : AgentAnnouncement)
      → signature_payload (apply_shared_secret_auth api auth a) ≡ signature_payload a
  unfolding apply_shared_secret_auth is_signed_entry is_reserved_metadata_key
  apply_payload auth a =
      let b = record a {
        metadata = BTreeMap.insert agent_auth_scheme_metadata_key auth_scheme a.metadata;
      } in
      signature_payload-insert b agent_signature_metadata_key
        (shared_secret_signature api auth.signing_secret b) refl
      ∙ signature_payload-insert a agent_auth_scheme_metadata_key auth_scheme refl

  -- An announcement signed under the signer's secret is verified without an error by every
  -- verifier that has that secret on its list.
  pub verify-apply :
      (signer verifier : SharedSecretAuth) (a : AgentAnnouncement)
      → has signer.signing_secret verifier.verification_secrets ≡ true
      → verify_shared_secret_auth api verifier (apply_shared_secret_auth api signer a) ≡ ok tt
  unfolding apply_shared_secret_auth shared_secret_signature
  verify-apply signer verifier a h =
      let b = apply_shared_secret_auth api signer a in
      let same =
        signature_payload-insert a agent_auth_scheme_metadata_key auth_scheme
          (unfold is_signed_entry is_reserved_metadata_key in refl)
        ∙ sym (apply_payload signer a) in
      Carries-verify verifier b (record {
        signature = shared_secret_signature api signer.signing_secret b;
        scheme_found = simp BTreeMap.lookup-insert;
        signature_found =
            simp BTreeMap.lookup-insert
              (ap (λ (p : String). some (api.encode (api.hmac signer.signing_secret p))) same);
        signature_filled = api.encode_filled _;
        signed =
            any_own b signer.signing_secret (shared_secret_signature api signer.signing_secret b)
              verifier.verification_secrets refl h;
      })

  -- Whether a signature is one of a payload under an accepted secret.
  is_signed : SharedSecretAuth → String → String → Bool
  is_signed auth signature payload =
      any (λ secret. signature == api.encode (api.hmac secret payload)) auth.verification_secrets

  verify-is_signed :
      (auth : SharedSecretAuth) (a b : AgentAnnouncement)
      → a.metadata ≡ b.metadata
      → a.agent_id ≡ b.agent_id
      → signature_payload a ≡ signature_payload b
      → verify_shared_secret_auth api auth a ≡ verify_shared_secret_auth api auth b
  unfolding verify_shared_secret_auth shared_secret_signature is_signed
  verify-is_signed auth a b m n p = λ i. do
    scheme ← required_auth_metadata (m i) agent_auth_scheme_metadata_key
    signature ← required_auth_metadata (m i) agent_signature_metadata_key
    if not (scheme == auth_scheme)
        then err (invalid_auth_scheme scheme)
        else if is_signed auth signature (p i)
        then ok tt
        else err (invalid_shared_secret_signature (n i))

  -- A peer that verifies cannot tell where the project ends and the branch begins: line feeds let
  -- the text between them move from one to the other, and the verdict stays the same.
  pub verify_shift :
      (auth : SharedSecretAuth) (a : AgentAnnouncement) (p q r : String)
      → verify_shared_secret_auth api auth
          (record a { project = p ++ ("\nbranch=" ++ q); branch = r })
        ≡ verify_shared_secret_auth api auth
            (record a { project = p; branch = q ++ ("\nbranch=" ++ r) })
  verify_shift auth a p q r =
      verify-is_signed auth (record a { project = p ++ ("\nbranch=" ++ q); branch = r })
        (record a { project = p; branch = q ++ ("\nbranch=" ++ r) }) refl refl
        (signature_payload_shift a p q r)
