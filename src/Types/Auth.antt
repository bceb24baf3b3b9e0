-- ===== src/Types/Auth.antt =====
-- src/types.rs: shared-secret signatures of announcements. HMAC-SHA256 and the base64 encoder are
-- those of other crates.
pub mod Payload
pub mod Verify
pub mod Received
use zero_conf_mesh.Prelude.{
  ℕ, zero, suc, ◌+◌, ◌-◌, String, Char, Bool, true, false, not, ◌&&◌, ◌≡◌, refl, if◌then◌else◌,
  List, [], ◌∷◌, map, Option, none, some, any, keep, ◌==◌, ltb,
}
use Prim.Native.Nat.{◌/◌, ◌%◌}
use zero_conf_mesh.Prelude.Text.{trim, is_empty, join}
use zero_conf_mesh.Prelude.Assoc.{lookup}
use zero_conf_mesh.Prelude.BTreeMap
use zero_conf_mesh.Error.{
  Result, ok, err, ◌>>=◌, missing_auth_metadata, invalid_auth_scheme,
  invalid_shared_secret_signature,
}
use zero_conf_mesh.Types.Keys.{
  agent_auth_scheme_metadata_key, agent_signature_metadata_key, is_reserved_metadata_key,
  is_auth_metadata_key,
}
use zero_conf_mesh.Types.Status.{as_str}
use zero_conf_mesh.Types.Capabilities.{AgentMetadata}
use zero_conf_mesh.Types.Announcement.{AgentAnnouncement}
use zero_conf_mesh.Types.Txt.{filled_or}
use zero_conf_mesh.Config.Secret.{SharedSecretAuth}
use Prim.Native.String.{◌++◌, char_at}

-- `HmacSha256` under a secret, and `URL_SAFE_NO_PAD`.
pub record MacApi : Type 1 where
  pub Digest : Type 0
  pub hmac : String → String → Digest
  pub encode : Digest → String
  -- 32 bytes are 43 characters of the base64 alphabet, none of them white space.
  pub encode_filled : (d : Digest) → is_empty (trim (encode d)) ≡ false

abbrev pub auth_scheme : String
auth_scheme = "shared_secret_hmac_sha256"

-- The decimal digits of a port; six rounds are enough for sixteen bits.
unfoldable pub digit : ℕ → String
digit d = String.◌∷◌ (char_at "0123456789" d) ""

unfoldable pub decimal_rounds : ℕ → ℕ → String
unfolding digit
decimal_rounds zero n = ""
decimal_rounds (suc f) n =
    let higher = decimal_rounds f (n / 10) in if ltb n 10 then digit n else higher ++ digit (n % 10)

unfoldable pub show_port : ℕ → String
unfolding decimal_rounds
show_port port = decimal_rounds 6 port

unfoldable pub is_signed_entry : String × String → Bool
is_signed_entry (key, _) = not (is_reserved_metadata_key key) && not (is_auth_metadata_key key)

abbrev pub metadata_line : String × String → String
metadata_line (key, value) = "metadata:" ++ (key ++ ("=" ++ value))

unfoldable pub signature_lines : AgentAnnouncement → List String
signature_lines a =
    ("instance_name=" ++ a.instance_name)
    ∷ ("agent_id=" ++ a.agent_id)
    ∷ ("role=" ++ a.role)
    ∷ ("project=" ++ a.project)
    ∷ ("branch=" ++ a.branch)
    ∷ ("status=" ++ as_str a.status)
    ∷ ("capabilities=" ++ join "," a.capabilities)
    ∷ ("port=" ++ show_port a.port)
    ∷ map metadata_line (keep is_signed_entry a.metadata)

unfoldable pub signature_payload : AgentAnnouncement → String
signature_payload a = join "\n" (signature_lines a)

unfoldable pub required_auth_metadata : AgentMetadata → String → Result String
required_auth_metadata metadata key = filled_or (missing_auth_metadata key) (lookup key metadata)

module _ (api : MacApi) where
  open api use {hmac, encode}

  unfoldable pub shared_secret_signature : String → AgentAnnouncement → String
  shared_secret_signature secret a = encode (hmac secret (signature_payload a))

  -- The signature is computed after the scheme is stored.
  unfoldable pub apply_shared_secret_auth : SharedSecretAuth → AgentAnnouncement → AgentAnnouncement
  apply_shared_secret_auth auth a =
      let b = record a {
        metadata = BTreeMap.insert agent_auth_scheme_metadata_key auth_scheme a.metadata;
      } in
      record b {
        metadata =
            BTreeMap.insert agent_signature_metadata_key
              (shared_secret_signature auth.signing_secret b) b.metadata;
      }

  unfoldable pub verify_shared_secret_auth :
      SharedSecretAuth → AgentAnnouncement → Result (Unit {0})
  verify_shared_secret_auth auth a = do
    scheme ← required_auth_metadata a.metadata agent_auth_scheme_metadata_key
    signature ← required_auth_metadata a.metadata agent_signature_metadata_key
    if not (scheme == auth_scheme)
        then err (invalid_auth_scheme scheme)
        else if any (λ secret. signature == shared_secret_signature secret a)
            auth.verification_secrets
        then ok tt
        else err (invalid_shared_secret_signature a.agent_id)
