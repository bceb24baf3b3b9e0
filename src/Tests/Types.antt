-- ===== src/Tests/Types.antt =====
-- src/types.rs and src/config.rs: announcements, properties, signatures and secrets.
use Prim.Native.String.{◌++◌}
use zero_conf_mesh.Prelude.{
  ℕ, String, Bool, true, false, ◌≡◌, ◌↔◌, refl, List, [], ◌∷◌, Option, none, some, has,
}
use zero_conf_mesh.Prelude.Text.{trim}
use zero_conf_mesh.Prelude.BTreeMap
use zero_conf_mesh.Error.{ok}
use zero_conf_mesh.Types.Capabilities.{canonicalize_capabilities, capabilities_from_metadata}
use zero_conf_mesh.Types.Capabilities.Laws.{IsCanonical, capabilities_from_metadata_total}
use zero_conf_mesh.Types.Announcement.{AgentAnnouncement}
use zero_conf_mesh.Types.Announcement.Valid.{IsValid}
use zero_conf_mesh.Types.Txt.{to_txt_properties, from_txt_properties, advertised_metadata}
use zero_conf_mesh.Types.Txt.RoundTrip.{from_txt-to_txt}
use zero_conf_mesh.Types.Txt.Checked.{from_txt-IsValid}
use zero_conf_mesh.Types.Auth.{apply_shared_secret_auth, verify_shared_secret_auth}
use zero_conf_mesh.Types.Auth.Verify.{Carries, verify_iff, verify-apply, verify_shift}
use zero_conf_mesh.Config.Secret.{
  SharedSecretAuth, sign_and_verify, with_rotation, AcceptsOwn, with_rotation-AcceptsOwn,
}
use zero_conf_mesh.Mesh.{update_project, mutator}
use zero_conf_mesh.Tests.Data.{txt, mac, sample, sample-IsValid, auth}

canonical_run :
    canonicalize_capabilities ("review" ∷ " plan" ∷ "review" ∷ []) ≡ ok ("plan" ∷ "review" ∷ [])
unfolding canonicalize_capabilities zero_conf_mesh.Types.Normalize.normalize_capability trim
    zero_conf_mesh.Prelude.Text.contains_char zero_conf_mesh.Prelude.Sort.Texts.dedup
    zero_conf_mesh.Prelude.Sort.Texts.sort
canonical_run = refl

capabilities_from_metadata_total_example :
    (r : List String) × (capabilities_from_metadata (("capabilities", "b,, a") ∷ []) ≡ ok r)
    × IsCanonical r
capabilities_from_metadata_total_example =
    capabilities_from_metadata_total (("capabilities", "b,, a") ∷ [])

from_txt-to_txt_example :
    from_txt_properties txt sample.instance_name sample.port sample.addresses
      (to_txt_properties txt sample)
    ≡ ok (record sample { metadata = advertised_metadata sample })
from_txt-to_txt_example = from_txt-to_txt txt sample sample-IsValid

read_back :
    from_txt_properties txt sample.instance_name sample.port [] (to_txt_properties txt sample)
    ≡ ok (record sample { metadata = advertised_metadata sample })
read_back = from_txt-to_txt txt sample sample-IsValid

from_txt-IsValid_example : IsValid (record sample { metadata = advertised_metadata sample })
from_txt-IsValid_example =
    from_txt-IsValid txt sample.instance_name sample.port [] (to_txt_properties txt sample)
      read_back

verify-apply_example :
    verify_shared_secret_auth mac auth (apply_shared_secret_auth mac auth sample) ≡ ok tt
verify-apply_example = verify-apply mac auth auth sample refl

verify_iff_example :
    (verify_shared_secret_auth mac auth (apply_shared_secret_auth mac auth sample) ≡ ok tt)
    ↔ Carries mac auth (apply_shared_secret_auth mac auth sample)
verify_iff_example = verify_iff mac auth (apply_shared_secret_auth mac auth sample)

verify_shift_example :
    verify_shared_secret_auth mac auth
      (record sample { project = "alpha" ++ ("\nbranch=" ++ "x"); branch = "main" })
    ≡ verify_shared_secret_auth mac auth
        (record sample { project = "alpha"; branch = "x" ++ ("\nbranch=" ++ "main") })
verify_shift_example = verify_shift mac auth sample "alpha" "x" "main"

rotated :
    with_rotation " new " ("old" ∷ []) sign_and_verify
    ≡ ok (record {
      signing_secret = "new";
      verification_secrets = "new" ∷ "old" ∷ [];
      mode = sign_and_verify;
    })
unfolding with_rotation zero_conf_mesh.Config.Secret.normalize_shared_secret trim
    zero_conf_mesh.Prelude.Sort.Texts.dedup zero_conf_mesh.Prelude.Sort.Texts.sort
rotated = refl

project_updated :
    mutator (update_project " beta ") sample
    ≡ ok (record sample {
      project = "beta";
      metadata =
          ("capabilities", "plan,review") ∷ ("current_project", "beta") ∷ ("team", "blue") ∷ [];
    })
unfolding mutator zero_conf_mesh.Types.Announcement.set_project
    zero_conf_mesh.Types.Normalize.normalize_required trim BTreeMap.insert
project_updated = refl
