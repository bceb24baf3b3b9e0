-- ===== src/Config/Secret.antt =====
-- src/config.rs: `SharedSecretAuth`.
use zero_conf_mesh.Prelude.{
  String, Bool, true, false, ◌≡◌, ◌∙◌, arith, if◌then◌else◌, List, [], ◌∷◌, ◌++◌, has, eq_refl,
}
use mathlib.Core.Path.{subst}
use zero_conf_mesh.Prelude.Text.{trim, is_empty}
use zero_conf_mesh.Prelude.Sort.Texts.{sort, dedup, has-sort, has-dedup}
use zero_conf_mesh.Error.{Result, ok, err, ◌>>=◌, >>=-eq-ok, collect_results, empty_shared_secret}

pub data SharedSecretMode : Type 0 where
  sign_only sign_and_verify : SharedSecretMode

pub record SharedSecretAuth : Type 0 where
  pub signing_secret : String
  pub verification_secrets : List String
  pub mode : SharedSecretMode

unfoldable pub normalize_shared_secret : String → Result String
normalize_shared_secret secret =
    let trimmed = trim secret in if is_empty trimmed then err empty_shared_secret else ok trimmed

unfoldable pub new : String → SharedSecretMode → Result SharedSecretAuth
new secret mode = do
  signing_secret ← normalize_shared_secret secret
  ok (record {
    signing_secret = signing_secret;
    verification_secrets = signing_secret ∷ [];
    mode = mode;
  })

unfoldable pub with_rotation : String → List String → SharedSecretMode → Result SharedSecretAuth
with_rotation signing verification mode = do
  signing_secret ← normalize_shared_secret signing
  normalized ← collect_results normalize_shared_secret verification
  let accepted =
      if has signing_secret normalized then normalized else normalized ++ signing_secret ∷ []
  ok (record {
    signing_secret = signing_secret;
    verification_secrets = dedup (sort accepted);
    mode = mode;
  })

unfoldable pub verifies_incoming : SharedSecretAuth → Bool
verifies_incoming auth = elim auth.mode [ sign_only ↦ false | sign_and_verify ↦ true ]

-- The signing secret is among those accepted from peers.
abbrev pub AcceptsOwn : SharedSecretAuth → Type 0
AcceptsOwn auth = has auth.signing_secret auth.verification_secrets ≡ true

has-append_self : (s : String) (l : List String) → has s (l ++ s ∷ []) ≡ true
has-append_self s [] = rw eq_refl
has-append_self s (x ∷ l) = ground (arith, has-append_self s l)

pub new-AcceptsOwn :
    (secret : String) (mode : SharedSecretMode) {auth : SharedSecretAuth}
    → new secret mode ≡ ok auth
    → AcceptsOwn auth
unfolding new
new-AcceptsOwn secret mode {auth} h = ground (arith, eq_refl auth.signing_secret)

-- If a rotation list is accepted, the signing secret is among the secrets accepted from peers.
pub with_rotation-AcceptsOwn :
    (signing : String) (verification : List String) (mode : SharedSecretMode)
    {auth : SharedSecretAuth}
    → with_rotation signing verification mode ≡ ok auth
    → AcceptsOwn auth
unfolding with_rotation
with_rotation-AcceptsOwn signing verification mode {auth} h =
    let (s, ps, hs) = >>=-eq-ok (normalize_shared_secret signing) _ h in
    let (l, pl, hl) = >>=-eq-ok (collect_results normalize_shared_secret verification) _ hs in
    let accepted = if has s l then l else l ++ s ∷ [] in
    let own : has s accepted ≡ true = ground (arith, has-append_self s l) in
    let found = has-dedup s (sort accepted) ∙ has-sort s accepted ∙ own in
    let stored : record {
      signing_secret = s;
      verification_secrets = dedup (sort accepted);
      mode = mode;
    }
        ≡ auth =
      cc in
    subst AcceptsOwn stored found

pub with_rotation-mode :
    (signing : String) (verification : List String) (mode : SharedSecretMode)
    {auth : SharedSecretAuth}
    → with_rotation signing verification mode ≡ ok auth
    → auth.mode ≡ mode
unfolding with_rotation
with_rotation-mode signing verification mode {auth} h = ground arith
