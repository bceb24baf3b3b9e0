-- ===== src/Camp/Settings/Builders.antt =====
-- What the settings do to a builder.
use zero_conf_mesh.Prelude.{String, ◌≡◌, refl, ap, List, [], ◌∷◌, Option, none, some}
use mathlib.Core.Path.{subst}
use zero_conf_mesh.Prelude.BTreeMap
use zero_conf_mesh.Types.Announcement.{IpAddr}
use zero_conf_mesh.Config.{NetworkInterface}
use zero_conf_mesh.Config.Secret.{SharedSecretMode}
use zero_conf_mesh.Builder
use zero_conf_mesh.Builder.{ZeroConfMeshBuilder, SharedSecretBuilderConfig}
use zero_conf_mesh.Camp.Outcome.{Outcome, done, >>=-eq-done}
use zero_conf_mesh.Camp.Parse.{parse_network_interface}
use zero_conf_mesh.Camp.Settings.{apply_metadata, apply_shared_secret, apply_each, apply_interfaces}

-- The entries are inserted in their order.
pub apply_metadata-extend :
    (b : ZeroConfMeshBuilder) (l : List (String × String))
    → apply_metadata b l ≡ record b { metadata = BTreeMap.extend b.metadata l }
unfolding apply_metadata BTreeMap.extend Builder.metadata
apply_metadata-extend b [] = refl
apply_metadata-extend b ((key, value) ∷ l) = apply_metadata-extend (Builder.metadata b key value) l

-- To apply what a map collected is to apply the entries that it collected.
pub apply_metadata_collected :
    (b : ZeroConfMeshBuilder) (l : List (String × String))
    → b.metadata ≡ []
    → apply_metadata b (BTreeMap.extend [] l) ≡ apply_metadata b l
apply_metadata_collected b l h =
    rw (apply_metadata-extend, apply_metadata-extend, h)
      (ap (λ (m : List (String × String)). record b { metadata = m })
        (BTreeMap.extend_of_IsSorted (BTreeMap.extend [] l) (BTreeMap.extend-IsSorted [] l tt)))

done_eq {ℓ} : {A : Type ℓ} {a b : A} → done a ≡ done b → a ≡ b
done_eq h = cc

-- The authentication that the options ask for.
abbrev pub chosen_secret :
    Option String → List String → SharedSecretMode → Option SharedSecretBuilderConfig
chosen_secret none accept mode = none
chosen_secret (some secret) accept mode =
    some (record { signing_secret = secret; verification_secrets = accept; mode = mode })

module _ (parse_ip : String → Outcome IpAddr) where
  -- What every call of the setter keeps, the loop keeps.
  apply_each-keeps :
      (P : ZeroConfMeshBuilder → Type 0)
      (setter : ZeroConfMeshBuilder → NetworkInterface → ZeroConfMeshBuilder)
      → ((b : ZeroConfMeshBuilder) (i : NetworkInterface) → P b → P (setter b i))
      → (l : List String) (b : ZeroConfMeshBuilder) {c : ZeroConfMeshBuilder}
      → apply_each parse_ip setter l b ≡ done c
      → P b
      → P c
  unfolding apply_each
  apply_each-keeps P setter k [] b h p = subst P (done_eq h) p
  apply_each-keeps P setter k (x ∷ l) b h p =
      let (i, e, r) = >>=-eq-done (parse_network_interface parse_ip x) _ h in
      apply_each-keeps P setter k l (setter b i) r (k b i p)

  pub apply_interfaces-keeps :
      (P : ZeroConfMeshBuilder → Type 0)
      → ((b : ZeroConfMeshBuilder) (i : NetworkInterface) → P b → P (Builder.enable_interface b i))
      → ((b : ZeroConfMeshBuilder) (i : NetworkInterface) → P b → P (Builder.disable_interface b i))
      → (enabled disabled : List String) (b : ZeroConfMeshBuilder) {c : ZeroConfMeshBuilder}
      → apply_interfaces parse_ip b enabled disabled ≡ done c
      → P b
      → P c
  unfolding apply_interfaces
  apply_interfaces-keeps P on off enabled disabled b h p =
      let (d, e, r) = >>=-eq-done (apply_each parse_ip Builder.enable_interface enabled b) _ h in
      apply_each-keeps P Builder.disable_interface off disabled d r
        (apply_each-keeps P Builder.enable_interface on enabled b e p)

pub apply_shared_secret-keeps :
    (b : ZeroConfMeshBuilder) (secret : Option String) (accept : List String)
    (mode : SharedSecretMode)
    → b.shared_secret_auth ≡ none
    → let c = apply_shared_secret b secret accept mode in
      (c.advertise_local ≡ b.advertise_local)
      × (c.shared_secret_auth ≡ chosen_secret secret accept mode)
unfolding apply_shared_secret Builder.shared_secret_with_mode
    Builder.shared_secret_rotation_with_mode
apply_shared_secret-keeps b none accept mode h = (refl, h)
apply_shared_secret-keeps b (some secret) [] mode h = (refl, refl)
apply_shared_secret-keeps b (some secret) (other ∷ accept) mode h = (refl, refl)
