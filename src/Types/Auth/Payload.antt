-- ===== src/Types/Auth/Payload.antt =====
-- What a signature covers, and what it confuses.
use Prim.Native.String.{◌++◌}
use text.Mathlib.TextLemmas.{append_assoc}
use zero_conf_mesh.Prelude.{String, false, ◌≡◌, arith, [], ◌∷◌, keep}
use text.Mathlib.TextEquality.{path_by_compare}
use zero_conf_mesh.Prelude.Text.{join}
use zero_conf_mesh.Prelude.BTreeMap
use zero_conf_mesh.Types.Capabilities.{AgentMetadata}
use zero_conf_mesh.Types.Announcement.{AgentAnnouncement}
use zero_conf_mesh.Types.Auth.{is_signed_entry, signature_lines, signature_payload}

keep-insert :
    (k v : String) (m : AgentMetadata)
    → is_signed_entry (k, v) ≡ false
    → keep is_signed_entry (BTreeMap.insert k v m) ≡ keep is_signed_entry m
unfolding is_signed_entry BTreeMap.insert
keep-insert k v [] h = ground arith
keep-insert k v ((i, w) ∷ m) h = ground (arith, keep-insert k v m, path_by_compare k i)

-- A reserved entry is not signed: to write one leaves the payload as it is.
pub signature_payload-insert :
    (a : AgentAnnouncement) (k v : String)
    → is_signed_entry (k, v) ≡ false
    → signature_payload (record a { metadata = BTreeMap.insert k v a.metadata })
      ≡ signature_payload a
unfolding signature_payload signature_lines
signature_payload-insert a k v h = rw (keep-insert k v a.metadata h)

branch_line : (s : String) → "\nbranch=" ++ s ≡ "\n" ++ ("branch=" ++ s)
branch_line s = append_assoc "\n" "branch=" s

-- The fields are joined by line feeds and may hold line feeds: what stands on the project's last
-- lines and what stands on the branch's first lines are signed alike.
pub signature_payload_shift :
    (a : AgentAnnouncement) (p q r : String)
    → signature_payload (record a { project = p ++ ("\nbranch=" ++ q); branch = r })
      ≡ signature_payload (record a { project = p; branch = q ++ ("\nbranch=" ++ r) })
unfolding signature_payload signature_lines join
signature_payload_shift a p q r = simp (append_assoc, branch_line)
