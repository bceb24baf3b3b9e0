-- ===== src/Types/Announcement/Setters.antt =====
-- Every setter keeps announcements well formed, and what it leaves alone.
use zero_conf_mesh.Prelude.{
  String, false, not, ◌≡◌, refl, ap, ◌∙◌, arith, List, [], ◌∷◌, ◌++◌, keep, has, ◌==◌, Bool-cases,
  inl, inr,
}
use zero_conf_mesh.Prelude.Text.{trim, is_empty}
use zero_conf_mesh.Prelude.Sort.{sort_by-Ascending}
use zero_conf_mesh.Prelude.Sort.Edits.{keep-IsAscending, keep-All, append-All, append-DistinctBy}
use zero_conf_mesh.Prelude.Sort.Texts.{self, sort, sort-All}
use zero_conf_mesh.Prelude.Assoc.{remove}
use zero_conf_mesh.Prelude.BTreeMap
use zero_conf_mesh.Error.{ok, >>=-eq-ok}
use zero_conf_mesh.Types.Keys.{is_reserved_metadata_key}
use zero_conf_mesh.Types.Status.{AgentStatus, as_str}
use zero_conf_mesh.Types.Normalize.{
  IsCapability, normalize_required, normalize_metadata_key, normalize_capability,
  normalize_required-IsNormal, normalize_metadata_key-IsNormal, normalize_capability-IsCapability,
}
use zero_conf_mesh.Types.Capabilities.{
  AgentMetadata, canonicalize_capabilities, sync_capabilities_metadata,
}
use zero_conf_mesh.Types.Capabilities.Laws.{IsCanonical, capabilities_key, canonicalize-IsCanonical}
use zero_conf_mesh.Types.Announcement.{
  AgentAnnouncement, set_status, with_capabilities, set_capabilities, add_capability,
  remove_capability, set_project, set_branch, set_metadata, remove_metadata,
}
use zero_conf_mesh.Types.Announcement.Valid.{
  IsValid, IsSynced, sync-IsSynced, insert-IsSynced, remove-IsSynced,
}

-- The same announcement with another list and its metadata.
replace-IsValid :
    (a : AgentAnnouncement) (l : List String) (m : AgentMetadata)
    → IsValid a
    → IsCanonical l
    → IsSynced m l
    → IsValid (record a { capabilities = l; metadata = m })
replace-IsValid a l m v c s = record {
  instance_name = v.instance_name;
  agent_id = v.agent_id;
  role = v.role;
  project = v.project;
  branch = v.branch;
  port = v.port;
  capabilities = c;
  synced = s;
}

with_capabilities-IsValid :
    (a : AgentAnnouncement) (l : List String)
    → IsValid a
    → IsCanonical l
    → IsValid (with_capabilities a l)
unfolding with_capabilities
with_capabilities-IsValid a l v c =
    replace-IsValid a l (sync_capabilities_metadata a.metadata l) v c
      (sync-IsSynced a.metadata l v.synced.sorted v.synced.filled_keys)

-- A key that is not reserved is not the key of the capabilities.
not_capabilities :
    (k : String) → is_reserved_metadata_key k ≡ false → (k == capabilities_key) ≡ false
unfolding is_reserved_metadata_key
not_capabilities k h = ground arith

module _ {a : AgentAnnouncement} (v : IsValid a) where
  pub set_status-IsValid : (s : AgentStatus) → IsValid (set_status s a)
  unfolding set_status trim
  set_status-IsValid s = record {
    instance_name = v.instance_name;
    agent_id = v.agent_id;
    role = v.role;
    project = v.project;
    branch = v.branch;
    port = v.port;
    capabilities = v.capabilities;
    synced = insert-IsSynced "status" v.synced (as_str s) refl refl;
  }

  pub set_project-IsValid :
      (p : String) {b : AgentAnnouncement} → set_project p a ≡ ok b → IsValid b
  unfolding set_project trim
  set_project-IsValid p {b} h =
      let (p', e, r) = >>=-eq-ok (normalize_required p "project") _ h in
      let q : record a { metadata = BTreeMap.insert "current_project" p' a.metadata; project = p' }
          ≡ b =
        cc in
      rw (← q) (record {
        instance_name = v.instance_name;
        agent_id = v.agent_id;
        role = v.role;
        project = normalize_required-IsNormal p "project" e;
        branch = v.branch;
        port = v.port;
        capabilities = v.capabilities;
        synced = insert-IsSynced "current_project" v.synced p' refl refl;
      })

  pub set_branch-IsValid : (p : String) {b : AgentAnnouncement} → set_branch p a ≡ ok b → IsValid b
  unfolding set_branch trim
  set_branch-IsValid p {b} h =
      let (p', e, r) = >>=-eq-ok (normalize_required p "branch") _ h in
      let q : record a { metadata = BTreeMap.insert "current_branch" p' a.metadata; branch = p' }
          ≡ b =
        cc in
      rw (← q) (record {
        instance_name = v.instance_name;
        agent_id = v.agent_id;
        role = v.role;
        project = v.project;
        branch = normalize_required-IsNormal p "branch" e;
        port = v.port;
        capabilities = v.capabilities;
        synced = insert-IsSynced "current_branch" v.synced p' refl refl;
      })

  pub set_capabilities-IsValid :
      (l : List String) {b : AgentAnnouncement} → set_capabilities l a ≡ ok b → IsValid b
  unfolding set_capabilities
  set_capabilities-IsValid l {b} h =
      let (c, e, r) = >>=-eq-ok (canonicalize_capabilities l) _ h in
      let q : with_capabilities a c ≡ b = cc in
      rw (← q) (with_capabilities-IsValid a c v (canonicalize-IsCanonical l c e))

  added-IsCanonical :
      (c : String)
      → IsCapability c
      → has c a.capabilities ≡ false
      → IsCanonical (sort (a.capabilities ++ c ∷ []))
  unfolding sort
  added-IsCanonical c ic fresh = record {
    ascending =
        sort_by-Ascending self (a.capabilities ++ c ∷ [])
          (append-DistinctBy c a.capabilities v.capabilities.ascending fresh);
    each =
        sort-All IsCapability (a.capabilities ++ c ∷ [])
          (append-All IsCapability a.capabilities c v.capabilities.each ic);
  }

  pub add_capability-IsValid :
      (c : String) {b : AgentAnnouncement} → add_capability c a ≡ ok b → IsValid b
  unfolding add_capability
  add_capability-IsValid c {b} h =
      let (c', e, r) = >>=-eq-ok (normalize_capability c) _ h in
      elim (Bool-cases (has c' a.capabilities)) [
        | inl old ↦ let q : a ≡ b = ground arith in rw (← q) v
        | inr new ↦
            let q : with_capabilities a (sort (a.capabilities ++ c' ∷ [])) ≡ b = ground arith in
            rw (← q) (
              with_capabilities-IsValid a (sort (a.capabilities ++ c' ∷ [])) v
                (added-IsCanonical c' (normalize_capability-IsCapability c e) new))
      ]

  pub remove_capability-IsValid :
      (c : String) {b : AgentAnnouncement} → remove_capability c a ≡ ok b → IsValid b
  unfolding remove_capability
  remove_capability-IsValid c {b} h =
      let (c', e, r) = >>=-eq-ok (normalize_capability c) _ h in
      let l = keep (λ entry. not (entry == c')) a.capabilities in
      let q : with_capabilities a l ≡ b = cc in
      rw (← q) (
        with_capabilities-IsValid a l v (record {
          ascending = keep-IsAscending c' a.capabilities v.capabilities.ascending;
          each = keep-All IsCapability c' a.capabilities v.capabilities.each;
        }))

  pub set_metadata-IsValid :
      (key value : String) {b : AgentAnnouncement} → set_metadata key value a ≡ ok b → IsValid b
  unfolding set_metadata
  set_metadata-IsValid key value {b} h =
      let (k, e, r) = >>=-eq-ok (normalize_metadata_key key) _ h in
      let n = normalize_metadata_key-IsNormal key e in
      let m = BTreeMap.insert k value a.metadata in
      let free : is_reserved_metadata_key k ≡ false = ground arith in
      let q : record a { metadata = m } ≡ b = ground arith in
      rw (← q) (
        replace-IsValid a a.capabilities m v v.capabilities (
          insert-IsSynced k v.synced value (not_capabilities k free)
            (ap is_empty n.trimmed ∙ n.filled)))

  pub remove_metadata-IsValid :
      (key : String) {b : AgentAnnouncement} → remove_metadata key a ≡ ok b → IsValid b
  unfolding remove_metadata
  remove_metadata-IsValid key {b} h =
      let (k, e, r) = >>=-eq-ok (normalize_metadata_key key) _ h in
      let m = remove k a.metadata in
      let free : is_reserved_metadata_key k ≡ false = ground arith in
      let q : record a { metadata = m } ≡ b = ground arith in
      rw (← q) (
        replace-IsValid a a.capabilities m v v.capabilities
          (remove-IsSynced k v.synced (not_capabilities k free)))
