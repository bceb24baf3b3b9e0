-- ===== src/Mesh/Updates.antt =====
-- What an update and a signature leave of the local agent.
use zero_conf_mesh.Prelude.{◌≡◌, refl, ◌∙◌, arith, Option, none, some}
use mathlib.Core.Path.{subst}
use zero_conf_mesh.Prelude.Text.{trim}
use zero_conf_mesh.Error.{ok}
use zero_conf_mesh.Config.Secret.{SharedSecretAuth}
use zero_conf_mesh.Types.Announcement
use zero_conf_mesh.Types.Announcement.{
  AgentAnnouncement, set_status, set_capabilities, with_capabilities, set_project, set_branch,
  set_metadata,
}
use zero_conf_mesh.Types.Announcement.Valid.{IsValid, insert-IsSynced}
use zero_conf_mesh.Types.Announcement.Setters.{
  set_status-IsValid, set_project-IsValid, set_branch-IsValid, set_capabilities-IsValid,
  add_capability-IsValid, remove_capability-IsValid, set_metadata-IsValid, remove_metadata-IsValid,
}
use zero_conf_mesh.Types.Auth.{MacApi, auth_scheme, apply_shared_secret_auth}
use zero_conf_mesh.Mesh.{
  Update, update_status, update_project, update_branch, update_metadata, remove_metadata,
  update_capabilities, add_capability, remove_capability, mutator, signed,
}

-- Every update of a well-formed announcement that succeeds leaves a well-formed announcement.
pub mutator-IsValid :
    (u : Update) (a : AgentAnnouncement) {b : AgentAnnouncement}
    → IsValid a
    → mutator u a ≡ ok b
    → IsValid b
unfolding mutator
mutator-IsValid (update_status s) a {b = b} v h =
    let e : set_status s a ≡ b = cc in subst IsValid e (set_status-IsValid v s)
mutator-IsValid (update_project p) a v h = set_project-IsValid v p h
mutator-IsValid (update_branch p) a v h = set_branch-IsValid v p h
mutator-IsValid (update_metadata k x) a v h = set_metadata-IsValid v k x h
mutator-IsValid (remove_metadata k) a v h = remove_metadata-IsValid v k h
mutator-IsValid (update_capabilities l) a v h = set_capabilities-IsValid v l h
mutator-IsValid (add_capability c) a v h = add_capability-IsValid v c h
mutator-IsValid (remove_capability c) a v h = remove_capability-IsValid v c h

-- What no update and no signature changes.
pub record SameNode (a b : AgentAnnouncement) : Type 0 where
  pub instance_name : b.instance_name ≡ a.instance_name
  pub agent_id : b.agent_id ≡ a.agent_id
  pub role : b.role ≡ a.role
  pub port : b.port ≡ a.port
  pub addresses : b.addresses ≡ a.addresses

pub SameNode-trans : (a b c : AgentAnnouncement) → SameNode a b → SameNode b c → SameNode a c
SameNode-trans a b c p q = record {
  instance_name = q.instance_name ∙ p.instance_name;
  agent_id = q.agent_id ∙ p.agent_id;
  role = q.role ∙ p.role;
  port = q.port ∙ p.port;
  addresses = q.addresses ∙ p.addresses;
}

-- No update that succeeds changes the instance name, the id, the role, the port or the addresses.
pub mutator-SameNode :
    (u : Update) (a : AgentAnnouncement) {b : AgentAnnouncement} → mutator u a ≡ ok b → SameNode a b
unfolding mutator set_status set_project set_branch set_metadata Announcement.remove_metadata
    set_capabilities Announcement.add_capability Announcement.remove_capability with_capabilities
mutator-SameNode (update_status s) a h = ground arith
mutator-SameNode (update_project p) a h = ground arith
mutator-SameNode (update_branch p) a h = ground arith
mutator-SameNode (update_metadata k x) a h = ground arith
mutator-SameNode (remove_metadata k) a h = ground arith
mutator-SameNode (update_capabilities l) a h = ground arith
mutator-SameNode (add_capability c) a h = ground arith
mutator-SameNode (remove_capability c) a h = ground arith

module _ (mac : MacApi) where
  pub signed-SameNode :
      (auth : Option SharedSecretAuth) (a : AgentAnnouncement) → SameNode a (signed mac auth a)
  unfolding signed apply_shared_secret_auth
  signed-SameNode none a = record {
    instance_name = refl;
    agent_id = refl;
    role = refl;
    port = refl;
    addresses = refl;
  }
  signed-SameNode (some auth) a = record {
    instance_name = refl;
    agent_id = refl;
    role = refl;
    port = refl;
    addresses = refl;
  }

  -- The signature's entries keep an announcement well formed.
  pub signed-IsValid :
      (auth : Option SharedSecretAuth) (a : AgentAnnouncement)
      → IsValid a
      → IsValid (signed mac auth a)
  unfolding signed apply_shared_secret_auth trim
  signed-IsValid none a v = v
  signed-IsValid (some auth) a v = record {
    instance_name = v.instance_name;
    agent_id = v.agent_id;
    role = v.role;
    project = v.project;
    branch = v.branch;
    port = v.port;
    capabilities = v.capabilities;
    synced =
        let s = insert-IsSynced "zcm_auth" v.synced auth_scheme refl refl in
        insert-IsSynced "zcm_sig" s _ refl refl;
  }
