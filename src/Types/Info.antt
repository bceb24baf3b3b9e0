-- ===== src/Types/Info.antt =====
-- src/types.rs: `AgentInfo`, the registry's snapshot of an announcement. Times and durations are
-- nanoseconds, as numbers.
use zero_conf_mesh.Prelude.{
  ℕ, ◌-◌, String, Bool, true, false, ◌&&◌, ◌≡◌, ◌↔◌, arith, List, [], ◌∷◌, has, eqb, eqb_iff, ltb,
  ◌==◌, eq_iff,
}
use zero_conf_mesh.Types.Status.{AgentStatus, status_eq, status_eq_iff}
use zero_conf_mesh.Types.Capabilities.{AgentMetadata}
use zero_conf_mesh.Types.Announcement.{IpAddr, v4, v6, AgentAnnouncement}

pub record AgentInfo : Type 0 where
  pub instance_name : String
  pub id : String
  pub role : String
  pub project : String
  pub branch : String
  pub status : AgentStatus
  pub capabilities : List String
  pub port : ℕ
  pub addresses : List IpAddr
  pub metadata : AgentMetadata
  pub last_seen : ℕ

unfoldable pub into_agent_info : AgentAnnouncement → ℕ → AgentInfo
into_agent_info a seen_at = record {
  instance_name = a.instance_name;
  id = a.agent_id;
  role = a.role;
  project = a.project;
  branch = a.branch;
  status = a.status;
  capabilities = a.capabilities;
  port = a.port;
  addresses = a.addresses;
  metadata = a.metadata;
  last_seen = seen_at;
}

unfoldable pub has_capability : AgentInfo → String → Bool
has_capability agent capability = has capability agent.capabilities

-- The derived equality of addresses, of lists and of metadata.
abbrev pub address_eq : IpAddr → IpAddr → Bool
address_eq (v4 a) (v4 b) = eqb a b
address_eq (v6 a) (v6 b) = eqb a b
address_eq _ _ = false

abbrev pub list_eq {ℓ} : {A : Type ℓ} → (A → A → Bool) → List A → List A → Bool
list_eq eq [] [] = true
list_eq eq (x ∷ xs) (y ∷ ys) = eq x y && list_eq eq xs ys
list_eq eq _ _ = false

abbrev pub entry_eq : String × String → String × String → Bool
entry_eq (k, v) (j, w) = k == j && v == w

unfoldable pub same_payload_as : AgentInfo → AgentInfo → Bool
same_payload_as a b =
    a.instance_name == b.instance_name
    && a.id == b.id
    && a.role == b.role
    && a.project == b.project
    && a.branch == b.branch
    && status_eq a.status b.status
    && list_eq ◌==◌ a.capabilities b.capabilities
    && eqb a.port b.port
    && list_eq address_eq a.addresses b.addresses
    && list_eq entry_eq a.metadata b.metadata

unfoldable pub refresh_last_seen : ℕ → AgentInfo → AgentInfo
refresh_last_seen seen_at agent = record agent { last_seen = seen_at }

-- `saturating_duration_since` is 0 where `last_seen` is later.
unfoldable pub is_stale : AgentInfo → ℕ → ℕ → Bool
is_stale agent now ttl = ltb ttl (now - agent.last_seen)

list_eq_iff {ℓ} :
    {A : Type ℓ} (eq : A → A → Bool)
    → ((x y : A) → (eq x y ≡ true) ↔ (x ≡ y))
    → (xs ys : List A) → (list_eq eq xs ys ≡ true) ↔ (xs ≡ ys)
list_eq_iff eq h [] [] = ground arith
list_eq_iff eq h [] (y ∷ ys) = ground arith
list_eq_iff eq h (x ∷ xs) [] = ground arith
list_eq_iff eq h (x ∷ xs) (y ∷ ys) = ground (arith, h x y, list_eq_iff eq h xs ys)

address_eq_iff : (a b : IpAddr) → (address_eq a b ≡ true) ↔ (a ≡ b)
address_eq_iff (v4 a) (v4 b) = ground arith
address_eq_iff (v4 a) (v6 b) = ground arith
address_eq_iff (v6 a) (v4 b) = ground arith
address_eq_iff (v6 a) (v6 b) = ground arith

entry_eq_iff : (a b : String × String) → (entry_eq a b ≡ true) ↔ (a ≡ b)
entry_eq_iff (k, v) (j, w) = ground (arith, eq_iff k j, eq_iff v w)

-- Two snapshots have the same payload exactly when they differ at most in the time they were seen.
pub same_payload_as_iff :
    (a b : AgentInfo) → (same_payload_as a b ≡ true) ↔ (refresh_last_seen b.last_seen a ≡ b)
unfolding same_payload_as refresh_last_seen
same_payload_as_iff a b = ground (
  arith,
  eq_iff a.instance_name b.instance_name,
  eq_iff a.id b.id,
  eq_iff a.role b.role,
  eq_iff a.project b.project,
  eq_iff a.branch b.branch,
  status_eq_iff a.status b.status,
  list_eq_iff ◌==◌ eq_iff a.capabilities b.capabilities,
  eqb_iff a.port b.port,
  list_eq_iff address_eq address_eq_iff a.addresses b.addresses,
  list_eq_iff entry_eq entry_eq_iff a.metadata b.metadata,
)
