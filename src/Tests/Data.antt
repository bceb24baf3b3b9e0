-- ===== src/Tests/Data.antt =====
-- The arguments of the tests: a property that is a pair, a code that is the secret before the
-- payload, a daemon that notes its calls, and an announcement.
use Prim.Native.String.{◌++◌}
use zero_conf_mesh.Prelude.{
  ℕ, String, Char, Bool, true, false, ◌≡◌, ◌≢◌, refl, List, [], ◌∷◌, Option, none, some,
}
use zero_conf_mesh.Prelude.Text.{
  is_whitespace, is_empty, trim, trim_matches, trim_start_matches, trim_end_matches, trim_end_cons,
}
use zero_conf_mesh.Error.{ok}
use zero_conf_mesh.Types.Status.{idle}
use zero_conf_mesh.Types.Announcement.{AgentAnnouncement, new}
use zero_conf_mesh.Types.Announcement.Valid.{IsValid, new-IsValid}
use zero_conf_mesh.Types.Txt.{TxtApi, utf8}
use zero_conf_mesh.Types.Auth.{MacApi}
use zero_conf_mesh.Config.Secret.{SharedSecretAuth, sign_and_verify}
use zero_conf_mesh.Config
use zero_conf_mesh.Config.{ZeroConfConfig}
use zero_conf_mesh.Config.Laws.{IsConfigured}
use zero_conf_mesh.Builder.{ZeroConfMeshBuilder, build_config}
use zero_conf_mesh.Builder.Laws.{build_config-Builds}
use zero_conf_mesh.Broadcaster.{MdnsApi}

abbrev pub txt : TxtApi
txt = record {
  TxtProperty = String × String;
  from_entry = λ e. e;
  key = λ e. e.0;
  val = λ e. some (utf8 e.1);
  key-from_entry = λ e. refl;
  val-from_entry = λ e. refl;
}

filled_end : (s : String) → is_empty (trim_end_cons is_whitespace "m" s) ≡ false
unfolding trim_end_cons
filled_end String.[] = refl
filled_end (String.◌∷◌ c s) = refl

pub marked_filled : (s : String) → is_empty (trim (String.◌∷◌ "m" s)) ≡ false
unfolding trim trim_matches trim_start_matches trim_end_matches
marked_filled s = filled_end (trim_end_matches is_whitespace s)

abbrev pub mac : MacApi
mac = record {
  Digest = String;
  hmac = λ secret payload. secret ++ (":" ++ payload);
  encode = λ digest. String.◌∷◌ "m" digest;
  encode_filled = marked_filled;
}

abbrev pub mdns : MdnsApi txt
mdns = record {
  ServiceDaemon = List String;
  ServiceInfo = String;
  new_service_info = λ service_type name host addresses port properties. ok name;
  enable_addr_auto = λ service. service;
  new_with_port = λ port. ok [];
  enable_interface = λ i daemon. (daemon, ok tt);
  disable_interface = λ i daemon. (daemon, ok tt);
  browse = λ service_type daemon. (("browse " ++ service_type) ∷ daemon, ok tt);
  register = λ service daemon. (("register " ++ service) ∷ daemon, ok tt);
  unregister = λ name daemon. (("unregister " ++ name) ∷ daemon, ok tt);
  shutdown = λ daemon. "shutdown" ∷ daemon;
}

abbrev pub sample : AgentAnnouncement
sample = record {
  instance_name = "agent-1._agent-mesh._tcp.local.";
  agent_id = "agent-1";
  role = "coder";
  project = "alpha";
  branch = "main";
  status = idle;
  capabilities = "plan" ∷ "review" ∷ [];
  port = 8080;
  addresses = [];
  metadata = ("capabilities", "plan,review") ∷ ("team", "blue") ∷ [];
}

pub sample_built :
    new " agent-1._agent-mesh._tcp.local. " "agent-1" "coder " "alpha" "main" idle 8080 []
      (("capabilities", " review, plan,review") ∷ ("team", "blue") ∷ [])
    ≡ ok sample
unfolding new zero_conf_mesh.Types.Normalize.normalize_required trim
    zero_conf_mesh.Types.Capabilities.capabilities_from_metadata zero_conf_mesh.Prelude.Assoc.lookup
    zero_conf_mesh.Types.Capabilities.canonicalize_capabilities
    zero_conf_mesh.Types.Capabilities.listed_capabilities zero_conf_mesh.Prelude.Text.split
    zero_conf_mesh.Types.Normalize.normalize_capability zero_conf_mesh.Prelude.Text.contains_char
    zero_conf_mesh.Prelude.Sort.Texts.dedup
    zero_conf_mesh.Types.Capabilities.sync_capabilities_metadata
    zero_conf_mesh.Prelude.Sort.Texts.sort zero_conf_mesh.Prelude.BTreeMap.insert
    zero_conf_mesh.Prelude.Text.join
sample_built = refl

pub sample-IsValid : IsValid sample
sample-IsValid =
    new-IsValid " agent-1._agent-mesh._tcp.local. " "agent-1" "coder " "alpha" "main" idle 8080 []
      (("capabilities", " review, plan,review") ∷ ("team", "blue") ∷ []) ((refl, tt), (tt, tt))
      sample_built

abbrev pub auth : SharedSecretAuth
auth = record {
  signing_secret = "s3cret";
  verification_secrets = "old" ∷ "s3cret" ∷ [];
  mode = sign_and_verify;
}

-- Another agent, which is seen only once.
abbrev pub peer : AgentAnnouncement
peer = record sample {
  instance_name = "peer-1._agent-mesh._tcp.local.";
  agent_id = "peer-1";
  role = "reviewer";
}

-- A configuration with a secret, as its constructor and as the builder make it.
abbrev pub config : ZeroConfConfig
config = record {
  agent_id = "agent-1";
  role = "coder";
  project = "alpha";
  branch = "main";
  port = 8080;
  mdns_port = 5353;
  service_type = "_agent-mesh._tcp.local.";
  initial_status = idle;
  heartbeat_interval = 30_000_000_000;
  ttl = 120_000_000_000;
  event_capacity = 256;
  capabilities = "plan" ∷ "review" ∷ [];
  metadata = ("team", "blue") ∷ [];
  advertise_local = true;
  enabled_interfaces = [];
  disabled_interfaces = [];
  shared_secret_auth = some (record {
    signing_secret = "s3cret";
    verification_secrets = "old" ∷ "s3cret" ∷ [];
    mode = sign_and_verify;
  });
}

pub built_new :
    Config.new " agent-1" "coder" "alpha" "main" 8080 5353 "_agent-mesh._tcp.local." idle
      30_000_000_000 120_000_000_000 256
      ("plan" ∷ "review" ∷ [])
      (("team", "blue") ∷ [])
    ≡ ok (record config { shared_secret_auth = none })
unfolding Config.new zero_conf_mesh.Types.Normalize.normalize_required trim Config.validate
    Config.is_valid_service_type zero_conf_mesh.Prelude.Text.ends_with
    zero_conf_mesh.Prelude.Text.contains Config.reserved_key
    zero_conf_mesh.Types.Keys.is_reserved_metadata_key
built_new = refl

abbrev pub builder : ZeroConfMeshBuilder
builder = record {
  agent_id = some "agent-1";
  role = "coder";
  project = "alpha";
  branch = "main";
  port = some 8080;
  mdns_port = 5353;
  service_type = "_agent-mesh._tcp.local.";
  initial_status = idle;
  heartbeat_interval = 30_000_000_000;
  ttl = 120_000_000_000;
  event_capacity = 256;
  metadata = ("team", "blue") ∷ [];
  capabilities = "review" ∷ "plan" ∷ [];
  advertise_local = true;
  enabled_interfaces = [];
  disabled_interfaces = [];
  shared_secret_auth = some (record {
    signing_secret = " s3cret ";
    verification_secrets = "old" ∷ [];
    mode = sign_and_verify;
  });
}

pub built : build_config "generated" builder ≡ ok config
unfolding build_config zero_conf_mesh.Builder.base_config zero_conf_mesh.Builder.with_auth
    zero_conf_mesh.Config.with_disabled_interfaces zero_conf_mesh.Config.with_enabled_interfaces
    zero_conf_mesh.Config.with_advertise_local zero_conf_mesh.Config.with_shared_secret_auth
    zero_conf_mesh.Config.Secret.with_rotation zero_conf_mesh.Config.Secret.normalize_shared_secret
    Config.new zero_conf_mesh.Types.Normalize.normalize_required trim Config.validate
    Config.is_valid_service_type zero_conf_mesh.Prelude.Text.ends_with
    zero_conf_mesh.Prelude.Text.contains Config.reserved_key
    zero_conf_mesh.Types.Keys.is_reserved_metadata_key
    zero_conf_mesh.Types.Capabilities.canonicalize_capabilities
    zero_conf_mesh.Types.Normalize.normalize_capability zero_conf_mesh.Prelude.Text.contains_char
    zero_conf_mesh.Prelude.Sort.Texts.dedup zero_conf_mesh.Prelude.Sort.Texts.sort
built = refl

pub config-IsConfigured : IsConfigured config
config-IsConfigured = (build_config-Builds "generated" builder built).0.configured

pub peer-IsValid : IsValid peer
unfolding trim
peer-IsValid = record {
  instance_name = record { trimmed = refl; filled = refl };
  agent_id = record { trimmed = refl; filled = refl };
  role = record { trimmed = refl; filled = refl };
  project = sample-IsValid.project;
  branch = sample-IsValid.branch;
  port = sample-IsValid.port;
  capabilities = sample-IsValid.capabilities;
  synced = sample-IsValid.synced;
}
