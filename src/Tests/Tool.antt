-- ===== src/Tests/Tool.antt =====
-- src/bin/camp.rs: options, slugs, guidance and files.
use Prim.Native.String.{◌++◌}
use zero_conf_mesh.Prelude.{
  ℕ, ◌<◌, String, Bool, true, false, ◌≡◌, ◌↔◌, refl, List, [], ◌∷◌, Option, none, some,
  if◌then◌else◌, ◌⊎◌, arith,
}
use zero_conf_mesh.Prelude.Text.{trim, trim_end, is_empty}
use zero_conf_mesh.Prelude.Text.Find.{length, begins, find}
use zero_conf_mesh.Types.Announcement.{IpAddr}
use zero_conf_mesh.Config.{index_v4, index_v6}
use zero_conf_mesh.Camp.Outcome.{Outcome, done, failed}
use zero_conf_mesh.Camp.Files.{
  path_eq, name_or, or_empty, FilePath, Disk, perform_all, write_state_snapshot,
}
use zero_conf_mesh.Camp.Files.Laws.{first, write_state_snapshot_atomic}
use zero_conf_mesh.Camp.Parse.{parse_key_value, parse_u32, u32_limit, parse_network_interface}
use zero_conf_mesh.Camp.Parse.Laws.{
  parse_key_value-join, all_digits, decimal, parse_network_interface-index,
}
use zero_conf_mesh.Camp.Slug.{slugify}
use zero_conf_mesh.Camp.Slug.Laws.{is_slug, slugify_lem}
use zero_conf_mesh.Camp.Guidance.{agents_guidance_start, agents_guidance_end}
use zero_conf_mesh.Camp.Guidance.Located.{IsOrdered}
use zero_conf_mesh.Camp.Options.{CampConfigFile, sign_and_verify}
use zero_conf_mesh.Camp.Init.Again.{text_behind, updates, upsert_again}
use zero_conf_mesh.Types.Status.{idle}

trimmed_key : trim "team" ≡ "team"
unfolding trim zero_conf_mesh.Prelude.Text.trim_matches
    zero_conf_mesh.Prelude.Text.trim_start_matches zero_conf_mesh.Prelude.Text.trim_end_matches
    zero_conf_mesh.Prelude.Text.trim_end_cons
trimmed_key = refl

trimmed_value : trim "blue=2" ≡ "blue=2"
unfolding trim zero_conf_mesh.Prelude.Text.trim_matches
    zero_conf_mesh.Prelude.Text.trim_start_matches zero_conf_mesh.Prelude.Text.trim_end_matches
    zero_conf_mesh.Prelude.Text.trim_end_cons
trimmed_value = refl

lacks_equals : zero_conf_mesh.Prelude.Text.contains_char b'=' "team" ≡ false
unfolding zero_conf_mesh.Prelude.Text.contains_char
lacks_equals = refl

parse_key_value-join_example :
    parse_key_value ("team" ++ ("=" ++ "blue=2")) ≡ done ("team", "blue=2")
parse_key_value-join_example =
    parse_key_value-join "team" "blue=2" lacks_equals trimmed_key trimmed_value

too_large : parse_u32 "4294967296" ≡ failed "number too large to fit in target type"
unfolding parse_u32 zero_conf_mesh.Camp.Parse.parse_digits
too_large = refl

abbrev no_address : String → Outcome IpAddr
no_address raw = failed "invalid IP address syntax"

parse_network_interface-index_example :
    let IsIndex = (all_digits "042" ≡ true) × (decimal 0 "042" ≡ 42) × (42 < u32_limit) in
    ((parse_network_interface no_address ("index-v4" ++ ":042") ≡ done (index_v4 42)) ↔ IsIndex)
    × ((parse_network_interface no_address ("index-v6" ++ ":042") ≡ done (index_v6 42)) ↔ IsIndex)
parse_network_interface-index_example = parse_network_interface-index no_address "0" "42" 42 refl

by_index : parse_network_interface no_address "index-v4:7" ≡ done (index_v4 7)
unfolding parse_network_interface zero_conf_mesh.Prelude.Text.split_once parse_u32
    zero_conf_mesh.Camp.Parse.parse_digits
by_index = refl

slug : slugify "--Feature//Login 2--" ≡ "feature-login-2"
unfolding slugify zero_conf_mesh.Camp.Slug.slug_of
    zero_conf_mesh.Prelude.Text.to_ascii_lowercase_char zero_conf_mesh.Prelude.Text.trim_matches
    zero_conf_mesh.Prelude.Text.trim_start_matches zero_conf_mesh.Prelude.Text.trim_end_matches
    zero_conf_mesh.Prelude.Text.trim_end_cons
slug = refl

no_slug : slugify "///" ≡ "camp-agent"
unfolding slugify zero_conf_mesh.Camp.Slug.slug_of
    zero_conf_mesh.Prelude.Text.to_ascii_lowercase_char zero_conf_mesh.Prelude.Text.trim_matches
    zero_conf_mesh.Prelude.Text.trim_start_matches zero_conf_mesh.Prelude.Text.trim_end_matches
    zero_conf_mesh.Prelude.Text.trim_end_cons
no_slug = refl

slugify_lem_example :
    (is_slug (slugify "Feature/Login") ≡ true)
    × ((slugify "Feature/Login" ≡ "Feature/Login") ↔ (is_slug "Feature/Login" ≡ true))
slugify_lem_example = slugify_lem "Feature/Login"

abbrev state_file : FilePath
state_file = record { parent = "tmp" ∷ []; file_name = some "state.json" }

abbrev no_files : Disk
no_files path = none

write_state_snapshot_atomic_example :
    ((n : ℕ)
      → (perform_all (first n (write_state_snapshot state_file "[]")) no_files state_file
          ≡ no_files state_file)
        ⊎ (perform_all (first n (write_state_snapshot state_file "[]")) no_files state_file
            ≡ some "[]"))
    × (perform_all (write_state_snapshot state_file "[]") no_files state_file ≡ some "[]")
write_state_snapshot_atomic_example = write_state_snapshot_atomic state_file "[]" no_files

abbrev old_file : String
old_file = "# Notes\n\n<!-- CAMP:START -->\nold\n<!-- CAMP:END -->\n\nMore.\n"

abbrev agents_file : FilePath
agents_file = record { parent = []; file_name = some "AGENTS.md" }

abbrev config_file : FilePath
config_file = record { parent = []; file_name = some ".camp.toml" }

abbrev one_file : Disk
one_file path = if path_eq path agents_file then some old_file else none

abbrev display : FilePath → String
display path = name_or "" path.file_name

abbrev config : CampConfigFile
config = record {
  agent = record {
    id = "agent-1";
    role = "coder";
    project = "demo";
    branch = "main";
    port = 8080;
    status = idle;
    capabilities = [];
    metadata = [];
  };
  discovery = record {
    service_type = "_agent-mesh._tcp.local.";
    mdns_port = 5353;
    heartbeat_ms = 30000;
    ttl_ms = 120000;
    shared_secret = none;
    shared_secret_accept = [];
    shared_secret_mode = sign_and_verify;
    enable_interface = [];
    disable_interface = [];
  };
}

in_order : IsOrdered (find agents_guidance_start old_file) (find agents_guidance_end old_file)
unfolding find
in_order = omega arith

has_text_behind : is_empty (text_behind display agents_file config_file config old_file) ≡ false
unfolding find zero_conf_mesh.Prelude.Text.trim_start zero_conf_mesh.Prelude.Text.Find.drop length
has_text_behind = refl

upsert_again_example : updates display agents_file config_file config 3 one_file agents_file ≡ (
    if is_empty (text_behind display agents_file config_file config old_file)
    then updates display agents_file config_file config 1 one_file agents_file
    else some (
        or_empty (updates display agents_file config_file config 1 one_file agents_file) ++ "\n\n"))
unfolding zero_conf_mesh.Prelude.Text.contains_char path_eq
upsert_again_example =
    upsert_again display agents_file config_file config 2 one_file refl refl in_order
