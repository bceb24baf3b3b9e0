-- ===== src/Camp/Guidance.antt =====
-- src/bin/camp.rs: the block of guidance that `init` keeps in `AGENTS.md`, between two markers.
pub mod Laws
pub mod Located
pub mod Again
pub mod Rendered
use Prim.Native.String.{◌++◌}
use zero_conf_mesh.Prelude.{
  ℕ, ◌+◌, String, Bool, true, false, if◌then◌else◌, Option, none, some, leb,
}
use zero_conf_mesh.Prelude.Text.{is_empty, trim, trim_start, trim_end}
use zero_conf_mesh.Prelude.Text.Find.{length, find, take, drop}

abbrev pub agents_guidance_start : String
agents_guidance_start = "<!-- CAMP:START -->"

abbrev pub agents_guidance_end : String
agents_guidance_end = "<!-- CAMP:END -->"

abbrev pub blank_line : String
blank_line = "\n\n"

-- The text around the block, each part with its separator.
unfoldable pub assemble : String → String → String → String
assemble before block after =
    if is_empty before
    then if is_empty after then block ++ "\n" else block ++ (blank_line ++ (after ++ "\n"))
    else if is_empty after
    then before ++ (blank_line ++ (block ++ "\n"))
    else before ++ (blank_line ++ (block ++ (blank_line ++ (after ++ "\n"))))

-- Without a block to replace, it goes to the end.
unfoldable pub append_block : String → String → String
append_block existing block =
    if is_empty (trim existing)
    then block ++ "\n"
    else trim_end existing ++ (blank_line ++ (block ++ "\n"))

unfoldable pub replace_at : String → String → String → Option ℕ → Option ℕ → String
unfolding assemble append_block
replace_at existing end block (some start_idx) (some end_idx) =
    if leb start_idx end_idx
    then assemble (trim_end (take start_idx existing)) block
        (trim_start (drop (end_idx + length end) existing))
    else append_block existing block
replace_at existing end block none found = append_block existing block
replace_at existing end block (some start_idx) none = append_block existing block

unfoldable pub replace_marked_block : String → String → String → String → String
unfolding replace_at
replace_marked_block existing start end replacement =
    replace_at existing end (trim_end replacement) (find start existing) (find end existing)

-- The lines of the guidance, for the config file's path as it is displayed and the state file's.
unfoldable pub guidance_body : String → String → String → String
guidance_body config_display project state_file =
    "\n## camp agent workflow\n\nThis repository is configured to use `camp` for local LAN agent discovery.\n\nIf `"
    ++ (config_display
        ++ ("` is missing on this machine, run `camp init --force` before using the commands below.\n\nRecommended commands for AI agents in this repo:\n- bring this repo's agent online: `camp up`\n- list peers for this project: `camp who --config "
            ++ (config_display
                ++ (" --project "
                    ++ (project
                        ++ ("`\n- find a reviewer quickly: `camp who --config "
                            ++ (config_display
                                ++ (" --project "
                                    ++ (project
                                        ++ (" --role reviewer`\n- mirror live mesh state to a file: `camp watch --config "
                                            ++ (config_display
                                                ++ (" --write-state "
                                                    ++ (state_file
                                                        ++ ("`\n- start the local HTTP + SSE bridge: `camp serve --config "
                                                            ++ (config_display
                                                            ++ " --bind 127.0.0.1:9999`\n\nThe generated config already includes this repo's defaults for project, branch, ports, and discovery settings.\nPrefer reusing a single long-running `camp up` process instead of starting multiple announcers for the same machine.\n")))))))))))))))

unfoldable pub render_agents_guidance : String → String → String → String
unfolding guidance_body
render_agents_guidance config_display project slug =
    agents_guidance_start
    ++ (guidance_body config_display project ("/tmp/" ++ (slug ++ "-camp-state.json"))
        ++ (agents_guidance_end ++ "\n"))
