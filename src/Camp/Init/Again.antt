-- ===== src/Camp/Init/Again.antt =====
-- `init`, run again.
use Prim.Native.String.{◌++◌}
use zero_conf_mesh.Prelude.{
  ℕ, zero, suc, String, Bool, true, false, ◌≡◌, refl, sym, ap, ◌∙◌, if◌then◌else◌, Option, some,
}
use zero_conf_mesh.Prelude.Text.{is_empty, contains_char}
use zero_conf_mesh.Prelude.Text.Find.{find}
use zero_conf_mesh.Camp.Files.{FilePath, Disk, or_empty, perform_all}
use zero_conf_mesh.Camp.Files.Laws.{perform-prepare-write}
use zero_conf_mesh.Camp.Options.{CampConfigFile}
use zero_conf_mesh.Camp.Slug.{slugify}
use zero_conf_mesh.Camp.Guidance.{
  agents_guidance_start, agents_guidance_end, replace_marked_block, render_agents_guidance,
}
use zero_conf_mesh.Camp.Guidance.Located.{located, IsOrdered, rewritten, newlines}
use zero_conf_mesh.Camp.Guidance.Again.{replace_again}
use zero_conf_mesh.Camp.Guidance.Rendered.{render-IsBlock, start-IsMarker, end-IsMarker}
use zero_conf_mesh.Camp.Init.{upsert_agents_guidance}

some_if :
    (b : Bool) (text more : String) (o : Option String)
    → o ≡ some text
    → some (if b then text else text ++ more) ≡ (if b then o else some (or_empty o ++ more))
some_if true text more o e = sym e
some_if false text more o e = rw e refl

module _ (display : FilePath → String) (path config_path : FilePath) (config : CampConfigFile) where
  -- The text of the guidance file after an update.
  abbrev updated : String → String
  updated text = replace_marked_block text agents_guidance_start agents_guidance_end (
      render_agents_guidance (display config_path) config.agent.project
        (slugify config.agent.project))

  perform-upsert :
      (disk : Disk)
      → perform_all (upsert_agents_guidance display path config_path config disk) disk path
        ≡ some (updated (or_empty (disk path)))
  unfolding upsert_agents_guidance
  perform-upsert disk = perform-prepare-write path (updated (or_empty (disk path))) disk

  -- The text behind the block of the guidance file, as an update takes it.
  abbrev pub text_behind : String → String
  text_behind text =
      (located text agents_guidance_end (find agents_guidance_start text)
        (find agents_guidance_end text)).1

  -- The disk after so many updates.
  abbrev pub updates : ℕ → Disk → Disk
  updates zero disk = disk
  updates (suc n) disk =
      updates n (perform_all (upsert_agents_guidance display path config_path config disk) disk)

  -- So many updates rewrite the text of the file so often.
  updates-rewritten :
      (n : ℕ) (disk : Disk) (text : String)
      → disk path ≡ some text
      → updates n disk path ≡ some (rewritten updated n text)
  updates-rewritten zero disk text e = e
  updates-rewritten (suc n) disk text e =
      updates-rewritten n
        (perform_all (upsert_agents_guidance display path config_path config disk) disk)
        (updated text)
        (perform-upsert disk ∙ ap (λ (o : Option String). some (updated (or_empty o))) e)

  -- If the displayed path of the config and the project have no `<`, and the guidance file is not there
  -- or has both markers in their order or neither: after an update, `n` updates more leave the file as
  -- it is if there was no text behind the block at first, and else append `n` newlines.
  pub upsert_again :
      (n : ℕ) (disk : Disk)
      → contains_char b'<' (display config_path) ≡ false
      → contains_char b'<' config.agent.project ≡ false
      → IsOrdered
          (find agents_guidance_start (or_empty (disk path)))
          (find agents_guidance_end (or_empty (disk path)))
      → updates (suc n) disk path ≡ (
          if is_empty (text_behind (or_empty (disk path)))
          then updates 1 disk path
          else some (or_empty (updates 1 disk path) ++ newlines n))
  upsert_again n disk hd hp ordered =
      let once = updates 1 disk in
      let text = or_empty (disk path) in
      let first = perform-upsert disk in
      let again =
        replace_again n agents_guidance_start agents_guidance_end
          (render_agents_guidance (display config_path) config.agent.project
            (slugify config.agent.project))
          text start-IsMarker end-IsMarker
          (render-IsBlock (display config_path) config.agent.project hd hp) ordered in
      updates-rewritten n once (updated text) first
      ∙ ap some again
      ∙ some_if (is_empty (text_behind text)) (updated text) (newlines n) (once path) first
