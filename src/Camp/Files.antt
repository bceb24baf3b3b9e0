-- ===== src/Camp/Files.antt =====
-- src/bin/camp.rs: the files that the commands write, as the operations they perform on a disk, one
-- after the other. An I/O error, or a crash, ends them after any of them.
pub mod Laws
use Prim.Native.String.{◌++◌}
use mathlib.Core.List
use zero_conf_mesh.Prelude.{
  ℕ, zero, suc, String, Bool, true, false, not, ◌&&◌, if◌then◌else◌, List, [], ◌∷◌, Option, none,
  some, ◌==◌,
}
use zero_conf_mesh.Types.Info.{list_eq}
use zero_conf_mesh.Camp.Outcome.{Outcome, ok_or}

-- A path: the components in front of the file name, and the file name, which only the root and the
-- empty path lack (paths that end in `..` are left out).
pub record FilePath : Type 0 where
  pub parent : List String
  pub file_name : Option String

unfoldable pub with_file_name : String → FilePath → FilePath
with_file_name name path = record { parent = path.parent; file_name = some name }

abbrev pub name_eq : Option String → Option String → Bool
name_eq none none = true
name_eq (some a) (some b) = a == b
name_eq _ _ = false

unfoldable pub path_eq : FilePath → FilePath → Bool
path_eq p q = list_eq ◌==◌ p.parent q.parent && name_eq p.file_name q.file_name

-- The text of every file that is there.
abbrev pub Disk : Type 0
Disk = FilePath → Option String

-- Opening creates the file, or empties it for `truncate`; a write of a text is a write of any of its
-- parts after the other, here of one character.
pub data Operation : Type 0 where
  create_dir_all : List String → Operation
  truncate create : FilePath → Operation
  push : FilePath → String → Operation
  rename : FilePath → FilePath → Operation

abbrev pub or_empty : Option String → String
or_empty none = ""
or_empty (some text) = text

unfoldable pub set : FilePath → Option String → Disk → Disk
set p content disk = λ q. if path_eq p q then content else disk q

unfoldable pub perform : Operation → Disk → Disk
unfolding set
perform (create_dir_all p) disk = disk
perform (truncate p) disk = set p (some "") disk
perform (create p) disk = set p (some (or_empty (disk p))) disk
perform (push p text) disk = set p (some (or_empty (disk p) ++ text)) disk
perform (rename p q) disk = set q (disk p) (set p none disk)

unfoldable pub perform_all : List Operation → Disk → Disk
unfolding perform
perform_all [] disk = disk
perform_all (op ∷ ops) disk = perform_all ops (perform op disk)

-- `write_all`
unfoldable pub write_all : FilePath → String → List Operation
write_all path String.[] = []
write_all path (String.◌∷◌ c text) = push path (String.◌∷◌ c "") ∷ write_all path text

-- `fs::write`
unfoldable pub write : FilePath → String → List Operation
unfolding write_all
write path text = truncate path ∷ write_all path text

-- `fs::read_to_string`
unfoldable pub read_to_string : FilePath → Disk → Outcome String
read_to_string path disk = ok_or "No such file or directory (os error 2)" (disk path)

-- `create_dir_all` of the parent, unless that is empty: the first operations of every writer.
abbrev pub create_parent : List String → List Operation
create_parent [] = []
create_parent (first ∷ rest) = create_dir_all (first ∷ rest) ∷ []

unfoldable pub prepare : FilePath → List Operation
prepare path = create_parent path.parent

abbrev pub name_or : String → Option String → String
name_or otherwise none = otherwise
name_or otherwise (some name) = name

unfoldable pub temporary_state_path : FilePath → FilePath
unfolding with_file_name
temporary_state_path path =
    with_file_name ("." ++ (name_or "camp-state.json" path.file_name ++ ".tmp")) path

-- The payload is serialized before anything is written.
unfoldable pub write_state_snapshot : FilePath → String → List Operation
unfolding prepare write temporary_state_path
write_state_snapshot path payload =
    let tmp_path = temporary_state_path path in
    List.◌++◌ (prepare path) (List.◌++◌ (write tmp_path payload) (rename tmp_path path ∷ []))

unfoldable pub append_json_line : FilePath → String → List Operation
unfolding prepare write_all
append_json_line path line =
    List.◌++◌ (prepare path) (create path ∷ List.◌++◌ (write_all path line) (write_all path "\n"))
