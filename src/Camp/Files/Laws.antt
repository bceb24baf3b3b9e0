-- ===== src/Camp/Files/Laws.antt =====
-- The state file is replaced at once; the log only grows.
use Prim.Native.String.{◌++◌}
use mathlib.Core.List
use text.Mathlib.TextLemmas.{nil-append, cons-append, append-nil, append_assoc}
use zero_conf_mesh.Prelude.{
  ℕ, zero, suc, String, true, false, ◌≡◌, refl, ap, ◌∙◌, sym, arith, List, [], ◌∷◌, Option, none,
  some, ◌==◌, eq_refl, str-cases, ◌⊎◌, inl, inr,
}
use zero_conf_mesh.Types.Info.{list_eq}
use zero_conf_mesh.Prelude.Text.Find.{length, length-append}
use zero_conf_mesh.Camp.Files.{
  FilePath, name_eq, path_eq, Disk, Operation, create_dir_all, truncate, create, push, rename,
  or_empty, set, perform, perform_all, write_all, write, create_parent, prepare, name_or,
  temporary_state_path, write_state_snapshot, append_json_line,
}

abbrev pub first : ℕ → List Operation → List Operation
first zero ops = []
first (suc n) [] = []
first (suc n) (op ∷ ops) = op ∷ first n ops

longer : (s : String) → ("." ++ (s ++ ".tmp") == s) ≡ false
unfolding length
longer s = elim (str-cases ("." ++ (s ++ ".tmp")) s) [
  | inl (e, p) ↦
      absurd (omega (arith, ap length p, length-append "." (s ++ ".tmp"), length-append s ".tmp"))
  | inr (e, p) ↦ e
]

list_eq_refl : (l : List String) → list_eq ◌==◌ l l ≡ true
list_eq_refl [] = refl
list_eq_refl (s ∷ l) = rw (eq_refl s, list_eq_refl l) refl

other_name :
    (o : Option String) → name_eq (some ("." ++ (name_or "camp-state.json" o ++ ".tmp"))) o ≡ false
other_name none = refl
other_name (some s) = longer s

-- The path of the temporary file is another one.
pub temporary_path : (p : FilePath) → path_eq (temporary_state_path p) p ≡ false
unfolding path_eq temporary_state_path
temporary_path p = rw (list_eq_refl p.parent) (other_name p.file_name)

name_eq_refl : (o : Option String) → name_eq o o ≡ true
name_eq_refl none = refl
name_eq_refl (some s) = eq_refl s

path_eq_refl : (p : FilePath) → path_eq p p ≡ true
unfolding path_eq
path_eq_refl p = rw (list_eq_refl p.parent) (name_eq_refl p.file_name)

-- Operations that leave a path alone.
abbrev pub Spares : FilePath → List Operation → Type 0
Spares p [] = Unit
Spares p (create_dir_all l ∷ ops) = Spares p ops
Spares p (truncate q ∷ ops) = (path_eq q p ≡ false) × Spares p ops
Spares p (create q ∷ ops) = (path_eq q p ≡ false) × Spares p ops
Spares p (push q text ∷ ops) = (path_eq q p ≡ false) × Spares p ops
Spares p (rename q r ∷ ops) = (path_eq q p ≡ false) × (path_eq r p ≡ false) × Spares p ops

pub perform_all-Spares :
    (p : FilePath) (ops : List Operation) (disk : Disk)
    → Spares p ops
    → perform_all ops disk p ≡ disk p
unfolding perform_all perform set
perform_all-Spares p [] disk h = refl
perform_all-Spares p (create_dir_all l ∷ ops) disk h = perform_all-Spares p ops disk h
perform_all-Spares p (truncate q ∷ ops) disk h =
    perform_all-Spares p ops (set q (some "") disk) h.1 ∙ rw h.0 refl
perform_all-Spares p (create q ∷ ops) disk h =
    perform_all-Spares p ops (set q (some (or_empty (disk q))) disk) h.1 ∙ rw h.0 refl
perform_all-Spares p (push q text ∷ ops) disk h =
    perform_all-Spares p ops (set q (some (or_empty (disk q) ++ text)) disk) h.1 ∙ rw h.0 refl
perform_all-Spares p (rename q r ∷ ops) disk h =
    perform_all-Spares p ops (set r (disk q) (set q none disk)) h.2 ∙ rw (h.1, h.0) refl

first-Spares : (p : FilePath) (n : ℕ) (ops : List Operation) → Spares p ops → Spares p (first n ops)
first-Spares p zero ops h = tt
first-Spares p (suc n) [] h = tt
first-Spares p (suc n) (create_dir_all l ∷ ops) h = first-Spares p n ops h
first-Spares p (suc n) (truncate q ∷ ops) h = (h.0, first-Spares p n ops h.1)
first-Spares p (suc n) (create q ∷ ops) h = (h.0, first-Spares p n ops h.1)
first-Spares p (suc n) (push q text ∷ ops) h = (h.0, first-Spares p n ops h.1)
first-Spares p (suc n) (rename q r ∷ ops) h = (h.0, h.1, first-Spares p n ops h.2)

-- A beginning of a list that ends in an operation lacks it or is all of it.
first_or_all :
    (n : ℕ) (ops : List Operation) (op : Operation)
    → (first n (List.◌++◌ ops (op ∷ [])) ≡ first n ops)
      ⊎ (first n (List.◌++◌ ops (op ∷ [])) ≡ List.◌++◌ ops (op ∷ []))
first_or_all zero ops op = inl refl
first_or_all (suc zero) [] op = inr refl
first_or_all (suc (suc n)) [] op = inr refl
first_or_all (suc n) (x ∷ ops) op = elim (first_or_all n ops op) [
  | inl e ↦ inl (ap (◌∷◌ x) e)
  | inr e ↦ inr (ap (◌∷◌ x) e)
]

pub perform_all-append :
    (ops more : List Operation) (disk : Disk)
    → perform_all (List.◌++◌ ops more) disk ≡ perform_all more (perform_all ops disk)
unfolding perform_all
perform_all-append [] more disk = refl
perform_all-append (op ∷ ops) more disk = perform_all-append ops more (perform op disk)

-- Writing appends to what is there.
pub perform-write_all :
    (p : FilePath) (s text : String) (disk : Disk)
    → disk p ≡ some s
    → perform_all (write_all p text) disk p ≡ some (s ++ text)
unfolding perform_all write_all perform set
perform-write_all p s String.[] disk h = rw append-nil h
perform-write_all p s (String.◌∷◌ c text) disk h =
    perform-write_all p (s ++ String.◌∷◌ c "") text
      (set p (some (or_empty (disk p) ++ String.◌∷◌ c "")) disk) (rw (path_eq_refl p, h) refl)
    ∙ ap some (
        append_assoc s (String.◌∷◌ c "") text
        ∙ ap (s ++◌) (cons-append c "" text ∙ ap (String.◌∷◌ c) (nil-append text)))

pub perform-write :
    (p : FilePath) (text : String) (disk : Disk) → perform_all (write p text) disk p ≡ some text
unfolding perform_all write perform set
perform-write p text disk =
    perform-write_all p "" text (set p (some "") disk) (rw (path_eq_refl p) refl)
    ∙ ap some (nil-append text)

pub write_all-Spares :
    (p q : FilePath) (text : String) → path_eq q p ≡ false → Spares p (write_all q text)
unfolding write_all
write_all-Spares p q String.[] h = tt
write_all-Spares p q (String.◌∷◌ c text) h = (h, write_all-Spares p q text h)

last_rename :
    (path : FilePath) (payload : String) (ops : List Operation) (disk : Disk)
    → perform_all
        (List.◌++◌
          (List.◌++◌ ops (write (temporary_state_path path) payload))
          (rename (temporary_state_path path) path ∷ []))
        disk
        path
      ≡ some payload
unfolding perform_all perform set
last_rename path payload ops disk =
    let tmp = temporary_state_path path in
    rw (perform_all-append, perform_all-append, path_eq_refl path)
      (perform-write tmp payload (perform_all ops disk))

-- Every operation but the last of a snapshot's leaves its target alone.
abbrev pub snapshot_start : FilePath → String → List Operation
snapshot_start path payload = List.◌++◌ (prepare path) (write (temporary_state_path path) payload)

pub create_parent-Spares :
    (p : FilePath) (l : List String) (ops : List Operation)
    → Spares p ops
    → Spares p (List.◌++◌ (create_parent l) ops)
create_parent-Spares p [] ops h = h
create_parent-Spares p (name ∷ l) ops h = h

snapshot_start-Spares :
    (path : FilePath) (payload : String) → Spares path (snapshot_start path payload)
unfolding prepare write
snapshot_start-Spares path payload =
    create_parent-Spares path path.parent (write (temporary_state_path path) payload) (
      temporary_path path,
      write_all-Spares path (temporary_state_path path) payload (temporary_path path),
    )

-- Whatever the disk, the path and the payload: if the writing of a state file ends after any of its
-- operations, by an error or a crash, the file under the path is what it was or has all of the
-- payload, and after all of them it has the payload.
pub write_state_snapshot_atomic :
    (path : FilePath) (payload : String) (disk : Disk)
    → ((n : ℕ)
        → (perform_all (first n (write_state_snapshot path payload)) disk path ≡ disk path)
          ⊎ (perform_all (first n (write_state_snapshot path payload)) disk path ≡ some payload))
      × (perform_all (write_state_snapshot path payload) disk path ≡ some payload)
unfolding write_state_snapshot
write_state_snapshot_atomic path payload disk =
    let tmp = temporary_state_path path in
    let start = snapshot_start path payload in
    let last = rename tmp path in
    let spared : (n : ℕ) → perform_all (first n start) disk path ≡ disk path = λ n.
      perform_all-Spares path (first n start) disk
        (first-Spares path n start (snapshot_start-Spares path payload)) in
    let parts : write_state_snapshot path payload ≡ List.◌++◌ start (last ∷ []) =
      sym (List.append_assoc (prepare path) (write tmp payload) (last ∷ [])) in
    let whole = last_rename path payload (prepare path) disk in
    (
      λ n. elim (first_or_all n start last) [
        | inl e ↦ inl (rw (parts, e) (spared n))
        | inr e ↦ inr (rw (parts, e) whole)
      ],
      rw parts whole,
    )

pub create_parent-perform_all :
    (l : List String) (ops : List Operation) (disk : Disk)
    → perform_all (List.◌++◌ (create_parent l) ops) disk ≡ perform_all ops disk
unfolding perform_all perform
create_parent-perform_all [] ops disk = refl
create_parent-perform_all (name ∷ l) ops disk = refl

-- After a line was appended to a file, that file has its old text, the line and a newline; a file
-- that was not there counts as an empty one.
pub perform-append_json_line :
    (path : FilePath) (line : String) (disk : Disk)
    → perform_all (append_json_line path line) disk path
      ≡ some ((or_empty (disk path) ++ line) ++ "\n")
unfolding append_json_line prepare perform_all perform set
perform-append_json_line path line disk =
    let created = set path (some (or_empty (disk path))) disk in
    ap (λ (d : Disk). d path)
      (create_parent-perform_all path.parent
          (create path ∷ List.◌++◌ (write_all path line) (write_all path "\n")) disk
        ∙ perform_all-append (write_all path line) (write_all path "\n") created)
    ∙ perform-write_all path (or_empty (disk path) ++ line) "\n"
        (perform_all (write_all path line) created)
        (perform-write_all path (or_empty (disk path)) line created (rw (path_eq_refl path) refl))

-- A file that is written after its parent was created, as seen at its path and at another one.
pub prepare-write-Spares :
    (p q : FilePath) (text : String)
    → path_eq q p ≡ false
    → Spares p (List.◌++◌ (prepare q) (write q text))
unfolding prepare write
prepare-write-Spares p q text apart =
    create_parent-Spares p q.parent (write q text) (apart, write_all-Spares p q text apart)

pub perform-prepare-write :
    (p : FilePath) (text : String) (disk : Disk)
    → perform_all (List.◌++◌ (prepare p) (write p text)) disk p ≡ some text
unfolding prepare
perform-prepare-write p text disk =
    ap (λ (d : Disk). d p) (create_parent-perform_all p.parent (write p text) disk)
    ∙ perform-write p text disk

append-Spares :
    (p : FilePath) (l m : List Operation) → Spares p l → Spares p m → Spares p (List.◌++◌ l m)
append-Spares p [] m h g = g
append-Spares p (create_dir_all x ∷ l) m h g = append-Spares p l m h g
append-Spares p (truncate q ∷ l) m h g = (h.0, append-Spares p l m h.1 g)
append-Spares p (create q ∷ l) m h g = (h.0, append-Spares p l m h.1 g)
append-Spares p (push q text ∷ l) m h g = (h.0, append-Spares p l m h.1 g)
append-Spares p (rename q r ∷ l) m h g = (h.0, h.1, append-Spares p l m h.2 g)

pub append_json_line-Spares :
    (p q : FilePath) (line : String) → path_eq q p ≡ false → Spares p (append_json_line q line)
unfolding append_json_line prepare
append_json_line-Spares p q line apart =
    create_parent-Spares p q.parent (create q ∷ List.◌++◌ (write_all q line) (write_all q "\n")) (
      apart,
      append-Spares p (write_all q line) (write_all q "\n") (write_all-Spares p q line apart)
          (write_all-Spares p q "\n" apart),
    )
