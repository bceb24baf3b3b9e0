-- ===== src/Camp/Stream/Watching.antt =====
-- The state file that `watch` keeps.
use zero_conf_mesh.Prelude.{
  ℕ, String, false, ◌≡◌, refl, sym, ◌∙◌, List, [], ◌∷◌, ◌++◌, Option, none, some, inl, inr,
}
use mathlib.Core.Path.{subst}
use zero_conf_mesh.Types.Announcement.{IpAddr}
use zero_conf_mesh.Events.{AgentEvent, joined, updated, left}
use zero_conf_mesh.Registry.{Registry, subscribe}
use zero_conf_mesh.Camp.Outcome.{Outcome, done, failed, Outcome-cases}
use zero_conf_mesh.Camp.Files.{FilePath, path_eq, Disk, prepare, perform_all, append_json_line}
use zero_conf_mesh.Camp.Files.Laws.{
  perform_all-Spares, append_json_line-Spares, write_state_snapshot_atomic,
}
use zero_conf_mesh.Camp.Records.{AgentRecord, to_event_record, snapshot}
use zero_conf_mesh.Camp.Stream.{
  Message, snapshot_message, kind, JsonApi, WatchCommand, Effect, prints, operates, runs, Run,
  ◌then_run◌, save_state, save_line, run_hook, emit, watch_loop, run_watch,
}

-- What runs of the hook do to the disk, by the command, the kind and the text.
abbrev pub HookWrites : Type 0
HookWrites = String → String → String → Disk → Disk

-- The disk after some effects.
unfoldable pub disk_after : HookWrites → List Effect → Disk → Disk
disk_after writes [] disk = disk
disk_after writes (prints text ∷ effects) disk = disk_after writes effects disk
disk_after writes (operates ops ∷ effects) disk = disk_after writes effects (perform_all ops disk)
disk_after writes (runs command name text ∷ effects) disk =
    disk_after writes effects (writes command name text disk)

disk_after-append :
    (writes : HookWrites) (l m : List Effect) (disk : Disk)
    → disk_after writes (l ++ m) disk ≡ disk_after writes m (disk_after writes l disk)
unfolding disk_after
disk_after-append writes [] m disk = refl
disk_after-append writes (prints text ∷ l) m disk = disk_after-append writes l m disk
disk_after-append writes (operates ops ∷ l) m disk =
    disk_after-append writes l m (perform_all ops disk)
disk_after-append writes (runs command name text ∷ l) m disk =
    disk_after-append writes l m (writes command name text disk)

module _ (writes : HookWrites) where
  -- A run that ends well takes disks with the one property to disks with the other.
  abbrev Leaves : (Disk → Type 0) → (Disk → Type 0) → Run → Type 0
  Leaves Q P (effects, failed message) = Unit
  Leaves Q P (effects, done _) = (disk : Disk) → Q disk → P (disk_after writes effects disk)

  Leaves-then_run :
      (Q R P : Disk → Type 0) (x y : Run) → Leaves Q R x → Leaves R P y → Leaves Q P (x then_run y)
  Leaves-then_run Q R P (l, failed message) y hx hy = tt
  Leaves-then_run Q R P (l, done u) (m, failed message) hx hy = tt
  Leaves-then_run Q R P (l, done u) (m, done v) hx hy = λ disk q.
      subst P (sym (disk_after-append writes l m disk)) (hy (disk_after writes l disk) (hx disk q))

  Leaves-Ends :
      (Q P : Disk → Type 0) (run : Run) (disk : Disk) {effects : List Effect}
      → run ≡ (effects, done tt)
      → Leaves Q P run
      → Q disk
      → P (disk_after writes effects disk)
  Leaves-Ends Q P run disk {effects} h leaves q =
      let l : Leaves Q P (effects, done tt) = subst (Leaves Q P) h leaves in l disk q

module _ (display : IpAddr → String) (json : JsonApi) (hook : String → String → Outcome (Unit {0}))
    (path : FilePath) (writes : HookWrites) where
  -- The file has the agents, as they are serialized.
  abbrev pub Saved : List AgentRecord → Disk → Type 0
  Saved agents disk =
      (payload : String) × (json.to_vec_pretty agents ≡ done payload) × (disk path ≡ some payload)

  abbrev AnyDisk : Disk → Type 0
  AnyDisk disk = Unit

  save_state-Leaves :
      (agents : List AgentRecord)
      → Leaves writes AnyDisk (Saved agents) (save_state display json hook (some path) agents)
  unfolding save_state disk_after
  save_state-Leaves agents = elim (Outcome-cases (json.to_vec_pretty agents)) [
    | inl (payload, e) ↦
        rw (e, save_state)
          (λ disk u. (payload, e, (write_state_snapshot_atomic path payload disk).1))
    | inr (message, e) ↦ rw (e, save_state) tt
  ]

  -- The other file, if there is one, is not this one.
  abbrev pub IsApart : Option FilePath → Type 0
  IsApart none = Unit
  IsApart (some other) = path_eq other path ≡ false

  save_line-Leaves :
      (other : Option FilePath) (text : String) (agents : List AgentRecord)
      → IsApart other
      → Leaves writes (Saved agents) (Saved agents) (save_line display json hook other text)
  unfolding save_line disk_after append_json_line prepare
  save_line-Leaves none text agents apart = λ disk s. s
  save_line-Leaves (some other) text agents apart = λ disk (payload, e, f). (
    payload,
    e,
    perform_all-Spares path (append_json_line other text) disk
          (append_json_line-Spares path other text apart)
        ∙ f,
  )

  -- The hook leaves the state file alone.
  abbrev pub IsSpared : Type 0
  IsSpared = (exec name text : String) (disk : Disk) → writes exec name text disk path ≡ disk path

  run_hook-Leaves :
      (exec : Option String) (name text : String) (agents : List AgentRecord)
      → IsSpared
      → Leaves writes (Saved agents) (Saved agents) (run_hook display json hook exec name text)
  unfolding run_hook disk_after
  run_hook-Leaves none name text agents spared = λ disk s. s
  run_hook-Leaves (some exec) name text agents spared = elim (Outcome-cases (hook name text)) [
    | inl (u, e) ↦ rw e (λ disk (payload, p, q). (payload, p, spared exec name text disk ∙ q))
    | inr (message, e) ↦ rw e tt
  ]

  given_path :
      {o : Option FilePath} (agents : List AgentRecord)
      → o ≡ some path
      → Leaves writes AnyDisk (Saved agents) (save_state display json hook o agents)
  given_path {o = o} agents e = rw e (save_state-Leaves agents)

  emit-Leaves :
      (command : WatchCommand) (message : Message) (agents : List AgentRecord)
      → command.write_state ≡ some path
      → IsApart command.write_events
      → IsSpared
      → Leaves writes AnyDisk (Saved agents) (emit display json hook command message agents)
  unfolding emit disk_after
  emit-Leaves command message agents e apart spared =
      elim (Outcome-cases (json.to_string message)) [
        | inl (text, f) ↦
            let printed : Run = (prints text ∷ [], done tt) in
            let saved = save_state display json hook command.write_state agents in
            let logged = save_line display json hook command.write_events text in
            let hooked = run_hook display json hook command.exec (kind message) text in
            rw (f, emit)
              (Leaves-then_run writes AnyDisk (Saved agents) (Saved agents)
                (printed then_run saved then_run logged) hooked
                (Leaves-then_run writes AnyDisk (Saved agents) (Saved agents)
                  (printed then_run saved) logged
                  (Leaves-then_run writes AnyDisk AnyDisk (Saved agents) printed saved
                    (λ disk u. tt) (given_path agents e))
                  (save_line-Leaves command.write_events text agents apart))
                (run_hook-Leaves command.exec (kind message) text agents spared))
        | inr (reason, f) ↦ rw (f, emit) tt
      ]

  -- The registry that was read last: after the last event before the receiver's first error.
  abbrev pub last_read : Registry → List (Option AgentEvent × Registry) → Registry
  last_read r [] = r
  last_read r ((none, s) ∷ received) = r
  last_read r ((some event, s) ∷ received) = last_read s received

  weaken :
      (P : Disk → Type 0) (Q : Disk → Type 0) (run : Run)
      → Leaves writes AnyDisk P run
      → Leaves writes Q P run
  weaken P Q (effects, failed message) h = tt
  weaken P Q (effects, done u) h = λ disk q. h disk tt

  emit-then :
      (command : WatchCommand) (message : Message) (r t : Registry) (P : Disk → Type 0) (rest : Run)
      → command.write_state ≡ some path
      → IsApart command.write_events
      → IsSpared
      → Leaves writes (Saved (snapshot display t).agents) P rest
      → Leaves writes
          (Saved (snapshot display r).agents)
          P
          (emit display json hook command message (snapshot display t).agents then_run rest)
  emit-then command message r t P rest e apart spared h =
      let run = emit display json hook command message (snapshot display t).agents in
      Leaves-then_run writes (Saved (snapshot display r).agents) (Saved (snapshot display t).agents)
        P run rest
        (weaken (Saved (snapshot display t).agents) (Saved (snapshot display r).agents) run
          (emit-Leaves command message (snapshot display t).agents e apart spared))
        h

  watch_loop-Leaves :
      (command : WatchCommand) (r : Registry) (received : List (Option AgentEvent × Registry))
      → command.write_state ≡ some path
      → IsApart command.write_events
      → IsSpared
      → Leaves writes
          (Saved (snapshot display r).agents)
          (Saved (snapshot display (last_read r received)).agents)
          (watch_loop display json hook command received)
  unfolding watch_loop disk_after to_event_record
  watch_loop-Leaves command r [] e apart spared = λ disk s. s
  watch_loop-Leaves command r ((none, t) ∷ received) e apart spared = λ disk s. s
  watch_loop-Leaves command r ((some (joined a o), t) ∷ received) e apart spared =
      emit-then command _ r t (Saved (snapshot display (last_read t received)).agents)
        (watch_loop display json hook command received) e apart spared
        (watch_loop-Leaves command t received e apart spared)
  watch_loop-Leaves command r ((some (updated p a o), t) ∷ received) e apart spared =
      emit-then command _ r t (Saved (snapshot display (last_read t received)).agents)
        (watch_loop display json hook command received) e apart spared
        (watch_loop-Leaves command t received e apart spared)
  watch_loop-Leaves command r ((some (left a o y), t) ∷ received) e apart spared =
      emit-then command _ r t (Saved (snapshot display (last_read t received)).agents)
        (watch_loop display json hook command received) e apart spared
        (watch_loop-Leaves command t received e apart spared)

  -- If `watch` keeps a state file, apart from its log of events if it keeps one, its hook, which may do
  -- anything else to the disk, leaves the state file alone, and it ends well, then whatever the disk
  -- was, the state file has the agents of the registry as it was read last, after the last event
  -- received, or for the snapshot if none was.
  pub run_watch-Saved :
      (command : WatchCommand) (r s : Registry) (channel : ℕ → List (Option AgentEvent × Registry))
      (disk : Disk) {effects : List Effect}
      → command.write_state ≡ some path
      → IsApart command.write_events
      → IsSpared
      → run_watch display json hook command r s channel ≡ (effects, done tt)
      → Saved
          (snapshot display (last_read r (channel (subscribe s)))).agents
          (disk_after writes effects disk)
  unfolding run_watch
  run_watch-Saved command r s channel disk e apart spared h =
      let received = channel (subscribe s) in
      let begun =
        emit display json hook command (snapshot_message (snapshot display r))
          (snapshot display r).agents in
      Leaves-Ends writes AnyDisk (Saved (snapshot display (last_read r received)).agents)
        (run_watch display json hook command r s channel) disk h
        (Leaves-then_run writes AnyDisk (Saved (snapshot display r).agents)
          (Saved (snapshot display (last_read r received)).agents) begun
          (watch_loop display json hook command received)
          (emit-Leaves command (snapshot_message (snapshot display r)) (snapshot display r).agents e
            apart spared)
          (watch_loop-Leaves command r received e apart spared))
        tt
