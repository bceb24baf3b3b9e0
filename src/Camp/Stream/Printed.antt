-- ===== src/Camp/Stream/Printed.antt =====
-- The lines that `watch` prints.
use zero_conf_mesh.Prelude.{
  ℕ, String, length, ◌≡◌, refl, List, [], ◌∷◌, ◌++◌, Option, none, some, map, inl, inr,
}
use mathlib.Core.Path.{subst}
use zero_conf_mesh.Types.Announcement.{IpAddr}
use zero_conf_mesh.Events.{AgentEvent, joined, updated, left}
use zero_conf_mesh.Registry.{Registry, get, subscribe}
use zero_conf_mesh.Registry.Valid.{IsValid}
use zero_conf_mesh.Registry.Mirror.{Mirrors}
use zero_conf_mesh.Camp.Outcome.{Outcome, done, failed, Outcome-cases}
use zero_conf_mesh.Camp.Files.{FilePath}
use zero_conf_mesh.Camp.Records.{AgentRecord, to_event_record, snapshot, record?}
use zero_conf_mesh.Camp.Stream.{
  Message, snapshot_message, kind, JsonApi, WatchCommand, Effect, prints, operates, runs, Run,
  ◌then_run◌, save_state, save_line, run_hook, emit, watch_loop, run_watch, event_messages,
  messages,
}
use zero_conf_mesh.Camp.Stream.Views.{all_received, view, last_word, view-subscribed_late}

unfoldable pub printed : List Effect → List String
printed [] = []
printed (prints text ∷ effects) = text ∷ printed effects
printed (operates ops ∷ effects) = printed effects
printed (runs command name text ∷ effects) = printed effects

printed-append : (l m : List Effect) → printed (l ++ m) ≡ printed l ++ printed m
unfolding printed
printed-append [] m = refl
printed-append (prints text ∷ l) m = rw (printed-append l m) refl
printed-append (operates ops ∷ l) m = printed-append l m
printed-append (runs command name text ∷ l) m = printed-append l m

-- If the registry is `t` at the end, a receiver gets every event that was sent after it began.
abbrev pub Delivers : Registry → (ℕ → List (Option AgentEvent × Registry)) → Type 0
Delivers t channel =
    (before after : List AgentEvent)
    → t.sent ≡ before ++ after
    → map (λ received. received.0) (channel (length before)) ≡ all_received after

module _ (display : IpAddr → String) (json : JsonApi)
    (hook : String → String → Outcome (Unit {0})) where
  -- The lines are the messages, each in JSON.
  abbrev pub AreLines : List Message → List String → Type 0
  AreLines [] [] = Unit
  AreLines [] (line ∷ lines) = ⊥
  AreLines (m ∷ ms) [] = ⊥
  AreLines (m ∷ ms) (line ∷ lines) = (json.to_string m ≡ done line) × AreLines ms lines

  AreLines-append :
      (ms ns : List Message) (l k : List String)
      → AreLines ms l
      → AreLines ns k
      → AreLines (ms ++ ns) (l ++ k)
  AreLines-append [] ns [] k h i = i
  AreLines-append [] ns (line ∷ l) k h i = absurd h
  AreLines-append (m ∷ ms) ns [] k h i = absurd h
  AreLines-append (m ∷ ms) ns (line ∷ l) k h i = (h.0, AreLines-append ms ns l k h.1 i)

  -- A run that ends well prints these messages.
  abbrev Prints : List Message → Run → Type 0
  Prints ms (effects, failed reason) = Unit
  Prints ms (effects, done _) = AreLines ms (printed effects)

  Prints-then_run :
      (ms ns : List Message) (x y : Run)
      → Prints ms x
      → Prints ns y
      → Prints (ms ++ ns) (x then_run y)
  Prints-then_run ms ns (l, failed reason) y h i = tt
  Prints-then_run ms ns (l, done u) (k, failed reason) h i = tt
  Prints-then_run ms ns (l, done u) (k, done v) h i =
      rw (printed-append l k) (AreLines-append ms ns (printed l) (printed k) h i)

  save_state-Prints :
      (path : Option FilePath) (agents : List AgentRecord)
      → Prints [] (save_state display json hook path agents)
  unfolding save_state printed
  save_state-Prints none agents = tt
  save_state-Prints (some path) agents = elim (Outcome-cases (json.to_vec_pretty agents)) [
    | inl (payload, e) ↦ rw (e, save_state) tt
    | inr (reason, e) ↦ rw (e, save_state) tt
  ]

  save_line-Prints :
      (path : Option FilePath) (text : String) → Prints [] (save_line display json hook path text)
  unfolding save_line printed
  save_line-Prints none text = tt
  save_line-Prints (some path) text = tt

  run_hook-Prints :
      (exec : Option String) (name text : String)
      → Prints [] (run_hook display json hook exec name text)
  unfolding run_hook printed
  run_hook-Prints none name text = tt
  run_hook-Prints (some exec) name text = elim (Outcome-cases (hook name text)) [
    | inl (u, e) ↦ rw e tt
    | inr (reason, e) ↦ rw e tt
  ]

  emit-Prints :
      (command : WatchCommand) (message : Message) (agents : List AgentRecord)
      → Prints (message ∷ []) (emit display json hook command message agents)
  unfolding emit printed
  emit-Prints command message agents = elim (Outcome-cases (json.to_string message)) [
    | inl (text, f) ↦
        let one : Run = (prints text ∷ [], done tt) in
        let saved = save_state display json hook command.write_state agents in
        let logged = save_line display json hook command.write_events text in
        let hooked = run_hook display json hook command.exec (kind message) text in
        rw (f, emit)
          (Prints-then_run (message ∷ []) [] (one then_run saved then_run logged) hooked
            (Prints-then_run (message ∷ []) [] (one then_run saved) logged
              (Prints-then_run (message ∷ []) [] one saved (f, tt)
                (save_state-Prints command.write_state agents))
              (save_line-Prints command.write_events text))
            (run_hook-Prints command.exec (kind message) text))
    | inr (reason, f) ↦ rw (f, emit) tt
  ]

  watch_loop-Prints :
      (command : WatchCommand) (received : List (Option AgentEvent × Registry))
      → Prints
          (event_messages display (map (λ received. received.0) received))
          (watch_loop display json hook command received)
  unfolding watch_loop event_messages to_event_record printed
  watch_loop-Prints command [] = tt
  watch_loop-Prints command ((none, r) ∷ received) = tt
  watch_loop-Prints command ((some (joined a o), r) ∷ received) =
      Prints-then_run (_ ∷ []) (event_messages display (map (λ received. received.0) received)) _ _
        (emit-Prints command _ (snapshot display r).agents) (watch_loop-Prints command received)
  watch_loop-Prints command ((some (updated p a o), r) ∷ received) =
      Prints-then_run (_ ∷ []) (event_messages display (map (λ received. received.0) received)) _ _
        (emit-Prints command _ (snapshot display r).agents) (watch_loop-Prints command received)
  watch_loop-Prints command ((some (left a o y), r) ∷ received) =
      Prints-then_run (_ ∷ []) (event_messages display (map (λ received. received.0) received)) _ _
        (emit-Prints command _ (snapshot display r).agents) (watch_loop-Prints command received)

  run_watch-Prints :
      (command : WatchCommand) (r s : Registry) (channel : ℕ → List (Option AgentEvent × Registry))
      → Prints
          (messages display r (map (λ received. received.0) (channel (subscribe s))))
          (run_watch display json hook command r s channel)
  unfolding run_watch messages
  run_watch-Prints command r s channel =
      let received = channel (subscribe s) in
      Prints-then_run (snapshot_message (snapshot display r) ∷ [])
        (event_messages display (map (λ received. received.0) received)) _ _
        (emit-Prints command (snapshot_message (snapshot display r)) (snapshot display r).agents)
        (watch_loop-Prints command received)

  ended-AreLines :
      (ms : List Message) (run : Run) {effects : List Effect}
      → run ≡ (effects, done tt)
      → Prints ms run
      → AreLines ms (printed effects)
  ended-AreLines ms run {effects} e h =
      let p : Prints ms (effects, done tt) = subst (Prints ms) e h in p

  -- If `watch` ends well, its first registry being valid, the registry being `r` when it takes its
  -- snapshot, `s` when it subscribes, which it does after all that it does with the snapshot, and `t` at
  -- the end, all mirrored by their events, and its receiver gets every event sent after it began: the
  -- lines that it prints are messages of which a reader holds what the registry has at the end of
  -- every agent of which no event spoke between the snapshot and the subscription; and of an agent of
  -- which no event speaks later what the snapshot said, whatever was sent between.
  pub run_watch-late :
      (command : WatchCommand) (k : String) (r s t : Registry) (between later : List AgentEvent)
      (channel : ℕ → List (Option AgentEvent × Registry)) {effects : List Effect}
      → IsValid r
      → Mirrors r
      → Mirrors s
      → Mirrors t
      → s.sent ≡ r.sent ++ between
      → t.sent ≡ s.sent ++ later
      → Delivers t channel
      → run_watch display json hook command r s channel ≡ (effects, done tt)
      → (ms : List Message) × AreLines ms (printed effects)
        × (last_word k between ≡ none → view k none ms ≡ record? display (get k t))
        × (last_word k later ≡ none → view k none ms ≡ record? display (get k r))
  unfolding subscribe
  run_watch-late command k r s t between later channel v mr ms mt e f delivers ended =
      let lines =
        ended-AreLines (messages display r (map (λ received. received.0) (channel (subscribe s))))
          (run_watch display json hook command r s channel) ended
          (run_watch-Prints command r s channel) in
      let all = delivers s.sent later f in
      let (known, missed) = view-subscribed_late display k r s t between later v mr ms mt e f in
      (messages display r (all_received later), rw all at lines, known, missed)
