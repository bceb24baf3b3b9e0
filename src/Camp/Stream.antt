-- ===== src/Camp/Stream.antt =====
-- src/bin/camp.rs: the `/events` stream and the `watch` loop: a snapshot, and then the events that a
-- receiver gets, up to its first error. What a receiver gets is an argument.
pub mod Views
pub mod Watching
pub mod Printed
use zero_conf_mesh.Prelude.{
  ℕ, String, List, [], ◌∷◌, ◌++◌, Option, none, some, map, ◌==◌, if◌then◌else◌,
}
use zero_conf_mesh.Types.Announcement.{IpAddr}
use zero_conf_mesh.Events.{AgentEvent}
use zero_conf_mesh.Registry.{Registry, subscribe}
use zero_conf_mesh.Registry.Queries.{list}
use zero_conf_mesh.Camp.Outcome.{Outcome, done, failed, ◌>>=◌}
use zero_conf_mesh.Camp.Files.{FilePath, Operation, prepare, write_state_snapshot, append_json_line}
use zero_conf_mesh.Camp.Options.{DiscoveryOptions}
use zero_conf_mesh.Camp.Records.{
  AgentRecord, EventRecord, SnapshotRecord, to_agent_record, to_event_record, snapshot,
}

-- What is serialized, in its order.
pub data Message : Type 0 where
  snapshot_message : SnapshotRecord → Message
  event_message : EventRecord → Message

abbrev pub kind : Message → String
kind (snapshot_message s) = s.kind
kind (event_message e) = e.kind

pub record SseEvent : Type 0 where
  pub event : String
  pub data_text : String

-- `serde_json::to_string` of a message and `to_vec_pretty` of the agents.
pub record JsonApi : Type 0 where
  pub to_string : Message → Outcome String
  pub to_vec_pretty : List AgentRecord → Outcome String

pub record WatchCommand : Type 0 where
  pub discovery : DiscoveryOptions
  pub write_state : Option FilePath
  pub write_events : Option FilePath
  pub exec : Option String

module _ (display : IpAddr → String) where
  -- The messages of the events received, until `recv` returns an error, `none`.
  unfoldable pub event_messages : List (Option AgentEvent) → List Message
  unfolding to_event_record
  event_messages [] = []
  event_messages (none ∷ received) = []
  event_messages (some event ∷ received) = elim (to_event_record display event) [
    | none ↦ event_messages received
    | some record_ ↦ event_message record_ ∷ event_messages received
  ]

  -- The messages of a stream with its snapshot taken of `r`.
  unfoldable pub messages : Registry → List (Option AgentEvent) → List Message
  unfolding event_messages snapshot
  messages r received = snapshot_message (snapshot display r) ∷ event_messages received

  module _ (json : JsonApi) where
    -- A message that is not serialized is left out.
    unfoldable pub sse_events : List Message → List SseEvent
    sse_events [] = []
    sse_events (m ∷ ms) = elim (json.to_string m) [
      | failed _ ↦ sse_events ms
      | done text ↦ record { event = kind m; data_text = text } ∷ sse_events ms
    ]

    -- The body of the `/events` handler.
    unfoldable pub events_handler : Registry → List (Option AgentEvent) → List SseEvent
    unfolding messages sse_events
    events_handler r received = sse_events (messages r received)

-- What `watch` does, one after the other: lines on the standard output, operations on the disk, and
-- runs of the hook with the kind and the text.
pub data Effect : Type 0 where
  prints : String → Effect
  operates : List Operation → Effect
  runs : String → String → String → Effect

-- What was done, and how it ended: an error ends the command.
abbrev pub Run : Type 0
Run = List Effect × Outcome (Unit {0})

infixl 5 ◌then_run◌
abbrev pub ◌then_run◌ : Run → Run → Run
(effects, failed message) then_run next = (effects, failed message)
(effects, done _) then_run (more, ended) = (effects ++ more, ended)

abbrev pub nothing : Run
nothing = ([], done tt)

module _ (display : IpAddr → String) (json : JsonApi)
    (hook : String → String → Outcome (Unit {0})) where
  -- `write_state_snapshot`, whose agents may fail to be serialized once the parent was created.
  unfoldable pub save_state : Option FilePath → List AgentRecord → Run
  unfolding prepare write_state_snapshot
  save_state none agents = nothing
  save_state (some path) agents = elim (json.to_vec_pretty agents) [
    | failed message ↦ (operates (prepare path) ∷ [], failed message)
    | done payload ↦ (operates (write_state_snapshot path payload) ∷ [], done tt)
  ]

  unfoldable pub save_line : Option FilePath → String → Run
  unfolding append_json_line
  save_line none text = nothing
  save_line (some path) text = (operates (append_json_line path text) ∷ [], done tt)

  unfoldable pub run_hook : Option String → String → String → Run
  run_hook none name text = nothing
  run_hook (some command) name text = (runs command name text ∷ [], hook name text)

  -- A message, with the agents for the state file.
  unfoldable pub emit : WatchCommand → Message → List AgentRecord → Run
  unfolding save_state save_line run_hook
  emit command message agents = elim (json.to_string message) [
    | failed reason ↦ ([], failed reason)
    | done text ↦
        (prints text ∷ [], done tt)
        then_run save_state command.write_state agents
        then_run save_line command.write_events text
        then_run run_hook command.exec (kind message) text
  ]

  -- The loop, for what `recv` returns each time, with the registry that is read after it.
  unfoldable pub watch_loop : WatchCommand → List (Option AgentEvent × Registry) → Run
  unfolding emit to_event_record snapshot
  watch_loop command [] = nothing
  watch_loop command ((none, r) ∷ received) = nothing
  watch_loop command ((some event, r) ∷ received) = elim (to_event_record display event) [
    | none ↦ watch_loop command received
    | some record_ ↦
        emit command (event_message record_) (snapshot display r).agents
        then_run watch_loop command received
  ]

  -- The snapshot is of the registry as it is `first`, once the observer has waited; it is printed,
  -- written and given to the hook, and only then the loop's receiver subscribes, with the registry as
  -- it is `second`. `channel` is what a receiver then gets that begins behind so many events. The
  -- observer's shutdown, after the loop, is not part of it.
  unfoldable pub run_watch :
      WatchCommand → Registry → Registry → (ℕ → List (Option AgentEvent × Registry)) → Run
  unfolding emit watch_loop snapshot
  run_watch command first second channel =
      emit command (snapshot_message (snapshot display first)) (snapshot display first).agents
      then_run watch_loop command (channel (subscribe second))
