-- ===== src/Tests/Stream.antt =====
-- src/bin/camp.rs: the event stream and the watch loop, over two agents that come.
use mathlib.Core.List
use zero_conf_mesh.Prelude.{
  ℕ, zero, suc, String, Bool, false, ◌≡◌, refl, ap, ◌∙◌, List, [], ◌∷◌, map, length, Option, none,
  some,
}
use zero_conf_mesh.Types.Announcement.{IpAddr, v4, v6}
use zero_conf_mesh.Events.{AgentEvent, joined, local, remote}
use zero_conf_mesh.Types.Info.{into_agent_info}
use zero_conf_mesh.Registry.{Registry, subscribe, with_event_capacity, get, upsert_with_origin_at}
use zero_conf_mesh.Registry.Valid.{IsValid, with_event_capacity-IsValid, upsert-IsValid}
use zero_conf_mesh.Registry.Mirror.{Mirrors, new-Mirrors, upsert-Mirrors}
use zero_conf_mesh.Camp.Outcome.{done}
use zero_conf_mesh.Camp.Files.{FilePath, Disk, set}
use zero_conf_mesh.Camp.Options.{sign_and_verify}
use zero_conf_mesh.Camp.Records.{record?, snapshot}
use zero_conf_mesh.Camp.Stream.{JsonApi, WatchCommand, Effect, Message, messages, run_watch}
use zero_conf_mesh.Camp.Stream.Views.{all_received, view, last_word, view-subscribed_first}
use zero_conf_mesh.Camp.Stream.Watching.{
  HookWrites, disk_after, Saved, IsSpared, last_read, run_watch-Saved,
}
use zero_conf_mesh.Camp.Stream.Printed.{printed, Delivers, AreLines, run_watch-late}
use zero_conf_mesh.Tests.Data.{sample, peer}

abbrev display : IpAddr → String
display (v4 _) = "v4"
display (v6 _) = "v6"

abbrev empty : Registry
empty = with_event_capacity 120 256

abbrev one : Registry
one = (upsert_with_origin_at peer 5 remote empty).0

abbrev two : Registry
two = (upsert_with_origin_at sample 100 local one).0

empty-IsValid : IsValid empty
empty-IsValid = with_event_capacity-IsValid 120 256

one-IsValid : IsValid one
one-IsValid = upsert-IsValid peer 5 remote empty empty-IsValid

empty-Mirrors : Mirrors empty
empty-Mirrors = new-Mirrors 120 256

one-Mirrors : Mirrors one
one-Mirrors = upsert-Mirrors empty empty-IsValid empty-Mirrors peer 5 remote

two-Mirrors : Mirrors two
two-Mirrors = upsert-Mirrors one one-IsValid one-Mirrors sample 100 local

abbrev peer_joins : List AgentEvent
peer_joins = joined (into_agent_info peer 5) remote ∷ []

abbrev sample_joins : List AgentEvent
sample_joins = joined (into_agent_info sample 100) local ∷ []

one_sent : one.sent ≡ List.◌++◌ empty.sent peer_joins
unfolding with_event_capacity upsert_with_origin_at zero_conf_mesh.Prelude.Assoc.lookup
one_sent = refl

two_sent : two.sent ≡ List.◌++◌ one.sent sample_joins
unfolding upsert_with_origin_at zero_conf_mesh.Prelude.Assoc.lookup with_event_capacity
    zero_conf_mesh.Prelude.HashMap.insert into_agent_info
two_sent = refl

view-subscribed_first_example :
    view "peer-1" none (messages display one (all_received (List.◌++◌ peer_joins sample_joins)))
    ≡ record? display (get "peer-1" two)
view-subscribed_first_example =
    view-subscribed_first display "peer-1" empty one two peer_joins sample_joins one-IsValid
      empty-Mirrors one-Mirrors two-Mirrors one_sent two_sent

-- The peer that joined between is there, and the output of `watch` does not have it.
peer_missed : view "peer-1" none (messages display empty (all_received sample_joins)) ≡ none
unfolding view messages into_agent_info zero_conf_mesh.Registry.Queries.list
    zero_conf_mesh.Registry.query zero_conf_mesh.Prelude.Sort.sort_by with_event_capacity
peer_missed = refl

peer_there : get "peer-1" two ≡ some (into_agent_info peer 5)
unfolding get zero_conf_mesh.Prelude.Assoc.lookup upsert_with_origin_at with_event_capacity
    zero_conf_mesh.Prelude.HashMap.insert into_agent_info
peer_there = refl

abbrev json : JsonApi
json = record { to_string = λ message. done "message"; to_vec_pretty = λ agents. done "agents" }

abbrev state_file : FilePath
state_file = record { parent = []; file_name = some "state.json" }

abbrev log_file : FilePath
log_file = record { parent = []; file_name = some "events.log" }

abbrev no_files : Disk
no_files path = none

abbrev command : WatchCommand
command = record {
  discovery = record {
    config = none;
    service_type = "_agent-mesh._tcp.local.";
    mdns_port = 5353;
    discover_ms = 1500;
    shared_secret = none;
    shared_secret_accept = [];
    shared_secret_mode = sign_and_verify;
    enable_interface = [];
    disable_interface = [];
  };
  write_state = some state_file;
  write_events = some log_file;
  exec = some "cat";
}

-- What a receiver gets: the events behind its position, with the registry at the end.
abbrev behind : ℕ → List AgentEvent → List AgentEvent
behind zero events = events
behind (suc n) [] = []
behind (suc n) (e ∷ events) = behind n events

behind-append :
    (before after : List AgentEvent) → behind (length before) (List.◌++◌ before after) ≡ after
behind-append [] after = refl
behind-append (e ∷ before) after = behind-append before after

abbrev channel : ℕ → List (Option AgentEvent × Registry)
channel n = map (λ e. (some e, two)) (behind n two.sent)

first-received :
    (events : List AgentEvent)
    → map
        (λ (received : Option AgentEvent × Registry). received.0)
        (map (λ e. (some e, two)) events)
      ≡ all_received events
first-received [] = refl
first-received (e ∷ events) = rw (first-received events) refl

delivers : Delivers two channel
delivers before after e =
    first-received (behind (length before) two.sent)
    ∙ ap (λ (sent : List AgentEvent). all_received (behind (length before) sent)) e
    ∙ ap all_received (behind-append before after)

-- The hook writes a file of its own.
abbrev own_file : FilePath
own_file = record { parent = []; file_name = some "last.json" }

abbrev writes : HookWrites
writes exec name text disk = set own_file (some text) disk

spared : IsSpared display json (λ name text. done tt) state_file writes
unfolding set zero_conf_mesh.Camp.Files.path_eq
spared exec name text disk = refl

abbrev effects : List Effect
effects = (run_watch display json (λ name text. done tt) command empty one channel).0

watched :
    run_watch display json (λ name text. done tt) command empty one channel ≡ (effects, done tt)
unfolding run_watch zero_conf_mesh.Camp.Stream.emit zero_conf_mesh.Camp.Stream.watch_loop
    zero_conf_mesh.Camp.Stream.save_state zero_conf_mesh.Camp.Stream.save_line
    zero_conf_mesh.Camp.Stream.run_hook zero_conf_mesh.Camp.Records.to_event_record subscribe
    upsert_with_origin_at zero_conf_mesh.Prelude.Assoc.lookup with_event_capacity
    zero_conf_mesh.Prelude.HashMap.insert into_agent_info
watched = refl

run_watch-late_example :
    (ms : List Message) × AreLines display json (λ name text. done tt) ms (printed effects)
    × (last_word "peer-1" peer_joins ≡ none
        → view "peer-1" none ms ≡ record? display (get "peer-1" two))
    × (last_word "peer-1" sample_joins ≡ none
        → view "peer-1" none ms ≡ record? display (get "peer-1" empty))
run_watch-late_example =
    run_watch-late display json (λ name text. done tt) command "peer-1" empty one two peer_joins
      sample_joins channel empty-IsValid empty-Mirrors one-Mirrors two-Mirrors one_sent two_sent
      delivers watched

run_watch-Saved_example :
    Saved display json
      (λ name text. done tt)
      state_file
      writes
      (snapshot display (
        last_read display json
          (λ name text. done tt)
          state_file
          writes
          empty
          (channel (subscribe one)))).agents
      (disk_after writes effects no_files)
unfolding zero_conf_mesh.Camp.Files.path_eq
run_watch-Saved_example =
    run_watch-Saved display json (λ name text. done tt) state_file writes command empty one channel
      no_files refl refl spared watched
