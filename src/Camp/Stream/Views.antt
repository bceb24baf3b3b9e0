-- ===== src/Camp/Stream/Views.antt =====
-- What a reader of a stream knows of the agents.
use zero_conf_mesh.Prelude.{
  String, Bool, true, false, ◌≡◌, refl, sym, ap, ◌∙◌, arith, List, [], ◌∷◌, ◌++◌, Option, none,
  some, map, ◌==◌, if◌then◌else◌,
}
use zero_conf_mesh.Types.Announcement.{IpAddr}
use zero_conf_mesh.Types.Info.{AgentInfo}
use zero_conf_mesh.Events.{AgentEvent, joined, updated, left}
use zero_conf_mesh.Registry.{Registry, get}
use zero_conf_mesh.Registry.Queries.{list}
use zero_conf_mesh.Registry.Valid.{IsValid}
use zero_conf_mesh.Registry.Mirror.{
  payload, payload?, after_event, replay_from, replay, replay_from-append, Mirrors,
}
use zero_conf_mesh.Camp.Records.Laws.{find_record, find_record-map, find_key-list}
use zero_conf_mesh.Camp.Records.{AgentRecord, to_agent_record, to_event_record, snapshot, record?}
use zero_conf_mesh.Camp.Stream.{Message, snapshot_message, event_message, event_messages, messages}

-- What a reader holds of an agent after an event's record, by its kind and its agent.
abbrev pub after_current :
    String → String → Option AgentRecord → Option AgentRecord → Option AgentRecord
after_current k kind held none = held
after_current k kind held (some a) =
    if a.id == k then (if kind == "left" then none else some a) else held

abbrev pub after_message : String → Option AgentRecord → Message → Option AgentRecord
after_message k held (snapshot_message s) = find_record k s.agents
after_message k held (event_message e) = after_current k e.kind held e.current

-- What a reader holds of the agent with an id at the end of a stream.
unfoldable pub view : String → Option AgentRecord → List Message → Option AgentRecord
view k held [] = held
view k held (m ∷ ms) = view k (after_message k held m) ms

-- The events that a receiver gets while it keeps up.
abbrev pub all_received : List AgentEvent → List (Option AgentEvent)
all_received = map some

-- The last word of some events on an agent, if they speak of it.
abbrev pub then_word : Option (Option AgentInfo) → Option AgentInfo → Option AgentInfo
then_word none held = held
then_word (some word) held = word

abbrev pub about : String → AgentEvent → Option (Option AgentInfo)
about k (joined a _) = if a.id == k then some (some (payload a)) else none
about k (updated _ a _) = if a.id == k then some (some (payload a)) else none
about k (left a _ _) = if a.id == k then some none else none

abbrev pub or_word :
    Option (Option AgentInfo) → Option (Option AgentInfo) → Option (Option AgentInfo)
or_word none earlier = earlier
or_word (some word) earlier = some word

unfoldable pub last_word : String → List AgentEvent → Option (Option AgentInfo)
last_word k [] = none
last_word k (e ∷ es) = or_word (last_word k es) (about k e)

then_or_word :
    (later earlier : Option (Option AgentInfo)) (held : Option AgentInfo)
    → then_word later (then_word earlier held) ≡ then_word (or_word later earlier) held
then_or_word none earlier held = refl
then_or_word (some word) earlier held = refl

after_about :
    (k : String) (held : Option AgentInfo) (e : AgentEvent)
    → after_event k held e ≡ then_word (about k e) held
after_about k held (joined a o) = ground arith
after_about k held (updated p a o) = ground arith
after_about k held (left a o r) = ground arith

-- To replay events is to take their last word.
replay_last_word :
    (k : String) (held : Option AgentInfo) (es : List AgentEvent)
    → replay_from k held es ≡ then_word (last_word k es) held
unfolding last_word
replay_last_word k held [] = refl
replay_last_word k held (e ∷ es) =
    replay_last_word k (after_event k held e) es
    ∙ ap (then_word (last_word k es)) (after_about k held e)
    ∙ then_or_word (last_word k es) (about k e) held

then_word_idem :
    (w : Option (Option AgentInfo)) (held : Option AgentInfo)
    → then_word w (then_word w held) ≡ then_word w held
then_word_idem none held = refl
then_word_idem (some word) held = refl

-- Replaying events once more changes nothing.
pub replay_from_idem :
    (k : String) (held : Option AgentInfo) (es : List AgentEvent)
    → replay_from k (replay_from k held es) es ≡ replay_from k held es
replay_from_idem k held es =
    replay_last_word k (replay_from k held es) es
    ∙ ap (then_word (last_word k es)) (replay_last_word k held es)
    ∙ then_word_idem (last_word k es) held
    ∙ sym (replay_last_word k held es)

module _ (display : IpAddr → String) where
  -- The record of an agent does not show when it was seen.
  record_payload : (o : Option AgentInfo) → record? display (payload? o) ≡ record? display o
  unfolding to_agent_record
  record_payload none = refl
  record_payload (some a) = refl

  -- A snapshot has, for every id, the agent of the registry.
  view-snapshot :
      (k : String) (held : Option AgentRecord) (r : Registry)
      → IsValid r
      → after_message k held (snapshot_message (snapshot display r)) ≡ record? display (get k r)
  unfolding snapshot list
  view-snapshot k held r v =
      find_record-map display k (list r) ∙ ap (record? display) (find_key-list k r v)

  if_record :
      (b : Bool) (x y : Option AgentInfo)
      → (if b then record? display x else record? display y) ≡ record? display (if b then x else y)
  if_record true x y = refl
  if_record false x y = refl

  -- The view of event messages is the replay of the events.
  view-events :
      (k : String) (held : Option AgentInfo) (es : List AgentEvent)
      → view k (record? display held) (event_messages display (all_received es))
        ≡ record? display (replay_from k held es)
  unfolding view event_messages to_event_record to_agent_record
  view-events k held [] = refl
  view-events k held (joined a o ∷ es) =
      ap (λ (h : Option AgentRecord). view k h (event_messages display (all_received es)))
        (if_record (a.id == k) (some (payload a)) held)
      ∙ view-events k (if a.id == k then some (payload a) else held) es
  view-events k held (updated p a o ∷ es) =
      ap (λ (h : Option AgentRecord). view k h (event_messages display (all_received es)))
        (if_record (a.id == k) (some (payload a)) held)
      ∙ view-events k (if a.id == k then some (payload a) else held) es
  view-events k held (left a o r ∷ es) =
      ap (λ (h : Option AgentRecord). view k h (event_messages display (all_received es)))
        (if_record (a.id == k) none held)
      ∙ view-events k (if a.id == k then none else held) es

  -- The view of a snapshot and of all the events that a receiver then gets.
  view-messages :
      (k : String) (r : Registry) (es : List AgentEvent)
      → IsValid r
      → view k none (messages display r (all_received es))
        ≡ record? display (replay_from k (payload? (get k r)) es)
  unfolding view messages
  view-messages k r es v =
      ap (λ (h : Option AgentRecord). view k h (event_messages display (all_received es)))
        (view-snapshot k none r v ∙ sym (record_payload (get k r)))
      ∙ view-events k (payload? (get k r)) es

  replay-more :
      (k : String) (r s : Registry) (es : List AgentEvent)
      → Mirrors r
      → Mirrors s
      → s.sent ≡ r.sent ++ es
      → replay_from k (payload? (get k r)) es ≡ payload? (get k s)
  unfolding Mirrors replay
  replay-more k r s es m n e =
      ap (λ (h : Option AgentInfo). replay_from k h es) (sym (m k))
      ∙ sym (replay_from-append k none r.sent es)
      ∙ ap (replay_from k none) (sym e)
      ∙ n k

  -- If the `/events` handler subscribes when the registry is `r`, takes its snapshot of `s` and the
  -- registry is `t` at the end, all of them mirrored by their events and `s` valid, and the receiver
  -- gets every event that was sent after it subscribed, then a reader of the stream holds exactly the
  -- records of the agents of `t`, though it sees the events before the snapshot again after it.
  pub view-subscribed_first :
      (k : String) (r s t : Registry) (between later : List AgentEvent)
      → IsValid s
      → Mirrors r
      → Mirrors s
      → Mirrors t
      → s.sent ≡ r.sent ++ between
      → t.sent ≡ s.sent ++ later
      → view k none (messages display s (all_received (between ++ later)))
        ≡ record? display (get k t)
  view-subscribed_first k r s t between later v mr ms mt e f =
      let seen = replay-more k r s between mr ms e in
      let again : replay_from k (payload? (get k s)) between ≡ payload? (get k s) =
        ap (λ (h : Option AgentInfo). replay_from k h between) (sym seen)
        ∙ replay_from_idem k (payload? (get k r)) between
        ∙ seen in
      view-messages k s (between ++ later) v
      ∙ ap (record? display) (
          replay_from-append k (payload? (get k s)) between later
          ∙ ap (λ (h : Option AgentInfo). replay_from k h later) again
          ∙ replay-more k s t later ms mt f)
      ∙ record_payload (get k t)

  -- If messages begin with a snapshot of a valid registry `r`, and those of the events follow that were
  -- sent from `s` to `t`, all mirrored by their events: they are right about every agent of which no
  -- event spoke from `r` to `s`, and of an agent of which no event speaks later they say what the
  -- snapshot said.
  pub view-subscribed_late :
      (k : String) (r s t : Registry) (between later : List AgentEvent)
      → IsValid r
      → Mirrors r
      → Mirrors s
      → Mirrors t
      → s.sent ≡ r.sent ++ between
      → t.sent ≡ s.sent ++ later
      → (last_word k between ≡ none
          → view k none (messages display r (all_received later)) ≡ record? display (get k t))
        × (last_word k later ≡ none
            → view k none (messages display r (all_received later)) ≡ record? display (get k r))
  view-subscribed_late k r s t between later v mr ms mt e f = (
    λ silent.
        let same : payload? (get k r) ≡ payload? (get k s) =
          sym (
            replay_last_word k (payload? (get k r)) between
            ∙ ap (λ (w : Option (Option AgentInfo)). then_word w (payload? (get k r))) silent)
          ∙ replay-more k r s between mr ms e in
        view-messages k r later v
        ∙ ap (record? display) (
            ap (λ (h : Option AgentInfo). replay_from k h later) same
            ∙ replay-more k s t later ms mt f)
        ∙ record_payload (get k t),
    λ silent.
        view-messages k r later v
        ∙ ap (record? display) (
            replay_last_word k (payload? (get k r)) later
            ∙ ap (λ (w : Option (Option AgentInfo)). then_word w (payload? (get k r))) silent)
        ∙ record_payload (get k r),
  )
