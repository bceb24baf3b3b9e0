-- ===== src/Events.antt =====
-- src/events.rs: the events that the registry sends, and their accessors.
use zero_conf_mesh.Prelude.{Bool, true, false, Option, none, some}
use zero_conf_mesh.Types.Info.{AgentInfo}

pub data EventOrigin : Type 0 where
  local remote : EventOrigin

pub data DepartureReason : Type 0 where
  graceful expired : DepartureReason

pub data AgentEvent : Type 0 where
  joined : AgentInfo → EventOrigin → AgentEvent
  -- the previous and the current snapshot
  updated : AgentInfo → AgentInfo → EventOrigin → AgentEvent
  left : AgentInfo → EventOrigin → DepartureReason → AgentEvent

unfoldable pub agent : AgentEvent → AgentInfo
agent (joined a _) = a
agent (left a _ _) = a
agent (updated _ current _) = current

unfoldable pub origin : AgentEvent → EventOrigin
origin (joined _ o) = o
origin (updated _ _ o) = o
origin (left _ o _) = o

unfoldable pub previous : AgentEvent → Option AgentInfo
previous (updated p _ _) = some p
previous (joined _ _) = none
previous (left _ _ _) = none

unfoldable pub departure_reason : AgentEvent → Option DepartureReason
departure_reason (left _ _ r) = some r
departure_reason (joined _ _) = none
departure_reason (updated _ _ _) = none

unfoldable pub is_joined : AgentEvent → Bool
is_joined (joined _ _) = true
is_joined _ = false

unfoldable pub is_updated : AgentEvent → Bool
is_updated (updated _ _ _) = true
is_updated _ = false

unfoldable pub is_left : AgentEvent → Bool
is_left (left _ _ _) = true
is_left _ = false
