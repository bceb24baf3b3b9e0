-- ===== src/Types/Status.antt =====
-- src/types.rs: `AgentStatus`, printed and parsed.
use zero_conf_mesh.Prelude.{String, Bool, true, false, ◌==◌, ◌≡◌, refl, if◌then◌else◌, arith, ◌↔◌}
use zero_conf_mesh.Prelude.Text.{trim, to_ascii_lowercase}
use zero_conf_mesh.Error.{Result, ok, err, invalid_status}

pub data AgentStatus : Type 0 where
  idle busy error : AgentStatus

unfoldable pub as_str : AgentStatus → String
as_str idle = "idle"
as_str busy = "busy"
as_str error = "error"

unfoldable pub from_str : String → Result AgentStatus
from_str value =
    let normalized = to_ascii_lowercase (trim value) in
    if normalized == "idle"
    then ok idle
    else if normalized == "busy"
    then ok busy
    else if normalized == "error"
    then ok error
    else err (invalid_status normalized)

-- The derived `PartialEq`.
unfoldable pub status_eq : AgentStatus → AgentStatus → Bool
status_eq idle idle = true
status_eq busy busy = true
status_eq error error = true
status_eq _ _ = false

pub status_eq_iff : (s t : AgentStatus) → (status_eq s t ≡ true) ↔ (s ≡ t)
unfolding status_eq
status_eq_iff s t = ground arith

-- A printed status parses to itself.
pub from_str-as_str : (s : AgentStatus) → from_str (as_str s) ≡ ok s
unfolding from_str as_str trim to_ascii_lowercase
from_str-as_str idle = refl
from_str-as_str busy = refl
from_str-as_str error = refl
