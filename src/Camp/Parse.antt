-- ===== src/Camp/Parse.antt =====
-- src/bin/camp.rs: the parsers of the options' values. A text that is no IP address is the parser's
-- error; that parser, of Rust's standard library,
-- is an argument, and so is the text of a `ZeroConfError`.
pub mod Laws
use Prim.Native.Nat.{◌*◌}
use zero_conf_mesh.Prelude.{
  ℕ, ◌+◌, ◌-◌, String, Char, code, Bool, true, false, ◌&&◌, ◌||◌, ◌≡◌, if◌then◌else◌, Option, none,
  some, ◌==◌, leb, ltb,
}
use zero_conf_mesh.Prelude.Text.{trim, split_once}
use zero_conf_mesh.Error.{ZeroConfError, ok, err}
use zero_conf_mesh.Types.Status.{AgentStatus, from_str}
use zero_conf_mesh.Types.Announcement.{IpAddr}
use zero_conf_mesh.Config.{
  NetworkInterface, all_interfaces, ipv4, ipv6, loopback_v4, loopback_v6, name, addr, index_v4,
  index_v6,
}
use zero_conf_mesh.Camp.Outcome.{Outcome, done, failed, ◌>>=◌}

module _ (describe : ZeroConfError → String) where
  unfoldable pub parse_status : String → Outcome AgentStatus
  parse_status value = elim (from_str value) [
    | ok status ↦ done status
    | err reason ↦ failed (describe reason)
  ]

unfoldable pub parse_key_value : String → Outcome (String × String)
parse_key_value value = elim (split_once b'=' value) [
  | none ↦ failed "expected KEY=VALUE"
  | some (key, val) ↦ done (trim key, trim val)
]

abbrev pub is_digit : Char → Bool
is_digit c = leb b'0' (code c) && leb (code c) b'9'

-- `parse::<u32>()`: one `+` may stand in front; the checked multiplication and addition stop at 2^32.
abbrev pub u32_limit : ℕ
u32_limit = 4294967296

unfoldable pub parse_digits : ℕ → String → Outcome ℕ
parse_digits value String.[] = done value
parse_digits value (String.◌∷◌ c rest) =
    let next = 10 * value + (code c - b'0') in
    let parsed = parse_digits next rest in
    if is_digit c
    then if ltb next u32_limit then parsed else failed "number too large to fit in target type"
    else failed "invalid digit found in string"

abbrev pub parse_unsigned : String → Outcome ℕ
parse_unsigned String.[] = failed "invalid digit found in string"
parse_unsigned (String.◌∷◌ c rest) = parse_digits 0 (String.◌∷◌ c rest)

unfoldable pub parse_u32 : String → Outcome ℕ
parse_u32 String.[] = failed "cannot parse integer from empty string"
parse_u32 (String.◌∷◌ c rest) =
    if String.◌∷◌ c "" == "+" then parse_unsigned rest else parse_unsigned (String.◌∷◌ c rest)

module _ (parse_ip : String → Outcome IpAddr) where
  unfoldable pub parse_selector : String → String → Outcome NetworkInterface
  parse_selector kind raw =
      if kind == "name"
      then done (name raw)
      else if kind == "addr"
      then (parse_ip raw >>= λ ip. done (addr ip))
      else if kind == "index-v4"
      then (parse_u32 raw >>= λ index. done (index_v4 index))
      else if kind == "index-v6"
      then (parse_u32 raw >>= λ index. done (index_v6 index))
      else failed "unknown interface selector"

  unfoldable pub parse_network_interface : String → Outcome NetworkInterface
  unfolding parse_selector
  parse_network_interface value =
      if value == "all"
      then done all_interfaces
      else if value == "ipv4"
      then done ipv4
      else if value == "ipv6"
      then done ipv6
      else if value == "loopback-v4"
      then done loopback_v4
      else if value == "loopback-v6"
      then done loopback_v6
      else elim (split_once b':' value) [
        | none ↦ done (name value)
        | some (kind, raw) ↦ parse_selector kind raw
      ]
