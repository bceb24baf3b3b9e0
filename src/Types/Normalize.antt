-- ===== src/Types/Normalize.antt =====
-- src/types.rs: trimming of required fields, metadata keys and capabilities.
use zero_conf_mesh.Prelude.{String, false, ◌≡◌, if◌then◌else◌, arith}
use zero_conf_mesh.Prelude.Text.{trim, is_empty, contains_char}
use zero_conf_mesh.Prelude.Text.Trim.{trim_idem}
use zero_conf_mesh.Error.{
  Result, ok, err, empty_field, empty_metadata_key, empty_capability, invalid_capability,
}

unfoldable pub normalize_required : String → String → Result String
normalize_required value field =
    let trimmed = trim value in if is_empty trimmed then err (empty_field field) else ok trimmed

unfoldable pub normalize_metadata_key : String → Result String
normalize_metadata_key key =
    let trimmed = trim key in if is_empty trimmed then err empty_metadata_key else ok trimmed

unfoldable pub normalize_capability : String → Result String
normalize_capability capability =
    let trimmed = trim capability in
    if is_empty trimmed
    then err empty_capability
    else if contains_char b',' trimmed
    then err (invalid_capability trimmed)
    else ok trimmed

-- What normalisation leaves: no white space at the ends, and not empty.
pub record IsNormal (s : String) : Type 0 where
  pub trimmed : trim s ≡ s
  pub filled : is_empty s ≡ false

pub record IsCapability (s : String) : Type 0 where
  pub normal : IsNormal s
  pub one_item : contains_char b',' s ≡ false

pub trim-IsNormal : (s : String) → is_empty (trim s) ≡ false → IsNormal (trim s)
trim-IsNormal s h = record { trimmed = trim_idem s; filled = h }

pub normalize_required-IsNormal :
    (value field : String) {s : String} → normalize_required value field ≡ ok s → IsNormal s
unfolding normalize_required
normalize_required-IsNormal value field h = ground (arith, trim-IsNormal value)

pub normalize_required_of_IsNormal :
    (s field : String) → IsNormal s → normalize_required s field ≡ ok s
unfolding normalize_required
normalize_required_of_IsNormal s field n = rw (n.trimmed, n.filled)

pub normalize_metadata_key-IsNormal :
    (key : String) {s : String} → normalize_metadata_key key ≡ ok s → IsNormal s
unfolding normalize_metadata_key
normalize_metadata_key-IsNormal key h = ground (arith, trim-IsNormal key)

pub normalize_capability-IsCapability :
    (c : String) {s : String} → normalize_capability c ≡ ok s → IsCapability s
unfolding normalize_capability
normalize_capability-IsCapability c h = ground (arith, trim-IsNormal c)

pub normalize_capability_of_IsCapability :
    (c : String) → IsCapability c → normalize_capability c ≡ ok c
unfolding normalize_capability
normalize_capability_of_IsCapability c h = rw (h.normal.trimmed, h.normal.filled, h.one_item)
