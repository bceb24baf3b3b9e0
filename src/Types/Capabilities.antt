-- ===== src/Types/Capabilities.antt =====
-- src/types.rs: the capability list and its metadata entry.
pub mod Laws
use zero_conf_mesh.Prelude.{
  String, Bool, true, false, not, ◌≡◌, refl, if◌then◌else◌, arith, List, [], ◌∷◌, map, Option, none,
  some, All, keep, has,
}
use zero_conf_mesh.Prelude.Text.{trim, is_empty, contains_char, split, join}
use zero_conf_mesh.Prelude.Text.Trim.{trim_idem, contains_char-trim}
use zero_conf_mesh.Prelude.Text.Split.{Lacks, split-Lacks, split-join}
use zero_conf_mesh.Prelude.Sort.Texts.{
  sort, dedup, IsAscending, sort-All, dedup-All, dedup-sort-IsAscending, sort_of_IsAscending,
  dedup_of_IsAscending,
}
use zero_conf_mesh.Prelude.Assoc.{lookup, remove}
use zero_conf_mesh.Prelude.BTreeMap
use zero_conf_mesh.Error.{Result, ok, err, collect_results, ◌>>=◌}
use zero_conf_mesh.Types.Keys.{agent_capabilities_metadata_key}
use zero_conf_mesh.Types.Normalize.{normalize_capability, IsCapability}

-- `BTreeMap<String, String>`
abbrev pub AgentMetadata : Type 0
AgentMetadata = List (String × String)

unfoldable pub canonicalize_capabilities : List String → Result (List String)
canonicalize_capabilities capabilities = do
  normalized ← collect_results normalize_capability capabilities
  ok (dedup (sort normalized))

abbrev pub is_empty_list : List String → Bool
is_empty_list [] = true
is_empty_list (_ ∷ _) = false

unfoldable pub sync_capabilities_metadata : AgentMetadata → List String → AgentMetadata
sync_capabilities_metadata metadata capabilities =
    if is_empty_list capabilities
    then remove agent_capabilities_metadata_key metadata
    else BTreeMap.insert agent_capabilities_metadata_key (join "," capabilities) metadata

-- The trimmed pieces that are not empty.
unfoldable pub listed_capabilities : String → List String
listed_capabilities raw = keep (λ c. not (is_empty c)) (map trim (split b',' raw))

unfoldable pub capabilities_from_metadata : AgentMetadata → Result (List String)
capabilities_from_metadata metadata = elim (lookup agent_capabilities_metadata_key metadata) [
  | some raw ↦ canonicalize_capabilities (listed_capabilities raw)
  | none ↦ ok []
]
