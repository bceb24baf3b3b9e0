-- ===== src/Types/Capabilities/Laws.antt =====
-- Canonical capability lists, and the metadata entry as a faithful copy of the list.
use zero_conf_mesh.Prelude.{
  String, ◌≡◌, refl, ap, ◌∙◌, if◌then◌else◌, List, [], ◌∷◌, map, Option, some, none, ◌==◌, All,
  keep, not, Bool-cases, inl, inr, Option-cases,
}
use Prim.Native.String.{char_at}
use zero_conf_mesh.Prelude.Text.{trim, is_empty, split, join}
use zero_conf_mesh.Prelude.Text.Trim.{contains_char-trim}
use zero_conf_mesh.Prelude.Text.Split.{Lacks, split-Lacks, split-join}
use zero_conf_mesh.Prelude.Sort.Texts.{
  sort, dedup, IsAscending, sort-All, dedup-All, dedup-sort-IsAscending, sort_of_IsAscending,
  dedup_of_IsAscending,
}
use zero_conf_mesh.Prelude.Assoc.{lookup, lookup-remove}
use zero_conf_mesh.Prelude.BTreeMap
use zero_conf_mesh.Error.{ok, collect_results, >>=-eq-ok, collect_results-All, collect_results_id}
use zero_conf_mesh.Types.Keys.{agent_capabilities_metadata_key}
use zero_conf_mesh.Types.Normalize.{
  normalize_capability, IsCapability, trim-IsNormal, normalize_capability-IsCapability,
  normalize_capability_of_IsCapability,
}
use zero_conf_mesh.Types.Capabilities.{
  AgentMetadata, canonicalize_capabilities, sync_capabilities_metadata, listed_capabilities,
  capabilities_from_metadata,
}

-- Strictly ascending, each a trimmed name without a comma.
pub record IsCanonical (capabilities : List String) : Type 0 where
  pub ascending : IsAscending capabilities
  pub each : All IsCapability capabilities

-- A list that `canonicalize_capabilities` returns ascends strictly, and each item is trimmed,
-- filled and without a comma.
pub canonicalize-IsCanonical :
    (l r : List String) → canonicalize_capabilities l ≡ ok r → IsCanonical r
unfolding canonicalize_capabilities
canonicalize-IsCanonical l r h =
    let (n, p, q) =
      >>=-eq-ok (collect_results normalize_capability l) (λ n. ok (dedup (sort n))) h in
    let e : dedup (sort n) ≡ r = cc in
    let all =
      collect_results-All normalize_capability IsCapability
        (λ c s. normalize_capability-IsCapability c) l n p in
    rw (← e) (record {
      ascending = dedup-sort-IsAscending n;
      each = dedup-All IsCapability (sort n) (sort-All IsCapability n all);
    })

pub canonicalize_of_IsCapability :
    (l : List String) → All IsCapability l → canonicalize_capabilities l ≡ ok (dedup (sort l))
unfolding canonicalize_capabilities
canonicalize_of_IsCapability l a =
    rw (
      collect_results_id normalize_capability IsCapability normalize_capability_of_IsCapability l a)

pub canonicalize_of_IsCanonical :
    (l : List String) → IsCanonical l → canonicalize_capabilities l ≡ ok l
canonicalize_of_IsCanonical l c =
    canonicalize_of_IsCapability l c.each
    ∙ ap ok (ap dedup (sort_of_IsAscending l c.ascending) ∙ dedup_of_IsAscending l c.ascending)

IsCapability-Lacks : (l : List String) → All IsCapability l → All (Lacks b',') l
IsCapability-Lacks [] a = tt
IsCapability-Lacks (c ∷ l) a = (a.0.one_item, IsCapability-Lacks l a.1)

abbrev filled_trims : List String → List String
filled_trims l = keep (λ c. not (is_empty c)) (map trim l)

filled_trims_of_IsCapability : (l : List String) → All IsCapability l → filled_trims l ≡ l
filled_trims_of_IsCapability [] a = refl
filled_trims_of_IsCapability (c ∷ l) a =
    rw (a.0.normal.trimmed, a.0.normal.filled, filled_trims_of_IsCapability l a.1)

filled_trims-IsCapability :
    (l : List String) → All (Lacks b',') l → All IsCapability (filled_trims l)
filled_trims-IsCapability [] a = tt
filled_trims-IsCapability (c ∷ l) a = elim (Bool-cases (is_empty (trim c))) [
  | inl e ↦ rw e (filled_trims-IsCapability l a.1)
  | inr e ↦ rw e (
    record { normal = trim-IsNormal c e; one_item = contains_char-trim b',' c a.0 },
    filled_trims-IsCapability l a.1,
  )
]

abbrev pub capabilities_key : String
capabilities_key = agent_capabilities_metadata_key

capabilities_from_none :
    (m : AgentMetadata) → lookup capabilities_key m ≡ none → capabilities_from_metadata m ≡ ok []
unfolding capabilities_from_metadata
capabilities_from_none m h = rw (h, capabilities_from_metadata)

capabilities_from_some :
    (m : AgentMetadata) (raw : String)
    → lookup capabilities_key m ≡ some raw
    → capabilities_from_metadata m ≡ canonicalize_capabilities (listed_capabilities raw)
unfolding capabilities_from_metadata
capabilities_from_some m raw h = rw (h, capabilities_from_metadata)

listed-IsCapability : (raw : String) → All IsCapability (listed_capabilities raw)
unfolding listed_capabilities
listed-IsCapability raw = filled_trims-IsCapability (split b',' raw) (split-Lacks b',' raw)

-- Reading the capability entry of any metadata succeeds, with a canonical list.
pub capabilities_from_metadata_total :
    (m : AgentMetadata) → (r : List String) × (capabilities_from_metadata m ≡ ok r) × IsCanonical r
capabilities_from_metadata_total m = elim (Option-cases (lookup capabilities_key m)) [
  | inl e ↦ ([], capabilities_from_none m e, record { ascending = tt; each = tt })
  | inr (raw, e) ↦
      let l = listed_capabilities raw in
      let p = canonicalize_of_IsCapability l (listed-IsCapability raw) in
      (
        dedup (sort l),
        capabilities_from_some m raw e ∙ p,
        canonicalize-IsCanonical l (dedup (sort l)) p,
      )
]

-- What the metadata holds for a capability list.
abbrev pub capabilities_entry : List String → Option String
capabilities_entry [] = none
capabilities_entry (c ∷ l) = some (join "," (c ∷ l))

-- The synchronised metadata holds the list's entry, and at other keys what it held.
pub lookup-sync :
    (k : String) (m : AgentMetadata) (l : List String)
    → lookup k (sync_capabilities_metadata m l)
      ≡ (if capabilities_key == k then capabilities_entry l else lookup k m)
unfolding sync_capabilities_metadata
lookup-sync k m [] = lookup-remove capabilities_key k m
lookup-sync k m (c ∷ l) = BTreeMap.lookup-insert capabilities_key k (join "," (c ∷ l)) m

pub sync-IsSorted :
    (m : AgentMetadata) (l : List String)
    → BTreeMap.IsSorted m
    → BTreeMap.IsSorted (sync_capabilities_metadata m l)
unfolding sync_capabilities_metadata
sync-IsSorted m [] s = BTreeMap.remove-IsSorted capabilities_key m s
sync-IsSorted m (c ∷ l) s = BTreeMap.insert-IsSorted capabilities_key (join "," (c ∷ l)) m s

listed-join :
    (c : String) (l : List String)
    → All IsCapability (c ∷ l)
    → listed_capabilities (join "," (c ∷ l)) ≡ c ∷ l
unfolding listed_capabilities
listed-join c l a =
    rw (split-join (char_at "," 0) c l (IsCapability-Lacks (c ∷ l) a))
      (filled_trims_of_IsCapability (c ∷ l) a)

-- The list is read back from any metadata that holds its entry.
pub capabilities_from_entry :
    (m : AgentMetadata) (l : List String)
    → IsCanonical l
    → lookup capabilities_key m ≡ capabilities_entry l
    → capabilities_from_metadata m ≡ ok l
capabilities_from_entry m [] c h = capabilities_from_none m h
capabilities_from_entry m (x ∷ xs) c h =
    capabilities_from_some m (join "," (x ∷ xs)) h
    ∙ ap canonicalize_capabilities (listed-join x xs c.each)
    ∙ canonicalize_of_IsCanonical (x ∷ xs) c
