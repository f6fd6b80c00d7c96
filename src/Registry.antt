-- ===== src/Registry.antt =====
-- tools/data-poc/src/sourceRegistryValidator.ts: the issues of a registry of data sources. A function
-- that pushes onto `errors` returns what it pushes; the set of the ids is the list of those added.
pub mod Valid
pub mod Required
pub mod Sources
pub mod Laws
mod Tests
use crypto_edge_ai.Common.{
  ◌⧺◌, ℕ, ◌+◌, String, Bool, true, false, not, Option, none, some, List, [], ◌∷◌, ◌++◌, includes,
  if◌then◌else◌, is_empty,
}
use crypto_edge_ai.Number.{Number}
use crypto_edge_ai.Json.{Value, str, arr, obj, Items, nil, cons, Fields, property, as_record}

-- `SourceRegistryValidationIssue`.
pub record Issue : Type 0 where
  pub code : String
  pub message : String
  pub path : String

pub record ValidationResult : Type 0 where
  pub valid : Bool
  pub source_count : ℕ
  pub errors : List Issue

abbrev pub access_status_values : List String
access_status_values =
    "APPROVED_API" ∷ "APPROVED_PUBLIC_FEED" ∷ "MANUAL_ONLY" ∷ "PENDING_TERMS_REVIEW"
    ∷ "BLOCKED_NO_PERMISSION" ∷ []

abbrev pub usage_scope_values : List String
usage_scope_values =
    "POC_ONLY" ∷ "INTERNAL_BETA" ∷ "PUBLIC_BETA" ∷ "COMMERCIAL_PENDING" ∷ "COMMERCIAL_ALLOWED"
    ∷ "NOT_ALLOWED" ∷ []

abbrev pub confidence_values : List String
confidence_values = "HIGH" ∷ "MEDIUM" ∷ "LOW" ∷ []

-- `allowed.join(", ")`.
join : List String → String
join [] = ""
join (x ∷ []) = x
join (x ∷ y ∷ rest) = x ⧺ ", " ⧺ join (y ∷ rest)

issue : String → String → String → List Issue
issue code message path = record { code = code; message = message; path = path } ∷ []

module _ {n : Number} where
  unfoldable pub as_text : Option (Value n) → Option String
  as_text (some (str s)) = some s
  as_text _ = none

  unfoldable pub as_items : Option (Value n) → Option (Items n)
  as_items (some (arr items)) = some items
  as_items _ = none

  unfoldable pub count_items : Items n → ℕ
  count_items nil = 0
  count_items (cons _ items) = count_items items + 1

-- `is_blank` tells whether `trim` leaves nothing, and `show` writes a number.
module _ (n : Number) (is_blank : String → Bool) (show : ℕ → String) where
  -- `typeof value === "string" && value.trim() !== ""`.
  unfoldable pub filled_text : Option (Value n) → Option String
  unfolding as_text
  filled_text value = elim (as_text value) [
    | none ↦ none
    | some s ↦ if is_blank s then none else some s
  ]

  pub require_string : Fields n → String → List Issue
  unfolding issue
  require_string fields key = elim (filled_text (property key fields)) [
    | none ↦ issue "FIELD_REQUIRED_STRING" (key ⧺ " must be a non-empty string") ("$." ⧺ key)
    | some _ ↦ []
  ]

  abbrev enum_issue : String → List String → String → List Issue
  enum_issue key allowed path =
      issue "FIELD_INVALID_ENUM" (key ⧺ " must be one of: " ⧺ join allowed) (path ⧺ "." ⧺ key)

  require_enum : Fields n → String → List String → String → List Issue
  unfolding issue includes join
  require_enum fields key allowed path = elim (as_text (property key fields)) [
    | none ↦ enum_issue key allowed path
    | some s ↦ if includes allowed s then [] else enum_issue key allowed path
  ]

  require_array : Fields n → String → String → List Issue
  unfolding issue
  require_array fields key path = elim (as_items (property key fields)) [
    | none ↦ issue "FIELD_REQUIRED_ARRAY" (key ⧺ " must be an array") (path ⧺ "." ⧺ key)
    | some _ ↦ []
  ]

  -- The issues of a source's fields, but for its id.
  pub field_issues : Fields n → String → List Issue
  unfolding require_enum require_array
  field_issues source path =
      require_enum source "access_status" access_status_values path
      ++ require_enum source "usage_scope" usage_scope_values path
      ++ require_enum source "confidence" confidence_values path
      ++ require_array source "approved_endpoints" path
      ++ require_array source "current_code_files" path
      ++ require_array source "implementation_changes_required" path
      ++ require_array source "open_questions" path

  -- The ids after a source, and the issue of its id.
  check_id : List String → Option (Value n) → String → List String × List Issue
  unfolding issue includes
  check_id ids value path = elim (filled_text value) [
    | none ↦ (
      ids,
      issue "SOURCE_ID_INVALID" "source_id must be a non-empty string" (path ⧺ ".source_id"),
    )
    | some id ↦
        if includes ids id
        then (
          ids,
          issue "SOURCE_ID_DUPLICATE" ("source_id must be unique: " ⧺ id) (path ⧺ ".source_id"),
        )
        else (ids ++ id ∷ [], [])
  ]

  check_source : List String → Option (Fields n) → String → List String × List Issue
  unfolding issue check_id field_issues
  check_source ids none path = (ids, issue "SOURCE_NOT_OBJECT" "source must be an object" path)
  check_source ids (some source) path =
      let (ids', first) = check_id ids (property "source_id" source) path in
      (ids', first ++ field_issues source path)

  source_path : ℕ → String
  source_path index = "$.sources[" ⧺ show index ⧺ "]"

  -- The loop over `registry.sources` from an index on.
  pub check_sources : ℕ → List String → Items n → List String × List Issue
  unfolding check_source source_path
  check_sources index ids nil = (ids, [])
  check_sources index ids (cons source items) =
      let (ids', first) = check_source ids (as_record (some source)) (source_path index) in
      let (ids'', rest) = check_sources (index + 1) ids' items in (ids'', first ++ rest)

  check_reference : String → List String → Value n → ℕ → List Issue
  unfolding issue includes
  check_reference key ids value index = elim (filled_text (some value)) [
    | none ↦
        issue "SOURCE_REFERENCE_INVALID" (key ⧺ " entries must be source_id strings")
          ("$." ⧺ key ⧺ "[" ⧺ show index ⧺ "]")
    | some id ↦
        if includes ids id
        then []
        else issue "SOURCE_REFERENCE_UNKNOWN" (key ⧺ " references unknown source_id: " ⧺ id)
            ("$." ⧺ key ⧺ "[" ⧺ show index ⧺ "]")
  ]

  check_references : String → List String → ℕ → Items n → List Issue
  unfolding check_reference
  check_references key ids index nil = []
  check_references key ids index (cons value items) =
      check_reference key ids value index ++ check_references key ids (index + 1) items

  pub validate_source_reference_array : Fields n → String → List String → List Issue
  unfolding issue check_references
  validate_source_reference_array registry key ids = elim (as_items (property key registry)) [
    | none ↦ issue "SOURCE_REFERENCE_ARRAY_INVALID" (key ⧺ " must be an array") ("$." ⧺ key)
    | some items ↦ check_references key ids 0 items
  ]

  abbrev stop_with : List Issue → ValidationResult
  stop_with errors = record { valid = false; source_count = 0; errors = errors }

  abbrev finish : ℕ → List Issue → ValidationResult
  finish count errors = record { valid = is_empty errors; source_count = count; errors = errors }

  header_issues : Fields n → List Issue
  unfolding require_string
  header_issues registry =
      require_string registry "registry_version" ++ require_string registry "reviewed_at"

  -- The result for a registry with a list of sources.
  validate_sources : Fields n → Items n → ValidationResult
  unfolding header_issues check_sources validate_source_reference_array count_items
  validate_sources registry items =
      let (ids, issues) = check_sources 0 [] items in
      finish (count_items items) (
        header_issues registry
        ++ issues
        ++ validate_source_reference_array registry "sources_ready_for_camp_beta" ids
        ++ validate_source_reference_array registry "sources_blocked_or_pending" ids)

  validate_fields : Fields n → ValidationResult
  unfolding validate_sources issue
  validate_fields registry = elim (as_items (property "sources" registry)) [
    | none ↦
        stop_with (
          header_issues registry
          ++ issue "SOURCES_NOT_ARRAY" "sources must be an array" "$.sources")
    | some items ↦ validate_sources registry items
  ]

  pub validate_source_registry : Value n → ValidationResult
  unfolding validate_fields issue
  validate_source_registry value = elim (as_record (some value)) [
    | none ↦ stop_with (issue "REGISTRY_NOT_OBJECT" "registry must be a JSON object" "$")
    | some registry ↦ validate_fields registry
  ]
