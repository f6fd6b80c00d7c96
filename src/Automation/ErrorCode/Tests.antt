-- ===== src/Automation/ErrorCode/Tests.antt =====
-- Error codes of tools/data-poc/src/automation/centralAutomationCoordinator.ts.
use Prim.Native.String
use crypto_edge_ai.Common.{String, ◌≡◌, ◌↔◌, ◌⊎◌, refl, true, any}
use crypto_edge_ai.Automation.State.{FailureClass}
use crypto_edge_ai.Automation.ErrorCode.{
  plain, is_safe_text, safe_error_code, classify_automation_failure,
}
use crypto_edge_ai.Automation.ErrorCode.Safe.{safe_error_code-is_safe_text}
use crypto_edge_ai.Automation.ErrorCode.Class.{classify_automation_failure_iff, parts, is_marker}

abbrev unchanged : String → String
unchanged s = s

safe_error_code_test :
    safe_error_code unchanged (plain "__FETCH failed: TIMEOUT__") ≡ "FETCH_TIMEOUT"
unfolding safe_error_code
safe_error_code_test = refl

safe_error_code-is_safe_text_example :
    is_safe_text (safe_error_code unchanged (plain "__FETCH: TIMEOUT")) ≡ true
safe_error_code-is_safe_text_example =
    safe_error_code-is_safe_text unchanged (plain "__FETCH: TIMEOUT")

schema_test : classify_automation_failure "SNAPSHOT_SCHEMA_MISMATCH" ≡ FailureClass.deterministic
unfolding classify_automation_failure
schema_test = refl

schemas_test : classify_automation_failure "SNAPSHOT_SCHEMAS_MISMATCH" ≡ FailureClass.transient
unfolding classify_automation_failure
schemas_test = refl

classify_automation_failure_iff_example :
    let error_code : String = "SNAPSHOT_SCHEMA_MISMATCH" in
    (classify_automation_failure error_code ≡ FailureClass.deterministic) ↔ (
      (error_code ≡ "SCANNER_METADATA_INVALID")
      ⊎ ((front : String) × (error_code ≡ String.◌++◌ front "_METADATA_INVALID"))
      ⊎ (any is_marker (parts error_code) ≡ true))
classify_automation_failure_iff_example = classify_automation_failure_iff "SNAPSHOT_SCHEMA_MISMATCH"
