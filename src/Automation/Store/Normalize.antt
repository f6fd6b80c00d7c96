-- ===== src/Automation/Store/Normalize.antt =====
-- `normalizeAutomationState` of tools/data-poc/src/automation/automationState.ts. The object that it
-- builds is built in parts; the order in which its fields are read does not show, since every
-- refusal is the same error.
use crypto_edge_ai.Common.{
  String, Bool, true, false, ◌&&◌, ◌||◌, not, Option, none, some, if◌then◌else◌, Result, ok, ◌>>=◌,
  ◌>>◌,
}
use crypto_edge_ai.Number.{Number}
use crypto_edge_ai.Date.{DateText}
use crypto_edge_ai.Json.{Value, Fields, property, coalesce, as_record}
use crypto_edge_ai.Automation.State.{AutomationState, create_initial_automation_state}
use crypto_edge_ai.Automation.Store.Words.{result_word, cycle_word, failure_word, decision_word}
use crypto_edge_ai.Automation.Store.Values.{
  Format, invalid_state, exact, printed, nullable_word, optional_word, nullable_safe_text,
  optional_nullable_safe_text, optional_nullable_safe_description, optional_boolean,
  optional_scheduler_version, state_version, normalize_source_statuses, nullable_iso,
  optional_nullable_iso, optional_non_negative_integer, optional_nullable_non_negative_integer,
  normalize_request_counts,
}

abbrev pub is_some {ℓ} : {A : Type ℓ} → Option A → Bool
is_some none = false
is_some (some _) = true

abbrev differ : Bool → Bool → Bool
differ true b = not b
differ false b = b

-- The condition on which `normalizeAutomationState` refuses the fields of the suspension.
unfoldable pub is_incoherent : Bool → Bool → Option DateText → Option String → Bool
is_incoherent suspended required at reason =
    differ suspended required
    || (suspended && (not (is_some at) || not (is_some reason)))
    || (not suspended && (is_some at || is_some reason))

unfoldable pub suspension_of :
    AutomationState → Bool → Bool → Option DateText → Option String → Result AutomationState
unfolding is_incoherent
suspension_of state suspended required at reason =
    if is_incoherent suspended required at reason
    then invalid_state
    else ok (record state {
      automation_suspended = suspended;
      suspended_at = at;
      suspended_reason = reason;
      resume_required = required;
    })

module _ {n : Number} (f : Format n) where
  -- `automation_suspended` to `resume_required`.
  unfoldable pub read_suspension : Fields n → AutomationState → Result AutomationState
  unfolding suspension_of
  read_suspension fields state = do
    suspended ← optional_boolean (property "automation_suspended" fields) false
    at ← optional_nullable_iso f (property "suspended_at" fields)
    reason ← optional_nullable_safe_text (property "suspended_reason" fields)
    required ← optional_boolean (property "resume_required" fields) suspended
    suspension_of state suspended required at reason

  -- What is known of the last attempt.
  unfoldable pub read_attempt : Fields n → AutomationState → Result AutomationState
  read_attempt fields state = do
    last_attempt_at ← nullable_iso f (property "last_attempt_at" fields)
    last_success_at ← nullable_iso f (property "last_success_at" fields)
    last_failure_at ← nullable_iso f (property "last_failure_at" fields)
    last_run_id ← nullable_safe_text (property "last_run_id" fields)
    active_run_id ← nullable_safe_text (property "active_run_id" fields)
    last_result ← nullable_word exact result_word (property "last_result" fields)
    last_error_code ← nullable_safe_text (property "last_error_code" fields)
    cycle_id ←
        optional_nullable_safe_text
          (coalesce (property "cycle_id" fields) (property "last_run_id" fields))
    cycle_status ←
        optional_word printed cycle_word
          (coalesce (property "cycle_status" fields) (property "last_result" fields))
    failure_code ←
        optional_nullable_safe_text
          (coalesce (property "failure_code" fields) (property "last_error_code" fields))
    ok (record state {
      last_attempt_at = last_attempt_at;
      last_success_at = last_success_at;
      last_failure_at = last_failure_at;
      last_run_id = last_run_id;
      active_run_id = active_run_id;
      last_result = last_result;
      last_error_code = last_error_code;
      cycle_id = cycle_id;
      cycle_status = cycle_status;
      failure_code = failure_code;
    })

  -- What the last cycle counted and published.
  unfoldable pub read_cycle : Fields n → AutomationState → Result AutomationState
  read_cycle fields state = do
    cycle_duration_ms ←
        optional_nullable_non_negative_integer f (property "cycle_duration_ms" fields)
    snapshot_generated_at ← optional_nullable_iso f (property "snapshot_generated_at" fields)
    records_received ← optional_non_negative_integer f (property "records_received" fields)
    records_valid ← optional_non_negative_integer f (property "records_valid" fields)
    records_rejected ← optional_non_negative_integer f (property "records_rejected" fields)
    new_records ← optional_non_negative_integer f (property "new_records" fields)
    follow_up_ingested ← optional_non_negative_integer f (property "follow_up_ingested" fields)
    checkpoints_processed ←
        optional_non_negative_integer f (property "checkpoints_processed" fields)
    source_statuses ← normalize_source_statuses (property "source_statuses" fields)
    safe_error ← optional_nullable_safe_description (property "safe_error" fields)
    request_counts ← normalize_request_counts f (property "request_counts" fields)
    last_published_scanner_run_id ←
        nullable_safe_text (property "last_published_scanner_run_id" fields)
    last_published_context_run_id ←
        nullable_safe_text (property "last_published_context_run_id" fields)
    ok (record state {
      cycle_duration_ms = cycle_duration_ms;
      snapshot_generated_at = snapshot_generated_at;
      records_received = records_received;
      records_valid = records_valid;
      records_rejected = records_rejected;
      new_records = new_records;
      follow_up_ingested = follow_up_ingested;
      checkpoints_processed = checkpoints_processed;
      source_statuses = source_statuses;
      safe_error = safe_error;
      request_counts = request_counts;
      last_published_scanner_run_id = last_published_scanner_run_id;
      last_published_context_run_id = last_published_context_run_id;
    })

  -- The part of the scheduler, and the class of the last failure.
  unfoldable pub read_schedule : Fields n → AutomationState → Result AutomationState
  read_schedule fields state = do
    optional_scheduler_version (property "scheduler_schema_version" fields)
    last_scheduler_check_at ← optional_nullable_iso f (property "last_scheduler_check_at" fields)
    last_decision ← optional_word printed decision_word (property "last_decision" fields)
    next_scanner_run_at ← optional_nullable_iso f (property "next_scanner_run_at" fields)
    next_alternative_me_run_at ←
        optional_nullable_iso f (property "next_alternative_me_run_at" fields)
    next_defillama_run_at ← optional_nullable_iso f (property "next_defillama_run_at" fields)
    last_scanner_success_at ← optional_nullable_iso f (property "last_scanner_success_at" fields)
    last_context_success_at ← optional_nullable_iso f (property "last_context_success_at" fields)
    last_scanner_run_id ← optional_nullable_safe_text (property "last_scanner_run_id" fields)
    last_context_run_id ← optional_nullable_safe_text (property "last_context_run_id" fields)
    missed_schedule_count ←
        optional_non_negative_integer f (property "missed_schedule_count" fields)
    consecutive_failure_count ←
        optional_non_negative_integer f (property "consecutive_failure_count" fields)
    last_failure_class ← optional_word exact failure_word (property "last_failure_class" fields)
    ok (record state {
      last_scheduler_check_at = last_scheduler_check_at;
      last_decision = last_decision;
      next_scanner_run_at = next_scanner_run_at;
      next_alternative_me_run_at = next_alternative_me_run_at;
      next_defillama_run_at = next_defillama_run_at;
      last_scanner_success_at = last_scanner_success_at;
      last_context_success_at = last_context_success_at;
      last_scanner_run_id = last_scanner_run_id;
      last_context_run_id = last_context_run_id;
      missed_schedule_count = missed_schedule_count;
      consecutive_failure_count = consecutive_failure_count;
      last_failure_class = last_failure_class;
    })

  -- The state that the fields of an object stand for.
  unfoldable pub normalize_fields : Fields n → Result AutomationState
  unfolding read_suspension read_attempt read_cycle read_schedule
  normalize_fields fields = do
    state_version (property "schema_version" fields)
    suspension ← read_suspension fields create_initial_automation_state
    attempt ← read_attempt fields suspension
    cycle ← read_cycle fields attempt
    read_schedule fields cycle

  normalize_record : Option (Fields n) → Result AutomationState
  unfolding normalize_fields
  normalize_record none = invalid_state
  normalize_record (some fields) = normalize_fields fields

  unfoldable pub normalize_automation_state : Value n → Result AutomationState
  unfolding normalize_record
  normalize_automation_state value = normalize_record (as_record (some value))
