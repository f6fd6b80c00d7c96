-- ===== src/Automation/Store/File.antt =====
-- tools/data-poc/src/automation/automationState.ts: the state as it is written to its file, and the
-- reading and writing of that file. Of the file the model has the JSON value that it holds.
use crypto_edge_ai.Common.{
  ℕ, String, Bool, true, false, ◌&&◌, Option, none, some, List, [], ◌∷◌, Result, ok, err,
}
use crypto_edge_ai.Number.{Number}
use crypto_edge_ai.Date.{DateText}
use crypto_edge_ai.Json.{Value, null, bool, num, str, obj, Fields, end, field}
use crypto_edge_ai.Automation.State.{
  AutomationState, AutomationSourceStatus, create_initial_automation_state,
}
use crypto_edge_ai.Automation.Store.Words.{
  result_text, cycle_text, failure_text, source_text, decision_text,
}
use crypto_edge_ai.Automation.Store.Values.{Format, text_of}
use crypto_edge_ai.Automation.Store.Normalize.{normalize_automation_state}

-- What the state's file holds: nothing, something that cannot be read or is no JSON, or a value.
pub data StoredFile (n : Number) : Type 0 where
  missing unreadable malformed : StoredFile n
  holds : Value n → StoredFile n

-- Which steps of a write succeed: the directory, the temporary file, and its renaming.
pub record WriteSteps : Type 0 where
  pub made : Bool
  pub written : Bool
  pub renamed : Bool

module _ {n : Number} where
  -- A text or `null`.
  abbrev pub nullable : Option String → Value n
  nullable none = null
  nullable (some s) = str s

  abbrev pub nullable_of {ℓ} : {A : Type ℓ} → (A → String) → Option A → Value n
  nullable_of text none = null
  nullable_of text (some a) = str (text a)

  abbrev object : List (String × Value n) → Fields n
  object [] = end
  object ((key, value) ∷ rest) = field key value (object rest)

  unfoldable pub status_fields : List (String × AutomationSourceStatus) → Fields n
  status_fields [] = end
  status_fields ((key, status) ∷ rest) = field key (str (source_text status)) (status_fields rest)

module _ {n : Number} (f : Format n) where
  open f use {number, iso_text}

  abbrev pub date_value : Option DateText → Value n
  date_value d = nullable_of (text_of iso_text) d

  abbrev pub count_value : Option ℕ → Value n
  count_value none = null
  count_value (some k) = num (number k)

  unfoldable pub count_fields : List (String × ℕ) → Fields n
  count_fields [] = end
  count_fields ((key, count) ∷ rest) = field key (num (number count)) (count_fields rest)

  -- A state as the object that `JSON.stringify` writes.
  unfoldable pub fields_of : AutomationState → Fields n
  unfolding status_fields count_fields
  fields_of state = object (
      ("schema_version", str "central_automation_state_v2")
      ∷ ("last_attempt_at", date_value state.last_attempt_at)
      ∷ ("last_success_at", date_value state.last_success_at)
      ∷ ("last_failure_at", date_value state.last_failure_at)
      ∷ ("last_run_id", nullable state.last_run_id)
      ∷ ("active_run_id", nullable state.active_run_id)
      ∷ ("last_result", nullable_of result_text state.last_result)
      ∷ ("last_error_code", nullable state.last_error_code)
      ∷ ("cycle_id", nullable state.cycle_id)
      ∷ ("cycle_status", nullable_of cycle_text state.cycle_status)
      ∷ ("cycle_duration_ms", count_value state.cycle_duration_ms)
      ∷ ("snapshot_generated_at", date_value state.snapshot_generated_at)
      ∷ ("records_received", num (number state.records_received))
      ∷ ("records_valid", num (number state.records_valid))
      ∷ ("records_rejected", num (number state.records_rejected))
      ∷ ("new_records", num (number state.new_records))
      ∷ ("follow_up_ingested", num (number state.follow_up_ingested))
      ∷ ("checkpoints_processed", num (number state.checkpoints_processed))
      ∷ ("source_statuses", obj (status_fields state.source_statuses))
      ∷ ("failure_code", nullable state.failure_code)
      ∷ ("safe_error", nullable state.safe_error)
      ∷ ("request_counts", obj (count_fields state.request_counts))
      ∷ ("last_published_scanner_run_id", nullable state.last_published_scanner_run_id)
      ∷ ("last_published_context_run_id", nullable state.last_published_context_run_id)
      ∷ ("scheduler_schema_version", str "central_source_scheduler_v2")
      ∷ ("last_scheduler_check_at", date_value state.last_scheduler_check_at)
      ∷ ("last_decision", nullable_of decision_text state.last_decision)
      ∷ ("next_scanner_run_at", date_value state.next_scanner_run_at)
      ∷ ("next_alternative_me_run_at", date_value state.next_alternative_me_run_at)
      ∷ ("next_defillama_run_at", date_value state.next_defillama_run_at)
      ∷ ("last_scanner_success_at", date_value state.last_scanner_success_at)
      ∷ ("last_context_success_at", date_value state.last_context_success_at)
      ∷ ("last_scanner_run_id", nullable state.last_scanner_run_id)
      ∷ ("last_context_run_id", nullable state.last_context_run_id)
      ∷ ("missed_schedule_count", num (number state.missed_schedule_count))
      ∷ ("consecutive_failure_count", num (number state.consecutive_failure_count))
      ∷ ("automation_suspended", bool state.automation_suspended)
      ∷ ("suspended_at", date_value state.suspended_at)
      ∷ ("suspended_reason", nullable state.suspended_reason)
      ∷ ("last_failure_class", nullable_of failure_text state.last_failure_class)
      ∷ ("resume_required", bool state.resume_required)
      ∷ [])

  -- `readAutomationState`.
  unfoldable pub read_automation_state : StoredFile n → Result AutomationState
  unfolding normalize_automation_state
  read_automation_state missing = ok create_initial_automation_state
  read_automation_state unreadable = err "AUTOMATION_STATE_READ_FAILED"
  read_automation_state malformed = err "AUTOMATION_STATE_INVALID"
  read_automation_state (holds value) = normalize_automation_state f value

  unfoldable pub put_state :
      Bool → AutomationState → StoredFile n → Result (Unit {0}) × StoredFile n
  unfolding fields_of
  put_state true state file = (ok tt, holds (obj (fields_of state)))
  put_state false state file = (err "AUTOMATION_STATE_WRITE_FAILED", file)

  unfoldable pub put_normalized :
      Bool → Result AutomationState → StoredFile n → Result (Unit {0}) × StoredFile n
  unfolding put_state
  put_normalized done (err code) file = (err code, file)
  put_normalized done (ok state) file = put_state done state file

  -- `writeAutomationStateAtomic`: the result, and the file afterwards. The temporary file that a
  -- failure may leave behind is never read.
  unfoldable pub write_automation_state_atomic :
      WriteSteps → AutomationState → StoredFile n → Result (Unit {0}) × StoredFile n
  unfolding put_normalized normalize_automation_state
  write_automation_state_atomic steps state file =
      put_normalized (steps.made && steps.written && steps.renamed)
        (normalize_automation_state f (obj (fields_of state))) file
