-- ===== src/Automation/Store/Roundtrip.antt =====
-- The state's file of tools/data-poc/src/automation/automationState.ts gives back the state that was
-- written.
use crypto_edge_ai.Common.{◌≡◌, refl, Option, none, some, false, ok, arith, String}
use crypto_edge_ai.Number.{Number}
use crypto_edge_ai.Json.{obj, property, coalesce}
use crypto_edge_ai.Automation.State.{
  AutomationState, create_initial_automation_state, CycleStatus, RunResult,
}
use crypto_edge_ai.Automation.State.Coherence.{IsCoherent}
use crypto_edge_ai.Automation.Store.Words.{
  result_word, cycle_word, failure_word, decision_word, result_text, cycle_text, failure_text,
  decision_text,
}
use crypto_edge_ai.Automation.Store.Values.{
  Format, optional_nullable_safe_text, optional_word, printed, optional_boolean, state_version,
  optional_scheduler_version,
}
use crypto_edge_ai.Automation.Store.Normalize.{
  is_incoherent, suspension_of, read_suspension, read_attempt, read_cycle, read_schedule,
  normalize_fields, normalize_automation_state,
}
use crypto_edge_ai.Automation.Store.File.{nullable, nullable_of, fields_of}
use crypto_edge_ai.Automation.Store.Valid.{
  IsStorable, HasSuspension, HasAttempt, HasCycle, HasSchedule, IsId, Inherits,
}
use crypto_edge_ai.Automation.Store.Valid.Known.{
  result_word_of, cycle_word_of, failure_word_of, decision_word_of,
}
use crypto_edge_ai.Automation.Store.Valid.Written.{
  nullable_safe_text_written, safe_description_written, nullable_word_written,
  optional_word_written, optional_word_written_loosely, source_statuses_written,
  nullable_iso_written, optional_nullable_iso_written, count_written, nullable_count_written,
  request_counts_written,
}

module _ {n : Number} (f : Format n) where
  -- A field that is read from another one if it is absent.
  inherited_text_written :
      (a b : Option String)
      → IsId a
      → Inherits a b
      → optional_nullable_safe_text (coalesce (some (nullable {n = n} a)) (some (nullable b)))
        ≡ ok a
  unfolding optional_nullable_safe_text
  inherited_text_written none none h i = nullable_safe_text_written n none tt
  inherited_text_written none (some b) h i = cc
  inherited_text_written (some a) b h i = nullable_safe_text_written n (some a) h

  inherited_status_written :
      (a : Option CycleStatus) (b : Option RunResult)
      → Inherits a b
      → optional_word printed cycle_word
          (coalesce (some (nullable_of {n = n} cycle_text a)) (some (nullable_of result_text b)))
        ≡ ok a
  inherited_status_written none none i =
      optional_word_written_loosely n cycle_word cycle_text cycle_word_of none
  inherited_status_written none (some b) i = cc
  inherited_status_written (some a) b i =
      optional_word_written_loosely n cycle_word cycle_text cycle_word_of (some a)

  optional_text_written :
      (a : Option String) → IsId a → optional_nullable_safe_text (some (nullable {n = n} a)) ≡ ok a
  unfolding optional_nullable_safe_text
  optional_text_written a h = nullable_safe_text_written n a h

  coherent_written :
      (s : AutomationState)
      → IsCoherent s
      → is_incoherent s.automation_suspended s.resume_required s.suspended_at s.suspended_reason
        ≡ false
  unfolding is_incoherent
  coherent_written s c = ground arith

  suspension_written :
      (s t : AutomationState)
      → IsCoherent s
      → HasSuspension f s
      → read_suspension f (fields_of f s) t
        ≡ ok (record t {
          automation_suspended = s.automation_suspended;
          suspended_at = s.suspended_at;
          suspended_reason = s.suspended_reason;
          resume_required = s.resume_required;
        })
  unfolding read_suspension fields_of property optional_boolean
  suspension_written s t coherent (at, reason) = rw (
    optional_nullable_iso_written n f s.suspended_at at,
    optional_text_written s.suspended_reason reason,
    suspension_of,
    coherent_written s coherent,
  )

  attempt_written :
      (s t : AutomationState)
      → HasAttempt f s
      → read_attempt f (fields_of f s) t
        ≡ ok (record t {
          last_attempt_at = s.last_attempt_at;
          last_success_at = s.last_success_at;
          last_failure_at = s.last_failure_at;
          last_run_id = s.last_run_id;
          active_run_id = s.active_run_id;
          last_result = s.last_result;
          last_error_code = s.last_error_code;
          cycle_id = s.cycle_id;
          cycle_status = s.cycle_status;
          failure_code = s.failure_code;
        })
  unfolding read_attempt fields_of property
  attempt_written s t (at, success, failure, run, active, code, cycle, failed, i, j, k) = rw (
    nullable_iso_written n f s.last_attempt_at at,
    nullable_iso_written n f s.last_success_at success,
    nullable_iso_written n f s.last_failure_at failure,
    nullable_safe_text_written n s.last_run_id run,
    nullable_safe_text_written n s.active_run_id active,
    nullable_word_written n result_word result_text result_word_of s.last_result,
    nullable_safe_text_written n s.last_error_code code,
    inherited_text_written s.cycle_id s.last_run_id cycle i,
    inherited_status_written s.cycle_status s.last_result j,
    inherited_text_written s.failure_code s.last_error_code failed k,
  )

  cycle_written :
      (s t : AutomationState)
      → HasCycle f s
      → read_cycle f (fields_of f s) t
        ≡ ok (record t {
          cycle_duration_ms = s.cycle_duration_ms;
          snapshot_generated_at = s.snapshot_generated_at;
          records_received = s.records_received;
          records_valid = s.records_valid;
          records_rejected = s.records_rejected;
          new_records = s.new_records;
          follow_up_ingested = s.follow_up_ingested;
          checkpoints_processed = s.checkpoints_processed;
          source_statuses = s.source_statuses;
          safe_error = s.safe_error;
          request_counts = s.request_counts;
          last_published_scanner_run_id = s.last_published_scanner_run_id;
          last_published_context_run_id = s.last_published_context_run_id;
        })
  unfolding read_cycle fields_of property
  cycle_written s t
        (
          duration, generated, received, valid, rejected, new, followed, checked, statuses, error,
          counts, scanner, context,
        ) =
      rw (
        nullable_count_written n f s.cycle_duration_ms duration,
        optional_nullable_iso_written n f s.snapshot_generated_at generated,
        count_written n f s.records_received received,
        count_written n f s.records_valid valid,
        count_written n f s.records_rejected rejected,
        count_written n f s.new_records new,
        count_written n f s.follow_up_ingested followed,
        count_written n f s.checkpoints_processed checked,
        source_statuses_written n s.source_statuses statuses,
        safe_description_written n s.safe_error error,
        request_counts_written n f s.request_counts counts,
        nullable_safe_text_written n s.last_published_scanner_run_id scanner,
        nullable_safe_text_written n s.last_published_context_run_id context,
      )

  schedule_written :
      (s t : AutomationState)
      → HasSchedule f s
      → read_schedule f (fields_of f s) t
        ≡ ok (record t {
          last_scheduler_check_at = s.last_scheduler_check_at;
          last_decision = s.last_decision;
          next_scanner_run_at = s.next_scanner_run_at;
          next_alternative_me_run_at = s.next_alternative_me_run_at;
          next_defillama_run_at = s.next_defillama_run_at;
          last_scanner_success_at = s.last_scanner_success_at;
          last_context_success_at = s.last_context_success_at;
          last_scanner_run_id = s.last_scanner_run_id;
          last_context_run_id = s.last_context_run_id;
          missed_schedule_count = s.missed_schedule_count;
          consecutive_failure_count = s.consecutive_failure_count;
          last_failure_class = s.last_failure_class;
        })
  unfolding read_schedule fields_of property optional_scheduler_version
  schedule_written s t
        (at, scanner, alternative, defillama, scanned, refreshed, scan, context, missed, failures) =
      rw (
        optional_nullable_iso_written n f s.last_scheduler_check_at at,
        optional_word_written_loosely n decision_word decision_text decision_word_of
            s.last_decision,
        optional_nullable_iso_written n f s.next_scanner_run_at scanner,
        optional_nullable_iso_written n f s.next_alternative_me_run_at alternative,
        optional_nullable_iso_written n f s.next_defillama_run_at defillama,
        optional_nullable_iso_written n f s.last_scanner_success_at scanned,
        optional_nullable_iso_written n f s.last_context_success_at refreshed,
        optional_text_written s.last_scanner_run_id scan,
        optional_text_written s.last_context_run_id context,
        count_written n f s.missed_schedule_count missed,
        count_written n f s.consecutive_failure_count failures,
        optional_word_written n failure_word failure_text failure_word_of s.last_failure_class,
      )

  version_written :
      (s : AutomationState) → state_version (property "schema_version" (fields_of f s)) ≡ ok tt
  unfolding fields_of property state_version
  version_written s = refl

  -- A state that the file may hold is read as it was written.
  pub normalize_written :
      (s : AutomationState)
      → IsStorable f s
      → normalize_automation_state f (obj (fields_of f s)) ≡ ok s
  unfolding normalize_automation_state normalize_fields
  normalize_written s h = rw (
    version_written s,
    suspension_written s create_initial_automation_state h.coherent h.suspension,
    attempt_written s _ h.attempt,
    cycle_written s _ h.cycle,
    schedule_written s _ h.schedule,
  )
