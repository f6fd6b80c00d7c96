-- ===== src/Automation/Store/Accepted.antt =====
-- Whatever its file holds, the state that tools/data-poc/src/automation/automationState.ts reads from
-- it can be written.
mod Suspension
mod Attempt
mod Cycle
use crypto_edge_ai.Common.{
  ◌≢◌, ◌≡◌, refl, sym, Option, none, some, Bool, true, false, ok, Bool-cases, inl, inr, String,
  ok_injective, bind-eq-ok, then-eq-ok,
}
use crypto_edge_ai.Number.{Number}
use crypto_edge_ai.Json.{property, coalesce, Fields, Value, null, bool, num, str, obj, arr}
use crypto_edge_ai.Date.{DateText}
use crypto_edge_ai.Automation.ErrorCode.{is_safe_text}
use crypto_edge_ai.Automation.ErrorCode.{is_safe_text}
use crypto_edge_ai.Automation.ErrorCode.{is_safe_text}
use crypto_edge_ai.Automation.ErrorCode.{is_safe_text}
use crypto_edge_ai.Automation.ErrorCode.{is_safe_text}
use crypto_edge_ai.Automation.State.{
  CycleStatus, RunResult, AutomationState, create_initial_automation_state,
}
use crypto_edge_ai.Automation.State.Coherence.{IsCoherent}
use crypto_edge_ai.Automation.Store.Words.{result_word, cycle_word, failure_word, decision_word}
use crypto_edge_ai.Automation.Store.Values.{
  Format, exact, printed, when_word, then_word, when_word, then_word, when_word, then_word,
  when_word, then_word, when_word, then_word, nullable_word, optional_word, nullable_safe_text,
  optional_nullable_safe_text, optional_nullable_safe_description, optional_boolean,
  optional_scheduler_version, state_version, normalize_source_statuses, nullable_iso,
  optional_nullable_iso, optional_non_negative_integer, optional_nullable_non_negative_integer,
  normalize_request_counts,
}
use crypto_edge_ai.Automation.Store.Normalize.{
  is_incoherent, suspension_of, read_suspension, read_attempt, read_cycle, read_schedule,
  normalize_fields, normalize_automation_state,
}
use crypto_edge_ai.Automation.Store.Valid.{
  IsStorable, HasSuspension, HasAttempt, HasCycle, HasSchedule, IsId, Inherits, Each, IsDate,
}
use crypto_edge_ai.Automation.Store.Valid.Read.{
  when_valid-eq-ok, nullable_safe_text-IsId, optional_nullable_safe_text-IsId,
  nullable_text-IsDescription, source_statuses-HasKey, nullable_iso-IsDate,
  optional_nullable_iso-IsDate, natural-IsCount, nullable_natural-IsCount,
  request_counts-IsCountEntry,
}
use crypto_edge_ai.Automation.Store.Accepted.Suspension.{read_suspension-Passed}
use crypto_edge_ai.Automation.Store.Accepted.Attempt.{read_attempt-HasAttempt}
use crypto_edge_ai.Automation.Store.Accepted.Cycle.{read_cycle-HasCycle, read_schedule-IsStorable}

module _ {n : Number} (f : Format n) where
  normalize_fields-IsStorable :
      (fields : Fields n) {s : AutomationState} → normalize_fields f fields ≡ ok s → IsStorable f s
  unfolding normalize_fields
  normalize_fields-IsStorable fields e =
      let rest = then-eq-ok (state_version (property "schema_version" fields)) e in
      let (s, e0, rest0) =
        bind-eq-ok (read_suspension f fields create_initial_automation_state) _ rest in
      let (s', e1, rest1) = bind-eq-ok (read_attempt f fields s) _ rest0 in
      let (s'', e2, rest2) = bind-eq-ok (read_cycle f fields s') _ rest1 in
      let passed = read_suspension-Passed f fields create_initial_automation_state e0 in
      let attempt = read_attempt-HasAttempt f fields s passed e1 in
      read_schedule-IsStorable f fields s'' (read_cycle-HasCycle f fields s' attempt e2) rest2

  -- Whatever is accepted can be written.
  pub normalize-IsStorable :
      (value : Value n) {s : AutomationState}
      → normalize_automation_state f value ≡ ok s
      → IsStorable f s
  unfolding normalize_automation_state
  normalize-IsStorable (obj fields) e = normalize_fields-IsStorable fields e
  normalize-IsStorable _ e = cc
