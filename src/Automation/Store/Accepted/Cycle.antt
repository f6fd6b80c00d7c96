-- ===== src/Automation/Store/Accepted/Cycle.antt =====
-- The fields of the last cycle and of the scheduler that
-- tools/data-poc/src/automation/automationState.ts accepts.
use crypto_edge_ai.Common.{◌≡◌, ok, ok_injective, bind-eq-ok, then-eq-ok}
use crypto_edge_ai.Number.{Number}
use crypto_edge_ai.Json.{property, Fields}
use crypto_edge_ai.Automation.State.{AutomationState}
use crypto_edge_ai.Automation.Store.Words.{failure_word, decision_word}
use crypto_edge_ai.Automation.Store.Values.{
  Format, exact, printed, optional_word, nullable_safe_text, optional_nullable_safe_text,
  optional_nullable_safe_description, optional_scheduler_version, normalize_source_statuses,
  optional_nullable_iso, optional_non_negative_integer, optional_nullable_non_negative_integer,
  normalize_request_counts,
}
use crypto_edge_ai.Automation.Store.Normalize.{read_cycle, read_schedule}
use crypto_edge_ai.Automation.Store.Valid.{IsStorable, HasAttempt, HasCycle}
use crypto_edge_ai.Automation.Store.Valid.Read.{
  nullable_safe_text-IsId, optional_nullable_safe_text-IsId, nullable_text-IsDescription,
  source_statuses-HasKey, optional_nullable_iso-IsDate, natural-IsCount, nullable_natural-IsCount,
  request_counts-IsCountEntry,
}
use crypto_edge_ai.Automation.Store.Accepted.Suspension.{Passed, IsCoherent-of_accepted}

module _ {n : Number} (f : Format n) where
  pub read_cycle-HasCycle :
      (fields : Fields n) (s : AutomationState) {s' : AutomationState}
      → Passed f s × HasAttempt f s
      → read_cycle f fields s ≡ ok s'
      → Passed f s' × HasAttempt f s' × HasCycle f s'
  unfolding read_cycle
  read_cycle-HasCycle fields s (h, i) e =
      let (v0, e0, rest0) =
        bind-eq-ok (optional_nullable_non_negative_integer f (property "cycle_duration_ms" fields))
          _ e in
      let (v1, e1, rest1) =
        bind-eq-ok (optional_nullable_iso f (property "snapshot_generated_at" fields)) _ rest0 in
      let (v2, e2, rest2) =
        bind-eq-ok (optional_non_negative_integer f (property "records_received" fields)) _ rest1 in
      let (v3, e3, rest3) =
        bind-eq-ok (optional_non_negative_integer f (property "records_valid" fields)) _ rest2 in
      let (v4, e4, rest4) =
        bind-eq-ok (optional_non_negative_integer f (property "records_rejected" fields)) _ rest3 in
      let (v5, e5, rest5) =
        bind-eq-ok (optional_non_negative_integer f (property "new_records" fields)) _ rest4 in
      let (v6, e6, rest6) =
        bind-eq-ok (optional_non_negative_integer f (property "follow_up_ingested" fields)) _
          rest5 in
      let (v7, e7, rest7) =
        bind-eq-ok (optional_non_negative_integer f (property "checkpoints_processed" fields)) _
          rest6 in
      let (v8, e8, rest8) =
        bind-eq-ok (normalize_source_statuses (property "source_statuses" fields)) _ rest7 in
      let (v9, e9, rest9) =
        bind-eq-ok (optional_nullable_safe_description (property "safe_error" fields)) _ rest8 in
      let (v10, e10, rest10) =
        bind-eq-ok (normalize_request_counts f (property "request_counts" fields)) _ rest9 in
      let (v11, e11, rest11) =
        bind-eq-ok (nullable_safe_text (property "last_published_scanner_run_id" fields)) _
          rest10 in
      let (v12, e12, rest12) =
        bind-eq-ok (nullable_safe_text (property "last_published_context_run_id" fields)) _
          rest11 in
      let here = ok_injective rest12 in
      rw (← here) (
        h,
        i,
        (
          nullable_natural-IsCount f (property "cycle_duration_ms" fields) e0,
          optional_nullable_iso-IsDate f (property "snapshot_generated_at" fields) e1,
          natural-IsCount f (property "records_received" fields) e2,
          natural-IsCount f (property "records_valid" fields) e3,
          natural-IsCount f (property "records_rejected" fields) e4,
          natural-IsCount f (property "new_records" fields) e5,
          natural-IsCount f (property "follow_up_ingested" fields) e6,
          natural-IsCount f (property "checkpoints_processed" fields) e7,
          source_statuses-HasKey (property "source_statuses" fields) e8,
          nullable_text-IsDescription (property "safe_error" fields) e9,
          request_counts-IsCountEntry f (property "request_counts" fields) e10,
          nullable_safe_text-IsId (property "last_published_scanner_run_id" fields) e11,
          nullable_safe_text-IsId (property "last_published_context_run_id" fields) e12,
        ),
      )

  pub read_schedule-IsStorable :
      (fields : Fields n) (s : AutomationState) {s' : AutomationState}
      → Passed f s × HasAttempt f s × HasCycle f s
      → read_schedule f fields s ≡ ok s'
      → IsStorable f s'
  unfolding read_schedule
  read_schedule-IsStorable fields s (h, i, j) e =
      let rest =
        then-eq-ok (optional_scheduler_version (property "scheduler_schema_version" fields)) e in
      let (v0, e0, rest0) =
        bind-eq-ok (optional_nullable_iso f (property "last_scheduler_check_at" fields)) _ rest in
      let (v1, e1, rest1) =
        bind-eq-ok (optional_word printed decision_word (property "last_decision" fields)) _
          rest0 in
      let (v2, e2, rest2) =
        bind-eq-ok (optional_nullable_iso f (property "next_scanner_run_at" fields)) _ rest1 in
      let (v3, e3, rest3) =
        bind-eq-ok (optional_nullable_iso f (property "next_alternative_me_run_at" fields)) _
          rest2 in
      let (v4, e4, rest4) =
        bind-eq-ok (optional_nullable_iso f (property "next_defillama_run_at" fields)) _ rest3 in
      let (v5, e5, rest5) =
        bind-eq-ok (optional_nullable_iso f (property "last_scanner_success_at" fields)) _ rest4 in
      let (v6, e6, rest6) =
        bind-eq-ok (optional_nullable_iso f (property "last_context_success_at" fields)) _ rest5 in
      let (v7, e7, rest7) =
        bind-eq-ok (optional_nullable_safe_text (property "last_scanner_run_id" fields)) _ rest6 in
      let (v8, e8, rest8) =
        bind-eq-ok (optional_nullable_safe_text (property "last_context_run_id" fields)) _ rest7 in
      let (v9, e9, rest9) =
        bind-eq-ok (optional_non_negative_integer f (property "missed_schedule_count" fields)) _
          rest8 in
      let (v10, e10, rest10) =
        bind-eq-ok (optional_non_negative_integer f (property "consecutive_failure_count" fields)) _
          rest9 in
      let (v11, e11, rest11) =
        bind-eq-ok (optional_word exact failure_word (property "last_failure_class" fields)) _
          rest10 in
      let here = ok_injective rest11 in
      rw (← here) (record {
        coherent = IsCoherent-of_accepted _ h.0;
        suspension = h.1;
        attempt = i;
        cycle = j;
        schedule = (
          optional_nullable_iso-IsDate f (property "last_scheduler_check_at" fields) e0,
          optional_nullable_iso-IsDate f (property "next_scanner_run_at" fields) e2,
          optional_nullable_iso-IsDate f (property "next_alternative_me_run_at" fields) e3,
          optional_nullable_iso-IsDate f (property "next_defillama_run_at" fields) e4,
          optional_nullable_iso-IsDate f (property "last_scanner_success_at" fields) e5,
          optional_nullable_iso-IsDate f (property "last_context_success_at" fields) e6,
          optional_nullable_safe_text-IsId (property "last_scanner_run_id" fields) e7,
          optional_nullable_safe_text-IsId (property "last_context_run_id" fields) e8,
          natural-IsCount f (property "missed_schedule_count" fields) e9,
          natural-IsCount f (property "consecutive_failure_count" fields) e10,
        );
      })
