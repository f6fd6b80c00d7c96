-- ===== src/Automation/Cycle.antt =====
-- tools/data-poc/src/automation/centralAutomationCoordinator.ts: what a runner returns, and the
-- states that a run of the automation writes.
use Prim.Native.String
use crypto_edge_ai.Common.{
  or_else, ℕ, ◌+◌, ◌-◌, String, Bool, true, false, ◌||◌, Option, none, some, List, [], ◌∷◌, leb,
  if◌then◌else◌, any, includes, Result, ok, ◌>>=◌,
}
use crypto_edge_ai.Date.{DateText, iso, parse}
use crypto_edge_ai.Automation.State.{
  AutomationState, AutomationSourceStatus, RunResult, CycleStatus, FailureClass,
}
use crypto_edge_ai.Automation.Cadence.{dexscreener_ms, alternative_me_ms, defillama_ms, next_run_at}
use crypto_edge_ai.Automation.ErrorCode.{is_safe_text, is_id_key, classify_automation_failure}

pub data RunMode : Type 0 where
  scanner_and_context context_only : RunMode

-- `CentralAutomationRunnerResult`: a field that is absent or `null` is `none`, and a count that is
-- no safe integer, or negative, is `none` too, since the code reads both as 0.
pub record RunnerResult : Type 0 where
  pub request_counts : List (String × Option ℕ)
  pub scanner_run_id : Option String
  pub context_run_id : Option String
  pub context_sources_refreshed : Option (List String)
  pub snapshot_generated_at : Option DateText
  pub records_received : Option ℕ
  pub records_valid : Option ℕ
  pub records_rejected : Option ℕ
  pub new_records : Option ℕ
  pub follow_up_ingested : Option ℕ
  pub checkpoints_processed : Option ℕ
  pub source_statuses : List (String × Option AutomationSourceStatus)

abbrev pub safe_count : Option ℕ → ℕ
safe_count none = 0
safe_count (some n) = n

abbrev pub safe_optional_run_id : Option String → Option String
safe_optional_run_id none = none
safe_optional_run_id (some id) = if is_safe_text id then some id else none

-- `safeOptionalIso`: `new Date(value)` is the date that `Date.parse` found.
abbrev pub safe_optional_iso : Option DateText → Option DateText
safe_optional_iso none = none
safe_optional_iso (some text) = elim (parse text) [ none ↦ none | some t ↦ some (iso t) ]

-- `Math.max(0, finished - Date.parse(started))`, for the attempt's own text.
abbrev pub elapsed_ms : ℕ → ℕ → ℕ
elapsed_ms started finished = finished - started

-- `normalizeSourceStatuses`.
unfoldable pub normalize_source_statuses :
    List (String × Option AutomationSourceStatus) → List (String × AutomationSourceStatus)
normalize_source_statuses [] = []
normalize_source_statuses ((key, none) ∷ rest) = normalize_source_statuses rest
normalize_source_statuses ((key, some status) ∷ rest) =
    let others = normalize_source_statuses rest in
    if is_id_key key then (key, status) ∷ others else others

-- `normalizeRunnerRequestCounts`.
unfoldable pub normalize_request_counts : List (String × Option ℕ) → List (String × ℕ)
normalize_request_counts [] = []
normalize_request_counts ((key, none) ∷ rest) = normalize_request_counts rest
normalize_request_counts ((key, some count) ∷ rest) =
    let others = normalize_request_counts rest in
    if is_id_key key then (key, count) ∷ others else others

-- `refreshed === null || refreshed.has(id)`.
unfoldable pub is_refreshed : Option (List String) → String → Bool
unfolding includes
is_refreshed none id = true
is_refreshed (some ids) id = includes ids id

abbrev pub is_impaired : AutomationSourceStatus → Bool
is_impaired AutomationSourceStatus.degraded = true
is_impaired AutomationSourceStatus.unavailable = true
is_impaired _ = false

-- `resolveCycleStatus`: whether the cycle is PARTIAL.
unfoldable pub is_partial : RunnerResult → Bool
unfolding normalize_source_statuses
is_partial r = any (λ entry. is_impaired entry.1) (normalize_source_statuses r.source_statuses)

abbrev pub result_of : Bool → RunResult
result_of true = RunResult.partial
result_of false = RunResult.success

abbrev pub is_scanner_mode : RunMode → Bool
is_scanner_mode scanner_and_context = true
is_scanner_mode context_only = false

-- The state of an attempt that has begun.
unfoldable pub started_state : AutomationState → String → DateText → AutomationState
started_state previous run_id attempt_at = record previous {
  last_attempt_at = some attempt_at;
  last_run_id = some run_id;
  active_run_id = some run_id;
  last_error_code = none;
  cycle_id = some run_id;
  cycle_status = some CycleStatus.in_progress;
  cycle_duration_ms = none;
  failure_code = none;
  safe_error = none;
}

abbrev pub max_consecutive_transient_failures : ℕ
max_consecutive_transient_failures = 3

abbrev is_deterministic : FailureClass → Bool
is_deterministic FailureClass.deterministic = true
is_deterministic FailureClass.transient = false

unfoldable pub should_suspend : AutomationState → String → Bool
unfolding classify_automation_failure
should_suspend previous error_code =
    is_deterministic (classify_automation_failure error_code)
    || leb max_consecutive_transient_failures (previous.consecutive_failure_count + 1)

unfoldable pub safe_error_description : String → String
safe_error_description error_code =
    String.◌++◌ "Central data cycle failed (" (String.◌++◌ error_code ").")

-- The state of an attempt that failed with the code, at a date and after a duration.
unfoldable pub failed_state :
    AutomationState → String → DateText → String → DateText → ℕ → AutomationState
unfolding should_suspend safe_error_description
failed_state previous run_id attempt_at error_code failure_at duration =
    let suspend = should_suspend previous error_code in
    record previous {
      last_attempt_at = some attempt_at;
      last_failure_at = some failure_at;
      last_run_id = some run_id;
      active_run_id = none;
      last_result = some RunResult.failed;
      last_error_code = some error_code;
      cycle_id = some run_id;
      cycle_status = some (CycleStatus.ended RunResult.failed);
      cycle_duration_ms = some duration;
      records_received = 0;
      records_valid = 0;
      records_rejected = 0;
      new_records = 0;
      follow_up_ingested = 0;
      checkpoints_processed = 0;
      source_statuses = [];
      failure_code = some error_code;
      safe_error = some (safe_error_description error_code);
      consecutive_failure_count = previous.consecutive_failure_count + 1;
      automation_suspended = suspend;
      suspended_at = if suspend then some failure_at else none;
      suspended_reason = if suspend then some error_code else none;
      last_failure_class = some (classify_automation_failure error_code);
      resume_required = suspend;
    }

-- The dates of the next runs, which `nextRunAt` may refuse.
pub record NextRuns : Type 0 where
  pub scanner : Option DateText
  pub alternative_me : Option DateText
  pub defillama : Option DateText

unfoldable pub scanner_success_of : AutomationState → RunMode → DateText → Option DateText
scanner_success_of previous scanner_and_context success_at = some success_at
scanner_success_of previous context_only success_at = previous.last_scanner_success_at

-- The state of an attempt that ended well or partly so, at a date.
unfoldable pub completed_state :
    AutomationState
    → String
    → DateText
    → DateText
    → ℕ
    → RunnerResult
    → RunMode
    → NextRuns
    → AutomationState
unfolding is_partial scanner_success_of normalize_source_statuses normalize_request_counts
completed_state previous run_id attempt_at success_at duration result mode next = record previous {
  last_attempt_at = some attempt_at;
  last_success_at = if is_partial result then previous.last_success_at else some success_at;
  last_run_id = some run_id;
  active_run_id = none;
  last_result = some (result_of (is_partial result));
  last_error_code = none;
  cycle_id = some run_id;
  cycle_status = some (CycleStatus.ended (result_of (is_partial result)));
  cycle_duration_ms = some duration;
  snapshot_generated_at =
      or_else (safe_optional_iso result.snapshot_generated_at) previous.snapshot_generated_at;
  records_received = safe_count result.records_received;
  records_valid = safe_count result.records_valid;
  records_rejected = safe_count result.records_rejected;
  new_records = safe_count result.new_records;
  follow_up_ingested = safe_count result.follow_up_ingested;
  checkpoints_processed = safe_count result.checkpoints_processed;
  source_statuses = normalize_source_statuses result.source_statuses;
  failure_code = none;
  safe_error = none;
  request_counts = normalize_request_counts result.request_counts;
  last_published_scanner_run_id =
      or_else (safe_optional_run_id result.scanner_run_id) previous.last_published_scanner_run_id;
  last_published_context_run_id =
      or_else (safe_optional_run_id result.context_run_id) previous.last_published_context_run_id;
  last_scanner_success_at = scanner_success_of previous mode success_at;
  last_context_success_at = some success_at;
  last_scanner_run_id =
      if is_scanner_mode mode
      then or_else (safe_optional_run_id result.scanner_run_id) previous.last_scanner_run_id
      else previous.last_scanner_run_id;
  last_context_run_id =
      or_else (safe_optional_run_id result.context_run_id) previous.last_context_run_id;
  next_scanner_run_at = next.scanner;
  next_alternative_me_run_at = next.alternative_me;
  next_defillama_run_at = next.defillama;
  consecutive_failure_count = 0;
}

-- The calls of `nextRunAt` in `buildCompletedState`.
unfoldable pub next_runs :
    AutomationState → RunMode → Option (List String) → DateText → Result NextRuns
unfolding scanner_success_of is_refreshed next_run_at
next_runs previous mode refreshed success_at = do
  scanner ← next_run_at (scanner_success_of previous mode success_at) dexscreener_ms
  alternative ←
      if is_refreshed refreshed "alternative_me_fng"
      then next_run_at (some success_at) alternative_me_ms
      else ok previous.next_alternative_me_run_at
  defillama ←
      if is_refreshed refreshed "defillama_api"
      then next_run_at (some success_at) defillama_ms
      else ok previous.next_defillama_run_at
  ok (record { scanner = scanner; alternative_me = alternative; defillama = defillama })
