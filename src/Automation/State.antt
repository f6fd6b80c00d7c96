-- ===== src/Automation/State.antt =====
-- tools/data-poc/src/automation/automationState.ts: the state of the automation, and
-- tools/data-poc/src/automation/resumeAutomationState.ts: the owner's resumption. The two schema
-- versions, which a state of this type always has, are left out.
pub mod Coherence
mod Tests
use crypto_edge_ai.Common.{
  ℕ, String, Bool, true, false, Option, none, some, List, [], if◌then◌else◌, Result, ok, ◌>>=◌,
  ◌>>◌,
}
use crypto_edge_ai.Date.{DateText}

pub data SchedulerDecisionCode : Type 0 where
  run_scanner_and_context run_context_only nothing_due run_already_in_progress automation_suspended
        automation_disabled state_unavailable :
      SchedulerDecisionCode

pub data AutomationSourceStatus : Type 0 where
  ready degraded unavailable not_invoked : AutomationSourceStatus

pub data RunResult : Type 0 where
  success partial failed : RunResult

pub data CycleStatus : Type 0 where
  in_progress : CycleStatus
  ended : RunResult → CycleStatus

pub data FailureClass : Type 0 where
  deterministic transient : FailureClass

pub record AutomationState : Type 0 where
  pub last_attempt_at : Option DateText
  pub last_success_at : Option DateText
  pub last_failure_at : Option DateText
  pub last_run_id : Option String
  pub active_run_id : Option String
  pub last_result : Option RunResult
  pub last_error_code : Option String
  pub cycle_id : Option String
  pub cycle_status : Option CycleStatus
  pub cycle_duration_ms : Option ℕ
  pub snapshot_generated_at : Option DateText
  pub records_received : ℕ
  pub records_valid : ℕ
  pub records_rejected : ℕ
  pub new_records : ℕ
  pub follow_up_ingested : ℕ
  pub checkpoints_processed : ℕ
  pub source_statuses : List (String × AutomationSourceStatus)
  pub failure_code : Option String
  pub safe_error : Option String
  pub request_counts : List (String × ℕ)
  pub last_published_scanner_run_id : Option String
  pub last_published_context_run_id : Option String
  pub last_scheduler_check_at : Option DateText
  pub last_decision : Option SchedulerDecisionCode
  pub next_scanner_run_at : Option DateText
  pub next_alternative_me_run_at : Option DateText
  pub next_defillama_run_at : Option DateText
  pub last_scanner_success_at : Option DateText
  pub last_context_success_at : Option DateText
  pub last_scanner_run_id : Option String
  pub last_context_run_id : Option String
  pub missed_schedule_count : ℕ
  pub consecutive_failure_count : ℕ
  pub automation_suspended : Bool
  pub suspended_at : Option DateText
  pub suspended_reason : Option String
  pub last_failure_class : Option FailureClass
  pub resume_required : Bool

unfoldable pub create_initial_automation_state : AutomationState
create_initial_automation_state = record {
  last_attempt_at = none;
  last_success_at = none;
  last_failure_at = none;
  last_run_id = none;
  active_run_id = none;
  last_result = none;
  last_error_code = none;
  cycle_id = none;
  cycle_status = none;
  cycle_duration_ms = none;
  snapshot_generated_at = none;
  records_received = 0;
  records_valid = 0;
  records_rejected = 0;
  new_records = 0;
  follow_up_ingested = 0;
  checkpoints_processed = 0;
  source_statuses = [];
  failure_code = none;
  safe_error = none;
  request_counts = [];
  last_published_scanner_run_id = none;
  last_published_context_run_id = none;
  last_scheduler_check_at = none;
  last_decision = none;
  next_scanner_run_at = none;
  next_alternative_me_run_at = none;
  next_defillama_run_at = none;
  last_scanner_success_at = none;
  last_context_success_at = none;
  last_scanner_run_id = none;
  last_context_run_id = none;
  missed_schedule_count = 0;
  consecutive_failure_count = 0;
  automation_suspended = false;
  suspended_at = none;
  suspended_reason = none;
  last_failure_class = none;
  resume_required = false;
}

pub data ResumeMode : Type 0 where
  preview owner_confirmed : ResumeMode

pub data ResumeStatus : Type 0 where
  resume_available resumed not_suspended : ResumeStatus

pub record ResumeResult : Type 0 where
  pub mode : ResumeMode
  pub status : ResumeStatus
  pub automation_suspended : Bool
  pub resume_required : Bool
  pub consecutive_failure_count : ℕ
  pub suspended_reason : Option String

resume_result : Bool → ResumeStatus → AutomationState → ResumeResult
resume_result owner_confirmed' status state = record {
  mode = if owner_confirmed' then owner_confirmed else preview;
  status = status;
  automation_suspended = state.automation_suspended;
  resume_required = state.resume_required;
  consecutive_failure_count = state.consecutive_failure_count;
  suspended_reason = state.suspended_reason;
}

unfoldable pub resumed_state : AutomationState → AutomationState
resumed_state current = record current {
  automation_suspended = false;
  suspended_at = none;
  suspended_reason = none;
  resume_required = false;
}

resume_from :
    Bool
    → AutomationState
    → (AutomationState → Result (Unit {0}))
    → Result (ResumeResult × Option AutomationState)
unfolding resume_result resumed_state
resume_from owner_confirmed' current write =
    if current.automation_suspended
    then if owner_confirmed'
      then (do
        write (resumed_state current)
        ok (resume_result true resumed (resumed_state current), some (resumed_state current)))
      else ok (resume_result false resume_available current, none)
    else ok (resume_result owner_confirmed' not_suspended current, none)

-- `store.read()` gives `stored` and `store.write()` gives `written`; the second part is the state
-- that was written, if one was.
unfoldable pub resume_automation_state :
    Bool
    → Result AutomationState
    → (AutomationState → Result (Unit {0}))
    → Result (ResumeResult × Option AutomationState)
unfolding resume_from
resume_automation_state owner_confirmed' stored write = do
  current ← stored
  resume_from owner_confirmed' current write
