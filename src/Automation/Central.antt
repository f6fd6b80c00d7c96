-- ===== src/Automation/Central.antt =====
-- tools/data-poc/src/automation/runCentralAutomation.ts: one wake-up of the scheduler, and a cycle
-- that the owner starts. What a wake-up meets is a `Wakeup`; what it does to the store is the list
-- of the states that it wrote, the latest first. The defaults of the options are arguments.
pub mod Course
pub mod Answers
pub mod Laws
pub mod Justified
pub mod Interleaving
pub mod Lost
mod Tests
use crypto_edge_ai.Common.{
  ℕ, ◌+◌, String, Bool, true, false, not, ◌&&◌, ◌||◌, Option, none, some, List, [], ◌∷◌, ◌++◌,
  if◌then◌else◌, select, str_eq, Result, ok, err, ◌>>=◌,
}
use crypto_edge_ai.Date.{DateText}
use crypto_edge_ai.Automation.State.{AutomationState, SchedulerDecisionCode}
use crypto_edge_ai.Automation.Cadence.{CadenceSourceId}
use crypto_edge_ai.Automation.Scheduler.{
  PublishedSnapshotTimes, SchedulerDecision, SchedulerDecisionInput, known, is_running,
  decide_central_schedule,
}
use crypto_edge_ai.Automation.Cycle.{RunMode, scanner_and_context, context_only}
use crypto_edge_ai.Automation.Coordinator.{
  Environment, RunnerOutcome, RunAnswer, succeeded, partly_succeeded, run_failed, suspended,
  already_in_progress, Run, run_central_automation,
}

pub data RunStatus : Type 0 where
  success partial failed run_already_in_progress automation_suspended : RunStatus

-- `RunCentralSchedulerOnceResult`; `run_mode` and `run_status` may be `null`.
pub record OnceResult : Type 0 where
  pub decision : SchedulerDecisionCode
  pub run_mode : Option RunMode
  pub run_status : Option RunStatus
  pub run_id : Option String
  pub active_run_id : Option String
  pub error_code : Option String

-- `assertExplicitLiveAutomationOptIn`, for the values of the two variables.
unfoldable pub assert_explicit_live_automation_opt_in :
    Option String → Option String → Result (Unit {0})
assert_explicit_live_automation_opt_in (some enabled) (some live) =
    if str_eq enabled "1" && str_eq live "1"
    then ok tt
    else err "LIVE_AUTOMATION_DOUBLE_OPT_IN_REQUIRED"
assert_explicit_live_automation_opt_in _ _ = err "LIVE_AUTOMATION_DOUBLE_OPT_IN_REQUIRED"

unfoldable pub apply_scheduler_observation : AutomationState → SchedulerDecision → AutomationState
apply_scheduler_observation state schedule = record state {
  last_scheduler_check_at = some schedule.checked_at;
  last_decision = some schedule.decision;
  next_scanner_run_at = schedule.cadence.dexscreener.next_run_at;
  next_alternative_me_run_at = schedule.cadence.alternative_me_fng.next_run_at;
  next_defillama_run_at = schedule.cadence.defillama_api.next_run_at;
  missed_schedule_count = state.missed_schedule_count + schedule.missed_schedule_increment;
}

-- The time value of the check's `now()`, the switch, what the store's first reading gives, the
-- active run (given, or inspected, which may fail), the snapshots, whether the observation can be
-- written, the runners, and what the coordinator meets, but for its runner.
pub record Wakeup : Type 0 where
  pub now : Option ℕ
  pub enabled : Bool
  pub stored : Result AutomationState
  pub active_lock_run_id : Result (Option String)
  pub snapshots : AutomationState → Result PublishedSnapshotTimes
  pub can_write : Bool
  pub given_runner : RunMode → Option (String → AutomationState → RunnerOutcome)
  pub default_runner : RunMode → List CadenceSourceId → Option String → RunnerOutcome
  pub coordinator : Environment

abbrev unavailable : String → OnceResult
unavailable code = record {
  decision = SchedulerDecisionCode.state_unavailable;
  run_mode = none;
  run_status = none;
  run_id = none;
  active_run_id = none;
  error_code = some code;
}

unfoldable pub mode_of : SchedulerDecisionCode → Option RunMode
mode_of SchedulerDecisionCode.run_scanner_and_context = some scanner_and_context
mode_of SchedulerDecisionCode.run_context_only = some context_only
mode_of _ = none

abbrev idle_status : SchedulerDecisionCode → Option RunStatus
idle_status SchedulerDecisionCode.run_already_in_progress = some run_already_in_progress
idle_status SchedulerDecisionCode.automation_suspended = some automation_suspended
idle_status _ = none

abbrev idle_error : SchedulerDecisionCode → Option String → Option String
idle_error SchedulerDecisionCode.automation_suspended none = some "OWNER_RESUME_REQUIRED"
idle_error SchedulerDecisionCode.automation_suspended (some reason) = some reason
idle_error _ reason = none

-- The answer of a wake-up that runs nothing.
pub idle_result : AutomationState → SchedulerDecision → OnceResult
idle_result state schedule = record {
  decision = schedule.decision;
  run_mode = none;
  run_status = idle_status schedule.decision;
  run_id = none;
  active_run_id = if is_running schedule.active_run_id then schedule.active_run_id else none;
  error_code = idle_error schedule.decision state.suspended_reason;
}

abbrev is_context_source : CadenceSourceId → Bool
is_context_source CadenceSourceId.alternative_me_fng = true
is_context_source CadenceSourceId.defillama_api = true
is_context_source _ = false

-- What the coordinator answered, for the decision and the mode.
unfoldable pub result_of_run : SchedulerDecisionCode → RunMode → RunAnswer → OnceResult
result_of_run decision mode (already_in_progress active) = record {
  decision = SchedulerDecisionCode.run_already_in_progress;
  run_mode = some mode;
  run_status = some run_already_in_progress;
  run_id = none;
  active_run_id = some active;
  error_code = none;
}
result_of_run decision mode (suspended reason) = record {
  decision = SchedulerDecisionCode.automation_suspended;
  run_mode = none;
  run_status = some automation_suspended;
  run_id = none;
  active_run_id = none;
  error_code = some reason;
}
result_of_run decision mode (succeeded id r) = record {
  decision = decision;
  run_mode = some mode;
  run_status = some success;
  run_id = some id;
  active_run_id = none;
  error_code = none;
}
result_of_run decision mode (partly_succeeded id r) = record {
  decision = decision;
  run_mode = some mode;
  run_status = some partial;
  run_id = some id;
  active_run_id = none;
  error_code = none;
}
result_of_run decision mode (run_failed id code) = record {
  decision = decision;
  run_mode = some mode;
  run_status = some failed;
  run_id = some id;
  active_run_id = none;
  error_code = some code;
}

pub record Once : Type 0 where
  pub answer : Result OnceResult
  pub writes : List AutomationState

abbrev answered : SchedulerDecisionCode → RunMode → Result RunAnswer → Result OnceResult
answered decision mode (ok a) = ok (result_of_run decision mode a)
answered decision mode (err code) = err code

abbrev runner_of :
    Option (String → AutomationState → RunnerOutcome)
    → RunnerOutcome
    → String
    → AutomationState
    → RunnerOutcome
runner_of (some given) default' id s = given id s
runner_of none default' id s = default'

module _ (upper : String → String) (w : Wakeup) (run_id : String) where
  -- The decision's input, with the state in hand.
  pub input_of : AutomationState → Option String → PublishedSnapshotTimes → SchedulerDecisionInput
  input_of state active snapshots = record {
    now = w.now;
    enabled = w.enabled;
    state = some state;
    state_available = none;
    active_lock_run_id = known active;
    snapshots = snapshots;
  }

  decide : AutomationState → Option String → Result SchedulerDecision
  unfolding input_of decide_central_schedule
  decide state active = do
    snapshots ← w.snapshots state
    decide_central_schedule (input_of state active snapshots)

  -- What the coordinator meets in the mode: the runner that was given, or the default one, which
  -- knows the context sources that are due.
  pub environment_of : RunMode → AutomationState → SchedulerDecision → Environment
  environment_of mode state schedule =
      let due = select is_context_source schedule.cadence.due_sources in
      record (w.coordinator) {
        runner =
            runner_of (w.given_runner mode)
              (w.default_runner mode due state.last_published_context_run_id);
      }

  run_in : AutomationState → SchedulerDecision → Option RunMode → Once
  unfolding idle_result environment_of
  run_in state schedule none = record {
    answer = ok (idle_result state schedule);
    writes = apply_scheduler_observation state schedule ∷ [];
  }
  run_in state schedule (some mode) =
      let run = run_central_automation upper (environment_of mode state schedule) run_id mode in
      record {
        answer = answered schedule.decision mode run.answer;
        writes = run.writes ++ apply_scheduler_observation state schedule ∷ [];
      }

  observe : AutomationState → Result SchedulerDecision → Once
  unfolding run_in
  observe state (err code) = record { answer = err code; writes = [] }
  observe state (ok schedule) =
      if w.can_write
      then run_in state schedule (mode_of schedule.decision)
      else record { answer = ok (unavailable "AUTOMATION_STATE_WRITE_FAILED"); writes = [] }

  inspect : AutomationState → Result (Option String) → Once
  unfolding observe decide
  inspect state (err _) = record {
    answer = ok (unavailable "COLLECTOR_LOCK_READ_FAILED");
    writes = [];
  }
  inspect state (ok active) = observe state (decide state active)

  begin : Result AutomationState → Once
  unfolding inspect
  begin (err _) = record { answer = ok (unavailable "AUTOMATION_STATE_READ_FAILED"); writes = [] }
  begin (ok state) = inspect state w.active_lock_run_id

  -- `runCentralSchedulerOnce`.
  pub run_central_scheduler_once : Once
  unfolding begin
  run_central_scheduler_once = begin w.stored

-- `runCentralLiveCycleOnce`: the coordinator's run in the whole mode, without a check of the
-- schedule.
unfoldable pub run_central_live_cycle_once : (String → String) → Environment → String → Once
unfolding result_of_run
run_central_live_cycle_once upper env run_id =
    let run = run_central_automation upper env run_id scanner_and_context in
    record {
      answer =
          answered SchedulerDecisionCode.run_scanner_and_context scanner_and_context run.answer;
      writes = run.writes;
    }
