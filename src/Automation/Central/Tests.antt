-- ===== src/Automation/Central/Tests.antt =====
-- Wake-ups of tools/data-poc/src/automation/runCentralAutomation.ts.
use crypto_edge_ai.Common.{◌≡◌, refl, none, some, All, ok, err}
use crypto_edge_ai.Date.{parse, to_iso_string}
use crypto_edge_ai.Automation.State.{SchedulerDecisionCode, create_initial_automation_state}
use crypto_edge_ai.Automation.State.Coherence.{IsCoherent}
use crypto_edge_ai.Automation.Cadence.{plan_source_cadence}
use crypto_edge_ai.Automation.Cycle.{RunMode, context_only, is_partial, next_runs}
use crypto_edge_ai.Automation.Coordinator.{run_central_automation}
use crypto_edge_ai.Automation.Central.{
  OnceResult, RunStatus, Wakeup, run_central_scheduler_once, mode_of, result_of_run,
}
use crypto_edge_ai.Automation.Central.Course.{once}
use crypto_edge_ai.Automation.Central.Laws.{once-IsCoherent}
use crypto_edge_ai.Automation.Central.Justified.{IsJustified, once-IsJustified}
use crypto_edge_ai.Automation.Scheduler.{SchedulerDecision}
use crypto_edge_ai.Automation.Central.{apply_scheduler_observation}
use crypto_edge_ai.Automation.Central.Interleaving.{
  KeepsSuspension, step, check, stay, AtomicSteps-KeepsSuspension,
}
use crypto_edge_ai.Date.{iso}
use crypto_edge_ai.Automation.Fixtures.{plan, now, suspended_state, unchanged, recent_state, wakeup}

abbrev run_answer : OnceResult
run_answer = record {
  decision = SchedulerDecisionCode.run_context_only;
  run_mode = some context_only;
  run_status = some RunStatus.success;
  run_id = some "run-1";
  active_run_id = none;
  error_code = none;
}

wakeup-runs : (once unchanged wakeup "run-1").answer ≡ ok run_answer
unfolding run_central_scheduler_once parse plan_source_cadence mode_of
    create_initial_automation_state run_central_automation to_iso_string is_partial next_runs
    result_of_run
wakeup-runs = refl

once-IsJustified_example :
    (mode : RunMode) × (run_answer.run_mode ≡ some mode) × IsJustified unchanged wakeup "run-1" mode
once-IsJustified_example =
    once-IsJustified unchanged wakeup "run-1" run_answer "run-1" wakeup-runs refl

recent_state-IsCoherent : IsCoherent recent_state
unfolding create_initial_automation_state
recent_state-IsCoherent = record {
  resume = refl;
  dated = λ h. cc;
  explained = λ h. cc;
  undated = λ _. refl;
  unexplained = λ _. refl;
}

once-IsCoherent_example : All IsCoherent (once unchanged wakeup "run-1").writes
once-IsCoherent_example =
    once-IsCoherent unchanged wakeup "run-1" recent_state recent_state refl refl
      recent_state-IsCoherent recent_state-IsCoherent

-- The lock cannot be inspected.
abbrev blind_wakeup : Wakeup
blind_wakeup = record wakeup { active_lock_run_id = err "COLLECTOR_LOCK_UNREADABLE" }

abbrev blind_answer : OnceResult
blind_answer = record {
  decision = SchedulerDecisionCode.state_unavailable;
  run_mode = none;
  run_status = none;
  run_id = none;
  active_run_id = none;
  error_code = some "COLLECTOR_LOCK_READ_FAILED";
}

abbrev idle_schedule : SchedulerDecision
idle_schedule = record {
  decision = SchedulerDecisionCode.automation_suspended;
  checked_at = iso now;
  active_run_id = none;
  cadence = plan;
  missed_schedule_increment = 0;
}

-- A wake-up's observation of a suspended state, and nothing else.
AtomicSteps-KeepsSuspension_example :
    KeepsSuspension suspended_state (apply_scheduler_observation suspended_state idle_schedule)
AtomicSteps-KeepsSuspension_example =
    AtomicSteps-KeepsSuspension unchanged suspended_state
      (apply_scheduler_observation suspended_state idle_schedule) refl
      (step (check idle_schedule) stay)
