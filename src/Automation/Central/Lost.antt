-- ===== src/Automation/Central/Lost.antt =====
-- A suspension that is lost between the reading and the writing of a wake-up
-- (tools/data-poc/src/automation/runCentralAutomation.ts).
use mathlib.Core.List.{Memᴰ}
use crypto_edge_ai.Common.{String, ◌≡◌, refl, true, false, none, some, ok}
use crypto_edge_ai.Date.{iso, parse, to_iso_string}
use crypto_edge_ai.Automation.State.{
  AutomationState, SchedulerDecisionCode, create_initial_automation_state,
}
use crypto_edge_ai.Automation.Cadence.{
  CadenceSourceId, SourceCadenceStatus, never_succeeded, plan_of, plan_source_cadence,
}
use crypto_edge_ai.Automation.Scheduler.{
  SchedulerDecision, SchedulerDecisionInput, known, decide_central_schedule,
}
use crypto_edge_ai.Automation.ErrorCode.{coded, safe_error_code}
use crypto_edge_ai.Automation.Cycle.{scanner_and_context, failed_state}
use crypto_edge_ai.Automation.Coordinator.{Environment, threw, run_central_automation}
use crypto_edge_ai.Automation.Central.{apply_scheduler_observation}
use crypto_edge_ai.Automation.Central.Interleaving.{
  Shared, SharedStep, read, write, observe, Reachable, start, next,
}
use crypto_edge_ai.Automation.Fixtures.{unchanged, now, failing}

-- A run whose snapshot breaks its contract: the failure suspends at once.
abbrev broken : Environment
broken = record (failing create_initial_automation_state) {
  runner = λ _ _. threw (coded "SNAPSHOT_SCHEMA_MISMATCH");
}

abbrev suspended_state : AutomationState
suspended_state =
    failed_state create_initial_automation_state "run-1" (iso 100) "SNAPSHOT_SCHEMA_MISMATCH"
      (iso 101) 2

suspended_state-written :
    Memᴰ suspended_state
      (run_central_automation unchanged broken "run-1" scanner_and_context).writes
unfolding run_central_automation create_initial_automation_state to_iso_string safe_error_code
suspended_state-written = Memᴰ.head refl

suspended_state-suspended : suspended_state.automation_suspended ≡ true
unfolding failed_state
suspended_state-suspended = refl

-- The wake-up's decision on the initial state, while the run is active.
abbrev input : SchedulerDecisionInput
input = record {
  now = some now;
  enabled = true;
  state = some create_initial_automation_state;
  state_available = none;
  active_lock_run_id = known (some "run-1");
  snapshots = record {
    scanner_published_at = none;
    context_published_at = none;
    alternative_me_published_at = none;
    defillama_published_at = none;
  };
}

abbrev never_run : CadenceSourceId → SourceCadenceStatus
never_run id = record {
  source_id = id;
  due = true;
  reason = never_succeeded;
  last_success_at = none;
  next_run_at = none;
  delay_ms = 0;
}

abbrev schedule : SchedulerDecision
schedule = record {
  decision = SchedulerDecisionCode.run_already_in_progress;
  checked_at = iso now;
  active_run_id = some "run-1";
  cadence =
      plan_of (iso now) (never_run CadenceSourceId.dexscreener)
        (never_run CadenceSourceId.alternative_me_fng) (never_run CadenceSourceId.defillama_api);
  missed_schedule_increment = 0;
}

decided : decide_central_schedule input ≡ ok schedule
unfolding decide_central_schedule create_initial_automation_state plan_source_cadence parse
decided = refl

-- The wake-up has read, and the run has suspended the automation since.
abbrev between : Shared
between = record { store = suspended_state; pending = some create_initial_automation_state }

between-Reachable : Reachable unchanged between
between-Reachable =
    next (next start read) (write broken "run-1" scanner_and_context refl suspended_state-written)

abbrev after : Shared
after = record {
  store = apply_scheduler_observation create_initial_automation_state schedule;
  pending = none;
}

after-free : after.store.automation_suspended ≡ false
unfolding apply_scheduler_observation create_initial_automation_state
after-free = refl

-- With wake-ups that read and write at different times, it does not hold that a suspension lasts:
-- some step from a store that can be reached and is suspended leads to a store that is not, though
-- no step is a resumption.
pub suspension_lost : ¬ (
    (upper : String → String) (t t' : Shared)
    → Reachable upper t
    → SharedStep upper t t'
    → t.store.automation_suspended ≡ true
    → t'.store.automation_suspended ≡ true)
suspension_lost lasts =
    let still =
      lasts unchanged between after between-Reachable (observe input schedule refl decided)
        suspended_state-suspended in
    cc (still, after-free)
