-- ===== src/Automation/Scheduler/Tests.antt =====
-- A check of the schedule by tools/data-poc/src/automation/schedulerDecision.ts.
use crypto_edge_ai.Common.{◌≡◌, ◌↔◌, ◌⊎◌, refl, true, none, some, ok}
use crypto_edge_ai.Date.{parse, iso}
use crypto_edge_ai.Automation.State.{SchedulerDecisionCode, create_initial_automation_state}
use crypto_edge_ai.Automation.Cadence.{
  LastSuccess, dexscreener_ms, alternative_me_ms, defillama_ms, plan_source_cadence,
}
use crypto_edge_ai.Automation.Cadence.Laws.{IsDue}
use crypto_edge_ai.Automation.Scheduler.{
  SchedulerDecisionInput, SchedulerDecision, known, last_successes, decide_central_schedule,
}
use crypto_edge_ai.Automation.Scheduler.Laws.{IsReady, decide_central_schedule_iff}
use crypto_edge_ai.Automation.Fixtures.{now, plan, recent_state}

abbrev input : SchedulerDecisionInput
input = record {
  now = some now;
  enabled = true;
  state = some recent_state;
  state_available = none;
  active_lock_run_id = known none;
  snapshots = record {
    scanner_published_at = none;
    context_published_at = none;
    alternative_me_published_at = none;
    defillama_published_at = none;
  };
}

abbrev decision : SchedulerDecision
decision = record {
  decision = SchedulerDecisionCode.run_context_only;
  checked_at = iso now;
  active_run_id = none;
  cadence = plan;
  missed_schedule_increment = 1;
}

decided : decide_central_schedule input ≡ ok decision
unfolding decide_central_schedule create_initial_automation_state parse plan_source_cadence
decided = refl

decide_central_schedule_iff_example :
    (last : LastSuccess) × (last_successes input ≡ ok last)
    × ((decision.decision ≡ SchedulerDecisionCode.run_scanner_and_context)
        ↔ (IsReady input × IsDue now dexscreener_ms last.dexscreener))
    × ((decision.decision ≡ SchedulerDecisionCode.run_context_only) ↔ (
        IsReady input
        × (¬ IsDue now dexscreener_ms last.dexscreener)
        × (IsDue now alternative_me_ms last.alternative_me_fng
            ⊎ IsDue now defillama_ms last.defillama_api)))
decide_central_schedule_iff_example = decide_central_schedule_iff input now decision refl decided
