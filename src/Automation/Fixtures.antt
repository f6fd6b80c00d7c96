-- ===== src/Automation/Fixtures.antt =====
-- A plan, states and environments for the tests of the automation.
use crypto_edge_ai.Common.{ℕ, ◌+◌, String, true, false, some, none, ok, []}
use crypto_edge_ai.Date.{iso}
use crypto_edge_ai.Automation.State.{AutomationState, create_initial_automation_state}
use crypto_edge_ai.Automation.Cadence.{
  CadenceSourceId, SourceCadencePlan, LastSuccess, interval_elapsed, interval_not_elapsed, plan_of,
}
use crypto_edge_ai.Automation.ErrorCode.{plain}
use crypto_edge_ai.Automation.Cycle.{RunnerResult}
use crypto_edge_ai.Automation.Coordinator.{Environment, RunnerOutcome, acquired, threw}
use crypto_edge_ai.Automation.Central.{Wakeup}

abbrev pub unchanged : String → String
unchanged s = s

-- The scanner ran ten minutes ago, the context source of DefiLlama three hours ago.
abbrev pub recent : LastSuccess
recent = record {
  dexscreener = some (iso 20000000);
  alternative_me_fng = some (iso 20000000);
  defillama_api = some (iso 9800000);
}

abbrev pub now : ℕ
now = 20600000

abbrev pub plan : SourceCadencePlan
plan =
    plan_of (iso now)
      (record {
        source_id = CadenceSourceId.dexscreener;
        due = false;
        reason = interval_not_elapsed;
        last_success_at = some (iso 20000000);
        next_run_at = some (iso 20900000);
        delay_ms = 0;
      })
      (record {
        source_id = CadenceSourceId.alternative_me_fng;
        due = false;
        reason = interval_not_elapsed;
        last_success_at = some (iso 20000000);
        next_run_at = some (iso 41600000);
        delay_ms = 0;
      })
      (record {
        source_id = CadenceSourceId.defillama_api;
        due = true;
        reason = interval_elapsed;
        last_success_at = some (iso 9800000);
        next_run_at = some (iso 17000000);
        delay_ms = 3600000;
      })

abbrev pub recent_state : AutomationState
recent_state = record create_initial_automation_state {
  last_scanner_success_at = some (iso 20000000);
  next_alternative_me_run_at = some (iso 41600000);
  next_defillama_run_at = some (iso 17000000);
}

-- Three failures were counted, the last one a timeout.
abbrev pub suspended_state : AutomationState
suspended_state = record create_initial_automation_state {
  consecutive_failure_count = 3;
  automation_suspended = true;
  suspended_at = some (iso 5);
  suspended_reason = some "TIMEOUT";
  resume_required = true;
}

-- The runner times out, and everything else works.
abbrev pub failing : AutomationState → Environment
failing s = record {
  lock = acquired;
  stored = ok s;
  can_write = λ _. true;
  before_run = ok tt;
  clock = λ i. 100 + i;
  runner = λ _ _. threw (plain "TIMEOUT");
  heartbeat_failed = false;
  release = ok tt;
}

abbrev pub full_result : RunnerResult
full_result = record {
  request_counts = [];
  scanner_run_id = some "scan-1";
  context_run_id = some "context-1";
  context_sources_refreshed = none;
  snapshot_generated_at = some (iso 90);
  records_received = some 10;
  records_valid = some 8;
  records_rejected = some 2;
  new_records = some 1;
  follow_up_ingested = none;
  checkpoints_processed = none;
  source_statuses = [];
}

abbrev pub working : AutomationState → Environment
working s = record (failing s) { runner = λ _ _. RunnerOutcome.returned full_result }

-- A wake-up at `now`, with an enabled automation and a runner that works.
abbrev pub wakeup : Wakeup
wakeup = record {
  now = some now;
  enabled = true;
  stored = ok recent_state;
  active_lock_run_id = ok none;
  snapshots = λ _. ok (record {
    scanner_published_at = none;
    context_published_at = none;
    alternative_me_published_at = none;
    defillama_published_at = none;
  });
  can_write = true;
  given_runner = λ _. some (λ _ _. RunnerOutcome.returned full_result);
  default_runner = λ _ _ _. threw (plain "UNUSED");
  coordinator = working recent_state;
}
