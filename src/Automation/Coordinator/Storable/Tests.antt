-- ===== src/Automation/Coordinator/Storable/Tests.antt =====
-- A run of tools/data-poc/src/automation/centralAutomationCoordinator.ts whose states may stand in
-- the file.
use crypto_edge_ai.Common.{◌≡◌, refl, All, arith}
use crypto_edge_ai.Automation.State.{create_initial_automation_state}
use crypto_edge_ai.Automation.ErrorCode.{is_safe_text}
use crypto_edge_ai.Automation.Fixtures.{unchanged, recent_state, working, full_result}
use crypto_edge_ai.Automation.Cycle.{RunnerResult, scanner_and_context}
use crypto_edge_ai.Automation.Coordinator.{RunnerOutcome}
use crypto_edge_ai.Automation.Coordinator.Course.{run}
use crypto_edge_ai.Automation.Coordinator.Storable.{Fits, run-IsStorable}
use crypto_edge_ai.Automation.Coordinator.Storable.Parts.{HasSafeCounts}
use crypto_edge_ai.Automation.Store.Valid.{IsStorable}
use crypto_edge_ai.Automation.Store.Valid.Read.{iso-IsDate}
use crypto_edge_ai.Automation.Store.Fixtures.{tallies}

recent-IsStorable : IsStorable tallies recent_state
unfolding create_initial_automation_state
recent-IsStorable = record {
  coherent = record {
    resume = refl;
    dated = λ e. cc;
    explained = λ e. cc;
    undated = λ _. refl;
    unexplained = λ _. refl;
  };
  suspension = (tt, tt);
  attempt = (tt, tt, tt, tt, tt, tt, tt, tt, refl, refl, refl);
  cycle = ground arith;
  schedule = (
    tt,
    tt,
    iso-IsDate tallies 41600000 (omega arith),
    iso-IsDate tallies 17000000 (omega arith),
    iso-IsDate tallies 20000000 (omega arith),
    tt,
    tt,
    tt,
    omega arith,
    omega arith,
  );
}

full-HasSafeCounts :
    (r : RunnerResult)
    → RunnerOutcome.returned full_result ≡ RunnerOutcome.returned r
    → HasSafeCounts r
full-HasSafeCounts r e =
    let here : full_result ≡ r = cc in
    rw (← here) (omega arith, omega arith, omega arith, omega arith, tt, tt, tt)

working-Fits : Fits (working recent_state) "run-1"
unfolding is_safe_text
working-Fits = record {
  safe = refl;
  short = omega arith;
  short_failure = omega arith;
  counted = λ p r e. full-HasSafeCounts r e;
}

run-IsStorable_example :
    All
      (IsStorable tallies)
      (run unchanged (working recent_state) "run-1" scanner_and_context).writes
unfolding create_initial_automation_state
run-IsStorable_example =
    run-IsStorable tallies unchanged (working recent_state) "run-1" scanner_and_context working-Fits
      recent_state refl recent-IsStorable (omega arith)
