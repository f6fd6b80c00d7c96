-- ===== src/Automation/Coordinator/Tests.antt =====
-- Runs of tools/data-poc/src/automation/centralAutomationCoordinator.ts.
use mathlib.Core.List.{Memᴰ}
use crypto_edge_ai.Common.{◌≤◌, String, ◌≡◌, ◌↔◌, ◌⊎◌, refl, true, false, List, [], ◌∷◌, ok, arith}
use crypto_edge_ai.Date.{iso, to_iso_string}
use crypto_edge_ai.Automation.State.{
  AutomationState, create_initial_automation_state, resumed_state,
}
use crypto_edge_ai.Automation.State.Coherence.{IsCoherent}
use crypto_edge_ai.Automation.ErrorCode.{safe_error_code}
use crypto_edge_ai.Automation.Cycle.{scanner_and_context, failed_state}
use crypto_edge_ai.Automation.Coordinator.{
  RunAnswer, run_failed, suspended, is_ok, already_in_progress, acquired, busy,
  run_central_automation,
}
use crypto_edge_ai.Automation.Coordinator.Course.{run}
use crypto_edge_ai.Automation.Coordinator.Laws.{IsFailure, run-failed}
use crypto_edge_ai.Automation.Coordinator.Breaker.{
  Unattended, Attended, Attended-IsCoherent, Unattended-bounded, resume-run_failed,
}
use crypto_edge_ai.Automation.Coordinator.Success.{run_suspended_lem}
use crypto_edge_ai.Automation.Fixtures.{unchanged, suspended_state, failing, working}

failing-answer :
    (run unchanged (failing create_initial_automation_state) "run-1" scanner_and_context).answer
    ≡ ok (run_failed "run-1" "TIMEOUT")
unfolding run_central_automation create_initial_automation_state to_iso_string safe_error_code
failing-answer = refl

run-failed_example :
    let env = failing create_initial_automation_state in
    let id : String = "run-1" in
    (previous : AutomationState) × (s : AutomationState) × (rest : List AutomationState)
    × (env.stored ≡ ok previous)
    × (previous.automation_suspended ≡ false)
    × ((run unchanged env "run-1" scanner_and_context).writes ≡ s ∷ rest)
    × (id ≡ id)
    × IsFailure previous s "TIMEOUT"
run-failed_example =
    run-failed unchanged (failing create_initial_automation_state) "run-1" scanner_and_context
      "run-1" "TIMEOUT" failing-answer

abbrev first_failure : AutomationState
first_failure = failed_state create_initial_automation_state "run-1" (iso 100) "TIMEOUT" (iso 101) 2

first_failure-written :
    Memᴰ first_failure
      (run unchanged (failing create_initial_automation_state) "run-1" scanner_and_context).writes
unfolding run_central_automation create_initial_automation_state to_iso_string safe_error_code
first_failure-written = Memᴰ.head refl

Unattended-bounded_example :
    (first_failure.consecutive_failure_count ≤ 3)
    × (first_failure.automation_suspended ≡ false → first_failure.consecutive_failure_count ≤ 2)
Unattended-bounded_example = Unattended-bounded unchanged first_failure (
    Unattended.write (failing create_initial_automation_state) "run-1" scanner_and_context
      Unattended.start refl first_failure-written)

Attended-IsCoherent_example : IsCoherent (resumed_state first_failure)
Attended-IsCoherent_example = Attended-IsCoherent unchanged (resumed_state first_failure) (
    Attended.resume (
      Attended.write (failing create_initial_automation_state) "run-1" scanner_and_context
        Attended.start refl first_failure-written))

again-answer :
    (run unchanged (failing (resumed_state suspended_state)) "run-2" scanner_and_context).answer
    ≡ ok (run_failed "run-2" "TIMEOUT")
unfolding run_central_automation create_initial_automation_state to_iso_string safe_error_code
    resumed_state
again-answer = refl

resume-run_failed_example :
    (s : AutomationState) × (rest : List AutomationState) × ((run unchanged
        (failing (resumed_state suspended_state))
        "run-2"
        scanner_and_context).writes
      ≡ s ∷ rest)
    × (s.automation_suspended ≡ true)
resume-run_failed_example =
    resume-run_failed unchanged (failing (resumed_state suspended_state)) "run-2"
      scanner_and_context suspended_state "run-2" "TIMEOUT" refl (omega arith) again-answer

run_suspended_lem_example :
    let this = run unchanged (working suspended_state) "run-1" scanner_and_context in
    (this.writes ≡ [])
    × ((a : RunAnswer)
        → this.answer ≡ ok a
        → ((reason : String) × (a ≡ suspended reason) × (this.released ≡ true))
          ⊎ ((active : String) × (acquired ≡ busy active) × (a ≡ already_in_progress active)))
    × ((this.released ≡ true)
        ↔ ((acquired ≡ acquired) × (is_ok (working suspended_state).release ≡ true)))
run_suspended_lem_example =
    run_suspended_lem unchanged (working suspended_state) "run-1" scanner_and_context
      suspended_state refl refl
