-- ===== src/Automation/Central/Answers.antt =====
-- What the answers of tools/data-poc/src/automation/runCentralAutomation.ts say of the decision and the
-- coordinator's answer.
use crypto_edge_ai.Common.{
  String, ◌≡◌, ◌≢◌, ◌↔◌, refl, sym, none, some, arith, Result, ok, err, ok_injective,
}
use crypto_edge_ai.Automation.State.{SchedulerDecisionCode}
use crypto_edge_ai.Automation.Cycle.{RunMode, scanner_and_context, context_only}
use crypto_edge_ai.Automation.Coordinator.{
  RunAnswer, succeeded, partly_succeeded, run_failed, suspended, already_in_progress,
}
use crypto_edge_ai.Automation.Central.{OnceResult, mode_of, result_of_run, answered}

pub mode_of-scanner :
    (d : SchedulerDecisionCode)
    → (mode_of d ≡ some scanner_and_context) ↔ (d ≡ SchedulerDecisionCode.run_scanner_and_context)
unfolding mode_of
mode_of-scanner d = (λ h. ground arith, λ h. ground arith)

pub mode_of-context :
    (d : SchedulerDecisionCode)
    → (mode_of d ≡ some context_only) ↔ (d ≡ SchedulerDecisionCode.run_context_only)
unfolding mode_of
mode_of-context d = (λ h. ground arith, λ h. ground arith)

mode_of-unavailable : mode_of SchedulerDecisionCode.state_unavailable ≡ none
unfolding mode_of
mode_of-unavailable = refl

pub answered-eq-ok :
    (d : SchedulerDecisionCode) (mode : RunMode) (r : Result RunAnswer) {a : OnceResult}
    → answered d mode r ≡ ok a
    → (b : RunAnswer) × (r ≡ ok b) × (a ≡ result_of_run d mode b)
answered-eq-ok d mode (ok b) e = (b, refl, sym (ok_injective e))
answered-eq-ok d mode (err code) e = cc

pub decision-result_of_run :
    (d : SchedulerDecisionCode) (mode : RunMode) (b : RunAnswer)
    → mode_of d ≡ some mode
    → (result_of_run d mode b).decision ≢ SchedulerDecisionCode.state_unavailable
unfolding result_of_run
decision-result_of_run d mode (already_in_progress _) m h = cc
decision-result_of_run d mode (suspended _) m h = cc
decision-result_of_run d mode (succeeded _ _) m h = cc (m, h, mode_of-unavailable)
decision-result_of_run d mode (partly_succeeded _ _) m h = cc (m, h, mode_of-unavailable)
decision-result_of_run d mode (run_failed _ _) m h = cc (m, h, mode_of-unavailable)

pub mode-result_of_run :
    (d : SchedulerDecisionCode) (mode : RunMode) (b : RunAnswer) {id : String}
    → (result_of_run d mode b).run_id ≡ some id
    → (result_of_run d mode b).run_mode ≡ some mode
unfolding result_of_run
mode-result_of_run d mode (already_in_progress _) h = cc
mode-result_of_run d mode (suspended _) h = cc
mode-result_of_run d mode (succeeded _ _) h = refl
mode-result_of_run d mode (partly_succeeded _ _) h = refl
mode-result_of_run d mode (run_failed _ _) h = refl
