-- ===== src/Automation/Store/Valid/Known.antt =====
-- The words that tools/data-poc/src/automation/automationState.ts writes are read back.
use crypto_edge_ai.Common.{◌≡◌, refl, some}
use crypto_edge_ai.Automation.State.{CycleStatus, RunResult, FailureClass, SchedulerDecisionCode}
use crypto_edge_ai.Automation.Store.Words.{
  result_word, cycle_word, failure_word, decision_word, result_text, cycle_text, failure_text,
  decision_text,
}

pub result_word_of : (r : RunResult) → result_word (result_text r) ≡ some r
result_word_of RunResult.success = refl
result_word_of RunResult.partial = refl
result_word_of RunResult.failed = refl

pub cycle_word_of : (c : CycleStatus) → cycle_word (cycle_text c) ≡ some c
cycle_word_of CycleStatus.in_progress = refl
cycle_word_of (CycleStatus.ended RunResult.success) = refl
cycle_word_of (CycleStatus.ended RunResult.partial) = refl
cycle_word_of (CycleStatus.ended RunResult.failed) = refl

pub failure_word_of : (c : FailureClass) → failure_word (failure_text c) ≡ some c
failure_word_of FailureClass.deterministic = refl
failure_word_of FailureClass.transient = refl

pub decision_word_of : (d : SchedulerDecisionCode) → decision_word (decision_text d) ≡ some d
decision_word_of SchedulerDecisionCode.run_scanner_and_context = refl
decision_word_of SchedulerDecisionCode.run_context_only = refl
decision_word_of SchedulerDecisionCode.nothing_due = refl
decision_word_of SchedulerDecisionCode.run_already_in_progress = refl
decision_word_of SchedulerDecisionCode.automation_suspended = refl
decision_word_of SchedulerDecisionCode.automation_disabled = refl
decision_word_of SchedulerDecisionCode.state_unavailable = refl
