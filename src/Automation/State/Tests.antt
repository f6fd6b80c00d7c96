-- ===== src/Automation/State/Tests.antt =====
-- Resumptions of tools/data-poc/src/automation/resumeAutomationState.ts.
use crypto_edge_ai.Common.{◌≡◌, ◌≢◌, ◌↔◌, refl, true, false, none, some, Result, ok, Option}
use crypto_edge_ai.Automation.State.{
  AutomationState, ResumeResult, owner_confirmed, resumed, resumed_state, resume_automation_state,
}
use crypto_edge_ai.Automation.State.Coherence.{
  IsCoherent, IsReportOf, preview_status, resume_automation_state-writes,
}
use crypto_edge_ai.Automation.Fixtures.{suspended_state}

abbrev report : ResumeResult
report = record {
  mode = owner_confirmed;
  status = resumed;
  automation_suspended = false;
  resume_required = false;
  consecutive_failure_count = 3;
  suspended_reason = none;
}

abbrev storing : AutomationState → Result (Unit {0})
storing s = ok tt

resume_automation_state-writes_example :
    let written : Option AutomationState = some (resumed_state suspended_state) in
    ((written ≢ none) ↔ ((suspended_state.automation_suspended ≡ true) × (true ≡ true)))
    × ((s : AutomationState)
        → written ≡ some s
        → IsCoherent s
          × (s.automation_suspended ≡ false)
          × (s.consecutive_failure_count ≡ suspended_state.consecutive_failure_count)
          × (s.active_run_id ≡ suspended_state.active_run_id)
          × (storing s ≡ ok tt)
          × (report.status ≡ resumed)
          × IsReportOf report s)
    × (written ≡ none
        → IsReportOf report suspended_state
          × (report.status ≡ preview_status suspended_state.automation_suspended))
    × ((report.mode ≡ owner_confirmed) ↔ (true ≡ true))
unfolding resume_automation_state
resume_automation_state-writes_example =
    resume_automation_state-writes true suspended_state storing report
      (some (resumed_state suspended_state)) refl
