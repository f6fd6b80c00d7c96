-- ===== src/Automation/Store/Words.antt =====
-- The words of the enumerations in tools/data-poc/src/automation/automationState.ts, and the words
-- that the state's file has for them.
use crypto_edge_ai.Common.{String, Option, none, some, if◌then◌else◌, str_eq}
use crypto_edge_ai.Automation.State.{
  AutomationSourceStatus, RunResult, CycleStatus, FailureClass, SchedulerDecisionCode,
}

abbrev pub result_word : String → Option RunResult
result_word s =
    if str_eq s "SUCCESS"
    then some RunResult.success
    else if str_eq s "PARTIAL"
    then some RunResult.partial
    else if str_eq s "FAILED"
    then some RunResult.failed
    else none

abbrev ended : Option RunResult → Option CycleStatus
ended none = none
ended (some r) = some (CycleStatus.ended r)

abbrev pub cycle_word : String → Option CycleStatus
cycle_word s =
    if str_eq s "IN_PROGRESS" then some CycleStatus.in_progress else ended (result_word s)

abbrev pub failure_word : String → Option FailureClass
failure_word s =
    if str_eq s "DETERMINISTIC"
    then some FailureClass.deterministic
    else if str_eq s "TRANSIENT"
    then some FailureClass.transient
    else none

abbrev pub source_word : String → Option AutomationSourceStatus
source_word s =
    if str_eq s "READY"
    then some AutomationSourceStatus.ready
    else if str_eq s "DEGRADED"
    then some AutomationSourceStatus.degraded
    else if str_eq s "UNAVAILABLE"
    then some AutomationSourceStatus.unavailable
    else if str_eq s "NOT_INVOKED"
    then some AutomationSourceStatus.not_invoked
    else none

abbrev pub decision_word : String → Option SchedulerDecisionCode
decision_word s =
    if str_eq s "RUN_SCANNER_AND_CONTEXT"
    then some SchedulerDecisionCode.run_scanner_and_context
    else if str_eq s "RUN_CONTEXT_ONLY"
    then some SchedulerDecisionCode.run_context_only
    else if str_eq s "NOTHING_DUE"
    then some SchedulerDecisionCode.nothing_due
    else if str_eq s "RUN_ALREADY_IN_PROGRESS"
    then some SchedulerDecisionCode.run_already_in_progress
    else if str_eq s "AUTOMATION_SUSPENDED"
    then some SchedulerDecisionCode.automation_suspended
    else if str_eq s "AUTOMATION_DISABLED"
    then some SchedulerDecisionCode.automation_disabled
    else if str_eq s "STATE_UNAVAILABLE"
    then some SchedulerDecisionCode.state_unavailable
    else none

abbrev pub result_text : RunResult → String
result_text RunResult.success = "SUCCESS"
result_text RunResult.partial = "PARTIAL"
result_text RunResult.failed = "FAILED"

abbrev pub cycle_text : CycleStatus → String
cycle_text CycleStatus.in_progress = "IN_PROGRESS"
cycle_text (CycleStatus.ended r) = result_text r

abbrev pub failure_text : FailureClass → String
failure_text FailureClass.deterministic = "DETERMINISTIC"
failure_text FailureClass.transient = "TRANSIENT"

abbrev pub source_text : AutomationSourceStatus → String
source_text AutomationSourceStatus.ready = "READY"
source_text AutomationSourceStatus.degraded = "DEGRADED"
source_text AutomationSourceStatus.unavailable = "UNAVAILABLE"
source_text AutomationSourceStatus.not_invoked = "NOT_INVOKED"

abbrev pub decision_text : SchedulerDecisionCode → String
decision_text SchedulerDecisionCode.run_scanner_and_context = "RUN_SCANNER_AND_CONTEXT"
decision_text SchedulerDecisionCode.run_context_only = "RUN_CONTEXT_ONLY"
decision_text SchedulerDecisionCode.nothing_due = "NOTHING_DUE"
decision_text SchedulerDecisionCode.run_already_in_progress = "RUN_ALREADY_IN_PROGRESS"
decision_text SchedulerDecisionCode.automation_suspended = "AUTOMATION_SUSPENDED"
decision_text SchedulerDecisionCode.automation_disabled = "AUTOMATION_DISABLED"
decision_text SchedulerDecisionCode.state_unavailable = "STATE_UNAVAILABLE"
