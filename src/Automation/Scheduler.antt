-- ===== src/Automation/Scheduler.antt =====
-- tools/data-poc/src/automation/schedulerDecision.ts: what a check of the schedule decides.
pub mod Laws
mod Tests
use crypto_edge_ai.Common.{
  or_else, ℕ, ◌*◌, String, Bool, true, false, ◌&&◌, ◌||◌, Option, none, some, List, [], ◌∷◌, leb,
  ltb, if◌then◌else◌, select, any, is_empty, Result, ok, err, ◌>>=◌, str_eq,
}
use crypto_edge_ai.Date.{DateText, parse, to_iso_string_before}
use crypto_edge_ai.Automation.State.{AutomationState, SchedulerDecisionCode}
use crypto_edge_ai.Automation.Cadence.{
  LastSuccess, SourceCadenceStatus, SourceCadencePlan, alternative_me_ms, defillama_ms,
  plan_source_cadence,
}

-- An absent time is `none`, like `null`: the code reads both by `??`.
pub record PublishedSnapshotTimes : Type 0 where
  pub scanner_published_at : Option DateText
  pub context_published_at : Option DateText
  pub alternative_me_published_at : Option DateText
  pub defillama_published_at : Option DateText

-- `active_lock_run_id`: absent, or `null` or a run's id.
pub data ActiveLock : Type 0 where
  unknown : ActiveLock
  known : Option String → ActiveLock

pub record SchedulerDecisionInput : Type 0 where
  pub now : Option ℕ
  pub enabled : Bool
  pub state : Option AutomationState
  pub state_available : Option Bool
  pub active_lock_run_id : ActiveLock
  pub snapshots : PublishedSnapshotTimes

pub record SchedulerDecision : Type 0 where
  pub decision : SchedulerDecisionCode
  pub checked_at : DateText
  pub active_run_id : Option String
  pub cadence : SourceCadencePlan
  pub missed_schedule_increment : ℕ

-- `state?.field ?? null`.
abbrev pub of_state {ℓ} :
    {A : Type ℓ} → (AutomationState → Option A) → Option AutomationState → Option A
of_state field none = none
of_state field (some s) = field s

unfoldable pub success_from_next : Option DateText → ℕ → Result (Option DateText)
unfolding to_iso_string_before
success_from_next none interval = ok none
success_from_next (some next) interval = elim (parse next) [
  | none ↦ ok none
  | some parsed ↦ do at ← to_iso_string_before parsed interval; ok (some at)
]

-- `previousCheckMs <= Date.parse(next)`, where no previous check is minus infinity and a text that
-- is no date is NaN.
abbrev checked_before : Option DateText → Option ℕ → Bool
checked_before previous none = false
checked_before none (some next) = true
checked_before (some previous) (some next) = elim (parse previous) [
  | none ↦ false
  | some at ↦ leb at next
]

abbrev is_delayed : SourceCadenceStatus → Bool
is_delayed s = elim s.next_run_at [ none ↦ false | some _ ↦ ltb 0 s.delay_ms ]

abbrev next_time : SourceCadenceStatus → Option ℕ
next_time s = elim s.next_run_at [ none ↦ none | some next ↦ parse next ]

abbrev sources_of : SourceCadencePlan → List SourceCadenceStatus
sources_of p =
    p.dexscreener ∷ p.goplus_security ∷ p.alternative_me_fng ∷ p.defillama_api ∷ p.honeypot_is ∷ []

unfoldable pub is_newly_missed_schedule : Option DateText → SourceCadencePlan → Bool
is_newly_missed_schedule last_check cadence =
    let delayed = select is_delayed (sources_of cadence) in
    if is_empty delayed then false else any (λ s. checked_before last_check (next_time s)) delayed

abbrev pub active_run_of : ActiveLock → Option AutomationState → Option String
active_run_of unknown state = of_state (λ s. s.active_run_id) state
active_run_of (known id) state = id

-- `if (activeRunId)`: neither `null` nor empty.
abbrev pub is_running : Option String → Bool
is_running none = false
is_running (some id) = if str_eq id "" then false else true

-- The ladder of the decision, for a state that is there.
abbrev decide_for : AutomationState → Option String → SourceCadencePlan → SchedulerDecisionCode
decide_for s active cadence =
    if s.automation_suspended
    then SchedulerDecisionCode.automation_suspended
    else if is_running active
    then SchedulerDecisionCode.run_already_in_progress
    else if cadence.requires_scanner_and_context
    then SchedulerDecisionCode.run_scanner_and_context
    else if cadence.requires_context_only
    then SchedulerDecisionCode.run_context_only
    else SchedulerDecisionCode.nothing_due

abbrev is_unavailable : Option Bool → Bool
is_unavailable (some false) = true
is_unavailable _ = false

abbrev decision_of :
    SchedulerDecisionInput → Option String → SourceCadencePlan → SchedulerDecisionCode
decision_of input active cadence =
    if input.enabled
    then if is_unavailable input.state_available
      then SchedulerDecisionCode.state_unavailable
      else elim input.state [
        | none ↦ SchedulerDecisionCode.state_unavailable
        | some s ↦ decide_for s active cadence
      ]
    else SchedulerDecisionCode.automation_disabled

abbrev missed_of : Option AutomationState → SourceCadencePlan → ℕ
missed_of none cadence = 0
missed_of (some s) cadence =
    if is_newly_missed_schedule s.last_scheduler_check_at cadence then 1 else 0

-- The last successes that the plan is made from.
unfoldable pub last_successes : SchedulerDecisionInput → Result LastSuccess
unfolding success_from_next
last_successes input = do
  let scanner =
      or_else (of_state (λ s. s.last_scanner_success_at) input.state)
        input.snapshots.scanner_published_at
  let context =
      or_else (of_state (λ s. s.last_context_success_at) input.state)
        input.snapshots.context_published_at
  alternative ←
      success_from_next (of_state (λ s. s.next_alternative_me_run_at) input.state) alternative_me_ms
  defillama ← success_from_next (of_state (λ s. s.next_defillama_run_at) input.state) defillama_ms
  ok (record {
    dexscreener = scanner;
    alternative_me_fng =
        or_else (or_else alternative input.snapshots.alternative_me_published_at) context;
    defillama_api = or_else (or_else defillama input.snapshots.defillama_published_at) context;
  })

unfoldable pub decide_central_schedule : SchedulerDecisionInput → Result SchedulerDecision
unfolding last_successes is_newly_missed_schedule
decide_central_schedule input = do
  last ← last_successes input
  cadence ← plan_source_cadence input.now last
  let active = active_run_of input.active_lock_run_id input.state
  ok (record {
    decision = decision_of input active cadence;
    checked_at = cadence.checked_at;
    active_run_id = active;
    cadence = cadence;
    missed_schedule_increment = missed_of input.state cadence;
  })
