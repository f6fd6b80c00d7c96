-- ===== src/Automation/Scheduler/Laws.antt =====
-- When tools/data-poc/src/automation/schedulerDecision.ts starts a run.
use crypto_edge_ai.Common.{
  ℕ, ◌≡◌, ◌≢◌, ◌↔◌, ◌⊎◌, refl, sym, ◌∙◌, Bool, true, false, some, arith, ok, bind-eq-ok,
  ok_injective, inl, inr, Option-cases,
}
use crypto_edge_ai.Automation.State.{AutomationState, SchedulerDecisionCode}
use crypto_edge_ai.Automation.Cadence.{
  SourceCadencePlan, LastSuccess, dexscreener_ms, alternative_me_ms, defillama_ms,
  plan_source_cadence,
}
use crypto_edge_ai.Automation.Cadence.Laws.{IsDue, plan_source_cadence_iff}
use crypto_edge_ai.Automation.Scheduler.{
  SchedulerDecisionInput, SchedulerDecision, active_run_of, is_running, last_successes,
  decide_central_schedule, decision_of,
}

-- What lets a check of the schedule start a run at all.
pub record IsReady (input : SchedulerDecisionInput) : Type 0 where
  pub enabled : input.enabled ≡ true
  pub available : input.state_available ≢ some false
  pub state : AutomationState
  pub present : input.state ≡ some state
  pub not_suspended : state.automation_suspended ≡ false
  pub idle : is_running (active_run_of input.active_lock_run_id input.state) ≡ false

decide_parts :
    (input : SchedulerDecisionInput) (d : SchedulerDecision)
    → decide_central_schedule input ≡ ok d
    → (last : LastSuccess) × (last_successes input ≡ ok last)
      × (plan_source_cadence input.now last ≡ ok d.cadence)
      × (d.decision
          ≡ decision_of input (active_run_of input.active_lock_run_id input.state) d.cadence)
unfolding decide_central_schedule
decide_parts input d e =
    let (last, e₁, e₁') = bind-eq-ok (last_successes input) _ e in
    let (cadence, e₂, e₂') = bind-eq-ok (plan_source_cadence input.now last) _ e₁' in
    let same = ok_injective e₂' in (last, e₁, ground arith, ground arith)

runs_iff :
    (input : SchedulerDecisionInput) (cadence : SourceCadencePlan)
    → let active = active_run_of input.active_lock_run_id input.state in
      ((decision_of input active cadence ≡ SchedulerDecisionCode.run_scanner_and_context)
        ↔ (IsReady input × (cadence.requires_scanner_and_context ≡ true)))
      × ((decision_of input active cadence ≡ SchedulerDecisionCode.run_context_only) ↔ (
          IsReady input
          × (cadence.requires_scanner_and_context ≡ false)
          × (cadence.requires_context_only ≡ true)))
runs_iff input cadence = elim (Option-cases input.state) [
  | inl missing ↦ (
    (λ e. absurd (ground arith), λ (r, _). cc (r.present, missing)),
    (λ e. absurd (ground arith), λ (r, _, _). cc (r.present, missing)),
  )
  | inr (s, present) ↦ (
    (
      λ e. (
        record {
          enabled = ground arith;
          available = λ a. ground arith;
          state = s;
          present = present;
          not_suspended = ground arith;
          idle = ground arith;
        },
        ground arith,
      ),
      λ (r, h). ground arith,
    ),
    (
      λ e. (
        record {
          enabled = ground arith;
          available = λ a. ground arith;
          state = s;
          present = present;
          not_suspended = ground arith;
          idle = ground arith;
        },
        ground arith,
        ground arith,
      ),
      λ (r, h, k). ground arith,
    ),
  )
]

false_of_not : (b : Bool) → ¬ (b ≡ true) → b ≡ false
false_of_not true h = absurd (h refl)
false_of_not false h = refl

decision_of_lem :
    (input : SchedulerDecisionInput) (now : ℕ) (last : LastSuccess) (cadence : SourceCadencePlan)
    → plan_source_cadence (some now) last ≡ ok cadence
    → let decision =
        decision_of input (active_run_of input.active_lock_run_id input.state) cadence in
      ((decision ≡ SchedulerDecisionCode.run_scanner_and_context)
        ↔ (IsReady input × IsDue now dexscreener_ms last.dexscreener))
      × ((decision ≡ SchedulerDecisionCode.run_context_only) ↔ (
          IsReady input
          × (¬ IsDue now dexscreener_ms last.dexscreener)
          × (IsDue now alternative_me_ms last.alternative_me_fng
              ⊎ IsDue now defillama_ms last.defillama_api)))
decision_of_lem input now last cadence planned =
    let (scanner, context) = plan_source_cadence_iff now last cadence planned in
    let (first, second) = runs_iff input cadence in
    (
      (λ h. ((first.0 h).0, scanner.0 (first.0 h).1), λ (r, due). first.1 (r, scanner.1 due)),
      (
        λ h. ((second.0 h).0, (context.0 (second.0 h).2).0, (context.0 (second.0 h).2).1),
        λ (r, idle, due). second.1 (
          r,
          false_of_not cadence.requires_scanner_and_context (λ t. idle (scanner.0 t)),
          context.1 (idle, due),
        ),
      ),
    )

-- A check decides on a run of the scanner exactly when it is ready (the automation is on, its state
-- is there and not suspended, and no run is under way) and the scanner's source is due; on a run
-- of the context alone exactly when it is ready, the scanner's source is not due, and one of the
-- two context sources is. What is due is reckoned from the last successes that the state and the
-- published snapshots give.
pub decide_central_schedule_iff :
    (input : SchedulerDecisionInput) (now : ℕ) (d : SchedulerDecision)
    → input.now ≡ some now
    → decide_central_schedule input ≡ ok d
    → (last : LastSuccess) × (last_successes input ≡ ok last)
      × ((d.decision ≡ SchedulerDecisionCode.run_scanner_and_context)
          ↔ (IsReady input × IsDue now dexscreener_ms last.dexscreener))
      × ((d.decision ≡ SchedulerDecisionCode.run_context_only) ↔ (
          IsReady input
          × (¬ IsDue now dexscreener_ms last.dexscreener)
          × (IsDue now alternative_me_ms last.alternative_me_fng
              ⊎ IsDue now defillama_ms last.defillama_api)))
decide_central_schedule_iff input now d at e =
    let (last, reckoned, planned, decided) = decide_parts input d e in
    let (scanner, context) = decision_of_lem input now last d.cadence (rw (← at) planned) in
    (
      last,
      reckoned,
      (λ h. scanner.0 (sym decided ∙ h), λ r. decided ∙ scanner.1 r),
      (λ h. context.0 (sym decided ∙ h), λ r. decided ∙ context.1 r),
    )

-- With a state at hand a check never finds it unavailable.
pub decision-available :
    (input : SchedulerDecisionInput) (d : SchedulerDecision) (s : AutomationState)
    → decide_central_schedule input ≡ ok d
    → input.state ≡ some s
    → input.state_available ≢ some false
    → d.decision ≢ SchedulerDecisionCode.state_unavailable
decision-available input d s e present available u =
    let (last, _, _, decided) = decide_parts input d e in ground (arith, decided)

-- A check that decides has a valid date.
pub decision-now :
    (input : SchedulerDecisionInput) (d : SchedulerDecision)
    → decide_central_schedule input ≡ ok d
    → (now : ℕ) × (input.now ≡ some now)
unfolding plan_source_cadence
decision-now input d e =
    let (last, _, planned, _) = decide_parts input d e in
    elim (Option-cases input.now) [
      | inr dated ↦ dated
      | inl undated ↦ absurd (cc (undated, planned))
    ]
