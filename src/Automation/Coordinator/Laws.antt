-- ===== src/Automation/Coordinator/Laws.antt =====
-- What a run of the automation does to the state
-- (tools/data-poc/src/automation/centralAutomationCoordinator.ts).
use crypto_edge_ai.Common.{
  ℕ, ◌+◌, ◌≤◌, String, ◌≡◌, ◌≢◌, ◌↔◌, ◌⊎◌, refl, sym, ◌∙◌, true, false, none, some, List, [], ◌∷◌,
  arith, Result, ok, Bool-cases, inl, inr, All, ok_injective,
}
use crypto_edge_ai.Date.{DateText}
use crypto_edge_ai.Automation.State.{AutomationState, RunResult, FailureClass}
use crypto_edge_ai.Automation.State.Coherence.{IsCoherent}
use crypto_edge_ai.Automation.ErrorCode.{safe_error_code, is_safe_text, classify_automation_failure}
use crypto_edge_ai.Automation.ErrorCode.Safe.{safe_error_code-is_safe_text}
use crypto_edge_ai.Automation.Cycle.{
  RunMode, RunnerResult, NextRuns, is_partial, should_suspend, started_state, failed_state,
  completed_state,
}
use crypto_edge_ai.Automation.Coordinator.{
  Environment, RunnerOutcome, RunAnswer, run_failed, already_in_progress, Run,
}
use crypto_edge_ai.Automation.Coordinator.Course.{
  Ended, fell, done, stopped, Course, unread, held, refused, ran, run, run-cases, IsTurnedAway,
}

pub started-IsCoherent :
    (s : AutomationState) (id : String) (at : DateText)
    → IsCoherent s
    → IsCoherent (started_state s id at)
unfolding started_state
started-IsCoherent s id at c = record {
  resume = c.resume;
  dated = c.dated;
  explained = c.explained;
  undated = c.undated;
  unexplained = c.unexplained;
}

pub failed-IsCoherent :
    (s : AutomationState) (id : String) (at : DateText) (code : String) (failed_at : DateText)
    (duration : ℕ)
    → IsCoherent (failed_state s id at code failed_at duration)
unfolding failed_state
failed-IsCoherent s id at code failed_at duration = record {
  resume = refl;
  dated = λ h. ground arith;
  explained = λ h. ground arith;
  undated = λ h. ground arith;
  unexplained = λ h. ground arith;
}

pub completed-IsCoherent :
    (s : AutomationState) (id : String) (at success_at : DateText) (duration : ℕ) (r : RunnerResult)
    (mode : RunMode) (next : NextRuns)
    → IsCoherent s
    → IsCoherent (completed_state s id at success_at duration r mode next)
unfolding completed_state
completed-IsCoherent s id at success_at duration r mode next c = record {
  resume = c.resume;
  dated = c.dated;
  explained = c.explained;
  undated = c.undated;
  unexplained = c.unexplained;
}

-- What a failed run leaves, from the state before it and the code.
pub record IsFailure (previous s : AutomationState) (code : String) : Type 0 where
  pub safe : is_safe_text code ≡ true
  pub counted : s.consecutive_failure_count ≡ previous.consecutive_failure_count + 1
  pub suspends : (s.automation_suspended ≡ true) ↔ (
      (classify_automation_failure code ≡ FailureClass.deterministic)
      ⊎ (3 ≤ previous.consecutive_failure_count + 1))
  pub named : (s.last_error_code ≡ some code) × (s.last_result ≡ some RunResult.failed)
  pub idle : s.active_run_id ≡ none
  pub kept_success :
      (s.last_success_at ≡ previous.last_success_at)
      × (s.last_scanner_success_at ≡ previous.last_scanner_success_at)
      × (s.last_context_success_at ≡ previous.last_context_success_at)
  pub kept_published :
      (s.last_published_scanner_run_id ≡ previous.last_published_scanner_run_id)
      × (s.last_published_context_run_id ≡ previous.last_published_context_run_id)
      × (s.snapshot_generated_at ≡ previous.snapshot_generated_at)
  pub kept_schedule :
      (s.next_scanner_run_at ≡ previous.next_scanner_run_at)
      × (s.next_alternative_me_run_at ≡ previous.next_alternative_me_run_at)
      × (s.next_defillama_run_at ≡ previous.next_defillama_run_at)

failed-IsFailure :
    (s : AutomationState) (id : String) (at : DateText) (code : String) (failed_at : DateText)
    (duration : ℕ)
    → is_safe_text code ≡ true
    → IsFailure s (failed_state s id at code failed_at duration) code
unfolding failed_state should_suspend
failed-IsFailure s id at code failed_at duration safe' = record {
  safe = safe';
  counted = refl;
  suspends = (λ h. ground arith, λ h. ground arith);
  named = (refl, refl);
  idle = refl;
  kept_success = (refl, refl, refl);
  kept_published = (refl, refl, refl);
  kept_schedule = (refl, refl, refl);
}

module _ (upper : String → String) (env : Environment) (run_id : String) (mode : RunMode) where
  abbrev this : Run
  this = run upper env run_id mode

  Ended-IsCoherent :
      (previous : AutomationState) (at : DateText) (o : RunnerOutcome)
      {res : Result RunAnswer × List AutomationState}
      → IsCoherent previous
      → Ended upper env run_id mode previous at (started_state previous run_id at ∷ []) o res
      → All IsCoherent res.1
  Ended-IsCoherent previous at o c (fell e failure_at d _ _) = (
    failed-IsCoherent previous run_id at _ failure_at d,
    (started-IsCoherent previous run_id at c, tt),
  )
  Ended-IsCoherent previous at o c (done r success_at d next _ _ _) = (
    completed-IsCoherent previous run_id at success_at d r mode next c,
    (started-IsCoherent previous run_id at c, tt),
  )
  Ended-IsCoherent previous at o c (stopped _ code) = (started-IsCoherent previous run_id at c, tt)

  Course-IsCoherent :
      (previous : AutomationState) {res : Result RunAnswer × List AutomationState}
      → env.stored ≡ ok previous
      → IsCoherent previous
      → Course upper env run_id mode res
      → All IsCoherent res.1
  Course-IsCoherent previous e c (unread code) = tt
  Course-IsCoherent previous e c (held p _ _) = tt
  Course-IsCoherent previous e c (refused p code _ _) = tt
  Course-IsCoherent previous e c (ran p at e' free _ ended) =
      let same : previous ≡ p = ok_injective (sym e ∙ e') in
      Ended-IsCoherent p at _ (rw (← same) c) ended

  -- Every state that a run writes has consistent suspension fields, if the stored one has.
  pub run-IsCoherent :
      (previous : AutomationState)
      → env.stored ≡ ok previous
      → IsCoherent previous
      → All IsCoherent this.writes
  run-IsCoherent previous e c = elim (run-cases upper env run_id mode) [
    | inl (_, r) ↦ Course-IsCoherent previous e c r.course
    | inr away ↦ rw away.silent tt
  ]

  abbrev Failure : String → String → List AutomationState → Type 0
  Failure id code writes =
      (previous : AutomationState) × (s : AutomationState) × (rest : List AutomationState)
      × (env.stored ≡ ok previous)
      × (previous.automation_suspended ≡ false)
      × (writes ≡ s ∷ rest)
      × (id ≡ run_id)
      × IsFailure previous s code

  Ended-failed :
      (id code : String) (p : AutomationState) (at : DateText) (o : RunnerOutcome)
      {res : Result RunAnswer × List AutomationState}
      → env.stored ≡ ok p
      → p.automation_suspended ≡ false
      → res.0 ≡ ok (run_failed id code)
      → Ended upper env run_id mode p at (started_state p run_id at ∷ []) o res
      → Failure id code res.1
  Ended-failed id code p at o stored' free e (fell thrown failure_at d _ _) =
      let same : safe_error_code upper thrown ≡ code = cc in
      (
        p,
        _,
        _,
        stored',
        free,
        refl,
        cc,
        rw (← same) (
            failed-IsFailure p run_id at (safe_error_code upper thrown) failure_at d
              (safe_error_code-is_safe_text upper thrown)),
      )
  Ended-failed id code p at o stored' free e (done r success_at d next _ _ _) =
      elim (Bool-cases (is_partial r)) [ inl b ↦ ground arith | inr b ↦ ground arith ]
  Ended-failed id code p at o stored' free e (stopped _ c) = cc

  -- A run that was turned away answers nothing of a run.
  pub away-ne :
      {a : RunAnswer}
      → IsTurnedAway upper env run_id mode
      → ((i : String) → a ≢ already_in_progress i)
      → ¬ (this.answer ≡ ok a)
  away-ne away other e = elim away.reported [
    | inl (id, _, f) ↦ other id (ok_injective (sym e ∙ f))
    | inr (code, _, f) ↦ cc
  ]

  Course-failed :
      (id code : String) {res : Result RunAnswer × List AutomationState}
      → res.0 ≡ ok (run_failed id code)
      → Course upper env run_id mode res
      → Failure id code res.1
  Course-failed id code e (unread _) = cc
  Course-failed id code e (held p _ _) = cc
  Course-failed id code e (refused p _ _ _) = cc
  Course-failed id code e (ran p at stored' free _ ended) =
      Ended-failed id code p at _ stored' free e ended

  -- A run that answers FAILED has met a stored state that is not suspended, and its last write is
  -- that state with the failure in it: one more failure counted, suspended exactly when the code is
  -- deterministic or the third failure in a row is reached, no active run, and the successes, the
  -- published runs and the schedule as they were. The code is one that the state accepts.
  pub run-failed :
      (id code : String)
      → this.answer ≡ ok (run_failed id code)
      → (previous : AutomationState) × (s : AutomationState) × (rest : List AutomationState)
        × (env.stored ≡ ok previous)
        × (previous.automation_suspended ≡ false)
        × (this.writes ≡ s ∷ rest)
        × (id ≡ run_id)
        × IsFailure previous s code
  run-failed id code e = elim (run-cases upper env run_id mode) [
    | inr away ↦ absurd (away-ne away (λ i. cc) e)
    | inl (_, r) ↦ Course-failed id code (r.answered e) r.course
  ]
