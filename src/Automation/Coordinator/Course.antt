-- ===== src/Automation/Coordinator/Course.antt =====
-- The courses that a run of the automation can take: what it answers together with what it writes
-- (tools/data-poc/src/automation/centralAutomationCoordinator.ts).
use crypto_edge_ai.Common.{
  or_text, ℕ, String, ◌≡◌, refl, true, false, List, [], ◌∷◌, Result, ok, err, Result-cases,
  Bool-cases, inl, inr, ◌⊎◌,
}
use crypto_edge_ai.Date.{DateText, to_iso_string}
use crypto_edge_ai.Automation.State.{AutomationState}
use crypto_edge_ai.Automation.ErrorCode.{Thrown, safe_error_code}
use crypto_edge_ai.Automation.Cycle.{
  RunMode, RunnerResult, NextRuns, is_partial, started_state, failed_state, completed_state,
  next_runs, elapsed_ms,
}
use crypto_edge_ai.Automation.Coordinator.{
  Environment, LockOutcome, RunnerOutcome, threw, returned, RunAnswer, run_failed, suspended,
  already_in_progress, answer_of, Run, conclude, begin, attempt, after_release,
  run_central_automation, outcome_of, is_ok, acquired, busy, lock_failed,
}

after_release-eq-ok :
    (r : Result (Unit {0})) (answer : Result RunAnswer) {a : RunAnswer}
    → after_release r answer ≡ ok a
    → answer ≡ ok a
unfolding after_release
after_release-eq-ok (ok _) answer e = e
after_release-eq-ok (err code) answer e = cc

after_release-is_ok :
    (r : Result (Unit {0})) (answer : Result RunAnswer) {a : RunAnswer}
    → after_release r answer ≡ ok a
    → is_ok r ≡ true
unfolding after_release
after_release-is_ok (ok _) answer e = refl
after_release-is_ok (err code) answer e = cc

module _ (upper : String → String) (env : Environment) (run_id : String) (mode : RunMode) where
  -- What follows the runner's outcome, as an answer and the states that were written before it.
  pub data Ended (previous : AutomationState) (attempt_at : DateText)
      (started : List AutomationState)
      : RunnerOutcome → Result RunAnswer × List AutomationState → Type 0 where
    fell :
        (e : Thrown) (failure_at : DateText) (duration : ℕ)
        → to_iso_string (env.clock 1) ≡ ok failure_at
        → duration ≡ elapsed_ms (env.clock 0) (env.clock 2)
        → Ended previous attempt_at started (threw e) (
          ok (run_failed run_id (safe_error_code upper e)),
          failed_state previous run_id attempt_at (safe_error_code upper e) failure_at duration
              ∷ started,
        )
    done :
        (r : RunnerResult) (success_at : DateText) (duration : ℕ) (next : NextRuns)
        → next_runs previous mode r.context_sources_refreshed success_at ≡ ok next
        → to_iso_string (env.clock 1) ≡ ok success_at
        → duration ≡ elapsed_ms (env.clock 0) (env.clock 1)
        → Ended previous attempt_at started (returned r) (
          ok (answer_of (is_partial r) run_id r),
          completed_state previous run_id attempt_at success_at duration r mode next ∷ started,
        )
    stopped :
        (o : RunnerOutcome) (code : String)
        → Ended previous attempt_at started o (err code, started)

  conclude-Ended :
      (previous : AutomationState) (attempt_at : DateText) (o : RunnerOutcome)
      (log : List AutomationState)
      → Ended previous attempt_at log o (conclude upper env run_id mode previous attempt_at o log)
  unfolding conclude
  conclude-Ended previous attempt_at (threw e) log =
      elim (Result-cases (to_iso_string (env.clock 1))) [
        | inr (code, bad) ↦ rw bad (stopped _ code)
        | inl (at, dated) ↦ elim (Bool-cases (env.can_write 1)) [
          | inl can ↦ rw (dated, can) (fell e at _ dated refl)
          | inr cannot ↦ rw (dated, cannot) (stopped _ _)
        ]
      ]
  conclude-Ended previous attempt_at (returned r) log =
      elim (Result-cases (to_iso_string (env.clock 1))) [
        | inr (code, bad) ↦ rw bad (stopped _ code)
        | inl (at, dated) ↦
            elim (Result-cases (next_runs previous mode r.context_sources_refreshed at)) [
              | inr (code, bad) ↦ rw (dated, bad) (stopped _ code)
              | inl (next, planned) ↦ elim (Bool-cases (env.can_write 1)) [
                | inl can ↦ rw (dated, planned, can) (done r at _ next planned dated refl)
                | inr cannot ↦ rw (dated, planned, cannot) (stopped _ _)
              ]
            ]
      ]

  pub data Course : Result RunAnswer × List AutomationState → Type 0 where
    unread : (code : String) → Course (err code, [])
    held :
        (previous : AutomationState)
        → env.stored ≡ ok previous
        → previous.automation_suspended ≡ true
        → Course (ok (suspended (or_text previous.suspended_reason "OWNER_RESUME_REQUIRED")), [])
    refused :
        (previous : AutomationState) (code : String)
        → env.stored ≡ ok previous
        → previous.automation_suspended ≡ false
        → Course (err code, [])
    ran :
        (previous : AutomationState) (attempt_at : DateText)
        {res : Result RunAnswer × List AutomationState}
        → env.stored ≡ ok previous
        → previous.automation_suspended ≡ false
        → to_iso_string (env.clock 0) ≡ ok attempt_at
        → Ended previous attempt_at
            (started_state previous run_id attempt_at ∷ [])
            (outcome_of env.heartbeat_failed (env.runner run_id previous))
            res
        → Course res

  begin-Course :
      (previous : AutomationState)
      → env.stored ≡ ok previous
      → previous.automation_suspended ≡ false
      → Course (begin upper env run_id mode previous [])
  unfolding begin
  begin-Course previous e free = elim (Result-cases env.before_run) [
    | inr (code, bad) ↦ simp bad (refused previous code e free)
    | inl (u, fine) ↦ elim (Result-cases (to_iso_string (env.clock 0))) [
      | inr (code, bad) ↦ simp (fine, bad) (refused previous code e free)
      | inl (at, dated) ↦ elim (Bool-cases (env.can_write 0)) [
        | inr cannot ↦ simp (fine, dated, cannot) (refused previous _ e free)
        | inl can ↦
            simp (fine, dated, can)
              (ran previous at e free dated (
                conclude-Ended previous at
                  (outcome_of env.heartbeat_failed (env.runner run_id previous))
                  (started_state previous run_id at ∷ [])))
      ]
    ]
  ]

  attempt-Course : Course (attempt upper env run_id mode [])
  unfolding attempt
  attempt-Course = elim (Result-cases env.stored) [
    | inr (code, bad) ↦ simp bad (unread "AUTOMATION_STATE_READ_FAILED")
    | inl (previous, e) ↦ elim (Bool-cases previous.automation_suspended) [
      | inl stopped' ↦ simp (e, stopped') (held previous e stopped')
      | inr free ↦ simp (e, free) (begin-Course previous e free)
    ]
  ]

  abbrev pub run : Run
  run = run_central_automation upper env run_id mode

  -- A run that holds the lock has taken one of the courses, and if it answers, the release of the
  -- lock went through.
  pub record IsRun : Type 0 where
    pub answer : Result RunAnswer
    pub course : Course (answer, run.writes)
    pub answered : {answer' : RunAnswer} → run.answer ≡ ok answer' → answer ≡ ok answer'
    pub freed : {answer' : RunAnswer} → run.answer ≡ ok answer' → is_ok env.release ≡ true
    pub released : run.released ≡ is_ok env.release

  pub run-IsRun : env.lock ≡ acquired → IsRun
  unfolding run_central_automation
  run-IsRun held' = record {
    answer = (attempt upper env run_id mode []).0;
    course = simp held' attempt-Course;
    answered = λ e. after_release-eq-ok env.release _ (simp held' at e);
    freed = λ e. after_release-is_ok env.release _ (simp held' at e);
    released = simp held';
  }

  -- A run that does not get the lock writes nothing and has nothing to release.
  pub record IsTurnedAway : Type 0 where
    pub silent : run.writes ≡ []
    pub unreleased : run.released ≡ false
    pub reported :
        ((id : String) × (env.lock ≡ busy id) × (run.answer ≡ ok (already_in_progress id)))
        ⊎ ((code : String) × (env.lock ≡ lock_failed code) × (run.answer ≡ err code))

  run_for_lock : (o : LockOutcome) → env.lock ≡ o → ((env.lock ≡ acquired) × IsRun) ⊎ IsTurnedAway
  unfolding run_central_automation
  run_for_lock acquired e = inl (e, run-IsRun e)
  run_for_lock (busy id) e =
      inr (record { silent = simp e; unreleased = simp e; reported = inl (id, e, simp e) })
  run_for_lock (lock_failed code) e =
      inr (record { silent = simp e; unreleased = simp e; reported = inr (code, e, simp e) })

  pub run-cases : ((env.lock ≡ acquired) × IsRun) ⊎ IsTurnedAway
  run-cases = run_for_lock env.lock refl
