-- ===== src/Automation/Coordinator/Storable.antt =====
-- What a run of tools/data-poc/src/automation/centralAutomationCoordinator.ts writes is what the
-- state's file may hold (tools/data-poc/src/automation/automationState.ts).
mod Parts
mod Tests
mod States
use crypto_edge_ai.Common.{
  ℕ, ◌+◌, ◌≤◌, ◌<◌, ◌≡◌, refl, sym, ◌∙◌, String, Bool, true, false, Option, none, some, List, [],
  ◌∷◌, All, arith, Result, ok, ok_injective, inl, inr, or_else, if◌then◌else◌,
}
use crypto_edge_ai.Number.{Number}
use crypto_edge_ai.Date.{DateText}
use crypto_edge_ai.Automation.State.{AutomationState}
use crypto_edge_ai.Automation.ErrorCode.{is_safe_text, safe_error_code}
use crypto_edge_ai.Automation.ErrorCode.Safe.{safe_error_code-is_safe_text}
use crypto_edge_ai.Automation.Cycle.{
  is_scanner_mode, scanner_and_context, context_only, RunMode, RunnerResult, NextRuns,
  started_state, failed_state, completed_state, should_suspend, next_runs, elapsed_ms, is_partial,
  scanner_success_of, safe_count, safe_optional_iso, safe_optional_run_id,
}
use crypto_edge_ai.Automation.Store.Values.{Format, max_safe_integer}
use crypto_edge_ai.Automation.Store.Valid.{IsStorable, Each, IsId, IsCount, IsDate}
use crypto_edge_ai.Automation.Coordinator.{
  Environment, RunnerOutcome, threw, returned, RunAnswer, outcome_of,
}
use crypto_edge_ai.Automation.Coordinator.Course.{
  Ended, fell, done, stopped, Course, unread, held, refused, ran, run, run-cases,
}
use crypto_edge_ai.Automation.Coordinator.Laws.{
  started-IsCoherent, failed-IsCoherent, completed-IsCoherent,
}
use crypto_edge_ai.Automation.Coordinator.Storable.Parts.{
  HasSafeCounts, safe_error_description-IsDescription, statuses-HasKey, counts-IsCountEntry,
  safe_count-IsCount, or_else-Each, safe_optional_run_id-IsId, to_iso_string-IsDate,
  safe_optional_iso-IsDate, next_runs-IsDate,
}
use crypto_edge_ai.Automation.Coordinator.Storable.States.{
  started-IsStorable, failed-IsStorable, completed-IsStorable,
}

outcome_of-returned :
    (failed : Bool) (o : RunnerOutcome) {r : RunnerResult}
    → outcome_of failed o ≡ returned r
    → o ≡ returned r
outcome_of-returned failed (threw e) h = cc
outcome_of-returned true (returned r) h = cc
outcome_of-returned false (returned r) h = h

-- What a run is given fits the file: its id is a safe text, the times that it takes are safe
-- integers, and so are the counts of its runner.
pub record Fits (env : Environment) (id : String) : Type 0 where
  pub safe : is_safe_text id ≡ true
  pub short : IsCount (elapsed_ms (env.clock 0) (env.clock 1))
  pub short_failure : IsCount (elapsed_ms (env.clock 0) (env.clock 2))
  pub counted :
      (p : AutomationState) (r : RunnerResult) → env.runner id p ≡ returned r → HasSafeCounts r

module _ {n : Number} (f : Format n) (upper : String → String) (env : Environment) (run_id : String)
    (mode : RunMode) (fits : Fits env run_id) where
  Ended-IsStorable :
      (p : AutomationState) (at : DateText) (o : RunnerOutcome)
      {res : Result RunAnswer × List AutomationState}
      → IsStorable f p
      → p.consecutive_failure_count < max_safe_integer
      → IsDate f at
      → ((r : RunnerResult) → o ≡ returned r → HasSafeCounts r)
      → Ended upper env run_id mode p at (started_state p run_id at ∷ []) o res
      → All (IsStorable f) res.1
  Ended-IsStorable p at o h few dated small (fell e failure_at d dated' lasted) = (
    failed-IsStorable f p run_id at (safe_error_code upper e) failure_at d h fits.safe
        (safe_error_code-is_safe_text upper e) dated (to_iso_string-IsDate f (env.clock 1) dated')
        (rw lasted fits.short_failure) few,
    (started-IsStorable f p run_id at h fits.safe dated, tt),
  )
  Ended-IsStorable p at o h few dated small (done r success_at d next planned dated' lasted) = (
    completed-IsStorable f p run_id at success_at d r mode next h fits.safe dated
        (to_iso_string-IsDate f (env.clock 1) dated') (rw lasted fits.short) (small r refl) planned,
    (started-IsStorable f p run_id at h fits.safe dated, tt),
  )
  Ended-IsStorable p at o h few dated small (stopped _ code) =
      (started-IsStorable f p run_id at h fits.safe dated, tt)

  Course-IsStorable :
      (p : AutomationState) {res : Result RunAnswer × List AutomationState}
      → env.stored ≡ ok p
      → IsStorable f p
      → p.consecutive_failure_count < max_safe_integer
      → Course upper env run_id mode res
      → All (IsStorable f) res.1
  Course-IsStorable p e h few (unread code) = tt
  Course-IsStorable p e h few (held _ _ _) = tt
  Course-IsStorable p e h few (refused _ code _ _) = tt
  Course-IsStorable p e h few (ran q at e' free dated ended) =
      let same : p ≡ q = ok_injective (sym e ∙ e') in
      Ended-IsStorable q at _ (rw (← same) h) (rw (← same) few)
        (to_iso_string-IsDate f (env.clock 0) dated)
        (λ r came.
          fits.counted q r (outcome_of-returned env.heartbeat_failed (env.runner run_id q) came))
        ended

  -- If the stored state is one that the file may hold, with fewer failures counted than the greatest
  -- safe integer, and what the run is given fits the file, then the file may hold every state that
  -- the run writes.
  pub run-IsStorable :
      (p : AutomationState)
      → env.stored ≡ ok p
      → IsStorable f p
      → p.consecutive_failure_count < max_safe_integer
      → All (IsStorable f) (run upper env run_id mode).writes
  run-IsStorable p e h few = elim (run-cases upper env run_id mode) [
    | inl (_, r) ↦ Course-IsStorable p e h few r.course
    | inr away ↦ rw away.silent tt
  ]
