-- ===== src/Automation/Coordinator.antt =====
-- tools/data-poc/src/automation/centralAutomationCoordinator.ts: one run of the automation. What
-- the run meets (the lock's answer, the store, the clock, the runner) is an `Environment`; what it
-- does to the store is the list of the states that it wrote. A heartbeat timer only matters by
-- whether one of its beats had failed when the runner returned.
pub mod Course
pub mod Laws
pub mod Breaker
pub mod Success
pub mod Storable
mod Tests
use crypto_edge_ai.Common.{
  or_text, ℕ, ◌-◌, String, Bool, true, false, Option, none, some, List, [], ◌∷◌, if◌then◌else◌,
  Result, ok, err,
}
use crypto_edge_ai.Date.{DateText, to_iso_string}
use crypto_edge_ai.Automation.State.{AutomationState}
use crypto_edge_ai.Automation.ErrorCode.{Thrown, coded, safe_error_code}
use crypto_edge_ai.Automation.Cycle.{
  RunMode, RunnerResult, elapsed_ms, is_partial, started_state, failed_state, completed_state,
  next_runs,
}

pub data RunnerOutcome : Type 0 where
  returned : RunnerResult → RunnerOutcome
  threw : Thrown → RunnerOutcome

pub data LockOutcome : Type 0 where
  acquired : LockOutcome
  busy : (active_run_id : String) → LockOutcome
  lock_failed : (code : String) → LockOutcome

pub record Environment : Type 0 where
  pub lock : LockOutcome
  -- What `stateStore.read()` gives, and whether the i-th write succeeds.
  pub stored : Result AutomationState
  pub can_write : ℕ → Bool
  pub before_run : Result (Unit {0})
  -- The i-th reading of the clock behind the lock.
  pub clock : ℕ → ℕ
  pub runner : String → AutomationState → RunnerOutcome
  pub heartbeat_failed : Bool
  pub release : Result (Unit {0})

pub data RunAnswer : Type 0 where
  succeeded : (run_id : String) → RunnerResult → RunAnswer
  partly_succeeded : (run_id : String) → RunnerResult → RunAnswer
  run_failed : (run_id error_code : String) → RunAnswer
  suspended : (reason : String) → RunAnswer
  already_in_progress : (active_run_id : String) → RunAnswer

-- Code that writes to the store and may throw: its result, and the states written, the latest
-- first.
abbrev pub M : Type 0 → Type 0
M A = List AutomationState → Result A × List AutomationState

infixl 5 ◌>>◌ ◌>>=◌
-- The next step is run with the value and on the longer log; an error ends the run.
abbrev pub ◌>>=◌ : {A B : Type 0} (step : M A) (next : A → M B) → M B
(step >>= next) log =
    let (r, written) = step log in
    elim r [ err code ↦ (err code, written) | ok value ↦ next value written ]

abbrev pub ◌>>◌ : {A : Type 0} → M (Unit {0}) → M A → M A
(step >> next) log = (step >>= λ _. next) log

abbrev pub lift : {A : Type 0} → Result A → M A
lift r log = (r, log)

abbrev pub pure : {A : Type 0} → A → M A
pure a log = (ok a, log)

-- `catch { throw new CentralAutomationError(code) }` around a step that throws.
abbrev pub or_throw : {A : Type 0} → String → Result A → Result A
or_throw code (ok a) = ok a
or_throw code (err _) = err code

abbrev pub write_state : Bool → AutomationState → M (Unit {0})
write_state true state log = (ok tt, state ∷ log)
write_state false state log = (err "AUTOMATION_STATE_WRITE_FAILED", log)

-- A heartbeat that failed makes the runner's result an error.
abbrev pub outcome_of : Bool → RunnerOutcome → RunnerOutcome
outcome_of failed (threw e) = threw e
outcome_of true (returned r) = threw (coded "COLLECTOR_LOCK_HEARTBEAT_FAILED")
outcome_of false (returned r) = returned r

abbrev answer_of : Bool → String → RunnerResult → RunAnswer
answer_of true run_id r = partly_succeeded run_id r
answer_of false run_id r = succeeded run_id r

pub record Run : Type 0 where
  pub answer : Result RunAnswer
  -- The latest state is the first.
  pub writes : List AutomationState
  -- Whether the run took the lock and `lock.release()` went through.
  pub released : Bool

abbrev pub is_ok : Result (Unit {0}) → Bool
is_ok (ok _) = true
is_ok (err _) = false

-- `finally { await lock.release(); }`: an error of the release takes the place of the answer.
after_release : Result (Unit {0}) → Result RunAnswer → Result RunAnswer
after_release (ok _) answer = answer
after_release (err code) answer = err code

-- `upper` is `String.prototype.toUpperCase`.
module _ (upper : String → String) (env : Environment) (run_id : String) (mode : RunMode) where
  -- What follows the runner: the failure's state, or the completed one.
  conclude : AutomationState → DateText → RunnerOutcome → M RunAnswer
  conclude previous attempt_at (threw e) = do
    let code = safe_error_code upper e
    failure_at ← lift (to_iso_string (env.clock 1))
    write_state (env.can_write 1) (
        failed_state previous run_id attempt_at code failure_at
          (elapsed_ms (env.clock 0) (env.clock 2)))
    pure (run_failed run_id code)
  conclude previous attempt_at (returned r) = do
    success_at ← lift (to_iso_string (env.clock 1))
    next ← lift (next_runs previous mode r.context_sources_refreshed success_at)
    write_state (env.can_write 1) (
        completed_state previous run_id attempt_at success_at
          (elapsed_ms (env.clock 0) (env.clock 1)) r mode next)
    pure (answer_of (is_partial r) run_id r)

  begin : AutomationState → M RunAnswer
  unfolding conclude
  begin previous = do
    lift env.before_run
    attempt_at ← lift (to_iso_string (env.clock 0))
    write_state (env.can_write 0) (started_state previous run_id attempt_at)
    conclude previous attempt_at (outcome_of env.heartbeat_failed (env.runner run_id previous))

  attempt : M RunAnswer
  unfolding begin
  attempt = do
    previous ← lift (or_throw "AUTOMATION_STATE_READ_FAILED" env.stored)
    if previous.automation_suspended
        then pure (suspended (or_text previous.suspended_reason "OWNER_RESUME_REQUIRED"))
        else begin previous

  -- The run, by what `acquireGlobalCollectorLock` answered.
  run_for : LockOutcome → Run
  unfolding attempt after_release
  run_for (lock_failed code) = record { answer = err code; writes = []; released = false }
  run_for (busy active) = record {
    answer = ok (already_in_progress active);
    writes = [];
    released = false;
  }
  run_for acquired =
      let (answer, writes) = attempt [] in
      record {
        answer = after_release env.release answer;
        writes = writes;
        released = is_ok env.release;
      }

  unfoldable pub run_central_automation : Run
  unfolding run_for
  run_central_automation = run_for env.lock
