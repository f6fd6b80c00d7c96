-- ===== src/Automation/Coordinator/Breaker.antt =====
-- The circuit breaker of tools/data-poc/src/automation/centralAutomationCoordinator.ts over any
-- number of runs: what can be in the store, with and without the owner's resumption.
use mathlib.Core.List.{Memᴰ}
use crypto_edge_ai.Common.{
  ◌+◌, ◌≤◌, String, ◌≡◌, ◌↔◌, ◌⊎◌, refl, sym, ◌∙◌, true, false, List, [], ◌∷◌, arith, Result, ok,
  inl, inr, All, ok_injective,
}
use crypto_edge_ai.Date.{DateText}
use crypto_edge_ai.Automation.State.{
  AutomationState, FailureClass, create_initial_automation_state, resumed_state,
}
use crypto_edge_ai.Automation.State.Coherence.{
  IsCoherent, initial-IsCoherent, resumed_state-IsCoherent,
}
use crypto_edge_ai.Automation.ErrorCode.{safe_error_code, classify_automation_failure}
use crypto_edge_ai.Automation.Cycle.{
  RunMode, started_state, failed_state, completed_state, should_suspend,
}
use crypto_edge_ai.Automation.Coordinator.{Environment, RunnerOutcome, RunAnswer, run_failed}
use crypto_edge_ai.Automation.Coordinator.Course.{
  Ended, fell, done, stopped, Course, unread, held, refused, ran, run, run-cases,
}
use crypto_edge_ai.Automation.Scheduler.{SchedulerDecision}
use crypto_edge_ai.Automation.Central.{apply_scheduler_observation}
use crypto_edge_ai.Automation.Central.Laws.{observation-IsCoherent}
use crypto_edge_ai.Automation.Coordinator.Laws.{run-IsCoherent, run-failed}

-- What a write does to the count of failures and to the suspension.
data Counts (previous s : AutomationState) : Type 0 where
  same :
      s.consecutive_failure_count ≡ previous.consecutive_failure_count
      → s.automation_suspended ≡ false
      → Counts previous s
  failure :
      (code : String)
      → s.consecutive_failure_count ≡ previous.consecutive_failure_count + 1
      → ((s.automation_suspended ≡ true) ↔ (
          (classify_automation_failure code ≡ FailureClass.deterministic)
          ⊎ (3 ≤ previous.consecutive_failure_count + 1)))
      → Counts previous s
  reset : s.consecutive_failure_count ≡ 0 → s.automation_suspended ≡ false → Counts previous s

abbrev IsCounted : AutomationState → AutomationState → Type 0
IsCounted previous s = (previous.automation_suspended ≡ false) × Counts previous s

module _ (upper : String → String) (env : Environment) (run_id : String) (mode : RunMode) where
  started-Counts :
      (p : AutomationState) (at : DateText)
      → p.automation_suspended ≡ false
      → Counts p (started_state p run_id at)
  unfolding started_state
  started-Counts p at free = same refl free

  Ended-Counts :
      (p : AutomationState) (at : DateText) (o : RunnerOutcome)
      {res : Result RunAnswer × List AutomationState}
      → p.automation_suspended ≡ false
      → Ended upper env run_id mode p at (started_state p run_id at ∷ []) o res
      → All (IsCounted p) res.1
  unfolding failed_state completed_state should_suspend
  Ended-Counts p at o free (fell e failure_at d _ _) = (
    (free, failure (safe_error_code upper e) refl (λ h. ground arith, λ h. ground arith)),
    ((free, started-Counts p at free), tt),
  )
  Ended-Counts p at o free (done r success_at d next _ _ _) =
      ((free, reset refl free), ((free, started-Counts p at free), tt))
  Ended-Counts p at o free (stopped _ code) = ((free, started-Counts p at free), tt)

  Course-Counts :
      (p : AutomationState) {res : Result RunAnswer × List AutomationState}
      → env.stored ≡ ok p
      → Course upper env run_id mode res
      → All (IsCounted p) res.1
  Course-Counts p e (unread code) = tt
  Course-Counts p e (held q _ _) = tt
  Course-Counts p e (refused q code _ _) = tt
  Course-Counts p e (ran q at e' free _ ended) =
      let here : q ≡ p = ok_injective (sym e' ∙ e) in rw (← here) (Ended-Counts q at _ free ended)

  run-Counts :
      (p : AutomationState)
      → env.stored ≡ ok p
      → All (IsCounted p) (run upper env run_id mode).writes
  run-Counts p e = elim (run-cases upper env run_id mode) [
    | inl (_, r) ↦ Course-Counts p e r.course
    | inr away ↦ rw away.silent tt
  ]

-- The states that the store can hold while the owner does nothing: the initial one, whatever a run
-- writes, also if the process ends between two writes, and what the scheduler's checks write.
pub data Unattended (upper : String → String) : AutomationState → Type 0 where
  start : Unattended upper create_initial_automation_state
  write :
      (env : Environment) (run_id : String) (mode : RunMode) {p s : AutomationState}
      → Unattended upper p
      → env.stored ≡ ok p
      → Memᴰ s (run upper env run_id mode).writes
      → Unattended upper s
  observe :
      (schedule : SchedulerDecision) {p : AutomationState}
      → Unattended upper p
      → Unattended upper (apply_scheduler_observation p schedule)

-- The same with the owner's resumptions.
pub data Attended (upper : String → String) : AutomationState → Type 0 where
  start : Attended upper create_initial_automation_state
  write :
      (env : Environment) (run_id : String) (mode : RunMode) {p s : AutomationState}
      → Attended upper p
      → env.stored ≡ ok p
      → Memᴰ s (run upper env run_id mode).writes
      → Attended upper s
  observe :
      (schedule : SchedulerDecision) {p : AutomationState}
      → Attended upper p
      → Attended upper (apply_scheduler_observation p schedule)
  resume : {p : AutomationState} → Attended upper p → Attended upper (resumed_state p)

All-mem {ℓ κ} : {A : Type ℓ} (P : A → Type κ) {x : A} {xs : List A} → Memᴰ x xs → All P xs → P x
All-mem P (Memᴰ.head e) (h, _) = rw e h
All-mem P (Memᴰ.tail m) (_, hs) = All-mem P m hs

-- Whatever is in the store, its suspension fields are consistent.
pub Attended-IsCoherent :
    (upper : String → String) (s : AutomationState) → Attended upper s → IsCoherent s
Attended-IsCoherent upper s Attended.start = initial-IsCoherent
Attended-IsCoherent upper s (Attended.write env id mode {p} before e m) =
    All-mem IsCoherent m (run-IsCoherent upper env id mode p e (Attended-IsCoherent upper p before))
Attended-IsCoherent upper s (Attended.observe schedule {p} before) =
    observation-IsCoherent p schedule (Attended-IsCoherent upper p before)
Attended-IsCoherent upper s (Attended.resume {p} before) = resumed_state-IsCoherent p

counted_bounded :
    (p s : AutomationState)
    → IsCounted p s
    → (p.automation_suspended ≡ false → p.consecutive_failure_count ≤ 2)
    → (s.consecutive_failure_count ≤ 3)
      × (s.automation_suspended ≡ false → s.consecutive_failure_count ≤ 2)
counted_bounded p s (free, same e f) h = (ground arith, λ _. ground arith)
counted_bounded p s (free, failure code e f) h = (ground arith, λ g. ground arith)
counted_bounded p s (free, reset e f) h = (ground arith, λ _. ground arith)

-- Unless the owner resumes, at most three failures in a row are counted, and a state that is not
-- suspended has at most two: the third failure suspends the automation.
pub Unattended-bounded :
    (upper : String → String) (s : AutomationState)
    → Unattended upper s
    → (s.consecutive_failure_count ≤ 3)
      × (s.automation_suspended ≡ false → s.consecutive_failure_count ≤ 2)
unfolding create_initial_automation_state apply_scheduler_observation
Unattended-bounded upper s Unattended.start = (omega arith, λ _. omega arith)
Unattended-bounded upper s (Unattended.write env id mode {p} before e m) =
    counted_bounded p s (All-mem (IsCounted p) m (run-Counts upper env id mode p e))
      (Unattended-bounded upper p before).1
Unattended-bounded upper s (Unattended.observe schedule {p} before) =
    Unattended-bounded upper p before

-- A resumption does not forget the failures: if three were counted before it, the next run that
-- fails suspends the automation again, whatever its failure is.
pub resume-run_failed :
    (upper : String → String) (env : Environment) (run_id : String) (mode : RunMode)
    (p : AutomationState) (id code : String)
    → env.stored ≡ ok (resumed_state p)
    → 2 ≤ p.consecutive_failure_count
    → (run upper env run_id mode).answer ≡ ok (run_failed id code)
    → (s : AutomationState) × (rest : List AutomationState) × ((run upper env run_id mode).writes
        ≡ s ∷ rest)
      × (s.automation_suspended ≡ true)
unfolding resumed_state
resume-run_failed upper env run_id mode p id code e many a =
    let (q, s, rest, e', free, w, _, f) = run-failed upper env run_id mode id code a in
    let here : q ≡ resumed_state p = ok_injective (sym e' ∙ e) in
    (s, rest, w, f.suspends.1 (inr (rw here (omega arith))))
