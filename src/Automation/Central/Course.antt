-- ===== src/Automation/Central/Course.antt =====
-- The courses that a wake-up of tools/data-poc/src/automation/runCentralAutomation.ts can take.
use crypto_edge_ai.Common.{
  String, ◌≡◌, refl, Option, none, some, [], ◌∷◌, ◌++◌, Result, ok, err, bind-eq-ok, Bool-cases,
  inl, inr,
}
use crypto_edge_ai.Automation.State.{AutomationState}
use crypto_edge_ai.Automation.Scheduler.{
  PublishedSnapshotTimes, SchedulerDecision, decide_central_schedule,
}
use crypto_edge_ai.Automation.Cycle.{RunMode}
use crypto_edge_ai.Automation.Coordinator.{Run, run_central_automation}
use crypto_edge_ai.Automation.Central.{
  Wakeup, Once, apply_scheduler_observation, unavailable, mode_of, idle_result, answered, input_of,
  decide, environment_of, run_in, observe, inspect, begin, run_central_scheduler_once,
}

module _ (upper : String → String) (w : Wakeup) (run_id : String) where
  -- What a wake-up that reaches a decision has read.
  pub record IsDecided (state : AutomationState) (schedule : SchedulerDecision) : Type 0 where
    pub read : w.stored ≡ ok state
    pub active : Option String
    pub inspected : w.active_lock_run_id ≡ ok active
    pub snapshots : PublishedSnapshotTimes
    pub published : w.snapshots state ≡ ok snapshots
    pub scheduled :
        decide_central_schedule (input_of upper w run_id state active snapshots) ≡ ok schedule

  -- The coordinator's run in the mode.
  abbrev pub run_of : AutomationState → SchedulerDecision → RunMode → Run
  run_of state schedule mode =
      run_central_automation upper (environment_of upper w run_id mode state schedule) run_id mode

  -- The courses of a wake-up.
  pub data WakeupCourse : Once → Type 0 where
    stopped :
        (code : String) → WakeupCourse (record { answer = ok (unavailable code); writes = [] })
    threw : (code : String) → WakeupCourse (record { answer = err code; writes = [] })
    idled :
        (state : AutomationState) (schedule : SchedulerDecision)
        → IsDecided state schedule
        → mode_of schedule.decision ≡ none
        → WakeupCourse (record {
          answer = ok (idle_result state schedule);
          writes = apply_scheduler_observation state schedule ∷ [];
        })
    ran :
        (state : AutomationState) (schedule : SchedulerDecision) (mode : RunMode)
        → IsDecided state schedule
        → mode_of schedule.decision ≡ some mode
        → WakeupCourse (record {
          answer = answered schedule.decision mode (run_of state schedule mode).answer;
          writes =
              (run_of state schedule mode).writes
              ++ apply_scheduler_observation state schedule ∷ [];
        })

  run_in-WakeupCourse :
      (state : AutomationState) (schedule : SchedulerDecision) (o : Option RunMode)
      → IsDecided state schedule
      → mode_of schedule.decision ≡ o
      → WakeupCourse (run_in upper w run_id state schedule o)
  unfolding run_in
  run_in-WakeupCourse state schedule none d e = idled state schedule d e
  run_in-WakeupCourse state schedule (some mode) d e = ran state schedule mode d e

  observe-WakeupCourse :
      (state : AutomationState) (r : Result SchedulerDecision)
      → ((schedule : SchedulerDecision) → r ≡ ok schedule → IsDecided state schedule)
      → WakeupCourse (observe upper w run_id state r)
  unfolding observe
  observe-WakeupCourse state (err code) d = threw code
  observe-WakeupCourse state (ok schedule) d = elim (Bool-cases w.can_write) [
    | inl can ↦ simp can (run_in-WakeupCourse state schedule _ (d schedule refl) refl)
    | inr cannot ↦ simp cannot (stopped _)
  ]

  inspect-WakeupCourse :
      (state : AutomationState) (r : Result (Option String))
      → w.stored ≡ ok state
      → w.active_lock_run_id ≡ r
      → WakeupCourse (inspect upper w run_id state r)
  unfolding inspect decide
  inspect-WakeupCourse state (err code) read' e = stopped _
  inspect-WakeupCourse state (ok active) read' e = observe-WakeupCourse state _ (λ schedule h.
      let (snapshots, published, scheduled) = bind-eq-ok (w.snapshots state) _ h in
      record {
        read = read';
        active = active;
        inspected = e;
        snapshots = snapshots;
        published = published;
        scheduled = scheduled;
      })

  begin-WakeupCourse :
      (r : Result AutomationState) → w.stored ≡ r → WakeupCourse (begin upper w run_id r)
  unfolding begin
  begin-WakeupCourse (err code) e = stopped _
  begin-WakeupCourse (ok state) e = inspect-WakeupCourse state _ e refl

  abbrev pub once : Once
  once = run_central_scheduler_once upper w run_id

  pub once-WakeupCourse : WakeupCourse once
  unfolding run_central_scheduler_once
  once-WakeupCourse = begin-WakeupCourse w.stored refl
