-- ===== src/Automation/Central/Justified.antt =====
-- When a wake-up of tools/data-poc/src/automation/runCentralAutomation.ts runs the automation.
use crypto_edge_ai.Common.{ℕ, String, ◌≡◌, ◌⊎◌, true, false, some, arith, ok}
use crypto_edge_ai.Automation.State.{AutomationState}
use crypto_edge_ai.Automation.Cadence.{LastSuccess, dexscreener_ms, alternative_me_ms, defillama_ms}
use crypto_edge_ai.Automation.Cadence.Laws.{IsDue}
use crypto_edge_ai.Automation.Scheduler.{SchedulerDecision, is_running, last_successes}
use crypto_edge_ai.Automation.Scheduler.Laws.{IsReady, decide_central_schedule_iff, decision-now}
use crypto_edge_ai.Automation.Cycle.{RunMode, scanner_and_context, context_only}
use crypto_edge_ai.Automation.Central.{OnceResult, Wakeup, Once, mode_of, idle_result, input_of}
use crypto_edge_ai.Automation.Central.Course.{
  IsDecided, run_of, WakeupCourse, stopped, threw, idled, ran, once, once-WakeupCourse,
}
use crypto_edge_ai.Automation.Central.Answers.{
  mode_of-scanner, mode_of-context, answered-eq-ok, mode-result_of_run,
}

-- A source of the mode is due.
abbrev pub IsDueFor : ℕ → LastSuccess → RunMode → Type 0
IsDueFor now last scanner_and_context = IsDue now dexscreener_ms last.dexscreener
IsDueFor now last context_only =
    (¬ IsDue now dexscreener_ms last.dexscreener)
    × (IsDue now alternative_me_ms last.alternative_me_fng
        ⊎ IsDue now defillama_ms last.defillama_api)

module _ (upper : String → String) (w : Wakeup) (run_id : String) where
  -- Why a wake-up runs the automation in a mode.
  pub record IsJustified (mode : RunMode) : Type 0 where
    pub state : AutomationState
    pub schedule : SchedulerDecision
    pub decided : IsDecided upper w run_id state schedule
    pub enabled : w.enabled ≡ true
    pub not_suspended : state.automation_suspended ≡ false
    pub idle : is_running decided.active ≡ false
    pub now : ℕ
    pub dated : w.now ≡ some now
    pub last : LastSuccess
    pub reckoned :
        last_successes (input_of upper w run_id state decided.active decided.snapshots) ≡ ok last
    pub due : IsDueFor now last mode

  IsJustified-intro :
      (state : AutomationState) (schedule : SchedulerDecision) (mode : RunMode)
      (d : IsDecided upper w run_id state schedule) (now : ℕ) (last : LastSuccess)
      → w.now ≡ some now
      → last_successes (input_of upper w run_id state d.active d.snapshots) ≡ ok last
      → IsReady (input_of upper w run_id state d.active d.snapshots)
      → IsDueFor now last mode
      → IsJustified mode
  unfolding input_of
  IsJustified-intro state schedule mode d now last dated reckoned ready due = record {
    state = state;
    schedule = schedule;
    decided = d;
    enabled = ready.enabled;
    not_suspended = ground (arith, ready.present, ready.not_suspended);
    idle = ready.idle;
    now = now;
    dated = dated;
    last = last;
    reckoned = reckoned;
    due = due;
  }

  justified :
      (state : AutomationState) (schedule : SchedulerDecision) (mode : RunMode)
      → IsDecided upper w run_id state schedule
      → mode_of schedule.decision ≡ some mode
      → IsJustified mode
  unfolding input_of
  justified state schedule scanner_and_context d m =
      let input = input_of upper w run_id state d.active d.snapshots in
      let (now, dated) = decision-now input schedule d.scheduled in
      let (last, reckoned, scanner, _) =
        decide_central_schedule_iff input now schedule dated d.scheduled in
      let (ready, due) = scanner.0 ((mode_of-scanner schedule.decision).0 m) in
      IsJustified-intro state schedule scanner_and_context d now last dated reckoned ready due
  justified state schedule context_only d m =
      let input = input_of upper w run_id state d.active d.snapshots in
      let (now, dated) = decision-now input schedule d.scheduled in
      let (last, reckoned, _, context) =
        decide_central_schedule_iff input now schedule dated d.scheduled in
      let (ready, early, due) = context.0 ((mode_of-context schedule.decision).0 m) in
      IsJustified-intro state schedule context_only d now last dated reckoned ready (early, due)

  WakeupCourse-IsJustified :
      {o : Once} (a : OnceResult) (id : String)
      → o.answer ≡ ok a
      → a.run_id ≡ some id
      → WakeupCourse upper w run_id o
      → (mode : RunMode) × (a.run_mode ≡ some mode) × IsJustified mode
  unfolding idle_result
  WakeupCourse-IsJustified a id e r (stopped code) = absurd (ground arith)
  WakeupCourse-IsJustified a id e r (threw code) = cc
  WakeupCourse-IsJustified a id e r (idled state schedule d _) = absurd (ground arith)
  WakeupCourse-IsJustified a id e r (ran state schedule mode d m) =
      let (b, _, same) =
        answered-eq-ok schedule.decision mode (run_of upper w run_id state schedule mode).answer
          e in
      (
        mode,
        rw same (mode-result_of_run schedule.decision mode b (rw same at r)),
        justified state schedule mode d m,
      )

  -- A wake-up answers with a run of its own only if the automation is enabled, the state that it
  -- read is not suspended, no run was active, and a source of the run's mode was due: for the whole
  -- mode the scanner's, for the context alone one of its two while the scanner's was not.
  pub once-IsJustified :
      (a : OnceResult) (id : String)
      → (once upper w run_id).answer ≡ ok a
      → a.run_id ≡ some id
      → (mode : RunMode) × (a.run_mode ≡ some mode) × IsJustified mode
  once-IsJustified a id e r = WakeupCourse-IsJustified a id e r (once-WakeupCourse upper w run_id)
