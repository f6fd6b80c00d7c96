-- ===== src/Automation/Central/Laws.antt =====
-- What a wake-up of tools/data-poc/src/automation/runCentralAutomation.ts leaves in the store.
use crypto_edge_ai.Common.{
  String, ◌≡◌, refl, sym, ◌∙◌, List, [], ◌∷◌, ◌++◌, arith, ok, ok_injective, All,
}
use crypto_edge_ai.Automation.State.{AutomationState, SchedulerDecisionCode}
use crypto_edge_ai.Automation.State.Coherence.{IsCoherent}
use crypto_edge_ai.Automation.Scheduler.{SchedulerDecision}
use crypto_edge_ai.Automation.Scheduler.Laws.{decision-available}
use crypto_edge_ai.Automation.Coordinator.Laws.{run-IsCoherent}
use crypto_edge_ai.Automation.Central.{
  OnceResult, Wakeup, Once, apply_scheduler_observation, idle_result, input_of, environment_of,
}
use crypto_edge_ai.Automation.Central.Course.{
  run_of, WakeupCourse, stopped, threw, idled, ran, once, once-WakeupCourse,
}
use crypto_edge_ai.Automation.Central.Answers.{answered-eq-ok, decision-result_of_run}

pub observation-IsCoherent :
    (s : AutomationState) (d : SchedulerDecision)
    → IsCoherent s
    → IsCoherent (apply_scheduler_observation s d)
unfolding apply_scheduler_observation
observation-IsCoherent s d c = record {
  resume = c.resume;
  dated = c.dated;
  explained = c.explained;
  undated = c.undated;
  unexplained = c.unexplained;
}

All-append {ℓ κ} :
    {A : Type ℓ} (P : A → Type κ) (xs ys : List A) → All P xs → All P ys → All P (xs ++ ys)
All-append P [] ys h k = k
All-append P (x ∷ xs) ys (h, hs) k = (h, All-append P xs ys hs k)

module _ (upper : String → String) (w : Wakeup) (run_id : String) where
  course-IsCoherent :
      {o : Once}
      → ((s : AutomationState) → w.stored ≡ ok s → IsCoherent s)
      → (p : AutomationState) → w.coordinator.stored ≡ ok p
      → IsCoherent p
      → WakeupCourse upper w run_id o
      → All IsCoherent o.writes
  unfolding environment_of
  course-IsCoherent c p stored' cp (stopped code) = tt
  course-IsCoherent c p stored' cp (threw code) = tt
  course-IsCoherent c p stored' cp (idled state schedule d _) =
      (observation-IsCoherent state schedule (c state d.read), tt)
  course-IsCoherent c p stored' cp (ran state schedule mode d _) =
      All-append IsCoherent _ _
        (run-IsCoherent upper (environment_of upper w run_id mode state schedule) run_id mode p
          stored' cp)
        (observation-IsCoherent state schedule (c state d.read), tt)

  -- Every state that a wake-up writes has consistent suspension fields, if the two states have that
  -- the scheduler and the coordinator read.
  pub once-IsCoherent :
      (s p : AutomationState)
      → w.stored ≡ ok s
      → w.coordinator.stored ≡ ok p
      → IsCoherent s
      → IsCoherent p
      → All IsCoherent (once upper w run_id).writes
  once-IsCoherent s p stored' stored'' cs cp =
      course-IsCoherent (λ t e. rw (ok_injective (sym e ∙ stored')) cs) p stored'' cp
        (once-WakeupCourse upper w run_id)

  course-unavailable :
      {o : Once} (a : OnceResult)
      → o.answer ≡ ok a
      → a.decision ≡ SchedulerDecisionCode.state_unavailable
      → WakeupCourse upper w run_id o
      → o.writes ≡ []
  unfolding idle_result input_of
  course-unavailable a e u (stopped code) = refl
  course-unavailable a e u (threw code) = refl
  course-unavailable a e u (idled state schedule d _) =
      absurd (decision-available _ schedule state d.scheduled refl (λ h. cc) (ground arith))
  course-unavailable a e u (ran state schedule mode d m) =
      let (b, _, same) =
        answered-eq-ok schedule.decision mode (run_of upper w run_id state schedule mode).answer
          e in
      absurd (decision-result_of_run schedule.decision mode b m (rw same at u))

  -- A wake-up that answers STATE_UNAVAILABLE has written nothing.
  pub once-unavailable :
      (a : OnceResult)
      → (once upper w run_id).answer ≡ ok a
      → a.decision ≡ SchedulerDecisionCode.state_unavailable
      → (once upper w run_id).writes ≡ []
  once-unavailable a e u = course-unavailable a e u (once-WakeupCourse upper w run_id)
