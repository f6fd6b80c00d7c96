-- ===== src/Automation/Central/Interleaving.antt =====
-- Wake-ups of tools/data-poc/src/automation/runCentralAutomation.ts beside runs of
-- centralAutomationCoordinator.ts on one store: a wake-up reads the state, and later writes what it
-- read with its observation, without the lock that a run holds.
use mathlib.Core.List.{Memᴰ}
use crypto_edge_ai.Common.{String, ◌≡◌, refl, true, Option, none, some, List, [], ◌∷◌, ok}
use crypto_edge_ai.Automation.State.{AutomationState, create_initial_automation_state}
use crypto_edge_ai.Automation.Scheduler.{
  SchedulerDecision, SchedulerDecisionInput, decide_central_schedule,
}
use crypto_edge_ai.Automation.Cycle.{RunMode}
use crypto_edge_ai.Automation.Coordinator.{Environment, run_central_automation}
use crypto_edge_ai.Automation.Coordinator.Success.{run_suspended_lem}
use crypto_edge_ai.Automation.Central.{apply_scheduler_observation}

-- A wake-up that reads and writes at once, or a write of a run.
pub data AtomicStep (upper : String → String) : AutomationState → AutomationState → Type 0 where
  run :
      {s s' : AutomationState} (env : Environment) (run_id : String) (mode : RunMode)
      → env.stored ≡ ok s
      → Memᴰ s' (run_central_automation upper env run_id mode).writes
      → AtomicStep upper s s'
  check :
      {s : AutomationState} (schedule : SchedulerDecision)
      → AtomicStep upper s (apply_scheduler_observation s schedule)

pub data AtomicSteps (upper : String → String) : AutomationState → AutomationState → Type 0 where
  stay : {s : AutomationState} → AtomicSteps upper s s
  step :
      {s s' s'' : AutomationState}
      → AtomicStep upper s s'
      → AtomicSteps upper s' s''
      → AtomicSteps upper s s''

-- The suspension and what led to it are as they were.
pub record KeepsSuspension (s s' : AutomationState) : Type 0 where
  pub suspended : s'.automation_suspended ≡ true
  pub reason : s'.suspended_reason ≡ s.suspended_reason
  pub since : s'.suspended_at ≡ s.suspended_at
  pub count : s'.consecutive_failure_count ≡ s.consecutive_failure_count
  pub published :
      (s'.last_published_scanner_run_id ≡ s.last_published_scanner_run_id)
      × (s'.last_published_context_run_id ≡ s.last_published_context_run_id)

check-KeepsSuspension :
    (s : AutomationState) (schedule : SchedulerDecision)
    → s.automation_suspended ≡ true
    → KeepsSuspension s (apply_scheduler_observation s schedule)
unfolding apply_scheduler_observation
check-KeepsSuspension s schedule h = record {
  suspended = h;
  reason = refl;
  since = refl;
  count = refl;
  published = (refl, refl);
}

nil-no-mem {ℓ} : {A : Type ℓ} {x : A} (xs : List A) → Memᴰ x xs → ¬ (xs ≡ [])
nil-no-mem (y ∷ ys) m e = cc
nil-no-mem [] m e = elim m [ ]

step-KeepsSuspension :
    (upper : String → String) (s s' : AutomationState)
    → AtomicStep upper s s'
    → s.automation_suspended ≡ true
    → KeepsSuspension s s'
step-KeepsSuspension upper s s' (run env run_id mode stored written) h =
    absurd (nil-no-mem _ written (run_suspended_lem upper env run_id mode s stored h).0)
step-KeepsSuspension upper s s' (check schedule) h = check-KeepsSuspension s schedule h

KeepsSuspension-trans :
    {s s' s'' : AutomationState}
    → KeepsSuspension s s'
    → KeepsSuspension s' s''
    → KeepsSuspension s s''
KeepsSuspension-trans h k = record {
  suspended = k.suspended;
  reason = rw (k.reason, h.reason);
  since = rw (k.since, h.since);
  count = rw (k.count, h.count);
  published = (rw (k.published.0, h.published.0), rw (k.published.1, h.published.1));
}

-- While every wake-up reads and writes at once, a suspension lasts through any sequence of runs and
-- wake-ups: only a resumption ends it. Its reason, its date, the count of failures and the published
-- runs stay too.
pub AtomicSteps-KeepsSuspension :
    (upper : String → String) (s s' : AutomationState)
    → s.automation_suspended ≡ true
    → AtomicSteps upper s s'
    → KeepsSuspension s s'
AtomicSteps-KeepsSuspension upper s s' h stay = record {
  suspended = h;
  reason = refl;
  since = refl;
  count = refl;
  published = (refl, refl);
}
AtomicSteps-KeepsSuspension upper s s' h (step first rest) =
    let one = step-KeepsSuspension upper s _ first h in
    KeepsSuspension-trans one (AtomicSteps-KeepsSuspension upper _ s' one.suspended rest)

-- The store, and the state that a wake-up has read and not yet written.
pub record Shared : Type 0 where
  pub store : AutomationState
  pub pending : Option AutomationState

pub data SharedStep (upper : String → String) : Shared → Shared → Type 0 where
  read :
      {s : AutomationState} {p : Option AutomationState}
      → SharedStep upper
          (record { store = s; pending = p })
          (record { store = s; pending = some s })
  write :
      {s s' : AutomationState} {p : Option AutomationState} (env : Environment) (run_id : String)
      (mode : RunMode)
      → env.stored ≡ ok s
      → Memᴰ s' (run_central_automation upper env run_id mode).writes
      → SharedStep upper (record { store = s; pending = p }) (record { store = s'; pending = p })
  observe :
      {s p : AutomationState} (input : SchedulerDecisionInput) (schedule : SchedulerDecision)
      → input.state ≡ some p
      → decide_central_schedule input ≡ ok schedule
      → SharedStep upper
          (record { store = s; pending = some p })
          (record { store = apply_scheduler_observation p schedule; pending = none })

pub data Reachable (upper : String → String) : Shared → Type 0 where
  start : Reachable upper (record { store = create_initial_automation_state; pending = none })
  next : {t t' : Shared} → Reachable upper t → SharedStep upper t t' → Reachable upper t'
