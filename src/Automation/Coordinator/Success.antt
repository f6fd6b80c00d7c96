-- ===== src/Automation/Coordinator/Success.antt =====
-- What a run that ends well, and a run that does nothing, do to the state
-- (tools/data-poc/src/automation/centralAutomationCoordinator.ts).
use crypto_edge_ai.Common.{
  String, ◌≡◌, ◌⊎◌, ◌↔◌, refl, sym, ◌∙◌, true, false, none, some, List, [], ◌∷◌, Result, ok, inl,
  inr, ok_injective,
}
use mathlib.Core.List.{Memᴰ}
use crypto_edge_ai.Date.{DateText}
use crypto_edge_ai.Automation.State.{AutomationState, RunResult, AutomationSourceStatus}
use crypto_edge_ai.Automation.Cycle.{
  RunMode, RunnerResult, is_partial, normalize_source_statuses, next_runs, scanner_success_of,
}
use crypto_edge_ai.Automation.Coordinator.{
  Environment, returned, RunAnswer, suspended, succeeded, partly_succeeded, already_in_progress,
  is_ok, acquired, busy,
}
use crypto_edge_ai.Automation.Coordinator.Course.{
  Course, unread, held, refused, ran, run, run-cases,
}

-- The answer carries a runner's result.
abbrev pub IsEnd : String → RunnerResult → RunAnswer → Type 0
IsEnd id r a = (a ≡ succeeded id r) ⊎ (a ≡ partly_succeeded id r)

-- A source of the result is degraded or unavailable.
abbrev pub IsImpaired : List (String × AutomationSourceStatus) → Type 0
IsImpaired sources =
    (key : String) × (status : AutomationSourceStatus) × Memᴰ (key, status) sources
    × ((status ≡ AutomationSourceStatus.degraded) ⊎ (status ≡ AutomationSourceStatus.unavailable))

-- What a run that ends well leaves, from the state before it and the runner's result.
pub record IsCompletion (mode : RunMode) (r : RunnerResult) (previous s : AutomationState)
    : Type 0 where
  pub recovered : s.consecutive_failure_count ≡ 0
  pub not_suspended : s.automation_suspended ≡ false
  pub idle : s.active_run_id ≡ none
  pub cleared : (s.last_error_code ≡ none) × (s.failure_code ≡ none) × (s.safe_error ≡ none)
  pub success_at : DateText
  pub dated :
      s.last_success_at
      ≡ (elim (is_partial r) [ true ↦ previous.last_success_at | false ↦ some success_at ])
  pub result :
      s.last_result
      ≡ some (elim (is_partial r) [ true ↦ RunResult.partial | false ↦ RunResult.success ])
  pub sources_dated :
      (s.last_context_success_at ≡ some success_at)
      × (s.last_scanner_success_at ≡ scanner_success_of previous mode success_at)
  pub planned :
      next_runs previous mode r.context_sources_refreshed success_at
      ≡ ok (record {
        scanner = s.next_scanner_run_at;
        alternative_me = s.next_alternative_me_run_at;
        defillama = s.next_defillama_run_at;
      })

module _ (upper : String → String) (env : Environment) (run_id : String) (mode : RunMode) where
  abbrev Completion : String → RunnerResult → RunAnswer → List AutomationState → Type 0
  Completion id r a writes =
      (id ≡ run_id)
      × ((a ≡ partly_succeeded id r) ↔ IsImpaired (normalize_source_statuses r.source_statuses))
      × (previous : AutomationState) × (s : AutomationState) × (rest : List AutomationState)
      × (env.stored ≡ ok previous)
      × (previous.automation_suspended ≡ false)
      × (env.heartbeat_failed ≡ false)
      × (env.runner run_id previous ≡ returned r)
      × (writes ≡ s ∷ rest)
      × IsCompletion mode r previous s

  Course-suspended :
      (p : AutomationState) {res : Result RunAnswer × List AutomationState}
      → env.stored ≡ ok p
      → p.automation_suspended ≡ true
      → Course upper env run_id mode res
      → (res.1 ≡ []) × ((a : RunAnswer) → res.0 ≡ ok a → (reason : String) × (a ≡ suspended reason))
  Course-suspended p stored' held' (unread _) = (refl, λ a e. cc)
  Course-suspended p stored' held' (held q _ _) = (refl, λ a e. (_, sym (ok_injective e)))
  Course-suspended p stored' held' (refused q _ e free) =
      let same : q ≡ p = ok_injective (sym e ∙ stored') in cc
  Course-suspended p stored' held' (ran q at e free _ ended) =
      let same : q ≡ p = ok_injective (sym e ∙ stored') in absurd (cc)

  -- On a suspended state a run writes nothing, whatever the runner would do; what it answers, if
  -- anything, is that the automation is suspended, with the lock released again, or that another
  -- run holds the lock. The lock is released exactly if the run took it and its release went
  -- through.
  pub run_suspended_lem :
      (p : AutomationState)
      → env.stored ≡ ok p
      → p.automation_suspended ≡ true
      → ((run upper env run_id mode).writes ≡ [])
        × ((a : RunAnswer)
            → (run upper env run_id mode).answer ≡ ok a
            → ((reason : String) × (a ≡ suspended reason)
                × ((run upper env run_id mode).released ≡ true))
              ⊎ ((active : String) × (env.lock ≡ busy active) × (a ≡ already_in_progress active)))
        × ((run upper env run_id mode).released ≡ true
            ↔ ((env.lock ≡ acquired) × (is_ok env.release ≡ true)))
  run_suspended_lem p stored' held' = elim (run-cases upper env run_id mode) [
    | inl (got, c) ↦
        let (silent, answers) = Course-suspended p stored' held' c.course in
        (
          silent,
          λ a e.
              let (reason, said) = answers a (c.answered e) in
              inl (reason, said, c.released ∙ c.freed e),
          (λ h. (got, sym c.released ∙ h), λ (_, fine). c.released ∙ fine),
        )
    | inr away ↦ (
      away.silent,
      λ a e. elim away.reported [
        | inl (id, b, f) ↦ inr (id, b, ok_injective (sym e ∙ f))
        | inr (code, _, f) ↦ cc
      ],
      (
        λ h. absurd (cc (h, away.unreleased)),
        λ (h, _). elim away.reported [ inl (id, b, _) ↦ cc | inr (code, b, _) ↦ cc ],
      ),
    )
  ]
