-- ===== src/Automation/State/Coherence.antt =====
-- The consistency of the suspension's fields, which normalizeAutomationState of
-- tools/data-poc/src/automation/automationState.ts demands of every state, and the owner's
-- resumption (resumeAutomationState.ts).
use crypto_edge_ai.Common.{
  ◌≡◌, ◌≢◌, ◌↔◌, refl, sym, ap, ◌∙◌, ok_injective, Result-cases, Bool, true, false, Option, none,
  some, arith, Result, ok, Bool-cases, inl, inr, ◌⊎◌,
}
use crypto_edge_ai.Automation.State.{
  AutomationState, create_initial_automation_state, ResumeResult, resume_result, ResumeStatus,
  resume_available, not_suspended, owner_confirmed, resumed, resumed_state, resume_automation_state,
}

pub record IsCoherent (s : AutomationState) : Type 0 where
  pub resume : s.resume_required ≡ s.automation_suspended
  pub dated : s.automation_suspended ≡ true → s.suspended_at ≢ none
  pub explained : s.automation_suspended ≡ true → s.suspended_reason ≢ none
  pub undated : s.automation_suspended ≡ false → s.suspended_at ≡ none
  pub unexplained : s.automation_suspended ≡ false → s.suspended_reason ≡ none

pub initial-IsCoherent : IsCoherent create_initial_automation_state
unfolding create_initial_automation_state
initial-IsCoherent = record {
  resume = refl;
  dated = λ h. cc;
  explained = λ h. cc;
  undated = λ _. refl;
  unexplained = λ _. refl;
}

pub resumed_state-IsCoherent : (s : AutomationState) → IsCoherent (resumed_state s)
unfolding resumed_state
resumed_state-IsCoherent s = record {
  resume = refl;
  dated = λ h. cc;
  explained = λ h. cc;
  undated = λ _. refl;
  unexplained = λ _. refl;
}

-- The report shows a state.
pub record IsReportOf (report : ResumeResult) (s : AutomationState) : Type 0 where
  pub held : report.automation_suspended ≡ s.automation_suspended
  pub resume : report.resume_required ≡ s.resume_required
  pub count : report.consecutive_failure_count ≡ s.consecutive_failure_count
  pub reason : report.suspended_reason ≡ s.suspended_reason

-- What a report without a write says that the owner can do.
pub preview_status : Bool → ResumeStatus
preview_status true = resume_available
preview_status false = not_suspended

IsReportOf-result :
    (confirmed : Bool) (status : ResumeStatus) (s : AutomationState) {report : ResumeResult}
    → resume_result confirmed status s ≡ report
    → IsReportOf report s
unfolding resume_result
IsReportOf-result confirmed status s e = record {
  held = ap (λ r. r.automation_suspended) (sym e);
  resume = ap (λ r. r.resume_required) (sym e);
  count = ap (λ r. r.consecutive_failure_count) (sym e);
  reason = ap (λ r. r.suspended_reason) (sym e);
}

mode_iff :
    (confirmed : Bool) (status : ResumeStatus) (s : AutomationState) {report : ResumeResult}
    → resume_result confirmed status s ≡ report
    → (report.mode ≡ owner_confirmed) ↔ (confirmed ≡ true)
unfolding resume_result
mode_iff true status s e = (λ _. refl, λ _. ap (λ r. r.mode) (sym e))
mode_iff false status s e = (λ h. absurd (let m = ap (λ r. r.mode) e ∙ h in cc), λ h. cc)

status_of :
    (confirmed : Bool) (status : ResumeStatus) (s : AutomationState) {report : ResumeResult}
    → resume_result confirmed status s ≡ report
    → report.status ≡ status
unfolding resume_result
status_of confirmed status s e = ap (λ r. r.status) (sym e)

-- A report without a write, and one with it.
resume-cases :
    (confirmed : Bool) (current : AutomationState) (write : AutomationState → Result (Unit {0}))
    (report : ResumeResult) (written : Option AutomationState)
    → resume_automation_state confirmed (ok current) write ≡ ok (report, written)
    → ((none ≡ written)
        × (resume_result confirmed (preview_status current.automation_suspended) current ≡ report)
        × (current.automation_suspended ≡ true → confirmed ≡ true → ⊥))
      ⊎ ((some (resumed_state current) ≡ written)
          × (write (resumed_state current) ≡ ok tt)
          × (current.automation_suspended ≡ true)
          × (confirmed ≡ true)
          × (resume_result true resumed (resumed_state current) ≡ report))
unfolding resume_automation_state preview_status
resume-cases confirmed current write report written e =
    elim (Bool-cases current.automation_suspended) [
      | inr free ↦
          let pair = ok_injective (simp free at e) in
          inl (ap (λ p. p.1) pair, rw free (ap (λ p. p.0) pair), λ h k. cc)
      | inl held ↦ elim (Bool-cases confirmed) [
        | inr preview' ↦
            let pair = ok_injective (simp (held, preview') at e) in
            inl (ap (λ p. p.1) pair, rw (held, preview') (ap (λ p. p.0) pair), λ h k. cc)
        | inl yes' ↦ elim (Result-cases (write (resumed_state current))) [
          | inr (code, bad) ↦ absurd (let never = simp (held, yes', bad) at e in cc)
          | inl (u, wrote) ↦
              let pair = ok_injective (simp (held, yes', wrote) at e) in
              inr (ap (λ p. p.1) pair, wrote, held, yes', ap (λ p. p.0) pair)
        ]
      ]
    ]

-- A resumption writes only if the state is suspended and the owner has confirmed; what it writes
-- is coherent, no longer suspended, and has the count of failures and the active run that it had,
-- and the write went through. The report has the mode of the call. After a write its status is
-- RESUMED and it shows the state that was written; without one it shows the state as it is, and its
-- status is RESUME_AVAILABLE if that is suspended and NOT_SUSPENDED otherwise.
pub resume_automation_state-writes :
    (confirmed : Bool) (current : AutomationState) (write : AutomationState → Result (Unit {0}))
    (report : ResumeResult) (written : Option AutomationState)
    → resume_automation_state confirmed (ok current) write ≡ ok (report, written)
    → ((written ≢ none) ↔ ((current.automation_suspended ≡ true) × (confirmed ≡ true)))
      × ((s : AutomationState)
          → written ≡ some s
          → IsCoherent s
            × (s.automation_suspended ≡ false)
            × (s.consecutive_failure_count ≡ current.consecutive_failure_count)
            × (s.active_run_id ≡ current.active_run_id)
            × (write s ≡ ok tt)
            × (report.status ≡ resumed)
            × IsReportOf report s)
      × (written ≡ none
          → IsReportOf report current
            × (report.status ≡ preview_status current.automation_suspended))
      × ((report.mode ≡ owner_confirmed) ↔ (confirmed ≡ true))
unfolding resumed_state
resume_automation_state-writes confirmed current write report written e =
    elim (resume-cases confirmed current write report written e) [
      | inl (nothing, shown, idle) ↦ (
        (λ some'. absurd (some' (sym nothing)), λ (h, k). absurd (idle h k)),
        λ s w. cc,
        λ _. (IsReportOf-result confirmed _ current shown, status_of confirmed _ current shown),
        mode_iff confirmed _ current shown,
      )
      | inr (changed, wrote, h, k, shown) ↦ (
        (λ _. (h, k), λ _ n. cc),
        λ s w.
            let here : s ≡ resumed_state current = ground arith in
            rw here (
              resumed_state-IsCoherent current,
              refl,
              refl,
              refl,
              wrote,
              status_of true _ (resumed_state current) shown,
              IsReportOf-result true _ (resumed_state current) shown,
            ),
        λ n. cc,
        rw k (mode_iff true _ (resumed_state current) shown),
      )
    ]
