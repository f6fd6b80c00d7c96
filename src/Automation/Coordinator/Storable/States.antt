-- ===== src/Automation/Coordinator/Storable/States.antt =====
-- The states that a run of tools/data-poc/src/automation/centralAutomationCoordinator.ts writes may
-- stand in the state's file.
use crypto_edge_ai.Common.{
  ℕ, ◌<◌, ◌≡◌, refl, String, Bool, true, false, Option, none, some, arith, ok, or_else,
  if◌then◌else◌,
}
use crypto_edge_ai.Number.{Number}
use crypto_edge_ai.Date.{DateText}
use crypto_edge_ai.Automation.State.{AutomationState}
use crypto_edge_ai.Automation.ErrorCode.{is_safe_text}
use crypto_edge_ai.Automation.Cycle.{
  is_scanner_mode, scanner_and_context, context_only, RunMode, RunnerResult, NextRuns,
  started_state, failed_state, completed_state, should_suspend, next_runs, is_partial,
  scanner_success_of, safe_optional_iso, safe_optional_run_id,
}
use crypto_edge_ai.Automation.Store.Values.{Format, max_safe_integer}
use crypto_edge_ai.Automation.Store.Valid.{IsStorable, Each, IsId, IsCount, IsDate}
use crypto_edge_ai.Automation.Coordinator.Laws.{
  started-IsCoherent, failed-IsCoherent, completed-IsCoherent,
}
use crypto_edge_ai.Automation.Coordinator.Storable.Parts.{
  HasSafeCounts, safe_error_description-IsDescription, statuses-HasKey, counts-IsCountEntry,
  safe_count-IsCount, or_else-Each, safe_optional_run_id-IsId, safe_optional_iso-IsDate,
  next_runs-IsDate,
}

when-Each {ℓ κ} :
    {A : Type ℓ} (P : A → Type κ) (b : Bool) (a : A) → P a → Each P (if b then some a else none)
when-Each P true a h = h
when-Each P false a h = tt

either-Each {ℓ κ} :
    {A : Type ℓ} (P : A → Type κ) (b : Bool) (x y : Option A)
    → Each P x
    → Each P y
    → Each P (if b then x else y)
either-Each P true x y h k = h
either-Each P false x y h k = k

published :
    (id : Option String) (before : Option String)
    → IsId before
    → IsId (or_else (safe_optional_run_id id) before)
published id before h =
    or_else-Each (λ s. is_safe_text s ≡ true) (safe_optional_run_id id) before
      (safe_optional_run_id-IsId id) h

module _ {n : Number} (f : Format n) where
  pub started-IsStorable :
      (p : AutomationState) (id : String) (at : DateText)
      → IsStorable f p
      → is_safe_text id ≡ true
      → IsDate f at
      → IsStorable f (started_state p id at)
  unfolding started_state
  started-IsStorable p id at h safe dated =
      let (a, success, failure, last, active, code, cycle, failed, i, j, k) = h.attempt in
      let (
        duration, generated, received, valid, rejected, new, followed, checked, statuses, error,
        counts, scanner, context,
      ) =
        h.cycle in
      record {
        coherent = started-IsCoherent p id at h.coherent;
        suspension = h.suspension;
        attempt = (dated, success, failure, safe, safe, tt, safe, tt, tt, tt, refl);
        cycle = (
          tt, generated, received, valid, rejected, new, followed, checked, statuses, tt, counts,
          scanner, context,
        );
        schedule = h.schedule;
      }

  pub failed-IsStorable :
      (p : AutomationState) (id : String) (at : DateText) (code : String) (failed_at : DateText)
      (d : ℕ)
      → IsStorable f p
      → is_safe_text id ≡ true
      → is_safe_text code ≡ true
      → IsDate f at
      → IsDate f failed_at
      → IsCount d
      → p.consecutive_failure_count < max_safe_integer
      → IsStorable f (failed_state p id at code failed_at d)
  unfolding failed_state
  failed-IsStorable p id at code failed_at d h safe safe' dated dated' short few =
      let (a, success, failure, last, active, _, cycle, failed, i, j, k) = h.attempt in
      let (
        duration, generated, received, valid, rejected, new, followed, checked, statuses, error,
        counts, scanner, context,
      ) =
        h.cycle in
      let (at', s', a', d', ss, cs, sid, cid, missed, failures) = h.schedule in
      record {
        coherent = failed-IsCoherent p id at code failed_at d;
        suspension = (
          when-Each (IsDate f) (should_suspend p code) failed_at dated',
          when-Each (λ s. is_safe_text s ≡ true) (should_suspend p code) code safe',
        );
        attempt = (dated, success, dated', safe, tt, safe', safe, safe', tt, tt, tt);
        cycle = (
          short,
          generated,
          omega arith,
          omega arith,
          omega arith,
          omega arith,
          omega arith,
          omega arith,
          tt,
          safe_error_description-IsDescription code safe',
          counts,
          scanner,
          context,
        );
        schedule = (at', s', a', d', ss, cs, sid, cid, missed, omega arith);
      }

  scanner_success-IsDate :
      (p : AutomationState) (mode : RunMode) (at : DateText)
      → Each (IsDate f) p.last_scanner_success_at
      → IsDate f at
      → Each (IsDate f) (scanner_success_of p mode at)
  unfolding scanner_success_of
  scanner_success-IsDate p scanner_and_context at h dated = dated
  scanner_success-IsDate p context_only at h dated = h

  pub completed-IsStorable :
      (p : AutomationState) (id : String) (at success_at : DateText) (d : ℕ) (r : RunnerResult)
      (mode : RunMode) (next : NextRuns)
      → IsStorable f p
      → is_safe_text id ≡ true
      → IsDate f at
      → IsDate f success_at
      → IsCount d
      → HasSafeCounts r
      → next_runs p mode r.context_sources_refreshed success_at ≡ ok next
      → IsStorable f (completed_state p id at success_at d r mode next)
  unfolding completed_state
  completed-IsStorable p id at success_at d r mode next h safe dated dated' short small planned =
      let (a, success, failure, last, active, code, cycle, failed, i, j, k) = h.attempt in
      let (
        duration, generated, received, valid, rejected, new, followed, checked, statuses, error,
        counts, scanner, context,
      ) =
        h.cycle in
      let (at', s', a', d', ss, cs, sid, cid, missed, failures) = h.schedule in
      let (sr, sv, sj, sn, sf, sc, sq) = small in
      let (n0, n1, n2) =
        next_runs-IsDate f p mode r.context_sources_refreshed success_at a' d' planned in
      record {
        coherent = completed-IsCoherent p id at success_at d r mode next h.coherent;
        suspension = h.suspension;
        attempt = (
          dated,
          either-Each (IsDate f) (is_partial r) p.last_success_at (some success_at) success dated',
          failure,
          safe,
          tt,
          tt,
          safe,
          tt,
          tt,
          tt,
          refl,
        );
        cycle = (
          short,
          or_else-Each (IsDate f) (safe_optional_iso r.snapshot_generated_at)
              p.snapshot_generated_at (safe_optional_iso-IsDate f r.snapshot_generated_at)
              generated,
          safe_count-IsCount r.records_received sr,
          safe_count-IsCount r.records_valid sv,
          safe_count-IsCount r.records_rejected sj,
          safe_count-IsCount r.new_records sn,
          safe_count-IsCount r.follow_up_ingested sf,
          safe_count-IsCount r.checkpoints_processed sc,
          statuses-HasKey r.source_statuses,
          tt,
          counts-IsCountEntry r.request_counts sq,
          published r.scanner_run_id p.last_published_scanner_run_id scanner,
          published r.context_run_id p.last_published_context_run_id context,
        );
        schedule = (
          at',
          n0,
          n1,
          n2,
          scanner_success-IsDate p mode success_at ss dated',
          dated',
          either-Each (λ s. is_safe_text s ≡ true) (is_scanner_mode mode)
              (or_else (safe_optional_run_id r.scanner_run_id) p.last_scanner_run_id)
              p.last_scanner_run_id (published r.scanner_run_id p.last_scanner_run_id sid) sid,
          published r.context_run_id p.last_context_run_id cid,
          missed,
          omega arith,
        );
      }
