-- ===== src/Automation/Store/Accepted/Attempt.antt =====
-- The fields of the last attempt that tools/data-poc/src/automation/automationState.ts accepts.
use crypto_edge_ai.Common.{◌≡◌, sym, Option, none, some, ok, String, ok_injective, bind-eq-ok}
use crypto_edge_ai.Number.{Number}
use crypto_edge_ai.Json.{property, coalesce, Fields, Value, null, str}
use crypto_edge_ai.Automation.ErrorCode.{is_safe_text}
use crypto_edge_ai.Automation.ErrorCode.{is_safe_text}
use crypto_edge_ai.Automation.ErrorCode.{is_safe_text}
use crypto_edge_ai.Automation.ErrorCode.{is_safe_text}
use crypto_edge_ai.Automation.ErrorCode.{is_safe_text}
use crypto_edge_ai.Automation.State.{CycleStatus, RunResult, AutomationState}
use crypto_edge_ai.Automation.Store.Words.{result_word, cycle_word}
use crypto_edge_ai.Automation.Store.Values.{
  Format, exact, printed, when_word, then_word, when_word, then_word, when_word, then_word,
  when_word, then_word, when_word, then_word, nullable_word, optional_word, nullable_safe_text,
  optional_nullable_safe_text, nullable_iso,
}
use crypto_edge_ai.Automation.Store.Normalize.{read_attempt}
use crypto_edge_ai.Automation.Store.Valid.{HasAttempt, Inherits}
use crypto_edge_ai.Automation.Store.Valid.Read.{
  when_valid-eq-ok, nullable_safe_text-IsId, optional_nullable_safe_text-IsId, nullable_iso-IsDate,
}
use crypto_edge_ai.Automation.Store.Accepted.Suspension.{Passed}

module _ {n : Number} (f : Format n) where
  when_word-Inherits :
      (o : Option CycleStatus) {a : Option CycleStatus} (b : Option RunResult)
      → when_word o ≡ ok a
      → Inherits a b
  when_word-Inherits none b e = cc
  when_word-Inherits (some c) b e = let here = ok_injective e in rw (← here) tt

  -- Where the field itself and the one that it is read from otherwise have been read.
  inherited_status :
      (v w : Option (Value n)) {a : Option CycleStatus} (b : Option RunResult)
      → nullable_word exact result_word w ≡ ok b
      → optional_word printed cycle_word (coalesce v w) ≡ ok a
      → Inherits a b
  unfolding optional_word nullable_word
  inherited_status none none b e e' = cc
  inherited_status none (some null) b e e' =
      let here = ok_injective e' in let there = ok_injective e in rw (← here) (sym there)
  inherited_status none (some x) b e e' = when_word-Inherits (then_word (printed x) cycle_word) b e'
  inherited_status (some null) none b e e' = cc
  inherited_status (some null) (some null) b e e' =
      let here = ok_injective e' in let there = ok_injective e in rw (← here) (sym there)
  inherited_status (some null) (some x) b e e' =
      when_word-Inherits (then_word (printed x) cycle_word) b e'
  inherited_status (some x) w b e e' = when_word-Inherits (then_word (printed x) cycle_word) b e'

  inherited_text :
      (v w : Option (Value n)) {a : Option String} (b : Option String)
      → nullable_safe_text w ≡ ok b
      → optional_nullable_safe_text (coalesce v w) ≡ ok a
      → Inherits a b
  unfolding optional_nullable_safe_text nullable_safe_text
  inherited_text none none b e e' = cc
  inherited_text none (some null) b e e' =
      let here = ok_injective e' in let there = ok_injective e in rw (← here) (sym there)
  inherited_text none (some (str t)) b e e' =
      let (_, here) = when_valid-eq-ok (is_safe_text t) t e' in rw (← here) tt
  inherited_text none (some _) b e e' = cc
  inherited_text (some null) none b e e' = cc
  inherited_text (some null) (some null) b e e' =
      let here = ok_injective e' in let there = ok_injective e in rw (← here) (sym there)
  inherited_text (some null) (some (str t)) b e e' =
      let (_, here) = when_valid-eq-ok (is_safe_text t) t e' in rw (← here) tt
  inherited_text (some null) (some _) b e e' = cc
  inherited_text (some (str t)) w b e e' =
      let (_, here) = when_valid-eq-ok (is_safe_text t) t e' in rw (← here) tt
  inherited_text (some _) w b e e' = cc

  pub read_attempt-HasAttempt :
      (fields : Fields n) (s : AutomationState) {s' : AutomationState}
      → Passed f s
      → read_attempt f fields s ≡ ok s'
      → Passed f s' × HasAttempt f s'
  unfolding read_attempt
  read_attempt-HasAttempt fields s h e =
      let (v0, e0, rest0) = bind-eq-ok (nullable_iso f (property "last_attempt_at" fields)) _ e in
      let (v1, e1, rest1) =
        bind-eq-ok (nullable_iso f (property "last_success_at" fields)) _ rest0 in
      let (v2, e2, rest2) =
        bind-eq-ok (nullable_iso f (property "last_failure_at" fields)) _ rest1 in
      let (v3, e3, rest3) =
        bind-eq-ok (nullable_safe_text (property "last_run_id" fields)) _ rest2 in
      let (v4, e4, rest4) =
        bind-eq-ok (nullable_safe_text (property "active_run_id" fields)) _ rest3 in
      let (v5, e5, rest5) =
        bind-eq-ok (nullable_word exact result_word (property "last_result" fields)) _ rest4 in
      let (v6, e6, rest6) =
        bind-eq-ok (nullable_safe_text (property "last_error_code" fields)) _ rest5 in
      let (v7, e7, rest7) =
        bind-eq-ok
          (optional_nullable_safe_text
            (coalesce (property "cycle_id" fields) (property "last_run_id" fields)))
          _ rest6 in
      let (v8, e8, rest8) =
        bind-eq-ok
          (optional_word printed cycle_word
            (coalesce (property "cycle_status" fields) (property "last_result" fields)))
          _ rest7 in
      let (v9, e9, rest9) =
        bind-eq-ok
          (optional_nullable_safe_text
            (coalesce (property "failure_code" fields) (property "last_error_code" fields)))
          _ rest8 in
      let here = ok_injective rest9 in
      rw (← here) (
        h,
        (
          nullable_iso-IsDate f (property "last_attempt_at" fields) e0,
          nullable_iso-IsDate f (property "last_success_at" fields) e1,
          nullable_iso-IsDate f (property "last_failure_at" fields) e2,
          nullable_safe_text-IsId (property "last_run_id" fields) e3,
          nullable_safe_text-IsId (property "active_run_id" fields) e4,
          nullable_safe_text-IsId (property "last_error_code" fields) e6,
          optional_nullable_safe_text-IsId
              (coalesce (property "cycle_id" fields) (property "last_run_id" fields)) e7,
          optional_nullable_safe_text-IsId
              (coalesce (property "failure_code" fields) (property "last_error_code" fields)) e9,
          inherited_text (property "cycle_id" fields) (property "last_run_id" fields) v3 e3 e7,
          inherited_status (property "cycle_status" fields) (property "last_result" fields) v5 e5
              e8,
          inherited_text (property "failure_code" fields) (property "last_error_code" fields) v6 e6
              e9,
        ),
      )
