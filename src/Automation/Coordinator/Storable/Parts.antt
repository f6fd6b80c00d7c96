-- ===== src/Automation/Coordinator/Storable/Parts.antt =====
-- The parts of the states that a run writes (tools/data-poc/src/automation/centralAutomationCoordinator.ts).

use Prim.Native.String
use Prim.Native.String.append
use crypto_edge_ai.Common.{
  ℕ, zero, suc, ◌≤◌, ◌+◌, ◌≡◌, refl, or_else, if◌then◌else◌, String, Bool, true, false, Option,
  none, some, List, [], ◌∷◌, All, arith, ok, Result, Bool-cases, Option-cases, inl, inr,
  ok_injective, bind-eq-ok, ◌||◌,
}
use crypto_edge_ai.Number.{Number}
use crypto_edge_ai.Date.{DateText, parse, to_iso_string, to_iso_string-eq-ok, parse-le}
use crypto_edge_ai.Automation.State.{AutomationState, AutomationSourceStatus}
use crypto_edge_ai.Automation.ErrorCode.{is_safe_text, is_id_key, is_id_tail}
use crypto_edge_ai.Automation.Cadence.{next_run_at, dexscreener_ms, alternative_me_ms, defillama_ms}
use crypto_edge_ai.Automation.Cycle.{
  scanner_success_of, is_refreshed, safe_count, RunMode, RunnerResult, NextRuns, next_runs,
  safe_optional_iso, safe_optional_run_id, normalize_source_statuses, normalize_request_counts,
  safe_error_description,
}
use crypto_edge_ai.Automation.Store.Values.{
  Format, is_safe_description, utf16_length, has_line_break,
}
use crypto_edge_ai.Automation.Store.Valid.Read.{iso-IsDate}
use crypto_edge_ai.Automation.Store.Valid.{
  Each, IsId, IsDescription, IsCount, HasKey, IsCountEntry, IsDate,
}

utf16_length-append :
    (s t : String) → utf16_length (String.◌++◌ s t) ≡ utf16_length s + utf16_length t
unfolding utf16_length
utf16_length-append String.[] t = rw (append.nil t) (omega arith)
utf16_length-append (String.◌∷◌ c s) t =
    rw (append.cons c s t) (omega (arith, utf16_length-append s t))

has_line_break-append :
    (s t : String) → has_line_break (String.◌++◌ s t) ≡ (has_line_break s || has_line_break t)
unfolding has_line_break
has_line_break-append String.[] t = rw (append.nil t)
has_line_break-append (String.◌∷◌ c s) t =
    rw (append.cons c s t) (ground (arith, has_line_break-append s t))

-- The ids' characters are single UTF-16 units and no line breaks.
id_tail_plain :
    (room : ℕ) (s : String)
    → is_id_tail room s ≡ true
    → (utf16_length s ≤ room) × (has_line_break s ≡ false)
unfolding is_id_tail utf16_length has_line_break
id_tail_plain room String.[] h = (omega arith, refl)
id_tail_plain zero (String.◌∷◌ c s) h = cc
id_tail_plain (suc room) (String.◌∷◌ c s) h =
    (ground (arith, id_tail_plain room s), ground (arith, id_tail_plain room s))

safe_text_plain :
    (s : String) → is_safe_text s ≡ true → (utf16_length s ≤ 128) × (has_line_break s ≡ false)
unfolding is_safe_text utf16_length has_line_break
safe_text_plain String.[] h = cc
safe_text_plain (String.◌∷◌ c s) h =
    (ground (arith, id_tail_plain 127 s), ground (arith, id_tail_plain 127 s))

pub safe_error_description-IsDescription :
    (s : String) → is_safe_text s ≡ true → IsDescription (some (safe_error_description s))
unfolding safe_error_description is_safe_description
safe_error_description-IsDescription s h =
    let (short, plain) = safe_text_plain s h in
    rw
      (
        utf16_length-append "Central data cycle failed (" (String.◌++◌ s ")."),
        utf16_length-append s ").",
        has_line_break-append "Central data cycle failed (" (String.◌++◌ s ")."),
        has_line_break-append s ").",
      )
      (ground arith)

-- What a runner says counts by numbers that are safe integers.
abbrev pub HasSafeCounts : RunnerResult → Type 0
HasSafeCounts r =
    Each IsCount r.records_received
    × Each IsCount r.records_valid
    × Each IsCount r.records_rejected
    × Each IsCount r.new_records
    × Each IsCount r.follow_up_ingested
    × Each IsCount r.checkpoints_processed
    × All (λ entry. Each IsCount entry.1) r.request_counts

pub statuses-HasKey :
    (xs : List (String × Option AutomationSourceStatus)) → All HasKey (normalize_source_statuses xs)
unfolding normalize_source_statuses
statuses-HasKey [] = tt
statuses-HasKey ((key, none) ∷ xs) = statuses-HasKey xs
statuses-HasKey ((key, some status) ∷ xs) = elim (Bool-cases (is_id_key key)) [
  | inl safe ↦ rw safe (safe, statuses-HasKey xs)
  | inr bad ↦ rw bad (statuses-HasKey xs)
]

pub counts-IsCountEntry :
    (xs : List (String × Option ℕ))
    → All (λ entry. Each IsCount entry.1) xs
    → All IsCountEntry (normalize_request_counts xs)
unfolding normalize_request_counts
counts-IsCountEntry [] h = tt
counts-IsCountEntry ((key, none) ∷ xs) (_, h) = counts-IsCountEntry xs h
counts-IsCountEntry ((key, some count) ∷ xs) (small, h) = elim (Bool-cases (is_id_key key)) [
  | inl safe ↦ rw safe ((safe, small), counts-IsCountEntry xs h)
  | inr bad ↦ rw bad (counts-IsCountEntry xs h)
]

pub safe_count-IsCount : (k : Option ℕ) → Each IsCount k → IsCount (safe_count k)
safe_count-IsCount none h = omega arith
safe_count-IsCount (some k) h = h

pub or_else-Each {ℓ κ} :
    {A : Type ℓ} (P : A → Type κ) (a b : Option A) → Each P a → Each P b → Each P (or_else a b)
or_else-Each P none b h k = k
or_else-Each P (some a) b h k = h

-- Of two results, one of which is taken.
pub if-Each {ℓ κ} :
    {A : Type ℓ} (P : A → Type κ) (b : Bool) (x y : Result (Option A)) {r : Option A}
    → ((r : Option A) → x ≡ ok r → Each P r)
    → ((r : Option A) → y ≡ ok r → Each P r)
    → (if b then x else y) ≡ ok r
    → Each P r
if-Each P true x y h k e = h _ e
if-Each P false x y h k e = k _ e

pub safe_optional_run_id-IsId : (id : Option String) → IsId (safe_optional_run_id id)
safe_optional_run_id-IsId none = tt
safe_optional_run_id-IsId (some id) = elim (Bool-cases (is_safe_text id)) [
  | inl safe ↦ rw safe safe
  | inr bad ↦ rw bad tt
]

module _ {n : Number} (f : Format n) where
  pub to_iso_string-IsDate : (t : ℕ) {d : DateText} → to_iso_string t ≡ ok d → IsDate f d
  to_iso_string-IsDate t e =
      let (small, same) = to_iso_string-eq-ok t e in rw same (iso-IsDate f t small)

  pub safe_optional_iso-IsDate : (d : Option DateText) → Each (IsDate f) (safe_optional_iso d)
  safe_optional_iso-IsDate none = tt
  safe_optional_iso-IsDate (some d) = elim (Option-cases (parse d)) [
    | inl bad ↦ rw (bad, Each) tt
    | inr (t, good) ↦ rw (good, Each) (iso-IsDate f t (parse-le d good))
  ]

  next_run_at-IsDate :
      (last : Option DateText) (interval : ℕ) {next : Option DateText}
      → next_run_at last interval ≡ ok next
      → Each (IsDate f) next
  unfolding next_run_at
  next_run_at-IsDate none interval e = let here = ok_injective e in rw (← here) tt
  next_run_at-IsDate (some last) interval e = elim (Option-cases (parse last)) [
    | inl bad ↦ let wrong = rw (bad, next_run_at) at e in cc
    | inr (t, good) ↦
        let e' = rw (good, next_run_at) at e in
        let (d, made, rest) =
          bind-eq-ok (to_iso_string (t + interval)) (λ next. ok (some next)) e' in
        let here = ok_injective rest in rw (← here) (to_iso_string-IsDate (t + interval) made)
  ]

  pub next_runs-IsDate :
      (p : AutomationState) (mode : RunMode) (refreshed : Option (List String)) (at : DateText)
      {next : NextRuns}
      → Each (IsDate f) p.next_alternative_me_run_at
      → Each (IsDate f) p.next_defillama_run_at
      → next_runs p mode refreshed at ≡ ok next
      → Each (IsDate f) next.scanner
        × Each (IsDate f) next.alternative_me
        × Each (IsDate f) next.defillama
  unfolding next_runs
  next_runs-IsDate p mode refreshed at h k e =
      let (scanner, e0, rest) =
        bind-eq-ok (next_run_at (scanner_success_of p mode at) dexscreener_ms) _ e in
      let (alternative, e1, rest') =
        bind-eq-ok
          (if is_refreshed refreshed "alternative_me_fng"
            then next_run_at (some at) alternative_me_ms
            else ok p.next_alternative_me_run_at)
          _ rest in
      let (defillama, e2, rest'') =
        bind-eq-ok
          (if is_refreshed refreshed "defillama_api"
            then next_run_at (some at) defillama_ms
            else ok p.next_defillama_run_at)
          _ rest' in
      let here = ok_injective rest'' in
      rw (← here) (
        next_run_at-IsDate (scanner_success_of p mode at) dexscreener_ms e0,
        if-Each (IsDate f) (is_refreshed refreshed "alternative_me_fng")
            (next_run_at (some at) alternative_me_ms) (ok p.next_alternative_me_run_at)
            (λ r. next_run_at-IsDate (some at) alternative_me_ms)
            (λ r o. let same = ok_injective o in rw (← same) h) e1,
        if-Each (IsDate f) (is_refreshed refreshed "defillama_api")
            (next_run_at (some at) defillama_ms) (ok p.next_defillama_run_at)
            (λ r. next_run_at-IsDate (some at) defillama_ms)
            (λ r o. let same = ok_injective o in rw (← same) k) e2,
      )
