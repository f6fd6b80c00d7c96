-- ===== src/Automation/Cadence.antt =====
-- tools/data-poc/src/automation/sourceCadence.ts: which sources are due.
pub mod Laws
mod Tests
use crypto_edge_ai.Common.{
  ℕ, ◌+◌, ◌-◌, ◌*◌, String, Bool, true, false, not, ◌&&◌, ◌||◌, Option, none, some, List, [], ◌∷◌,
  map, leb, if◌then◌else◌, select, Result, ok, err, ◌>>=◌, ◌>>◌,
}
use crypto_edge_ai.Date.{DateText, parse, to_iso_string}

pub data CadenceSourceId : Type 0 where
  dexscreener goplus_security alternative_me_fng defillama_api honeypot_is : CadenceSourceId

-- `SOURCE_CADENCE_MS`.
abbrev pub dexscreener_ms : ℕ
dexscreener_ms = 15 * 60 * 1000

abbrev pub alternative_me_ms : ℕ
alternative_me_ms = 6 * 60 * 60 * 1000

abbrev pub defillama_ms : ℕ
defillama_ms = 2 * 60 * 60 * 1000

pub data CadenceReason : Type 0 where
  never_succeeded interval_elapsed interval_not_elapsed candidate_scoped_with_scanner
        manual_link_only :
      CadenceReason

pub record SourceCadenceStatus : Type 0 where
  pub source_id : CadenceSourceId
  pub due : Bool
  pub reason : CadenceReason
  pub last_success_at : Option DateText
  pub next_run_at : Option DateText
  pub delay_ms : ℕ

pub record SourceCadencePlan : Type 0 where
  pub checked_at : DateText
  pub dexscreener : SourceCadenceStatus
  pub goplus_security : SourceCadenceStatus
  pub alternative_me_fng : SourceCadenceStatus
  pub defillama_api : SourceCadenceStatus
  pub honeypot_is : SourceCadenceStatus
  pub due_sources : List CadenceSourceId
  pub not_due_sources : List CadenceSourceId
  pub requires_scanner_and_context : Bool
  pub requires_context_only : Bool

-- `last_success_at` of the input; an absent field is `null` there.
pub record LastSuccess : Type 0 where
  pub dexscreener : Option DateText
  pub alternative_me_fng : Option DateText
  pub defillama_api : Option DateText

unfoldable pub next_run_at : Option DateText → ℕ → Result (Option DateText)
unfolding to_iso_string
next_run_at none interval = ok none
next_run_at (some last) interval = elim (parse last) [
  | none ↦ err "SOURCE_CADENCE_TIMESTAMP_INVALID"
  | some parsed ↦ do next ← to_iso_string (parsed + interval); ok (some next)
]

-- The status for the next run, whose text has been parsed again.
abbrev timed_status :
    CadenceSourceId → Option DateText → DateText → Option ℕ → ℕ → SourceCadenceStatus
timed_status id last next none now = record {
  source_id = id;
  due = false;
  reason = interval_not_elapsed;
  last_success_at = last;
  next_run_at = some next;
  delay_ms = 0;
}
timed_status id last next (some next_ms) now = record {
  source_id = id;
  due = leb next_ms now;
  reason = if leb next_ms now then interval_elapsed else interval_not_elapsed;
  last_success_at = last;
  next_run_at = some next;
  delay_ms = if leb next_ms now then now - next_ms else 0;
}

abbrev status_for_next :
    CadenceSourceId → Option DateText → Option DateText → ℕ → SourceCadenceStatus
status_for_next id last none now = record {
  source_id = id;
  due = true;
  reason = never_succeeded;
  last_success_at = none;
  next_run_at = none;
  delay_ms = 0;
}
status_for_next id last (some next) now = timed_status id last next (parse next) now

unfoldable pub scheduled_status :
    CadenceSourceId → ℕ → Option DateText → ℕ → Result SourceCadenceStatus
unfolding next_run_at
scheduled_status id interval last now = do
  next ← next_run_at last interval
  ok (status_for_next id last next now)

abbrev never_due : CadenceSourceId → CadenceReason → SourceCadenceStatus
never_due id reason = record {
  source_id = id;
  due = false;
  reason = reason;
  last_success_at = none;
  next_run_at = none;
  delay_ms = 0;
}

abbrev pub plan_of :
    DateText → SourceCadenceStatus → SourceCadenceStatus → SourceCadenceStatus → SourceCadencePlan
plan_of checked_at dex alternative defillama =
    let goplus = never_due goplus_security candidate_scoped_with_scanner in
    let honeypot = never_due honeypot_is manual_link_only in
    let all_sources = dex ∷ goplus ∷ alternative ∷ defillama ∷ honeypot ∷ [] in
    let context_due = alternative.due || defillama.due in
    record {
      checked_at = checked_at;
      dexscreener = dex;
      goplus_security = goplus;
      alternative_me_fng = alternative;
      defillama_api = defillama;
      honeypot_is = honeypot;
      due_sources = map (λ s. s.source_id) (select (λ s. s.due) all_sources);
      not_due_sources = map (λ s. s.source_id) (select (λ s. not s.due) all_sources);
      requires_scanner_and_context = dex.due;
      requires_context_only = not dex.due && context_due;
    }

-- `now` is the time value of the input's date: `none` if that is invalid.
unfoldable pub plan_source_cadence : Option ℕ → LastSuccess → Result SourceCadencePlan
unfolding scheduled_status to_iso_string
plan_source_cadence none last = err "SOURCE_CADENCE_NOW_INVALID"
plan_source_cadence (some now) last = do
  dex ← scheduled_status dexscreener dexscreener_ms last.dexscreener now
  alternative ← scheduled_status alternative_me_fng alternative_me_ms last.alternative_me_fng now
  defillama ← scheduled_status defillama_api defillama_ms last.defillama_api now
  checked_at ← to_iso_string now
  ok (plan_of checked_at dex alternative defillama)
