-- ===== src/Automation/Published.antt =====
-- tools/data-poc/src/automation/publishedSnapshotTimes.ts: the times of the snapshots that the state
-- names. A file that cannot be read or parsed is `none`.
pub mod Laws
mod Tests
use crypto_edge_ai.Common.{
  ℕ, String, Bool, true, false, Option, none, some, List, [], ◌∷◌, if◌then◌else◌, str_eq,
}
use crypto_edge_ai.Number.{Number}
use crypto_edge_ai.Json.{Value, str, arr, Items, nil, cons, Fields, property, as_record}
use crypto_edge_ai.Date.{DateText, parse}
use crypto_edge_ai.Automation.State.{AutomationState}
use crypto_edge_ai.Automation.Scheduler.{PublishedSnapshotTimes}

-- `readContextTimes`'s result.
pub record ContextTimes : Type 0 where
  pub generated_at : Option DateText
  pub alternative_me_fetched_at : Option DateText
  pub defillama_fetched_at : Option DateText

abbrev empty : ContextTimes
empty = record {
  generated_at = none;
  alternative_me_fetched_at = none;
  defillama_fetched_at = none;
}

-- `date_of` is how a text stands for a date, and `read_file` gives the JSON of a run's file.
module _ (n : Number) (date_of : String → DateText)
    (read_file : String → String → Option (Value n)) where
  -- The text as it is written, if `Date.parse` found a time.
  abbrev when_finite : DateText → Option ℕ → Option DateText
  when_finite text none = none
  when_finite text (some _) = some text

  safe_iso : Option (Value n) → Option DateText
  safe_iso (some (str s)) = when_finite (date_of s) (parse (date_of s))
  safe_iso _ = none

  abbrev has_id : String → Option (Value n) → Bool
  has_id source_id (some (str s)) = str_eq s source_id
  has_id source_id _ = false

  abbrev items_of : Option (Value n) → Items n
  items_of (some (arr items)) = items
  items_of _ = nil

  -- `sources.find(...)`.
  find_source : String → Items n → Option (Fields n)
  unfolding property
  find_source source_id nil = none
  find_source source_id (cons value items) =
      let later = find_source source_id items in
      elim (as_record (some value)) [
        | none ↦ later
        | some fields ↦
            if has_id source_id (property "source_id" fields) then some fields else later
      ]

  fetched_at : String → Fields n → Option DateText
  unfolding safe_iso find_source property
  fetched_at source_id output =
      elim (find_source source_id (items_of (property "sources" output))) [
        | none ↦ none
        | some source ↦ safe_iso (property "fetched_at" source)
      ]

  context_times_of : Option (Fields n) → ContextTimes
  unfolding fetched_at safe_iso property
  context_times_of none = empty
  context_times_of (some output) = record {
    generated_at = safe_iso (property "generated_at" output);
    alternative_me_fetched_at = fetched_at "alternative_me_fng" output;
    defillama_fetched_at = fetched_at "defillama_api" output;
  }

  -- `if (!runId)`: neither `null` nor empty.
  read_context_times : Option String → ContextTimes
  unfolding context_times_of
  read_context_times none = empty
  read_context_times (some run_id) =
      if str_eq run_id ""
      then empty
      else context_times_of (as_record (read_file run_id "approved_sources_output.json"))

  generated_at_of : Option (Fields n) → Option DateText
  unfolding safe_iso property
  generated_at_of none = none
  generated_at_of (some output) = elim (as_record (property "provenance" output)) [
    | none ↦ safe_iso (property "generated_at" output)
    | some provenance ↦ safe_iso (property "generated_at" provenance)
  ]

  read_generated_at : Option String → String → Option DateText
  unfolding generated_at_of
  read_generated_at none file = none
  read_generated_at (some run_id) file =
      if str_eq run_id "" then none else generated_at_of (as_record (read_file run_id file))

  pub read_published_snapshot_times : AutomationState → PublishedSnapshotTimes
  unfolding read_generated_at read_context_times
  read_published_snapshot_times state =
      let context = read_context_times state.last_published_context_run_id in
      record {
        scanner_published_at =
            read_generated_at state.last_published_scanner_run_id "full_output.json";
        context_published_at = context.generated_at;
        alternative_me_published_at = context.alternative_me_fetched_at;
        defillama_published_at = context.defillama_fetched_at;
      }
