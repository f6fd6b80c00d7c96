-- ===== src/Automation/Published/Laws.antt =====
-- What tools/data-poc/src/automation/publishedSnapshotTimes.ts gives to the scheduler.
use crypto_edge_ai.Common.{ℕ, String, ◌≡◌, refl, Option, none, some, str_eq, Bool-cases, inl, inr}
use crypto_edge_ai.Number.{Number}
use crypto_edge_ai.Json.{Value, null, bool, num, str, arr, obj, Fields, property, as_record}
use crypto_edge_ai.Date.{DateText, parse}
use crypto_edge_ai.Automation.State.{AutomationState}
use crypto_edge_ai.Automation.Published.{
  ContextTimes, when_finite, safe_iso, find_source, items_of, fetched_at, context_times_of,
  read_context_times, generated_at_of, read_generated_at, read_published_snapshot_times,
}

-- A time that is given is a valid date.
abbrev pub IsDated : Option DateText → Type 0
IsDated none = Unit {0}
IsDated (some text) = (t : ℕ) × (parse text ≡ some t)

module _ (n : Number) (date_of : String → DateText)
    (read_file : String → String → Option (Value n)) where
  when_finite-IsDated :
      (text : DateText) (o : Option ℕ)
      → parse text ≡ o
      → IsDated (when_finite n date_of read_file text o)
  when_finite-IsDated text none e = tt
  when_finite-IsDated text (some t) e = (t, e)

  safe_iso-IsDated : (o : Option (Value n)) → IsDated (safe_iso n date_of read_file o)
  unfolding safe_iso
  safe_iso-IsDated none = tt
  safe_iso-IsDated (some null) = tt
  safe_iso-IsDated (some (bool _)) = tt
  safe_iso-IsDated (some (num _)) = tt
  safe_iso-IsDated (some (str s)) = when_finite-IsDated (date_of s) _ refl
  safe_iso-IsDated (some (arr _)) = tt
  safe_iso-IsDated (some (obj _)) = tt

  fetched_at-IsDated :
      (source_id : String) (output : Fields n)
      → IsDated (fetched_at n date_of read_file source_id output)
  unfolding fetched_at
  fetched_at-IsDated source_id output = go (
      find_source n date_of read_file source_id
        (items_of n date_of read_file (property "sources" output)))
    where
      go :
          (o : Option (Fields n))
          → IsDated (elim o [
            | none ↦ none
            | some source ↦ safe_iso n date_of read_file (property "fetched_at" source)
          ])
      go none = tt
      go (some source) = safe_iso-IsDated (property "fetched_at" source)

  -- All times are dated.
  record AreDated (c : ContextTimes) : Type 0 where
    generated : IsDated c.generated_at
    alternative : IsDated c.alternative_me_fetched_at
    defillama : IsDated c.defillama_fetched_at

  context_times_of-AreDated :
      (o : Option (Fields n)) → AreDated (context_times_of n date_of read_file o)
  unfolding context_times_of
  context_times_of-AreDated none = record { generated = tt; alternative = tt; defillama = tt }
  context_times_of-AreDated (some output) = record {
    generated = safe_iso-IsDated (property "generated_at" output);
    alternative = fetched_at-IsDated "alternative_me_fng" output;
    defillama = fetched_at-IsDated "defillama_api" output;
  }

  read_context_times-AreDated :
      (o : Option String) → AreDated (read_context_times n date_of read_file o)
  unfolding read_context_times
  read_context_times-AreDated none = record { generated = tt; alternative = tt; defillama = tt }
  read_context_times-AreDated (some run_id) = elim (Bool-cases (str_eq run_id "")) [
    | inl blank ↦ rw blank (record { generated = tt; alternative = tt; defillama = tt })
    | inr filled ↦
        rw filled
          (context_times_of-AreDated (as_record (read_file run_id "approved_sources_output.json")))
  ]

  generated_at_of-IsDated :
      (o : Option (Fields n)) → IsDated (generated_at_of n date_of read_file o)
  unfolding generated_at_of
  generated_at_of-IsDated none = tt
  generated_at_of-IsDated (some output) = go (as_record (property "provenance" output))
    where
      go :
          (o : Option (Fields n))
          → IsDated (elim o [
            | none ↦ safe_iso n date_of read_file (property "generated_at" output)
            | some provenance ↦ safe_iso n date_of read_file (property "generated_at" provenance)
          ])
      go none = safe_iso-IsDated _
      go (some provenance) = safe_iso-IsDated _

  read_generated_at-IsDated :
      (o : Option String) (file : String) → IsDated (read_generated_at n date_of read_file o file)
  unfolding read_generated_at
  read_generated_at-IsDated none file = tt
  read_generated_at-IsDated (some run_id) file = elim (Bool-cases (str_eq run_id "")) [
    | inl blank ↦ rw blank tt
    | inr filled ↦ rw filled (generated_at_of-IsDated (as_record (read_file run_id file)))
  ]

  -- Whatever the published files hold, each of the four times that the scheduler is given is absent
  -- or a valid date.
  pub read_published_snapshot_times-IsDated :
      (state : AutomationState)
      → let times = read_published_snapshot_times n date_of read_file state in
        IsDated times.scanner_published_at
        × IsDated times.context_published_at
        × IsDated times.alternative_me_published_at
        × IsDated times.defillama_published_at
  unfolding read_published_snapshot_times
  read_published_snapshot_times-IsDated state =
      let context = read_context_times-AreDated state.last_published_context_run_id in
      (
        read_generated_at-IsDated state.last_published_scanner_run_id "full_output.json",
        context.generated,
        context.alternative,
        context.defillama,
      )
