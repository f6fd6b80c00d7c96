-- ===== src/Automation/Store/Valid/Written.antt =====
-- The readers of single values in tools/data-poc/src/automation/automationState.ts give back what
-- was written.
use crypto_edge_ai.Common.{
  ℕ, ◌≡◌, refl, String, Option, none, some, List, [], ◌∷◌, All, ok, Option-cases, inl, inr,
}
use crypto_edge_ai.Number.{Number}
use crypto_edge_ai.Date.{DateText, parse}
use crypto_edge_ai.Json.{num, obj}
use crypto_edge_ai.Automation.State.{AutomationSourceStatus}
use crypto_edge_ai.Automation.Store.Words.{source_word, source_text}
use crypto_edge_ai.Automation.Store.Values.{
  Format, nullable_word, optional_word, nullable_safe_text, optional_nullable_safe_description,
  normalize_source_statuses, source_entries, nullable_iso, optional_nullable_iso,
  optional_non_negative_integer, optional_nullable_non_negative_integer, count_entries, count_entry,
  normalize_request_counts, exact, printed,
}
use crypto_edge_ai.Automation.Store.File.{
  nullable, nullable_of, date_value, count_value, status_fields, count_fields,
}
use crypto_edge_ai.Automation.Store.Valid.{
  Each, IsId, IsDescription, IsCount, HasKey, IsCountEntry, IsDate,
}

source_word_of : (status : AutomationSourceStatus) → source_word (source_text status) ≡ some status
source_word_of AutomationSourceStatus.ready = refl
source_word_of AutomationSourceStatus.degraded = refl
source_word_of AutomationSourceStatus.unavailable = refl
source_word_of AutomationSourceStatus.not_invoked = refl

module _ (n : Number) where
  pub nullable_safe_text_written :
      (s : Option String) → IsId s → nullable_safe_text (some (nullable {n = n} s)) ≡ ok s
  unfolding nullable_safe_text
  nullable_safe_text_written none h = refl
  nullable_safe_text_written (some s) h = rw h

  pub safe_description_written :
      (s : Option String)
      → IsDescription s
      → optional_nullable_safe_description (some (nullable {n = n} s)) ≡ ok s
  unfolding optional_nullable_safe_description
  safe_description_written none h = refl
  safe_description_written (some s) h = rw h

  -- A word is read back, by either way of reading a text.
  module _ {A : Type 0} (word : String → Option A) (text : A → String)
      (known : (a : A) → word (text a) ≡ some a) where
    pub nullable_word_written :
        (a : Option A) → nullable_word exact word (some (nullable_of {n = n} text a)) ≡ ok a
    unfolding nullable_word
    nullable_word_written none = refl
    nullable_word_written (some a) = rw (known a)

    pub optional_word_written :
        (a : Option A) → optional_word exact word (some (nullable_of {n = n} text a)) ≡ ok a
    unfolding optional_word
    optional_word_written a = nullable_word_written a

    pub optional_word_written_loosely :
        (a : Option A) → optional_word printed word (some (nullable_of {n = n} text a)) ≡ ok a
    unfolding optional_word printed
    optional_word_written_loosely none = refl
    optional_word_written_loosely (some a) = rw (known a)

  source_entries_written :
      (xs : List (String × AutomationSourceStatus))
      → All HasKey xs
      → source_entries (status_fields {n = n} xs) ≡ ok xs
  unfolding source_entries status_fields
  source_entries_written [] h = refl
  source_entries_written ((key, status) ∷ xs) (safe, h) =
      rw (source_word_of status, safe, source_entries_written xs h)

  pub source_statuses_written :
      (xs : List (String × AutomationSourceStatus))
      → All HasKey xs
      → normalize_source_statuses (some (obj (status_fields {n = n} xs))) ≡ ok xs
  unfolding normalize_source_statuses
  source_statuses_written xs h = source_entries_written xs h

  module _ (f : Format n) where
    pub nullable_iso_written :
        (d : Option DateText) → Each (IsDate f) d → nullable_iso f (some (date_value f d)) ≡ ok d
    unfolding nullable_iso
    nullable_iso_written none h = refl
    nullable_iso_written (some d) (dated, same) = elim (Option-cases (parse d)) [
      | inl bad ↦ absurd (dated bad)
      | inr (t, good) ↦ rw (same, good)
    ]

    pub optional_nullable_iso_written :
        (d : Option DateText)
        → Each (IsDate f) d
        → optional_nullable_iso f (some (date_value f d)) ≡ ok d
    unfolding optional_nullable_iso
    optional_nullable_iso_written d h = nullable_iso_written d h

    pub count_written :
        (k : ℕ) → IsCount k → optional_non_negative_integer f (some (num (f.number k))) ≡ ok k
    unfolding optional_non_negative_integer
    count_written k h = rw (f.natural-number k h)

    pub nullable_count_written :
        (k : Option ℕ)
        → Each IsCount k
        → optional_nullable_non_negative_integer f (some (count_value f k)) ≡ ok k
    unfolding optional_nullable_non_negative_integer
    nullable_count_written none h = refl
    nullable_count_written (some k) h = rw (f.natural-number k h)

    count_entries_written :
        (xs : List (String × ℕ)) → All IsCountEntry xs → count_entries f (count_fields f xs) ≡ ok xs
    unfolding count_entries count_fields count_entry
    count_entries_written [] h = refl
    count_entries_written ((key, count) ∷ xs) ((safe, small), h) =
        rw (f.natural-number count small, safe, count_entries_written xs h)

    pub request_counts_written :
        (xs : List (String × ℕ))
        → All IsCountEntry xs
        → normalize_request_counts f (some (obj (count_fields f xs))) ≡ ok xs
    unfolding normalize_request_counts
    request_counts_written xs h = count_entries_written xs h
