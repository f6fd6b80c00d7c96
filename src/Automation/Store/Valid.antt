-- ===== src/Automation/Store/Valid.antt =====
-- What the state's file demands of the fields of a state
-- (tools/data-poc/src/automation/automationState.ts): a state that meets all of it can be written.
pub mod Written
pub mod Read
pub mod Known
use crypto_edge_ai.Common.{ℕ, ◌≤◌, ◌≡◌, ◌≢◌, String, true, Option, none, some, List, All}
use crypto_edge_ai.Number.{Number}
use crypto_edge_ai.Date.{DateText, parse}
use crypto_edge_ai.Automation.ErrorCode.{is_safe_text, is_id_key}
use crypto_edge_ai.Automation.State.{AutomationState}
use crypto_edge_ai.Automation.State.Coherence.{IsCoherent}
use crypto_edge_ai.Automation.Store.Values.{Format, text_of, max_safe_integer, is_safe_description}

-- A value that is there satisfies a predicate.
abbrev pub Each {ℓ κ} : {A : Type ℓ} → (A → Type κ) → Option A → Type κ
Each P none = Unit
Each P (some a) = P a

abbrev pub IsId : Option String → Type 0
IsId = Each (λ s. is_safe_text s ≡ true)

abbrev pub IsDescription : Option String → Type 0
IsDescription = Each (λ s. is_safe_description s ≡ true)

abbrev pub IsCount : ℕ → Type 0
IsCount k = k ≤ max_safe_integer

-- An entry of a record whose keys are checked.
abbrev pub HasKey {ℓ} : {A : Type ℓ} → String × A → Type 0
HasKey (key, _) = is_id_key key ≡ true

abbrev pub IsCountEntry : String × ℕ → Type 0
IsCountEntry (key, count) = (is_id_key key ≡ true) × IsCount count

-- A value may be absent only if the one that it is read from otherwise is absent too.
abbrev pub Inherits {ℓ κ} : {A : Type ℓ} {B : Type κ} → Option A → Option B → Type κ
Inherits none b = b ≡ none
Inherits (some _) b = Unit

module _ {n : Number} (f : Format n) where
  open f use {iso_text, date_of}

  -- The date is valid, and stands for itself once it is written.
  abbrev pub IsDate : DateText → Type 0
  IsDate d = (parse d ≢ none) × (date_of (text_of iso_text d) ≡ d)

  abbrev pub HasAttempt : AutomationState → Type 0
  HasAttempt s =
      Each IsDate s.last_attempt_at
      × Each IsDate s.last_success_at
      × Each IsDate s.last_failure_at
      × IsId s.last_run_id
      × IsId s.active_run_id
      × IsId s.last_error_code
      × IsId s.cycle_id
      × IsId s.failure_code
      × Inherits s.cycle_id s.last_run_id
      × Inherits s.cycle_status s.last_result
      × Inherits s.failure_code s.last_error_code

  abbrev pub HasCycle : AutomationState → Type 0
  HasCycle s =
      Each IsCount s.cycle_duration_ms
      × Each IsDate s.snapshot_generated_at
      × IsCount s.records_received
      × IsCount s.records_valid
      × IsCount s.records_rejected
      × IsCount s.new_records
      × IsCount s.follow_up_ingested
      × IsCount s.checkpoints_processed
      × All HasKey s.source_statuses
      × IsDescription s.safe_error
      × All IsCountEntry s.request_counts
      × IsId s.last_published_scanner_run_id
      × IsId s.last_published_context_run_id

  abbrev pub HasSchedule : AutomationState → Type 0
  HasSchedule s =
      Each IsDate s.last_scheduler_check_at
      × Each IsDate s.next_scanner_run_at
      × Each IsDate s.next_alternative_me_run_at
      × Each IsDate s.next_defillama_run_at
      × Each IsDate s.last_scanner_success_at
      × Each IsDate s.last_context_success_at
      × IsId s.last_scanner_run_id
      × IsId s.last_context_run_id
      × IsCount s.missed_schedule_count
      × IsCount s.consecutive_failure_count

  abbrev pub HasSuspension : AutomationState → Type 0
  HasSuspension s = Each IsDate s.suspended_at × IsId s.suspended_reason

  pub record IsStorable (s : AutomationState) : Type 0 where
    pub coherent : IsCoherent s
    pub suspension : HasSuspension s
    pub attempt : HasAttempt s
    pub cycle : HasCycle s
    pub schedule : HasSchedule s
