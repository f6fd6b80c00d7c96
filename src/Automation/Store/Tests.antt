-- ===== src/Automation/Store/Tests.antt =====
-- Writes and readings of the state's file by tools/data-poc/src/automation/automationState.ts.
use crypto_edge_ai.Common.{◌≡◌, refl, true, false, some, ok, arith}
use crypto_edge_ai.Json.{Value, obj, str, arr, cons, nil}
use crypto_edge_ai.Scanner.Fixtures.{ten_thousandths}
use crypto_edge_ai.Automation.State.{create_initial_automation_state, CycleStatus, RunResult}
use crypto_edge_ai.Automation.Fixtures.{suspended_state}
use crypto_edge_ai.Automation.Store.Values.{optional_word, printed}
use crypto_edge_ai.Automation.Store.Words.{cycle_word}
use crypto_edge_ai.Automation.Store.File.{
  StoredFile, malformed, holds, WriteSteps, fields_of, read_automation_state,
  write_automation_state_atomic,
}
use crypto_edge_ai.Automation.Store.Valid.{IsStorable}
use crypto_edge_ai.Automation.Store.Valid.Read.{iso-IsDate}
use crypto_edge_ai.Automation.Store.Laws.{
  is_done, IsAtomic, read-write, read-IsStorable, write-IsAtomic,
}
use crypto_edge_ai.Automation.Store.Roundtrip.{normalize_written}
use crypto_edge_ai.Automation.ErrorCode.{is_safe_text}
use crypto_edge_ai.Automation.Store.Fixtures.{tallies}

abbrev kept : StoredFile ten_thousandths
kept = holds (obj (fields_of tallies suspended_state))

abbrev steps : WriteSteps
steps = record { made = true; written = true; renamed = true }

abbrev cut : WriteSteps
cut = record { made = true; written = true; renamed = false }

suspended-IsStorable : IsStorable tallies suspended_state
unfolding is_safe_text create_initial_automation_state
suspended-IsStorable = record {
  coherent = record {
    resume = refl;
    dated = λ _ e. cc;
    explained = λ _ e. cc;
    undated = λ e. cc;
    unexplained = λ e. cc;
  };
  suspension = (iso-IsDate tallies 5 (omega arith), refl);
  attempt = (tt, tt, tt, tt, tt, tt, tt, tt, refl, refl, refl);
  cycle = ground arith;
  schedule = ground arith;
}

abbrev failed_array : Value ten_thousandths
failed_array = arr (cons (str "FAILED") nil)

-- An array that holds nothing but a word passes for the word.
array_status :
    optional_word printed cycle_word (some failed_array)
    ≡ ok (some (CycleStatus.ended RunResult.failed))
unfolding optional_word printed
array_status = refl

read-write_example :
    let (result, after) = write_automation_state_atomic tallies steps suspended_state malformed in
    (result ≡ ok tt) × (read_automation_state tallies after ≡ ok suspended_state)
read-write_example = read-write tallies suspended_state steps malformed suspended-IsStorable refl

read-IsStorable_example : IsStorable tallies suspended_state
unfolding read_automation_state
read-IsStorable_example =
    read-IsStorable tallies kept suspended_state
      (normalize_written tallies suspended_state suspended-IsStorable)

write-IsAtomic_example :
    IsAtomic tallies suspended_state kept
      (is_done cut)
      (write_automation_state_atomic tallies cut suspended_state kept)
write-IsAtomic_example = write-IsAtomic tallies cut suspended_state kept
