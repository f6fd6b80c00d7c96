-- ===== src/Scanner/Output/Tests.antt =====
-- A run of the combined scanner (tools/data-poc/src/combinedScanner.ts).
use crypto_edge_ai.Common.{
  ℕ, ◌+◌, ◌≤◌, ◌≡◌, refl, Bool, true, some, List, [], ◌∷◌, map, length, Result, ok, err, All,
}
use crypto_edge_ai.Scanner.Types.{CryptoEdgeCandidate}
use crypto_edge_ai.Scanner.Combined.{CombinedScannerCandidate, build_summary, fixture}
use crypto_edge_ai.Scanner.Output.{
  Answers, CombinedScannerOutput, Progress, combine, check_candidate, check_candidates, to_check,
  add_answers, build_combined_scanner_output,
}
use crypto_edge_ai.Scanner.Output.Items.{IsBacked}
use crypto_edge_ai.Scanner.Output.Laws.{IsCallable, build-calls, build-watchlist, build-summary}
use crypto_edge_ai.Scanner.Fixtures.{
  ten_thousandths, good_candidate, passed_candidate, goplus_answer, honeypot_answer, unchanged,
  never_blank,
}

abbrev candidates : List (CryptoEdgeCandidate ten_thousandths)
candidates = passed_candidate ∷ good_candidate ∷ passed_candidate ∷ []

abbrev everyone : CryptoEdgeCandidate ten_thousandths → Bool
everyone c = true

abbrev answering : ℕ → CryptoEdgeCandidate ten_thousandths → Result (Answers ten_thousandths)
answering i c = ok (some goplus_answer, some honeypot_answer)

abbrev Outcome : Type 0
Outcome =
    Result (List (CryptoEdgeCandidate ten_thousandths) × CombinedScannerOutput ten_thousandths)

abbrev outcome :
    (ℕ → CryptoEdgeCandidate ten_thousandths → Result (Answers ten_thousandths)) → Outcome
outcome provider =
    build_combined_scanner_output ten_thousandths unchanged never_blank provider everyone fixture
      "token" "2026-01-01T00:00:00.000Z" 1 candidates

-- The states that the two runs reach: the provider has answered, or it has thrown.
abbrev reached : Progress ten_thousandths
reached =
    add_answers ten_thousandths unchanged never_blank answering passed_candidate
      (record { calls = []; known = [] }) (some goplus_answer, some honeypot_answer)

abbrev combined : List (CombinedScannerCandidate ten_thousandths)
combined = map (combine reached.known) candidates

abbrev output : CombinedScannerOutput ten_thousandths
output = record {
  mode = fixture;
  query = "token";
  generated_at = "2026-01-01T00:00:00.000Z";
  max_candidates = 1;
  summary = build_summary ten_thousandths 3 combined;
  candidates = combined;
}

answered : outcome answering ≡ ok (reached.calls, output)
unfolding build_combined_scanner_output check_candidates to_check check_candidate
answered = refl

build-calls_example : (length reached.calls ≤ 1) × All IsCallable reached.calls
build-calls_example =
    build-calls ten_thousandths unchanged never_blank answering everyone fixture "token"
      "2026-01-01T00:00:00.000Z" 1 candidates reached.calls output answered

build-watchlist_example :
    (map (λ item. item.candidate) output.candidates ≡ candidates) × All IsBacked output.candidates
build-watchlist_example =
    build-watchlist ten_thousandths unchanged never_blank answering everyone fixture "token"
      "2026-01-01T00:00:00.000Z" 1 candidates reached.calls output answered

build-summary_example :
    let s = output.summary in
    (s.total_raw ≡ length candidates)
    × (s.passed_basic_filter + s.rejected_basic_filter ≡ s.total_raw)
    × (s.rejected_basic_filter + s.watchlist_candidates + s.needs_manual_verification
          + s.critical_risk
        ≡ s.total_raw)
    × (s.watchlist_candidates ≡ s.security_passed)
    × (s.security_checked ≤ s.passed_basic_filter)
build-summary_example =
    build-summary ten_thousandths unchanged never_blank answering everyone fixture "token"
      "2026-01-01T00:00:00.000Z" 1 candidates reached.calls output answered

abbrev throwing : ℕ → CryptoEdgeCandidate ten_thousandths → Result (Answers ten_thousandths)
throwing i c = err "TIMEOUT"
