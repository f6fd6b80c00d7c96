-- ===== src/Scanner/Combined.antt =====
-- tools/data-poc/src/combinedScanner.ts: the final label of a candidate, and the summary.
use Prim.Native.String
use crypto_edge_ai.Common.{
  or_text, or_else, ℕ, String, Bool, true, false, not, Option, none, some, List, [], ◌∷◌, ◌++◌,
  length, select,
}
use crypto_edge_ai.Number.{Number}
use crypto_edge_ai.Scanner.Types.{
  CryptoEdgeCandidate, CandidateStatus, NormalizedSecurity, SecurityDecision, SecurityLabel,
}

pub data FinalLabel : Type 0 where
  reject watchlist critical_risk needs_manual_verification : FinalLabel

-- `SecurityLabel | "NOT_CHECKED"`.
pub data CombinedLabel : Type 0 where
  checked : SecurityLabel → CombinedLabel
  not_checked : CombinedLabel

pub data BasicFilterStatus : Type 0 where
  passed_basic_filter rejected_basic_filter : BasicFilterStatus

pub record FinalDecision : Type 0 where
  pub basic_filter_status : BasicFilterStatus
  pub security_label : CombinedLabel
  pub final_label : FinalLabel
  pub final_reasons : List String

pub record Summary : Type 0 where
  pub total_raw : ℕ
  pub passed_basic_filter : ℕ
  pub rejected_basic_filter : ℕ
  pub security_checked : ℕ
  pub security_passed : ℕ
  pub needs_manual_verification : ℕ
  pub critical_risk : ℕ
  pub watchlist_candidates : ℕ

pub data PocMode : Type 0 where
  live fixture : PocMode

abbrev pub is_rejected : BasicFilterStatus → Bool
is_rejected BasicFilterStatus.rejected_basic_filter = true
is_rejected BasicFilterStatus.passed_basic_filter = false

abbrev pub is_checked : CombinedLabel → Bool
is_checked not_checked = false
is_checked (checked _) = true

abbrev pub is_security_passed : CombinedLabel → Bool
is_security_passed (checked SecurityLabel.security_passed) = true
is_security_passed _ = false

abbrev pub is_manual : FinalLabel → Bool
is_manual FinalLabel.needs_manual_verification = true
is_manual _ = false

abbrev pub is_critical : FinalLabel → Bool
is_critical FinalLabel.critical_risk = true
is_critical _ = false

abbrev pub is_watchlist : FinalLabel → Bool
is_watchlist FinalLabel.watchlist = true
is_watchlist _ = false

abbrev pub final_label_for_security : SecurityLabel → FinalLabel
final_label_for_security SecurityLabel.critical_risk = FinalLabel.critical_risk
final_label_for_security SecurityLabel.needs_manual_verification =
    FinalLabel.needs_manual_verification
final_label_for_security SecurityLabel.security_passed = FinalLabel.watchlist

abbrev pub watchlist_reason : FinalLabel → List String
watchlist_reason FinalLabel.watchlist = "eligible_for_further_review_not_trading_signal" ∷ []
watchlist_reason _ = []

abbrev pub is_passed : CandidateStatus → Bool
is_passed CandidateStatus.passed_basic_filter = true
is_passed _ = false

module _ (n : Number) where
  pub record CombinedScannerCandidate : Type 0 where
    pub candidate : CryptoEdgeCandidate n
    pub security : Option (NormalizedSecurity n)
    pub decision : FinalDecision

  not_checked_yet : CryptoEdgeCandidate n → CombinedScannerCandidate
  not_checked_yet c = record {
    candidate = c;
    security = none;
    decision = record {
      basic_filter_status = BasicFilterStatus.passed_basic_filter;
      security_label = not_checked;
      final_label = FinalLabel.needs_manual_verification;
      final_reasons = "security_not_checked" ∷ [];
    };
  }

  decide_by_security :
      CryptoEdgeCandidate n
      → Option (NormalizedSecurity n)
      → Option SecurityDecision
      → CombinedScannerCandidate
  unfolding not_checked_yet
  decide_by_security c none d = not_checked_yet c
  decide_by_security c (some s) none = not_checked_yet c
  decide_by_security c (some s) (some d) = record {
    candidate = c;
    security = some s;
    decision = record {
      basic_filter_status = BasicFilterStatus.passed_basic_filter;
      security_label = checked d.security_label;
      final_label = final_label_for_security d.security_label;
      final_reasons =
          d.critical_reasons
          ++ (d.warning_reasons ++ watchlist_reason (final_label_for_security d.security_label));
    };
  }

  unfoldable pub build_combined_candidate :
      CryptoEdgeCandidate n
      → Option (NormalizedSecurity n)
      → Option SecurityDecision
      → CombinedScannerCandidate
  unfolding decide_by_security
  build_combined_candidate c security decision = elim c.status [
    | CandidateStatus.rejected_basic_filter ↦ record {
      candidate = c;
      security = none;
      decision = record {
        basic_filter_status = BasicFilterStatus.rejected_basic_filter;
        security_label = not_checked;
        final_label = FinalLabel.reject;
        final_reasons = c.filter_reasons;
      };
    }
    | CandidateStatus.raw ↦ decide_by_security c security decision
    | CandidateStatus.passed_basic_filter ↦ decide_by_security c security decision
  ]

  unfoldable pub candidate_key : CryptoEdgeCandidate n → String
  candidate_key c =
      String.◌++◌ c.chain
        (String.◌++◌ ":" (or_text (or_else c.contract_address c.pair_address) c.symbol))

  abbrev pub how_many : (FinalDecision → Bool) → List CombinedScannerCandidate → ℕ
  how_many test items = length (select (λ item. test item.decision) items)

  unfoldable pub build_summary : ℕ → List CombinedScannerCandidate → Summary
  build_summary total_raw items = record {
    total_raw = total_raw;
    passed_basic_filter = how_many (λ d. not (is_rejected d.basic_filter_status)) items;
    rejected_basic_filter = how_many (λ d. is_rejected d.basic_filter_status) items;
    security_checked = how_many (λ d. is_checked d.security_label) items;
    security_passed = how_many (λ d. is_security_passed d.security_label) items;
    needs_manual_verification = how_many (λ d. is_manual d.final_label) items;
    critical_risk = how_many (λ d. is_critical d.final_label) items;
    watchlist_candidates = how_many (λ d. is_watchlist d.final_label) items;
  }
