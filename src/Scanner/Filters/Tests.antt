-- ===== src/Scanner/Filters/Tests.antt =====
-- Runs of the basic filter (tools/data-poc/src/filters.ts).
use crypto_edge_ai.Common.{◌≡◌, ◌↔◌, refl, none, some}
use crypto_edge_ai.Scanner.Types.{CandidateStatus, CryptoEdgeCandidate}
use crypto_edge_ai.Scanner.Filters.{
  apply_basic_filters, reasons_of, check_market_cap, check_volume, check_liquidity, check_ratio,
  check_pair_age, push_if, is_soft_reason, add_reason,
}
use crypto_edge_ai.Scanner.Filters.Verdict.{IsEligible, apply_basic_filters_iff}
use crypto_edge_ai.Scanner.Fixtures.{ten_thousandths, good_candidate}

good_candidate-passes :
    (apply_basic_filters ten_thousandths good_candidate).status
    ≡ CandidateStatus.passed_basic_filter
unfolding apply_basic_filters reasons_of check_pair_age push_if check_ratio check_liquidity
    check_volume check_market_cap add_reason is_soft_reason
good_candidate-passes = refl

-- Without a market cap the fully diluted value is used.
abbrev diluted_candidate : CryptoEdgeCandidate ten_thousandths
diluted_candidate = record good_candidate { market_cap_usd = none; fdv_usd = some 10000000000 }

diluted_candidate-passes :
    (apply_basic_filters ten_thousandths diluted_candidate).status
    ≡ CandidateStatus.passed_basic_filter
unfolding apply_basic_filters reasons_of check_pair_age push_if check_ratio check_liquidity
    check_volume check_market_cap add_reason is_soft_reason
diluted_candidate-passes = refl

abbrev poor_candidate : CryptoEdgeCandidate ten_thousandths
poor_candidate = record good_candidate { liquidity_usd = some 5 }

poor_candidate-rejected :
    (apply_basic_filters ten_thousandths poor_candidate).status
    ≡ CandidateStatus.rejected_basic_filter
unfolding apply_basic_filters reasons_of check_pair_age push_if check_ratio check_liquidity
    check_volume check_market_cap add_reason is_soft_reason
poor_candidate-rejected = refl

apply_basic_filters_iff_example :
    (((apply_basic_filters ten_thousandths poor_candidate).status
        ≡ CandidateStatus.passed_basic_filter)
      ↔ IsEligible ten_thousandths poor_candidate)
    × (((apply_basic_filters ten_thousandths poor_candidate).status
          ≡ CandidateStatus.rejected_basic_filter)
        ↔ (¬ IsEligible ten_thousandths poor_candidate))
apply_basic_filters_iff_example = apply_basic_filters_iff ten_thousandths poor_candidate

-- A pair whose age is not known is rejected.
ageless_candidate-rejected :
    (apply_basic_filters ten_thousandths (record good_candidate { pair_age_days = none })).status
    ≡ CandidateStatus.rejected_basic_filter
unfolding apply_basic_filters reasons_of check_pair_age push_if check_ratio check_liquidity
    check_volume check_market_cap add_reason is_soft_reason
ageless_candidate-rejected = refl
