-- ===== src/Scanner/Pair/Tests.antt =====
-- Runs of tools/data-poc/src/normalizeDexScreener.ts.
use crypto_edge_ai.Common.{ℕ, String, ◌≡◌, refl, Option, some, List, [], ◌∷◌, Result, ok, err}
use crypto_edge_ai.Scanner.Types.{CryptoEdgeCandidate, CandidateStatus, NormalizedSocialLink}
use crypto_edge_ai.Scanner.Filters.{
  calculate_volume_market_cap_ratio, apply_basic_filters, reasons_of, check_market_cap,
  check_volume, check_liquidity, check_ratio, check_pair_age, push_if, is_soft_reason, add_reason,
}
use crypto_edge_ai.Scanner.Fixtures.{ten_thousandths, scaled, unchanged}
use crypto_edge_ai.Scanner.Pair.Fixtures.{dates, pair}
use crypto_edge_ai.Scanner.Pair.{
  SupportedEstablishedChain, is_same_contract_address, normalize_dex_screener_pair,
  normalize_quote_token_candidate, normalize_for_configured_token,
}
use crypto_edge_ai.Scanner.Pair.Identity.{IsFor, normalize_for_configured_token-IsFor}

abbrev no_links : Option String → Option (List NormalizedSocialLink)
no_links _ = some []

-- Twenty days after that.
abbrev now : ℕ
now = scaled 1728000000 0

abbrev configured : String → Result (CryptoEdgeCandidate ten_thousandths)
configured address =
    normalize_for_configured_token ten_thousandths dates no_links now unchanged pair
      SupportedEstablishedChain.ethereum address

abbrev summary :
    Result (CryptoEdgeCandidate ten_thousandths) → String × String × CandidateStatus × List String
summary (err code) = (code, "", CandidateStatus.raw, [])
summary (ok c) = (c.symbol, c.chain, c.status, c.filter_reasons)

base_run :
    summary (configured "0xabc") ≡ ("TKN", "ethereum", CandidateStatus.passed_basic_filter, [])
unfolding normalize_for_configured_token is_same_contract_address normalize_dex_screener_pair
    apply_basic_filters reasons_of check_pair_age push_if check_ratio check_liquidity check_volume
    check_market_cap add_reason is_soft_reason calculate_volume_market_cap_ratio
base_run = refl

quote_run : summary (configured "0x123") ≡ (
  "UNKNOWN",
  "ethereum",
  CandidateStatus.rejected_basic_filter,
  "market_cap_missing" ∷ "volume_market_cap_ratio_missing" ∷ [],
)
unfolding normalize_for_configured_token is_same_contract_address normalize_quote_token_candidate
    apply_basic_filters reasons_of check_pair_age push_if check_ratio check_liquidity check_volume
    check_market_cap add_reason is_soft_reason calculate_volume_market_cap_ratio
quote_run = refl

other_run : configured "0x999" ≡ err "ESTABLISHED_ADDRESS_IDENTITY_AMBIGUOUS"
unfolding normalize_for_configured_token is_same_contract_address
other_run = refl

normalize_for_configured_token-IsFor_example :
    IsFor ten_thousandths dates no_links now unchanged pair SupportedEstablishedChain.ethereum
      "0x123"
      (configured "0x123")
normalize_for_configured_token-IsFor_example =
    normalize_for_configured_token-IsFor ten_thousandths dates no_links now unchanged pair
      SupportedEstablishedChain.ethereum "0x123"
