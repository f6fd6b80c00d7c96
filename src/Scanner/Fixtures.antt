-- ===== src/Scanner/Fixtures.antt =====
-- Numbers, a candidate and providers' answers for the tests of the scanner.
use crypto_edge_ai.Common.{
  ℕ, zero, suc, ◌*◌, ◌/◌, String, Bool, true, false, none, some, [], ◌∷◌, ltb, leb, ◌==◌,
}
use crypto_edge_ai.Number.{Number}
use crypto_edge_ai.Json.{Fields, end, field, bool, num, str, obj}
use crypto_edge_ai.Scanner.Types.{
  CryptoEdgeCandidate, CandidateStatus, NormalizedSecurity, HoneypotStatus, OwnershipStatus,
  SecuritySource,
}

abbrev pub scaled : ℕ → ℕ → ℕ
scaled m zero = m * 10000
scaled m (suc zero) = m * 1000
scaled m (suc (suc zero)) = m * 100
scaled m (suc (suc (suc _))) = m

-- Natural multiples of 0.0001.
abbrev pub ten_thousandths : Number
ten_thousandths = record {
  Num = ℕ;
  lt = ltb;
  le = leb;
  eq = ◌==◌;
  div = λ a b. a * 10000 / b;
  times = λ a b. a * b / 10000;
  literal = scaled;
  is_finite = λ _. true;
  parse = λ _. none;
}

abbrev pub good_candidate : CryptoEdgeCandidate ten_thousandths
good_candidate = record {
  symbol = "TKN";
  name = some "Token";
  chain = "eth";
  contract_address = some "0xabc";
  pair_address = some "0xdef";
  dex = some "uniswap";
  source_url = none;
  social_links = none;
  price_usd = some 10000;
  market_cap_usd = some (scaled 1000000 0);
  fdv_usd = none;
  liquidity_usd = some (scaled 50000 0);
  volume_24h_usd = some (scaled 100000 0);
  volume_market_cap_ratio = some (scaled 1 1);
  pair_created_at = none;
  pair_age_days = some (scaled 20 0);
  status = CandidateStatus.raw;
  filter_reasons = [];
  discovery_basket = none;
  discovery_method = none;
  observation_only = none;
  established_eligible = none;
  universe_version = none;
  universe_entry_index = none;
  address_identity_verified = none;
}

abbrev pub passed_candidate : CryptoEdgeCandidate ten_thousandths
passed_candidate = record good_candidate { status = CandidateStatus.passed_basic_filter }

abbrev pub good_security : NormalizedSecurity ten_thousandths
good_security = record {
  sources = SecuritySource.goplus ∷ SecuritySource.honeypot ∷ [];
  honeypot_status = HoneypotStatus.passed;
  buy_tax = some (scaled 2 0);
  sell_tax = some (scaled 2 0);
  contract_verified = some true;
  ownership_status = OwnershipStatus.renounced;
  liquidity_locked = some true;
  liquidity_lock_days = some (scaled 200 0);
  mint_risk = some false;
  blacklist_risk = some false;
  whitelist_risk = none;
  sell_restriction_risk = none;
  proxy_risk = some false;
  top_wallet_pct = some (scaled 5 0);
  top_10_wallets_pct = some (scaled 30 0);
  risk_flags = "goplus_honeypot_passed" ∷ "honeypot_is_passed" ∷ [];
  missing_data = [];
  goplus_available = true;
  honeypot_available = true;
}

abbrev pub goplus_answer : Fields ten_thousandths
goplus_answer = field "is_honeypot" (bool false) (
    field "owner_address" (str "") (
      field "owner" (str "0x0000000000000000000000000000000000000000") (
        field "is_open_source" (bool true) (
          field "lp_locked" (bool true) (
            field "top_wallet_pct" (num (scaled 5 0))
              (field "top_10_wallets_pct" (num (scaled 30 0)) end))))))

abbrev pub honeypot_answer : Fields ten_thousandths
honeypot_answer = field "honeypotResult" (obj (field "isHoneypot" (bool false) end)) end

abbrev pub unchanged : String → String
unchanged s = s

abbrev pub never_blank : String → Bool
never_blank s = false
