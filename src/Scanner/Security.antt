-- ===== src/Scanner/Security.antt =====
-- tools/data-poc/src/securityRules.ts: the security label of a token and the reasons for it.
pub mod Verdict
mod Tests
use crypto_edge_ai.Common.{
  String, Bool, true, false, not, ◌&&◌, Option, none, some, List, [], ◌∷◌, if◌then◌else◌, includes,
  is_empty,
}
use crypto_edge_ai.Number.{Number}
use crypto_edge_ai.Scanner.Types.{
  NormalizedSecurity, SecurityDecision, SecurityLabel, HoneypotStatus, OwnershipStatus,
}

-- A run of `if (test) reasons.push(reason)` on an empty array.
abbrev pub push_all : List (Bool × String) → List String
push_all [] = []
push_all ((test, reason) ∷ rest) = if test then reason ∷ push_all rest else push_all rest

-- `value === true`, `value === false` and `value === null`.
abbrev pub is_true : Option Bool → Bool
is_true (some true) = true
is_true _ = false

abbrev pub is_false : Option Bool → Bool
is_false (some false) = true
is_false _ = false

abbrev pub is_null {ℓ} : {A : Type ℓ} → Option A → Bool
is_null none = true
is_null (some _) = false

abbrev pub is_failed : HoneypotStatus → Bool
is_failed HoneypotStatus.failed = true
is_failed _ = false

abbrev pub is_unknown : OwnershipStatus → Bool
is_unknown OwnershipStatus.unknown = true
is_unknown _ = false

module _ (n : Number) where
  open n use {Num, lt, literal}

  -- `value !== null && value > limit`.
  abbrev pub is_above : Num → Option Num → Bool
  is_above limit none = false
  is_above limit (some v) = lt limit v

  unfoldable pub has_inconsistent_honeypot_data : NormalizedSecurity n → Bool
  unfolding includes
  has_inconsistent_honeypot_data s =
      includes s.risk_flags "goplus_honeypot_failed" && includes s.risk_flags "honeypot_is_passed"

  critical_tests : NormalizedSecurity n → List (Bool × String)
  critical_tests s =
      (is_failed s.honeypot_status, "honeypot_failed")
      ∷ (is_above (literal 10 0) s.buy_tax, "buy_tax_above_10_percent")
      ∷ (is_above (literal 10 0) s.sell_tax, "sell_tax_above_10_percent")
      ∷ (is_false s.contract_verified, "contract_not_verified")
      ∷ (is_false s.liquidity_locked, "liquidity_unlocked")
      ∷ (is_above (literal 30 0) s.top_wallet_pct, "top_wallet_above_30_percent")
      ∷ (is_above (literal 60 0) s.top_10_wallets_pct, "top_10_wallets_above_60_percent")
      ∷ (is_true s.mint_risk, "mint_risk_detected")
      ∷ (is_true s.blacklist_risk, "blacklist_risk_detected")
      ∷ (is_true s.sell_restriction_risk, "sell_restriction_risk_detected")
      ∷ []

  warning_tests : NormalizedSecurity n → List (Bool × String)
  warning_tests s =
      (not s.goplus_available, "goplus_missing")
      ∷ (not s.honeypot_available, "honeypot_missing")
      ∷ (is_unknown s.ownership_status, "ownership_unknown")
      ∷ (is_null s.liquidity_locked, "liquidity_lock_missing")
      ∷ (is_null s.top_wallet_pct, "top_wallet_pct_missing")
      ∷ (is_null s.top_10_wallets_pct, "top_10_wallets_pct_missing")
      ∷ (is_true s.proxy_risk, "proxy_risk_requires_manual_verification")
      ∷ (is_true s.whitelist_risk, "whitelist_risk_requires_manual_verification")
      ∷ (has_inconsistent_honeypot_data s, "security_data_inconsistent_between_sources")
      ∷ []

  unfoldable pub evaluate_security : NormalizedSecurity n → SecurityDecision
  unfolding critical_tests warning_tests has_inconsistent_honeypot_data
  evaluate_security s =
      let critical = push_all (critical_tests s) in
      let warning = push_all (warning_tests s) in
      record {
        security_label =
            if not (is_empty critical)
            then SecurityLabel.critical_risk
            else if not (is_empty warning)
            then SecurityLabel.needs_manual_verification
            else SecurityLabel.security_passed;
        critical_reasons = critical;
        warning_reasons = warning;
      }
