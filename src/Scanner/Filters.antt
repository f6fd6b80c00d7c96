-- ===== src/Scanner/Filters.antt =====
-- tools/data-poc/src/filters.ts: the basic filter of a candidate.
pub mod Checks
pub mod Verdict
pub mod Effect
mod Tests
use crypto_edge_ai.Common.{
  or_else, ℕ, String, ◌≡◌, Bool, true, false, not, ◌&&◌, ◌||◌, Option, none, some, List, [], ◌∷◌,
  ◌++◌, str_eq, if◌then◌else◌, includes, select, is_empty,
}
use crypto_edge_ai.Number.{Number}
use crypto_edge_ai.Scanner.Types.{CryptoEdgeCandidate, CandidateStatus}

-- `if (test) reasons.push(reason)`.
unfoldable pub push_if : Bool → String → List String → List String
push_if test reason reasons = if test then reasons ++ reason ∷ [] else reasons

unfoldable pub is_soft_reason : String → Bool
is_soft_reason reason =
    str_eq reason "market_cap_missing_using_fdv"
    || str_eq reason "volume_market_cap_ratio_outside_sweet_spot_5_30_percent"
    || str_eq reason "pair_age_outside_preferred_14_90_days"

unfoldable pub add_reason : List String → String → List String
unfolding includes
add_reason reasons reason = if includes reasons reason then reasons else reasons ++ reason ∷ []

-- No reason is hard.
abbrev pub all_soft : List String → Bool
all_soft reasons = is_empty (select (λ r. not (is_soft_reason r)) reasons)

abbrev pub is_present {ℓ} : {A : Type ℓ} → Option A → Bool
is_present none = false
is_present (some _) = true

module _ (n : Number) where
  open n use {Num, lt, le, div, literal}

  abbrev pub min_market_cap_usd : Num
  min_market_cap_usd = literal 300000 0

  abbrev pub max_market_cap_usd : Num
  max_market_cap_usd = literal 10000000 0

  abbrev pub min_volume_24h_usd : Num
  min_volume_24h_usd = literal 30000 0

  abbrev pub min_liquidity_usd : Num
  min_liquidity_usd = literal 30000 0

  abbrev pub min_volume_market_cap_ratio : Num
  min_volume_market_cap_ratio = literal 1 2

  abbrev pub max_volume_market_cap_ratio : Num
  max_volume_market_cap_ratio = literal 1 0

  abbrev pub min_pair_age_days : Num
  min_pair_age_days = literal 7 0

  abbrev divide_positive : Option Num → Option Num → Option Num
  divide_positive none cap = none
  divide_positive (some v) none = none
  divide_positive (some v) (some cap) = if le cap (literal 0 0) then none else some (div v cap)

  -- The ratio, and the reasons with what is pushed onto them.
  unfoldable pub calculate_volume_market_cap_ratio :
      Option Num → Option Num → Option Num → List String → Option Num × List String
  calculate_volume_market_cap_ratio volume market_cap fdv reasons = (
    divide_positive volume (or_else market_cap fdv),
    push_if (not (is_present market_cap) && is_present fdv) "market_cap_missing_using_fdv" reasons,
  )

  unfoldable pub check_market_cap : Option Num → List String → List String
  check_market_cap none reasons = reasons ++ "market_cap_missing" ∷ []
  check_market_cap (some v) reasons =
      push_if (lt max_market_cap_usd v) "market_cap_above_10000000"
        (push_if (lt v min_market_cap_usd) "market_cap_below_300000" reasons)

  unfoldable pub check_volume : Option Num → List String → List String
  check_volume none reasons = reasons ++ "volume_24h_missing" ∷ []
  check_volume (some v) reasons = push_if (lt v min_volume_24h_usd) "volume_24h_below_30000" reasons

  unfoldable pub check_liquidity : Option Num → List String → List String
  check_liquidity none reasons = reasons ++ "liquidity_missing" ∷ []
  check_liquidity (some v) reasons =
      push_if (lt v min_liquidity_usd) "liquidity_below_30000" reasons

  unfoldable pub check_ratio : Option Num → List String → List String
  check_ratio none reasons = reasons ++ "volume_market_cap_ratio_missing" ∷ []
  check_ratio (some v) reasons =
      push_if (lt v (literal 5 2) || lt (literal 3 1) v)
        "volume_market_cap_ratio_outside_sweet_spot_5_30_percent"
        (push_if (lt max_volume_market_cap_ratio v) "volume_market_cap_ratio_above_100_percent" (
          push_if (lt v min_volume_market_cap_ratio) "volume_market_cap_ratio_below_1_percent"
            reasons))

  unfoldable pub check_pair_age : Option Num → List String → List String
  check_pair_age none reasons = reasons ++ "pair_age_missing" ∷ []
  check_pair_age (some v) reasons =
      push_if (lt v (literal 14 0) || lt (literal 90 0) v) "pair_age_outside_preferred_14_90_days"
        (push_if (le v min_pair_age_days) "pair_age_not_above_7_days" reasons)

  abbrev note_fdv : Option Num → Option Num → List String → List String
  note_fdv none (some fdv) reasons = add_reason reasons "market_cap_missing_using_fdv"
  note_fdv _ _ reasons = reasons

  -- The reasons in the order in which `applyBasicFilters` pushes them.
  unfoldable pub reasons_of : CryptoEdgeCandidate n → List String
  reasons_of c = check_pair_age c.pair_age_days (
      check_ratio c.volume_market_cap_ratio (
        check_liquidity c.liquidity_usd (
          check_volume c.volume_24h_usd (
            check_market_cap (or_else c.market_cap_usd c.fdv_usd)
              (note_fdv c.market_cap_usd c.fdv_usd c.filter_reasons)))))

  unfoldable pub apply_basic_filters : CryptoEdgeCandidate n → CryptoEdgeCandidate n
  apply_basic_filters c =
      let reasons = reasons_of c in
      record c {
        status =
            if all_soft reasons
            then CandidateStatus.passed_basic_filter
            else CandidateStatus.rejected_basic_filter;
        filter_reasons = reasons;
      }
