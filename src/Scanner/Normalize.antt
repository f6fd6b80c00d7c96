-- ===== src/Scanner/Normalize.antt =====
-- tools/data-poc/src/normalizeSecurity.ts: one security record from the answers of two providers.
-- A path is given by its parts, as `split(".")` would.
pub mod Laws
mod Tests
use crypto_edge_ai.Common.{
  ℕ, String, Bool, true, false, not, ◌&&◌, ◌||◌, Option, none, some, List, [], ◌∷◌, ◌++◌,
  if◌then◌else◌, str_eq, includes,
}
use crypto_edge_ai.Number.{Number}
use crypto_edge_ai.Json.{
  Value, null, bool, num, str, arr, obj, Fields, property, first_value, as_record, coalesce,
}
use crypto_edge_ai.Scanner.Types.{
  NormalizedSecurity, SecurityDecision, HoneypotStatus, OwnershipStatus, SecuritySource,
}
use crypto_edge_ai.Scanner.Security.{push_all, evaluate_security, is_true, is_false, is_null}

module _ {n : Number} where
  open n use {Num, lt, le, eq, times, literal, is_finite, parse}

  -- `readPath`.
  unfoldable pub read_path : Option (Value n) → List String → Option (Value n)
  unfolding property
  read_path current [] = current
  read_path current (part ∷ parts) = elim (as_record current) [
    | none ↦ none
    | some fields ↦ read_path (property part fields) parts
  ]

  -- Neither `undefined`, nor `null`, nor the empty text.
  abbrev pub is_filled : Option (Value n) → Bool
  is_filled none = false
  is_filled (some null) = false
  is_filled (some (str s)) = not (str_eq s "")
  is_filled (some (bool _)) = true
  is_filled (some (num _)) = true
  is_filled (some (arr _)) = true
  is_filled (some (obj _)) = true

  -- `readFirst`; `none` is its `null`.
  unfoldable pub read_first : Option (Value n) → List (List String) → Option (Value n)
  unfolding read_path
  read_first raw [] = none
  read_first raw (path ∷ paths) =
      if is_filled (read_path raw path) then read_path raw path else read_first raw paths

abbrev only_if {ℓ} : {A : Type ℓ} → Bool → A → List A
only_if true a = a ∷ []
only_if false a = []

abbrev is_some {ℓ} : {A : Type ℓ} → Option A → Bool
is_some o = not (is_null o)

abbrev is_unknown_status : HoneypotStatus → Bool
is_unknown_status HoneypotStatus.unknown = true
is_unknown_status _ = false

unfoldable pub merge_honeypot_status : Option Bool → Option Bool → HoneypotStatus
merge_honeypot_status goplus honeypot =
    if is_true goplus || is_true honeypot
    then HoneypotStatus.failed
    else if is_false goplus || is_false honeypot
    then HoneypotStatus.passed
    else HoneypotStatus.unknown

risk_flags_of : Option Bool → Option Bool → List String
risk_flags_of goplus honeypot = push_all (
    (is_true goplus, "goplus_honeypot_failed")
    ∷ (is_false goplus, "goplus_honeypot_passed")
    ∷ (is_true honeypot, "honeypot_is_failed")
    ∷ (is_false honeypot, "honeypot_is_passed")
    ∷ [])

-- What `collectMissingData` looks for, and its pushes onto the empty list of the record.
module _ (n : Number) where
  abbrev pub missing_tests : NormalizedSecurity n → List (Bool × String)
  missing_tests s =
      (is_unknown_status s.honeypot_status, "honeypot_status")
      ∷ (is_null s.buy_tax, "buy_tax")
      ∷ (is_null s.sell_tax, "sell_tax")
      ∷ (is_null s.contract_verified, "contract_verified")
      ∷ (is_null s.liquidity_locked, "liquidity_locked")
      ∷ (is_null s.top_wallet_pct, "top_wallet_pct")
      ∷ (is_null s.top_10_wallets_pct, "top_10_wallets_pct")
      ∷ (not s.goplus_available, "goplus_source")
      ∷ (not s.honeypot_available, "honeypot_source")
      ∷ []

  abbrev pub missing_data_of : NormalizedSecurity n → List String
  missing_data_of s = push_all (missing_tests s)

-- `lower` is `String.prototype.toLowerCase`, and `is_blank` tells whether `trim` leaves nothing.
module _ (n : Number) (lower : String → String) (is_blank : String → Bool) where
  open n use {Num, lt, le, eq, times, literal, is_finite, parse}

  to_number : Option (Value n) → Option Num
  to_number (some (num v)) = if is_finite v then some v else none
  to_number (some (str s)) = if is_blank s then none else parse s
  to_number _ = none

  unfoldable pub to_boolean : Option (Value n) → Option Bool
  unfolding includes
  to_boolean (some (bool b)) = some b
  to_boolean (some (num v)) =
      if eq v (literal 1 0) then some true else if eq v (literal 0 0) then some false else none
  to_boolean (some (str s)) =
      if includes ("1" ∷ "true" ∷ "yes" ∷ "failed" ∷ []) (lower s)
      then some true
      else if includes ("0" ∷ "false" ∷ "no" ∷ "passed" ∷ []) (lower s)
      then some false
      else none
  to_boolean _ = none

  abbrev as_percent : Num → Num
  as_percent v = if lt (literal 0 0) v && le v (literal 1 0) then times v (literal 100 0) else v

  first_number_as_percent : List (Option (Value n)) → Option Num
  first_number_as_percent [] = none
  first_number_as_percent (v ∷ vs) = elim (to_number v) [
    | none ↦ first_number_as_percent vs
    | some parsed ↦ some (as_percent parsed)
  ]

  abbrev pub flag : Option (Value n) → List (List String) → Option Bool
  flag raw paths = to_boolean (read_first raw paths)

  -- `extractGoPlusToken`: the entry of the contract, or the first entry, or the answer itself.
  abbrev first_entry : Fields n → Fields n → Fields n
  first_entry raw result = elim (as_record (first_value result)) [ none ↦ raw | some entry ↦ entry ]

  abbrev entry_of : Fields n → Fields n → Option String → Fields n
  entry_of raw result none = first_entry raw result
  entry_of raw result (some address) =
      if str_eq address ""
      then first_entry raw result
      else elim (as_record (coalesce (property address result) (property (lower address) result))) [
        | none ↦ first_entry raw result
        | some entry ↦ entry
      ]

  unfoldable pub extract_goplus_token : Option (Fields n) → Option String → Option (Fields n)
  unfolding property
  extract_goplus_token none address = none
  extract_goplus_token (some raw) address = elim (as_record (property "result" raw)) [
    | none ↦ some raw
    | some result ↦ some (entry_of raw result address)
  ]

  abbrev owner_status : Option (Value n) → OwnershipStatus
  owner_status (some (str owner)) =
      if str_eq (lower owner) ""
        || str_eq (lower owner) "0x0000000000000000000000000000000000000000"
      then OwnershipStatus.renounced
      else OwnershipStatus.active
  owner_status _ = OwnershipStatus.unknown

  normalize_ownership_status : Option (Value n) → OwnershipStatus
  normalize_ownership_status raw =
      if is_true (flag raw (("can_take_back_ownership" ∷ []) ∷ []))
        || is_true (flag raw (("hidden_owner" ∷ []) ∷ []))
      then OwnershipStatus.active
      else owner_status (read_first raw (("owner_address" ∷ []) ∷ ("owner" ∷ []) ∷ []))

  abbrev as_value : Option (Fields n) → Option (Value n)
  as_value none = none
  as_value (some fields) = some (obj fields)

  -- The record before `collectMissingData` fills `missing_data`.
  security_of : Option (Fields n) → Option (Fields n) → Option (Fields n) → NormalizedSecurity n
  security_of goplus_raw honeypot_raw goplus_token =
      let token = as_value goplus_token in
      let other = as_value honeypot_raw in
      let goplus = flag token (("is_honeypot" ∷ []) ∷ ("honeypot" ∷ []) ∷ []) in
      let honeypot =
        flag other
          (("honeypotResult" ∷ "isHoneypot" ∷ []) ∷ ("isHoneypot" ∷ []) ∷ ("honeypot" ∷ []) ∷ []) in
      record {
        sources =
            only_if (is_some goplus_raw) SecuritySource.goplus
            ++ only_if (is_some honeypot_raw) SecuritySource.honeypot;
        honeypot_status = merge_honeypot_status goplus honeypot;
        buy_tax = first_number_as_percent (
            read_first token (("buy_tax" ∷ []) ∷ [])
            ∷ read_first other
                (("simulationResult" ∷ "buyTax" ∷ []) ∷ ("summary" ∷ "buyTax" ∷ []) ∷ [])
            ∷ []);
        sell_tax = first_number_as_percent (
            read_first token (("sell_tax" ∷ []) ∷ [])
            ∷ read_first other
                (("simulationResult" ∷ "sellTax" ∷ []) ∷ ("summary" ∷ "sellTax" ∷ []) ∷ [])
            ∷ []);
        contract_verified = flag token (("is_open_source" ∷ []) ∷ ("contract_verified" ∷ []) ∷ []);
        ownership_status = normalize_ownership_status token;
        liquidity_locked = flag token (("liquidity_locked" ∷ []) ∷ ("lp_locked" ∷ []) ∷ []);
        liquidity_lock_days =
            to_number
              (read_first token (("liquidity_lock_days" ∷ []) ∷ ("lp_lock_days" ∷ []) ∷ []));
        mint_risk = flag token (("is_mintable" ∷ []) ∷ ("mint_risk" ∷ []) ∷ []);
        blacklist_risk = flag token (("is_blacklisted" ∷ []) ∷ ("blacklist_risk" ∷ []) ∷ []);
        whitelist_risk = flag token (("is_whitelisted" ∷ []) ∷ ("whitelist_risk" ∷ []) ∷ []);
        sell_restriction_risk = flag token (
            ("cannot_sell_all" ∷ [])
            ∷ ("sell_restriction_risk" ∷ [])
            ∷ ("trading_cooldown" ∷ [])
            ∷ []);
        proxy_risk = flag token (("is_proxy" ∷ []) ∷ ("proxy_risk" ∷ []) ∷ []);
        top_wallet_pct =
            first_number_as_percent
              (read_first token (("top_wallet_pct" ∷ []) ∷ ("creator_percent" ∷ []) ∷ []) ∷ []);
        top_10_wallets_pct = first_number_as_percent (
            read_first token (("top_10_wallets_pct" ∷ []) ∷ ("holders_top10_percent" ∷ []) ∷ [])
            ∷ []);
        risk_flags = risk_flags_of goplus honeypot;
        missing_data = [];
        goplus_available = is_some goplus_raw;
        honeypot_available = is_some honeypot_raw;
      }

  -- The record and its decision, for the contract's address and the two answers.
  pub normalize_security :
      Option String
      → Option (Fields n)
      → Option (Fields n)
      → NormalizedSecurity n × SecurityDecision
  normalize_security address goplus_raw honeypot_raw =
      let blank = security_of goplus_raw honeypot_raw (extract_goplus_token goplus_raw address) in
      let security = record blank { missing_data = missing_data_of n blank } in
      (security, evaluate_security n security)
