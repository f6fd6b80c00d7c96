-- ===== src/Scanner/Types.antt =====
-- tools/data-poc/src/types.ts: a candidate of the scanner, its security record and its decision.
-- `null` and an absent field are `none`; a field with one possible value is left out.
use crypto_edge_ai.Common.{ℕ, String, Bool, Option, List}
use crypto_edge_ai.Number.{Number}

pub data CandidateStatus : Type 0 where
  raw passed_basic_filter rejected_basic_filter : CandidateStatus

pub data DiscoveryBasket : Type 0 where
  new_emerging established : DiscoveryBasket

pub data DiscoveryMethod : Type 0 where
  dexscreener_latest_token_profiles address_seeded_universe : DiscoveryMethod

pub data SocialLinkCategory : Type 0 where
  twitter telegram discord website team whitepaper roadmap : SocialLinkCategory

pub record NormalizedSocialLink : Type 0 where
  pub category : SocialLinkCategory
  pub url : String

pub data HoneypotStatus : Type 0 where
  passed failed unknown : HoneypotStatus

pub data OwnershipStatus : Type 0 where
  renounced active unknown : OwnershipStatus

pub data SecurityLabel : Type 0 where
  security_passed needs_manual_verification critical_risk : SecurityLabel

pub data SecuritySource : Type 0 where
  goplus honeypot : SecuritySource

pub record SecurityDecision : Type 0 where
  pub security_label : SecurityLabel
  pub critical_reasons : List String
  pub warning_reasons : List String

module _ (n : Number) where
  open n use {Num}

  pub record CryptoEdgeCandidate : Type 0 where
    pub symbol : String
    pub name : Option String
    pub chain : String
    pub contract_address : Option String
    pub pair_address : Option String
    pub dex : Option String
    pub source_url : Option String
    pub social_links : Option (List NormalizedSocialLink)
    pub price_usd : Option Num
    pub market_cap_usd : Option Num
    pub fdv_usd : Option Num
    pub liquidity_usd : Option Num
    pub volume_24h_usd : Option Num
    pub volume_market_cap_ratio : Option Num
    pub pair_created_at : Option String
    pub pair_age_days : Option Num
    pub status : CandidateStatus
    pub filter_reasons : List String
    pub discovery_basket : Option DiscoveryBasket
    pub discovery_method : Option DiscoveryMethod
    pub observation_only : Option Bool
    pub established_eligible : Option Bool
    pub universe_version : Option String
    pub universe_entry_index : Option ℕ
    pub address_identity_verified : Option Bool

  pub record NormalizedSecurity : Type 0 where
    pub sources : List SecuritySource
    pub honeypot_status : HoneypotStatus
    pub buy_tax : Option Num
    pub sell_tax : Option Num
    pub contract_verified : Option Bool
    pub ownership_status : OwnershipStatus
    pub liquidity_locked : Option Bool
    pub liquidity_lock_days : Option Num
    pub mint_risk : Option Bool
    pub blacklist_risk : Option Bool
    pub whitelist_risk : Option Bool
    pub sell_restriction_risk : Option Bool
    pub proxy_risk : Option Bool
    pub top_wallet_pct : Option Num
    pub top_10_wallets_pct : Option Num
    pub risk_flags : List String
    pub missing_data : List String
    pub goplus_available : Bool
    pub honeypot_available : Bool
