-- ===== src/Scanner/Pair.antt =====
-- tools/data-poc/src/normalizeDexScreener.ts: a candidate from a pair of DexScreener, and
-- isSameContractAddress of establishedAddressUniverse.ts. A field of a pair is `none` if it is absent
-- or has a value of another type. The normalization of links is an argument.
pub mod Identity
pub mod Fixtures
mod Tests
use crypto_edge_ai.Common.{
  String, Bool, true, false, Option, none, some, List, [], map, str_eq, if◌then◌else◌, Result, ok,
  err, ◌==◌,
}
use crypto_edge_ai.Number.{Number}
use crypto_edge_ai.Scanner.Types.{CryptoEdgeCandidate, CandidateStatus, NormalizedSocialLink}
use crypto_edge_ai.Scanner.Filters.{calculate_volume_market_cap_ratio, apply_basic_filters}

pub record DexScreenerToken : Type 0 where
  pub address : Option String
  pub name : Option String
  pub symbol : Option String

-- The chains of SUPPORTED_ESTABLISHED_CHAINS.
pub data SupportedEstablishedChain : Type 0 where
  ethereum bsc base arbitrum polygon avalanche solana : SupportedEstablishedChain

abbrev pub chain_name : SupportedEstablishedChain → String
chain_name SupportedEstablishedChain.ethereum = "ethereum"
chain_name SupportedEstablishedChain.bsc = "bsc"
chain_name SupportedEstablishedChain.base = "base"
chain_name SupportedEstablishedChain.arbitrum = "arbitrum"
chain_name SupportedEstablishedChain.polygon = "polygon"
chain_name SupportedEstablishedChain.avalanche = "avalanche"
chain_name SupportedEstablishedChain.solana = "solana"

-- The address of a token that may be absent.
abbrev pub address_of : Option DexScreenerToken → Option String
address_of none = none
address_of (some token) = token.address

abbrev name_of : Option DexScreenerToken → Option String
name_of none = none
name_of (some token) = token.name

-- `text || other`.
abbrev text_or : Option String → String → String
text_or none other = other
text_or (some text) other = if str_eq text "" then other else text

abbrev symbol_of : Option DexScreenerToken → String
symbol_of none = "UNKNOWN"
symbol_of (some token) = text_or token.symbol "UNKNOWN"

-- `lower` is `String.prototype.toLowerCase`.
pub is_same_contract_address :
    (lower : String → String) → SupportedEstablishedChain → Option String → String → Bool
is_same_contract_address lower chain none right = false
is_same_contract_address lower SupportedEstablishedChain.solana (some left) right =
    str_eq left right
is_same_contract_address lower _ (some left) right = str_eq (lower left) (lower right)

module _ (n : Number) where
  open n use {Num, eq, div, literal, is_finite, parse}

  pub data PriceUsd : Type 0 where
    text : String → PriceUsd
    number : Num → PriceUsd

  -- JavaScript's dates and `Math.floor`. A date is NaN where the result is `none`.
  pub record Dates : Type 0 where
    pub iso_string : Num → Option String
    pub time_of : String → Option Num
    pub minus : Num → Num → Num
    pub floor : Num → Num

  pub record DexScreenerPair (Info : Type 0) : Type 0 where
    pub chain_id : Option String
    pub dex_id : Option String
    pub url : Option String
    pub pair_address : Option String
    pub base_token : Option DexScreenerToken
    pub quote_token : Option DexScreenerToken
    pub price_usd : Option PriceUsd
    pub fdv : Option Num
    pub market_cap : Option Num
    pub pair_created_at : Option Num
    pub liquidity_usd : Option Num
    pub volume_h24 : Option Num
    pub info : Option Info

  -- The time of `new Date()`, and what the code calls outside the file.
  module _ (dates : Dates) {Info : Type 0}
      (social_links_of : Option Info → Option (List NormalizedSocialLink)) (now : Num) where
    open dates use {iso_string, time_of, minus, floor}

    abbrev pub to_nullable_number : Option Num → Option Num
    to_nullable_number none = none
    to_nullable_number (some v) = if is_finite v then some v else none

    abbrev pub parse_nullable_number : Option PriceUsd → Option Num
    parse_nullable_number none = none
    parse_nullable_number (some (text s)) = if str_eq s "" then none else parse s
    parse_nullable_number (some (number v)) = to_nullable_number (some v)

    abbrev normalize_timestamp : Option Num → Option String
    normalize_timestamp none = none
    normalize_timestamp (some ms) = if eq ms (literal 0 0) then none else iso_string ms

    abbrev age_at : Option Num → Option Num
    age_at none = none
    age_at (some created) = some (floor (div (minus now created) (literal 86400000 0)))

    abbrev calculate_pair_age_days : Option String → Option Num
    calculate_pair_age_days none = none
    calculate_pair_age_days (some created) =
        if str_eq created "" then none else age_at (time_of created)

    -- The candidate before the filter, for one of the tokens of the pair.
    abbrev raw_candidate :
        DexScreenerPair Info
        → Option DexScreenerToken
        → (chain : String) → (contract_address : Option String)
        → (price market_cap fdv : Option Num) → CryptoEdgeCandidate n
    raw_candidate pair token chain contract_address price market_cap fdv =
        let created = normalize_timestamp pair.pair_created_at in
        let volume = to_nullable_number pair.volume_h24 in
        let ratio = calculate_volume_market_cap_ratio n volume market_cap fdv [] in
        record {
          symbol = symbol_of token;
          name = name_of token;
          chain = chain;
          contract_address = contract_address;
          pair_address = pair.pair_address;
          dex = pair.dex_id;
          source_url = pair.url;
          social_links = social_links_of pair.info;
          price_usd = price;
          market_cap_usd = market_cap;
          fdv_usd = fdv;
          liquidity_usd = to_nullable_number pair.liquidity_usd;
          volume_24h_usd = volume;
          volume_market_cap_ratio = ratio.0;
          pair_created_at = created;
          pair_age_days = calculate_pair_age_days created;
          status = CandidateStatus.raw;
          filter_reasons = ratio.1;
          discovery_basket = none;
          discovery_method = none;
          observation_only = none;
          established_eligible = none;
          universe_version = none;
          universe_entry_index = none;
          address_identity_verified = none;
        }

    abbrev pub base_candidate : DexScreenerPair Info → CryptoEdgeCandidate n
    base_candidate pair =
        raw_candidate pair pair.base_token (text_or pair.chain_id "unknown")
          (address_of pair.base_token) (parse_nullable_number pair.price_usd)
          (to_nullable_number pair.market_cap) (to_nullable_number pair.fdv)

    unfoldable pub normalize_dex_screener_pair : DexScreenerPair Info → CryptoEdgeCandidate n
    normalize_dex_screener_pair pair = apply_basic_filters n (base_candidate pair)

    normalize_dex_screener_pairs : List (DexScreenerPair Info) → List (CryptoEdgeCandidate n)
    normalize_dex_screener_pairs pairs = map normalize_dex_screener_pair pairs

    -- The valuation of a pair is its base token's.
    abbrev pub quote_candidate :
        DexScreenerPair Info
        → Option DexScreenerToken
        → SupportedEstablishedChain
        → String
        → CryptoEdgeCandidate n
    quote_candidate pair token chain contract_address =
        raw_candidate pair token (chain_name chain) (some contract_address) none none none

    unfoldable pub normalize_quote_token_candidate :
        DexScreenerPair Info
        → Option DexScreenerToken
        → SupportedEstablishedChain
        → String
        → CryptoEdgeCandidate n
    normalize_quote_token_candidate pair token chain contract_address =
        apply_basic_filters n (quote_candidate pair token chain contract_address)

    -- The candidate of the token at an address that is configured.
    pub normalize_for_configured_token :
        (lower : String → String)
        → DexScreenerPair Info
        → SupportedEstablishedChain
        → String
        → Result (CryptoEdgeCandidate n)
    normalize_for_configured_token lower pair chain contract_address =
        let base_match =
          is_same_contract_address lower chain (address_of pair.base_token) contract_address in
        let quote_match =
          is_same_contract_address lower chain (address_of pair.quote_token) contract_address in
        if base_match
        then if quote_match
          then err "ESTABLISHED_ADDRESS_IDENTITY_AMBIGUOUS"
          else ok (record (normalize_dex_screener_pair pair) {
            chain = chain_name chain;
            contract_address = some contract_address;
          })
        else if quote_match
        then ok (normalize_quote_token_candidate pair pair.quote_token chain contract_address)
        else err "ESTABLISHED_ADDRESS_IDENTITY_AMBIGUOUS"
