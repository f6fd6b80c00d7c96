-- ===== src/Scanner/Pair/Identity.antt =====
-- Which token of a pair the candidate of tools/data-poc/src/normalizeDexScreener.ts is about.
use crypto_edge_ai.Common.{
  str_eq, String, ◌≡◌, refl, sym, ap, ◌∙◌, true, false, Bool-cases, inl, inr, Option, none, some,
  List, ◌↔◌, Result, ok, err,
}
use crypto_edge_ai.Number.{Number}
use crypto_edge_ai.Scanner.Types.{CryptoEdgeCandidate, CandidateStatus, NormalizedSocialLink}
use crypto_edge_ai.Scanner.Filters.Verdict.{IsEligible, apply_basic_filters_iff}
use crypto_edge_ai.Scanner.Filters.Effect.{apply_basic_filters-append}
use crypto_edge_ai.Scanner.Pair.{
  DexScreenerToken, name_of, symbol_of, text_or, SupportedEstablishedChain, chain_name, address_of,
  is_same_contract_address, Dates, DexScreenerPair, to_nullable_number, parse_nullable_number,
  base_candidate, quote_candidate, normalize_dex_screener_pair, normalize_quote_token_candidate,
  normalize_for_configured_token,
}

-- The symbol of a candidate for what a token gives.
pub data IsSymbol : Option String → String → Type 0 where
  given : (s : String) → str_eq s "" ≡ false → IsSymbol (some s) s
  blank : (s : String) → str_eq s "" ≡ true → IsSymbol (some s) "UNKNOWN"
  missing : IsSymbol none "UNKNOWN"

text_or-IsSymbol : (o : Option String) → IsSymbol o (text_or o "UNKNOWN")
text_or-IsSymbol none = missing
text_or-IsSymbol (some s) = elim (Bool-cases (str_eq s "")) [
  | inl empty ↦ rw empty (blank s empty)
  | inr full ↦ rw full (given s full)
]

symbol_of-IsSymbol : (own : DexScreenerToken) → IsSymbol own.symbol (symbol_of (some own))
symbol_of-IsSymbol own = text_or-IsSymbol own.symbol

token-given :
    (lower : String → String) (chain : SupportedEstablishedChain) (token : Option DexScreenerToken)
    (contract_address : String)
    → is_same_contract_address lower chain (address_of token) contract_address ≡ true
    → (own : DexScreenerToken) × (token ≡ some own)
unfolding is_same_contract_address
token-given lower chain none contract_address h = cc
token-given lower chain (some own) contract_address h = (own, refl)

module _ (n : Number) (dates : Dates n) {Info : Type 0}
    (social_links_of : Option Info → Option (List NormalizedSocialLink)) (now : n.Num) where
  -- The candidate of a base token: its prices are the pair's, and its verdict is the filter's.
  pub record IsPriced (pair : DexScreenerPair n Info) (c : CryptoEdgeCandidate n) : Type 0 where
    pub price : c.price_usd ≡ parse_nullable_number n dates social_links_of now pair.price_usd
    pub market_cap :
        c.market_cap_usd ≡ to_nullable_number n dates social_links_of now pair.market_cap
    pub fdv : c.fdv_usd ≡ to_nullable_number n dates social_links_of now pair.fdv
    pub verdict :
        (c.status ≡ CandidateStatus.passed_basic_filter)
        ↔ IsEligible n (base_candidate n dates social_links_of now pair)

  -- The candidate of a quote token: the pair's prices are not its own, so that it never passes.
  pub record IsUnpriced (c : CryptoEdgeCandidate n) : Type 0 where
    pub price : c.price_usd ≡ none
    pub market_cap : c.market_cap_usd ≡ none
    pub fdv : c.fdv_usd ≡ none
    pub verdict : c.status ≡ CandidateStatus.rejected_basic_filter

  -- The candidate is of this token, at the configured address.
  pub record IsIdentified (chain : SupportedEstablishedChain) (contract_address : String)
      (token : Option DexScreenerToken) (c : CryptoEdgeCandidate n) : Type 0 where
    pub own : DexScreenerToken
    pub given : token ≡ some own
    pub name : c.name ≡ own.name
    pub symbol : IsSymbol own.symbol c.symbol
    pub on_chain : c.chain ≡ chain_name chain
    pub at_address : c.contract_address ≡ some contract_address

  pub data IsFor (lower : String → String) (pair : DexScreenerPair n Info)
      (chain : SupportedEstablishedChain) (contract_address : String)
      : Result (CryptoEdgeCandidate n) → Type 0 where
    ambiguous :
        is_same_contract_address lower chain (address_of pair.base_token) contract_address
          ≡ is_same_contract_address lower chain (address_of pair.quote_token) contract_address
        → IsFor lower pair chain contract_address (err "ESTABLISHED_ADDRESS_IDENTITY_AMBIGUOUS")
    base :
        (c : CryptoEdgeCandidate n)
        → is_same_contract_address lower chain (address_of pair.base_token) contract_address ≡ true
        → is_same_contract_address lower chain (address_of pair.quote_token) contract_address
          ≡ false
        → IsIdentified chain contract_address pair.base_token c
        → IsPriced pair c
        → IsFor lower pair chain contract_address (ok c)
    quote :
        (c : CryptoEdgeCandidate n)
        → is_same_contract_address lower chain (address_of pair.base_token) contract_address ≡ false
        → is_same_contract_address lower chain (address_of pair.quote_token) contract_address ≡ true
        → IsIdentified chain contract_address pair.quote_token c
        → IsUnpriced c
        → IsFor lower pair chain contract_address (ok c)

  named-IsIdentified :
      (chain : SupportedEstablishedChain) (contract_address : String)
      (token : Option DexScreenerToken) (own : DexScreenerToken) (c : CryptoEdgeCandidate n)
      → token ≡ some own
      → c.name ≡ name_of token
      → c.symbol ≡ symbol_of token
      → c.chain ≡ chain_name chain
      → c.contract_address ≡ some contract_address
      → IsIdentified chain contract_address token c
  named-IsIdentified chain contract_address token own c e name symbol on_chain at_address = record {
    own = own;
    given = e;
    name = name ∙ ap name_of e;
    symbol = rw (symbol ∙ ap symbol_of e) (symbol_of-IsSymbol own);
    on_chain = on_chain;
    at_address = at_address;
  }

  base-IsIdentified :
      (pair : DexScreenerPair n Info) (chain : SupportedEstablishedChain)
      (contract_address : String) (own : DexScreenerToken)
      → pair.base_token ≡ some own
      → IsIdentified chain contract_address pair.base_token
          (record (normalize_dex_screener_pair n dates social_links_of now pair) {
            chain = chain_name chain;
            contract_address = some contract_address;
          })
  unfolding normalize_dex_screener_pair
  base-IsIdentified pair chain contract_address own e =
      let (_, same) =
        apply_basic_filters-append n (base_candidate n dates social_links_of now pair) in
      named-IsIdentified chain contract_address pair.base_token own _ e (ap (λ c. c.name) same)
        (ap (λ c. c.symbol) same) refl refl

  base-IsPriced :
      (pair : DexScreenerPair n Info)
      → IsPriced pair (normalize_dex_screener_pair n dates social_links_of now pair)
  unfolding normalize_dex_screener_pair
  base-IsPriced pair =
      let raw = base_candidate n dates social_links_of now pair in
      let (_, same) = apply_basic_filters-append n raw in
      record {
        price = ap (λ c. c.price_usd) same;
        market_cap = ap (λ c. c.market_cap_usd) same;
        fdv = ap (λ c. c.fdv_usd) same;
        verdict = (apply_basic_filters_iff n raw).0;
      }

  quote-not-IsEligible :
      (pair : DexScreenerPair n Info) (chain : SupportedEstablishedChain)
      (contract_address : String)
      → ¬ IsEligible n
          (quote_candidate n dates social_links_of now pair pair.quote_token chain contract_address)
  quote-not-IsEligible pair chain contract_address e = let (_, valued, _, _) = e.valued in cc

  quote-IsUnpriced :
      (pair : DexScreenerPair n Info) (chain : SupportedEstablishedChain)
      (contract_address : String)
      → IsUnpriced (
          normalize_quote_token_candidate n dates social_links_of now pair pair.quote_token chain
            contract_address)
  unfolding normalize_quote_token_candidate
  quote-IsUnpriced pair chain contract_address =
      let raw =
        quote_candidate n dates social_links_of now pair pair.quote_token chain contract_address in
      let (_, same) = apply_basic_filters-append n raw in
      record {
        price = ap (λ c. c.price_usd) same;
        market_cap = ap (λ c. c.market_cap_usd) same;
        fdv = ap (λ c. c.fdv_usd) same;
        verdict =
            (apply_basic_filters_iff n raw).1.1 (quote-not-IsEligible pair chain contract_address);
      }

  quote-IsIdentified :
      (pair : DexScreenerPair n Info) (chain : SupportedEstablishedChain)
      (contract_address : String) (own : DexScreenerToken)
      → pair.quote_token ≡ some own
      → IsIdentified chain contract_address pair.quote_token (
          normalize_quote_token_candidate n dates social_links_of now pair pair.quote_token chain
            contract_address)
  unfolding normalize_quote_token_candidate
  quote-IsIdentified pair chain contract_address own e =
      let raw =
        quote_candidate n dates social_links_of now pair pair.quote_token chain contract_address in
      let (_, same) = apply_basic_filters-append n raw in
      named-IsIdentified chain contract_address pair.quote_token own _ e (ap (λ c. c.name) same)
        (ap (λ c. c.symbol) same) (ap (λ c. c.chain) same) (ap (λ c. c.contract_address) same)

  -- The candidate for a configured token is the one whose address matches: the normalization throws
  -- if both tokens of the pair match or neither does. Either candidate has the name of the token
  -- that matched, its symbol or UNKNOWN without one, and the configured chain and address. A base
  -- token's has the pair's prices and passes exactly if it is eligible; a quote token's has no price
  -- or valuation, and the filter rejects it.
  pub normalize_for_configured_token-IsFor :
      (lower : String → String) (pair : DexScreenerPair n Info) (chain : SupportedEstablishedChain)
      (contract_address : String)
      → IsFor lower pair chain contract_address (
          normalize_for_configured_token n dates social_links_of now lower pair chain
            contract_address)
  unfolding normalize_for_configured_token
  normalize_for_configured_token-IsFor lower pair chain contract_address =
      let match = λ (token : Option DexScreenerToken).
        is_same_contract_address lower chain (address_of token) contract_address in
      elim (Bool-cases (match pair.base_token)) [
        | inl b ↦ elim (Bool-cases (match pair.quote_token)) [
          | inl q ↦ rw (b, q) (ambiguous (b ∙ sym q))
          | inr q ↦
              let (own, e) = token-given lower chain pair.base_token contract_address b in
              let p = base-IsPriced pair in
              rw (b, q)
                (base _ b q (base-IsIdentified pair chain contract_address own e) (record {
                  price = p.price;
                  market_cap = p.market_cap;
                  fdv = p.fdv;
                  verdict = p.verdict;
                }))
        ]
        | inr b ↦ elim (Bool-cases (match pair.quote_token)) [
          | inl q ↦
              let (own, e) = token-given lower chain pair.quote_token contract_address q in
              rw (b, q)
                (quote _ b q (quote-IsIdentified pair chain contract_address own e)
                  (quote-IsUnpriced pair chain contract_address))
          | inr q ↦ rw (b, q) (ambiguous (b ∙ sym q))
        ]
      ]
