-- ===== src/Scanner/Discovery.antt =====
-- tools/data-poc/src/dexscreenerDiscovery.ts: which tokens are asked for, and which of their pairs
-- become candidates. `lower` is `String.prototype.toLowerCase` and `trim` is `String.prototype.trim`.
pub mod Distinct
pub mod Seeds
pub mod Complete
pub mod Match
pub mod Highest
mod Tests
use crypto_edge_ai.Common.{
  ℕ, zero, suc, ◌+◌, ◌/◌, String, Bool, true, false, ◌&&◌, Option, none, some, List, [], ◌∷◌, ◌++◌,
  str_eq, leb, if◌then◌else◌, includes, select, length, ◌⧺◌, or_text,
}
use crypto_edge_ai.Number.{Number}
use crypto_edge_ai.Scanner.Pair.{DexScreenerPair, DexScreenerToken, address_of}

pub record DexScreenerTokenProfile : Type 0 where
  pub chain_id : Option String
  pub token_address : Option String

pub record Seed : Type 0 where
  pub chain_id : String
  pub token_address : String

abbrev default_seed_limit : ℕ
default_seed_limit = 20

abbrev max_seed_limit : ℕ
max_seed_limit = 30

abbrev at_least : ℕ → ℕ → ℕ
at_least a b = if leb a b then b else a

abbrev at_most : ℕ → ℕ → ℕ
at_most a b = if leb a b then a else b

-- `none` is a limit that is not given or not finite; else it is the floor of the limit, 0 for a
-- negative one.
unfoldable pub clamp_seed_limit : Option ℕ → ℕ
clamp_seed_limit none = default_seed_limit
clamp_seed_limit (some v) = at_least 1 (at_most v max_seed_limit)

pub minimum_successful_seed_requests : Option ℕ → ℕ
minimum_successful_seed_requests limit = at_least 3 ((clamp_seed_limit limit + 1) / 2)

abbrev is_liquid : (n : Number) → Option n.Num → Bool
is_liquid n none = false
is_liquid n (some v) = n.is_finite v && n.le (n.literal 0 0) v

-- `Number(a) > Number(b)`, where an absent number is NaN.
abbrev pub is_above : (n : Number) → Option n.Num → Option n.Num → Bool
is_above n (some a) (some b) = n.lt b a
is_above n _ _ = false

module _ (n : Number) {Info : Type 0} where
  abbrev pub better : DexScreenerPair n Info → DexScreenerPair n Info → DexScreenerPair n Info
  better pair best = if is_above n pair.liquidity_usd best.liquidity_usd then pair else best

  -- The reduction, from a pair that is the best so far.
  abbrev pub best_of :
      DexScreenerPair n Info → List (DexScreenerPair n Info) → DexScreenerPair n Info
  best_of best [] = best
  best_of best (pair ∷ pairs) = best_of (better pair best) pairs

  abbrev pub highest : List (DexScreenerPair n Info) → Option (DexScreenerPair n Info)
  highest [] = none
  highest (pair ∷ pairs) = some (best_of pair pairs)

-- `text?.toLowerCase() === other.toLowerCase()`.
abbrev same_lower : (lower : String → String) → Option String → String → Bool
same_lower lower none other = false
same_lower lower (some s) other = str_eq (lower s) (lower other)

module _ (lower trim : String → String) where
  abbrev pub seed_key : Seed → String
  seed_key seed = lower seed.chain_id ⧺ ":" ⧺ lower seed.token_address

  abbrev filled : String → String → Option Seed
  filled chain_id token_address =
      if str_eq chain_id ""
      then none
      else if str_eq token_address ""
      then none
      else some (record { chain_id = chain_id; token_address = token_address })

  abbrev both : Option String → Option String → Option Seed
  both (some chain_id) (some token_address) = filled (trim chain_id) (trim token_address)
  both _ _ = none

  -- The seed of a profile, if it has both texts and neither is blank.
  unfoldable pub seed_of : DexScreenerTokenProfile → Option Seed
  seed_of profile = both profile.chain_id profile.token_address

  -- One turn of the loop: what is selected, and the keys that were seen.
  abbrev pub keep : Option Seed → List Seed × List String → List Seed × List String
  keep none state = state
  keep (some seed) (selected, seen) =
      if includes seen (seed_key seed)
      then (selected, seen)
      else (selected ++ seed ∷ [], seen ++ seed_key seed ∷ [])

  abbrev pub seed_loop : ℕ → List DexScreenerTokenProfile → List Seed × List String → List Seed
  seed_loop limit [] state = state.0
  seed_loop limit (profile ∷ profiles) state =
      let rest = seed_loop limit profiles (keep (seed_of profile) state) in
      if leb limit (length state.0) then state.0 else rest

  unfoldable pub select_profile_seeds : List DexScreenerTokenProfile → Option ℕ → List Seed
  select_profile_seeds profiles limit = seed_loop (clamp_seed_limit limit) profiles ([], [])

  module _ (n : Number) {Info : Type 0} where
    -- Whether a pair is one of the seed's token, with a liquidity that is known.
    abbrev pub matches : Seed → DexScreenerPair n Info → Bool
    matches seed pair =
        same_lower lower pair.chain_id seed.chain_id
        && same_lower lower (address_of pair.base_token) seed.token_address
        && is_liquid n pair.liquidity_usd

    unfoldable pub select_highest_liquidity_pair :
        Seed → List (DexScreenerPair n Info) → Option (DexScreenerPair n Info)
    select_highest_liquidity_pair seed pairs = highest n (select (matches seed) pairs)

    abbrev pair_key : DexScreenerPair n Info → String
    pair_key pair =
        lower (or_text pair.chain_id "")
        ⧺ ":"
        ⧺ lower (or_text (address_of pair.base_token) "")
        ⧺ ":"
        ⧺ lower (or_text pair.pair_address "")

    abbrev fresh_pairs : List String → List (DexScreenerPair n Info) → List (DexScreenerPair n Info)
    fresh_pairs seen [] = []
    fresh_pairs seen (pair ∷ pairs) =
        let seen' = if includes seen (pair_key pair) then seen else pair_key pair ∷ seen in
        let rest = fresh_pairs seen' pairs in
        if includes seen (pair_key pair) then rest else pair ∷ rest

    deduplicate_pairs : List (DexScreenerPair n Info) → List (DexScreenerPair n Info)
    deduplicate_pairs pairs = fresh_pairs [] pairs
