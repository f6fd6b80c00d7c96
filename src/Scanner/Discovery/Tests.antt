-- ===== src/Scanner/Discovery/Tests.antt =====
-- Runs of tools/data-poc/src/dexscreenerDiscovery.ts.
use crypto_edge_ai.Common.{
  ℕ, String, ◌≡◌, ◌≤◌, refl, Option, none, some, List, [], ◌∷◌, map, length, All, includes, arith,
}
use crypto_edge_ai.Scanner.Fixtures.{ten_thousandths, unchanged}
use crypto_edge_ai.Scanner.Pair.{DexScreenerPair}
use crypto_edge_ai.Scanner.Pair.Fixtures.{pair}
use crypto_edge_ai.Scanner.Discovery.{
  DexScreenerTokenProfile, Seed, clamp_seed_limit, minimum_successful_seed_requests, seed_key,
  seed_of, select_profile_seeds, select_highest_liquidity_pair, deduplicate_pairs,
}
use crypto_edge_ai.Scanner.Discovery.Distinct.{Distinct}
use crypto_edge_ai.Scanner.Discovery.Seeds.{IsSeedOf}
use crypto_edge_ai.Scanner.Discovery.Complete.{IsComplete, select_profile_seeds-IsComplete}
use crypto_edge_ai.Scanner.Discovery.Highest.{
  IsStrict, IsHighest, select_highest_liquidity_pair-IsHighest,
}

abbrev profile : String → DexScreenerTokenProfile
profile address = record { chain_id = some "eth"; token_address = some address }

abbrev profiles : List DexScreenerTokenProfile
profiles =
    profile "0x1"
    ∷ profile ""
    ∷ record { chain_id = none; token_address = some "0x5" }
    ∷ profile "0x1"
    ∷ profile "0x2"
    ∷ profile "0x3"
    ∷ []

abbrev seeds_at : Option ℕ → List Seed
seeds_at limit = select_profile_seeds unchanged unchanged profiles limit

two_seeds_run : map (λ s. s.token_address) (seeds_at (some 2)) ≡ ("0x1" ∷ "0x2" ∷ [])
unfolding select_profile_seeds clamp_seed_limit seed_of includes
two_seeds_run = refl

all_seeds_run : map (λ s. s.token_address) (seeds_at none) ≡ ("0x1" ∷ "0x2" ∷ "0x3" ∷ [])
unfolding select_profile_seeds clamp_seed_limit seed_of includes
all_seeds_run = refl

limits_run : map clamp_seed_limit (some 0 ∷ some 7 ∷ some 99 ∷ none ∷ []) ≡ (1 ∷ 7 ∷ 30 ∷ 20 ∷ [])
unfolding clamp_seed_limit
limits_run = refl

minimum_run : map minimum_successful_seed_requests (some 1 ∷ some 7 ∷ none ∷ []) ≡ (3 ∷ 4 ∷ 10 ∷ [])
unfolding clamp_seed_limit minimum_successful_seed_requests
minimum_run = refl

select_profile_seeds-IsComplete_example :
    All (IsSeedOf unchanged unchanged profiles) (seeds_at (some 2))
    × Distinct (map (seed_key unchanged unchanged) (seeds_at (some 2)))
    × (length (seeds_at (some 2)) ≤ clamp_seed_limit (some 2))
    × (1 ≤ clamp_seed_limit (some 2))
    × (clamp_seed_limit (some 2) ≤ 30)
    × IsComplete unchanged unchanged (clamp_seed_limit (some 2)) profiles (seeds_at (some 2))
select_profile_seeds-IsComplete_example =
    select_profile_seeds-IsComplete unchanged unchanged profiles (some 2)

abbrev liquid : Option ℕ → DexScreenerPair ten_thousandths String
liquid amount = record pair { liquidity_usd = amount }

abbrev pairs : List (DexScreenerPair ten_thousandths String)
pairs = liquid none ∷ liquid (some 3) ∷ liquid (some 9) ∷ liquid (some 4) ∷ []

abbrev seed : Seed
seed = record { chain_id = "eth"; token_address = "0xabc" }

abbrev chosen : Option (DexScreenerPair ten_thousandths String)
chosen = select_highest_liquidity_pair unchanged unchanged ten_thousandths seed pairs

chosen_run : chosen ≡ some (liquid (some 9))
unfolding select_highest_liquidity_pair
chosen_run = refl

deduplicate_run : deduplicate_pairs unchanged unchanged ten_thousandths pairs ≡ (liquid none ∷ [])
unfolding deduplicate_pairs includes
deduplicate_run = refl

ten_thousandths-IsStrict : IsStrict ten_thousandths
ten_thousandths-IsStrict = record {
  irreflexive = λ a. ground arith;
  transitive = λ a b c h k. ground arith;
}

select_highest_liquidity_pair-IsHighest_example :
    IsHighest unchanged unchanged ten_thousandths seed pairs chosen
select_highest_liquidity_pair-IsHighest_example =
    select_highest_liquidity_pair-IsHighest unchanged unchanged ten_thousandths
      ten_thousandths-IsStrict seed pairs
