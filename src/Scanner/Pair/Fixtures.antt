-- ===== src/Scanner/Pair/Fixtures.antt =====
-- A pair and dates for the tests of tools/data-poc/src/normalizeDexScreener.ts.
use crypto_edge_ai.Common.{String, none, some, ◌-◌, ◌*◌, ◌/◌}
use crypto_edge_ai.Scanner.Fixtures.{ten_thousandths, scaled}
use crypto_edge_ai.Scanner.Pair.{PriceUsd, Dates, DexScreenerPair}

-- Every date is the same one.
abbrev pub dates : Dates ten_thousandths
dates = record {
  iso_string = λ _. some "2026-01-01T00:00:00.000Z";
  time_of = λ _. some 0;
  minus = λ a b. a - b;
  floor = λ a. a / 10000 * 10000;
}

abbrev pub pair : DexScreenerPair ten_thousandths String
pair = record {
  chain_id = some "eth";
  dex_id = some "uniswap";
  url = none;
  pair_address = some "0xdef";
  base_token = some (record { address = some "0xabc"; name = none; symbol = some "TKN" });
  quote_token = some (record { address = some "0x123"; name = none; symbol = some "" });
  price_usd = some (PriceUsd.number 10000);
  fdv = none;
  market_cap = some (scaled 1000000 0);
  pair_created_at = some 5;
  liquidity_usd = some (scaled 50000 0);
  volume_h24 = some (scaled 100000 0);
  info = none;
}
