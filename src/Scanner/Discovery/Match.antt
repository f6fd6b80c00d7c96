-- ===== src/Scanner/Discovery/Match.antt =====
-- Which pairs are those of a seed's token, for selectHighestLiquidityPair of
-- tools/data-poc/src/dexscreenerDiscovery.ts.
use crypto_edge_ai.Common.{
  String, ◌≡◌, ◌↔◌, refl, Bool, true, ◌&&◌, Option, none, some, eq_iff, arith,
}
use crypto_edge_ai.Number.{Number}
use crypto_edge_ai.Scanner.Pair.{DexScreenerPair, address_of}
use crypto_edge_ai.Scanner.Discovery.{Seed, same_lower, is_liquid, matches}

module _ (lower : String → String) (n : Number) {Info : Type 0} where
  -- The pair trades the seed's token on its chain, up to case, and its liquidity is known.
  pub record IsMatch (seed : Seed) (pair : DexScreenerPair n Info) : Type 0 where
    pub chain : (s : String) × (pair.chain_id ≡ some s) × (lower s ≡ lower seed.chain_id)
    pub address :
        (s : String) × (address_of pair.base_token ≡ some s) × (lower s ≡ lower seed.token_address)
    pub liquid :
        (v : n.Num) × (pair.liquidity_usd ≡ some v)
        × (n.is_finite v ≡ true)
        × (n.le (n.literal 0 0) v ≡ true)

same_lower-elim :
    (lower : String → String) (o : Option String) (other : String)
    → same_lower lower o other ≡ true
    → (s : String) × (o ≡ some s) × (lower s ≡ lower other)
same_lower-elim lower none other h = cc
same_lower-elim lower (some s) other h = (s, refl, (eq_iff (lower s) (lower other)).0 h)

same_lower-intro :
    (lower : String → String) (o : Option String) (other s : String)
    → o ≡ some s
    → lower s ≡ lower other
    → same_lower lower o other ≡ true
same_lower-intro lower o other s e same = rw e ((eq_iff (lower s) (lower other)).1 same)

both-true : (a b : Bool) → (a && b) ≡ true → (a ≡ true) × (b ≡ true)
both-true a b h = ground arith

is_liquid-elim :
    (n : Number) (o : Option n.Num)
    → is_liquid n o ≡ true
    → (v : n.Num) × (o ≡ some v) × (n.is_finite v ≡ true) × (n.le (n.literal 0 0) v ≡ true)
is_liquid-elim n none h = cc
is_liquid-elim n (some v) h =
    let (finite, positive) = both-true _ _ h in (v, refl, finite, positive)

is_liquid-intro :
    (n : Number) (o : Option n.Num) (v : n.Num)
    → o ≡ some v
    → n.is_finite v ≡ true
    → n.le (n.literal 0 0) v ≡ true
    → is_liquid n o ≡ true
is_liquid-intro n o v e finite positive = rw (e, finite, positive)

module _ (lower trim : String → String) (n : Number) {Info : Type 0} where
  -- The test of the code finds these pairs.
  pub matches_iff :
      (seed : Seed) (pair : DexScreenerPair n Info)
      → (matches lower trim n seed pair ≡ true) ↔ IsMatch lower n seed pair
  matches_iff seed pair = (
    λ h.
        let (h', liquid) = both-true _ _ h in
        let (on_chain, at) = both-true _ _ h' in
        record {
          chain = same_lower-elim lower _ _ on_chain;
          address = same_lower-elim lower _ _ at;
          liquid = is_liquid-elim n _ liquid;
        },
    λ m.
        let (c, ec, on_chain) = m.chain in
        let (a, ea, at) = m.address in
        let (v, ev, finite, positive) = m.liquid in
        rw (
          same_lower-intro lower _ _ c ec on_chain,
          same_lower-intro lower _ _ a ea at,
          is_liquid-intro n _ v ev finite positive,
        ),
  )
