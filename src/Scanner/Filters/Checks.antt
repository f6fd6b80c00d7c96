-- ===== src/Scanner/Filters/Checks.antt =====
-- Whether each check of the basic filter (tools/data-poc/src/filters.ts) pushes a hard reason.
use crypto_edge_ai.Common.{
  String, ◌≡◌, refl, ap, ◌∙◌, Bool, true, false, not, ◌&&◌, ◌||◌, Option, none, some, List, [], ◌∷◌,
  ◌++◌, arith, select, select-append, is_empty, is_empty-append, All, Bool-cases, inl, inr,
}
use crypto_edge_ai.Number.{Number}
use crypto_edge_ai.Scanner.Filters.{
  push_if, is_soft_reason, all_soft, add_reason, min_market_cap_usd, max_market_cap_usd,
  min_volume_24h_usd, min_liquidity_usd, min_volume_market_cap_ratio, max_volume_market_cap_ratio,
  min_pair_age_days, check_market_cap, check_volume, check_liquidity, check_ratio, check_pair_age,
  note_fdv,
}

all_soft-append : (xs ys : List String) → all_soft (xs ++ ys) ≡ (all_soft xs && all_soft ys)
all_soft-append xs ys =
    ap is_empty (select-append (λ r. not (is_soft_reason r)) xs ys)
    ∙ is_empty-append (select (λ r. not (is_soft_reason r)) xs) _

-- A hard reason that is pushed under a test leaves the list soft if the test fails.
all_soft-push_if :
    (test : Bool) (reason : String) (rs : List String)
    → is_soft_reason reason ≡ false
    → all_soft (push_if test reason rs) ≡ (all_soft rs && not test)
unfolding push_if
all_soft-push_if test reason rs h = ground (arith, all_soft-append rs (reason ∷ []))

-- A soft one always does.
all_soft-push_if_soft :
    (test : Bool) (reason : String) (rs : List String)
    → is_soft_reason reason ≡ true
    → all_soft (push_if test reason rs) ≡ all_soft rs
unfolding push_if
all_soft-push_if_soft test reason rs h = ground (arith, all_soft-append rs (reason ∷ []))

-- `add_reason` pushes nothing hard where it is used.
all_soft-add_reason :
    (reason : String) (rs : List String)
    → is_soft_reason reason ≡ true
    → all_soft (add_reason rs reason) ≡ all_soft rs
unfolding add_reason
all_soft-add_reason reason rs h = ground (arith, all_soft-append rs (reason ∷ []))

pub and_assoc : (a b c : Bool) → ((a && b) && c) ≡ (a && (b && c))
and_assoc true b c = refl
and_assoc false b c = refl

pub and-elim : (a b : Bool) → (a && b) ≡ true → (a ≡ true) × (b ≡ true)
and-elim a b h = ground arith

-- A value is there and passes a test.
abbrev pub holds_of {ℓ} : {A : Type ℓ} → (A → Bool) → Option A → Bool
holds_of p none = false
holds_of p (some v) = p v

pub holds_of_elim {ℓ} :
    {A : Type ℓ} (p : A → Bool) (o : Option A)
    → holds_of p o ≡ true
    → (v : A) × (o ≡ some v) × (p v ≡ true)
holds_of_elim p none h = cc
holds_of_elim p (some v) h = (v, refl, h)

holds_of_intro {ℓ} :
    {A : Type ℓ} (p : A → Bool) (o : Option A) (v : A)
    → o ≡ some v
    → p v ≡ true
    → holds_of p o ≡ true
holds_of_intro p o v e h = rw e h

pub all_soft-All : (rs : List String) → all_soft rs ≡ true → All (λ r. is_soft_reason r ≡ true) rs
all_soft-All [] h = tt
all_soft-All (r ∷ rs) h = elim (Bool-cases (is_soft_reason r)) [
  | inl soft ↦ (soft, all_soft-All rs (ground arith))
  | inr hard ↦ absurd (ground arith)
]

pub all_soft_of_All :
    (rs : List String) → All (λ r. is_soft_reason r ≡ true) rs → all_soft rs ≡ true
all_soft_of_All [] h = refl
all_soft_of_All (r ∷ rs) (h, hs) = ground (arith, all_soft_of_All rs hs)

module _ (n : Number) where
  open n use {Num, lt, le, literal}

  pub all_soft-check_market_cap :
      (o : Option Num) (rs : List String)
      → all_soft (check_market_cap n o rs) ≡ (
          all_soft rs
          && holds_of
              (λ v. not (lt v (min_market_cap_usd n)) && not (lt (max_market_cap_usd n) v))
              o)
  unfolding check_market_cap is_soft_reason
  all_soft-check_market_cap none rs = ground (arith, all_soft-append rs ("market_cap_missing" ∷ []))
  all_soft-check_market_cap (some v) rs = ground (
    arith,
    all_soft-push_if (lt v (min_market_cap_usd n)) "market_cap_below_300000" rs,
    all_soft-push_if (lt (max_market_cap_usd n) v) "market_cap_above_10000000"
        (push_if (lt v (min_market_cap_usd n)) "market_cap_below_300000" rs),
  )

  pub all_soft-check_volume :
      (o : Option Num) (rs : List String)
      → all_soft (check_volume n o rs)
        ≡ (all_soft rs && holds_of (λ v. not (lt v (min_volume_24h_usd n))) o)
  unfolding check_volume is_soft_reason
  all_soft-check_volume none rs = ground (arith, all_soft-append rs ("volume_24h_missing" ∷ []))
  all_soft-check_volume (some v) rs =
      all_soft-push_if (lt v (min_volume_24h_usd n)) "volume_24h_below_30000" rs refl

  pub all_soft-check_liquidity :
      (o : Option Num) (rs : List String)
      → all_soft (check_liquidity n o rs)
        ≡ (all_soft rs && holds_of (λ v. not (lt v (min_liquidity_usd n))) o)
  unfolding check_liquidity is_soft_reason
  all_soft-check_liquidity none rs = ground (arith, all_soft-append rs ("liquidity_missing" ∷ []))
  all_soft-check_liquidity (some v) rs =
      all_soft-push_if (lt v (min_liquidity_usd n)) "liquidity_below_30000" rs refl

  pub all_soft-check_ratio :
      (o : Option Num) (rs : List String)
      → all_soft (check_ratio n o rs) ≡ (
          all_soft rs
          && holds_of
              (λ v.
                not (lt v (min_volume_market_cap_ratio n))
                && not (lt (max_volume_market_cap_ratio n) v))
              o)
  unfolding check_ratio is_soft_reason
  all_soft-check_ratio none rs =
      ground (arith, all_soft-append rs ("volume_market_cap_ratio_missing" ∷ []))
  all_soft-check_ratio (some v) rs =
      let below = lt v (min_volume_market_cap_ratio n) in
      let above = lt (max_volume_market_cap_ratio n) v in
      let rs₁ = push_if below "volume_market_cap_ratio_below_1_percent" rs in
      let rs₂ = push_if above "volume_market_cap_ratio_above_100_percent" rs₁ in
      all_soft-push_if_soft (lt v (literal 5 2) || lt (literal 3 1) v)
        "volume_market_cap_ratio_outside_sweet_spot_5_30_percent" rs₂ refl
      ∙ all_soft-push_if above "volume_market_cap_ratio_above_100_percent" rs₁ refl
      ∙ ap (λ b. b && not above)
          (all_soft-push_if below "volume_market_cap_ratio_below_1_percent" rs refl)
      ∙ and_assoc (all_soft rs) (not below) (not above)

  pub all_soft-check_pair_age :
      (o : Option Num) (rs : List String)
      → all_soft (check_pair_age n o rs)
        ≡ (all_soft rs && holds_of (λ v. not (le v (min_pair_age_days n))) o)
  unfolding check_pair_age is_soft_reason
  all_soft-check_pair_age none rs = ground (arith, all_soft-append rs ("pair_age_missing" ∷ []))
  all_soft-check_pair_age (some v) rs =
      let young = le v (min_pair_age_days n) in
      all_soft-push_if_soft (lt v (literal 14 0) || lt (literal 90 0) v)
        "pair_age_outside_preferred_14_90_days" (push_if young "pair_age_not_above_7_days" rs) refl
      ∙ all_soft-push_if young "pair_age_not_above_7_days" rs refl

  pub all_soft-note_fdv :
      (cap fdv : Option Num) (rs : List String) → all_soft (note_fdv n cap fdv rs) ≡ all_soft rs
  unfolding is_soft_reason
  all_soft-note_fdv none (some v) rs = all_soft-add_reason "market_cap_missing_using_fdv" rs refl
  all_soft-note_fdv none none rs = refl
  all_soft-note_fdv (some _) fdv rs = refl
