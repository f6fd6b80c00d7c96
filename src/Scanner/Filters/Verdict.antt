-- ===== src/Scanner/Filters/Verdict.antt =====
-- What the basic filter of tools/data-poc/src/filters.ts decides.
use crypto_edge_ai.Common.{
  or_else, ◌≡◌, ◌↔◌, sym, ◌∙◌, true, false, not, ◌&&◌, some, arith, All, Bool-cases, inl, inr,
}
use crypto_edge_ai.Number.{Number}
use crypto_edge_ai.Scanner.Types.{CryptoEdgeCandidate, CandidateStatus}
use crypto_edge_ai.Scanner.Filters.{
  is_soft_reason, all_soft, min_market_cap_usd, max_market_cap_usd, min_volume_24h_usd,
  min_liquidity_usd, min_volume_market_cap_ratio, max_volume_market_cap_ratio, min_pair_age_days,
  reasons_of, apply_basic_filters,
}
use crypto_edge_ai.Scanner.Filters.Checks.{
  holds_of, and_assoc, and-elim, holds_of_elim, all_soft-All, all_soft_of_All,
  all_soft-check_market_cap, all_soft-check_volume, all_soft-check_liquidity, all_soft-check_ratio,
  all_soft-check_pair_age, all_soft-note_fdv,
}

module _ (n : Number) where
  open n use {Num, lt, le, literal}

  -- The conditions of the filter, each of its own, without the list of reasons.
  pub record IsEligible (c : CryptoEdgeCandidate n) : Type 0 where
    pub no_hard_reason : All (λ r. is_soft_reason r ≡ true) c.filter_reasons
    pub valued :
        (v : Num) × (or_else c.market_cap_usd c.fdv_usd ≡ some v)
        × (lt v (min_market_cap_usd n) ≡ false)
        × (lt (max_market_cap_usd n) v ≡ false)
    pub traded : (v : Num) × (c.volume_24h_usd ≡ some v) × (lt v (min_volume_24h_usd n) ≡ false)
    pub liquid : (v : Num) × (c.liquidity_usd ≡ some v) × (lt v (min_liquidity_usd n) ≡ false)
    pub turned_over :
        (v : Num) × (c.volume_market_cap_ratio ≡ some v)
        × (lt v (min_volume_market_cap_ratio n) ≡ false)
        × (lt (max_volume_market_cap_ratio n) v ≡ false)
    pub aged : (v : Num) × (c.pair_age_days ≡ some v) × (le v (min_pair_age_days n) ≡ false)

  -- The test that the status rests on, read off the candidate.
  all_soft-reasons_of :
      (c : CryptoEdgeCandidate n)
      → all_soft (reasons_of n c) ≡ (
          all_soft c.filter_reasons
          && (holds_of
                (λ v. not (lt v (min_market_cap_usd n)) && not (lt (max_market_cap_usd n) v))
                (or_else c.market_cap_usd c.fdv_usd)
              && (holds_of (λ v. not (lt v (min_volume_24h_usd n))) c.volume_24h_usd
                  && (holds_of (λ v. not (lt v (min_liquidity_usd n))) c.liquidity_usd
                      && (holds_of
                            (λ v.
                              not (lt v (min_volume_market_cap_ratio n))
                              && not (lt (max_volume_market_cap_ratio n) v))
                            c.volume_market_cap_ratio
                          && holds_of (λ v. not (le v (min_pair_age_days n))) c.pair_age_days)))))
  unfolding reasons_of
  all_soft-reasons_of c = simp (
    all_soft-check_pair_age n,
    all_soft-check_ratio n,
    all_soft-check_liquidity n,
    all_soft-check_volume n,
    all_soft-check_market_cap n,
    all_soft-note_fdv n,
    and_assoc,
  )

  pub IsEligible-of_all_soft :
      (c : CryptoEdgeCandidate n) → all_soft (reasons_of n c) ≡ true → IsEligible c
  IsEligible-of_all_soft c h =
      let (soft, h₁) = and-elim _ _ (sym (all_soft-reasons_of c) ∙ h) in
      let (valued, h₂) = and-elim _ _ h₁ in
      let (traded, h₃) = and-elim _ _ h₂ in
      let (liquid, h₄) = and-elim _ _ h₃ in
      let (turned, aged) = and-elim _ _ h₄ in
      let (v, ev, tv) = holds_of_elim _ _ valued in
      let (r, er, tr) = holds_of_elim _ _ turned in
      let (t, et, tt') = holds_of_elim _ _ traded in
      let (l, el, tl) = holds_of_elim _ _ liquid in
      let (a, ea, ta) = holds_of_elim _ _ aged in
      record {
        no_hard_reason = all_soft-All _ soft;
        valued = (v, ev, ground arith, ground arith);
        traded = (t, et, ground arith);
        liquid = (l, el, ground arith);
        turned_over = (r, er, ground arith, ground arith);
        aged = (a, ea, ground arith);
      }

  pub all_soft_of_eligible :
      (c : CryptoEdgeCandidate n) → IsEligible c → all_soft (reasons_of n c) ≡ true
  all_soft_of_eligible c e =
      rw
        (
          all_soft-reasons_of c,
          all_soft_of_All _ e.no_hard_reason,
          e.valued.1,
          e.traded.1,
          e.liquid.1,
          e.turned_over.1,
          e.aged.1,
        )
        (rw (
          e.valued.2, e.valued.3, e.traded.2, e.liquid.2, e.turned_over.2, e.turned_over.3,
          e.aged.2,
        ))

  -- The filter passes a candidate exactly when it is eligible: none of the reasons that it brings
  -- is hard, its market cap (or else its fully diluted value), volume, liquidity, ratio and age are
  -- all known, and each lies in its range; an age that is not known does not pass. It rejects every
  -- other candidate.
  pub apply_basic_filters_iff :
      (c : CryptoEdgeCandidate n)
      → (((apply_basic_filters n c).status ≡ CandidateStatus.passed_basic_filter) ↔ IsEligible c)
        × (((apply_basic_filters n c).status ≡ CandidateStatus.rejected_basic_filter)
            ↔ (¬ IsEligible c))
  unfolding apply_basic_filters
  apply_basic_filters_iff c = (
    (λ h. IsEligible-of_all_soft c (ground arith), λ e. rw (all_soft_of_eligible c e)),
    (
      λ h e. ground (arith, all_soft_of_eligible c e),
      λ no. elim (Bool-cases (all_soft (reasons_of n c))) [
        | inl soft ↦ absurd (no (IsEligible-of_all_soft c soft))
        | inr hard ↦ rw hard
      ],
    ),
  )
