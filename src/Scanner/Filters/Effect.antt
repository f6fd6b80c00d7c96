-- ===== src/Scanner/Filters/Effect.antt =====
-- What the basic filter of tools/data-poc/src/filters.ts changes in a candidate.
use crypto_edge_ai.Common.{
  String, ◌≡◌, refl, sym, ◌∙◌, Bool, true, false, Option, none, some, List, [], ◌∷◌, ◌++◌, arith,
  append-nil, append_assoc, inl, inr, Bool-cases, includes, if◌then◌else◌, ◌↔◌, ◌⊎◌,
}
use crypto_edge_ai.Number.{Number}
use crypto_edge_ai.Scanner.Types.{CryptoEdgeCandidate, CandidateStatus}
use crypto_edge_ai.Scanner.Filters.{
  push_if, add_reason, check_market_cap, check_volume, check_liquidity, check_ratio, check_pair_age,
  note_fdv, reasons_of, apply_basic_filters,
}
use crypto_edge_ai.Scanner.Filters.Checks.{all_soft-All, all_soft_of_All}
use crypto_edge_ai.Scanner.Filters.Verdict.{
  IsEligible, apply_basic_filters_iff, all_soft_of_eligible, IsEligible-of_all_soft,
}

-- `ys` is `xs` with something behind it.
data Extends (xs ys : List String) : Type 0 where
  by : (rs : List String) → ys ≡ xs ++ rs → Extends xs ys

Extends-refl : (xs : List String) → Extends xs xs
Extends-refl xs = by [] (sym (append-nil xs))

Extends-trans : {xs ys zs : List String} → Extends xs ys → Extends ys zs → Extends xs zs
Extends-trans {xs} (by rs e) (by ss f) = by (rs ++ ss) (f ∙ rw e (append_assoc xs rs ss))

Extends-if :
    (test : Bool) (reason : String) (xs : List String)
    → Extends xs (if test then xs ++ reason ∷ [] else xs)
Extends-if true reason xs = by (reason ∷ []) refl
Extends-if false reason xs = Extends-refl xs

Extends-push_if :
    (test : Bool) (reason : String) (xs : List String) → Extends xs (push_if test reason xs)
unfolding push_if
Extends-push_if test reason xs = Extends-if test reason xs

Extends-add_reason : (xs : List String) (reason : String) → Extends xs (add_reason xs reason)
unfolding add_reason
Extends-add_reason xs reason = elim (Bool-cases (includes xs reason)) [
  | inl known ↦ rw known (Extends-refl xs)
  | inr new ↦ rw new (by (reason ∷ []) refl)
]

module _ (n : Number) where
  open n use {Num, lt, le, literal}

  Extends-check_market_cap :
      (o : Option Num) (xs : List String) → Extends xs (check_market_cap n o xs)
  unfolding check_market_cap
  Extends-check_market_cap none xs = by _ refl
  Extends-check_market_cap (some v) xs =
      Extends-trans (Extends-push_if _ _ xs) (Extends-push_if _ _ _)

  Extends-check_volume : (o : Option Num) (xs : List String) → Extends xs (check_volume n o xs)
  unfolding check_volume
  Extends-check_volume none xs = by _ refl
  Extends-check_volume (some v) xs = Extends-push_if _ _ xs

  Extends-check_liquidity :
      (o : Option Num) (xs : List String) → Extends xs (check_liquidity n o xs)
  unfolding check_liquidity
  Extends-check_liquidity none xs = by _ refl
  Extends-check_liquidity (some v) xs = Extends-push_if _ _ xs

  Extends-check_ratio : (o : Option Num) (xs : List String) → Extends xs (check_ratio n o xs)
  unfolding check_ratio
  Extends-check_ratio none xs = by _ refl
  Extends-check_ratio (some v) xs =
      Extends-trans (Extends-trans (Extends-push_if _ _ xs) (Extends-push_if _ _ _))
        (Extends-push_if _ _ _)

  Extends-check_pair_age : (o : Option Num) (xs : List String) → Extends xs (check_pair_age n o xs)
  unfolding check_pair_age
  Extends-check_pair_age none xs = by _ refl
  Extends-check_pair_age (some v) xs =
      Extends-trans (Extends-push_if _ _ xs) (Extends-push_if _ _ _)

  Extends-note_fdv : (cap fdv : Option Num) (xs : List String) → Extends xs (note_fdv n cap fdv xs)
  Extends-note_fdv none (some v) xs = Extends-add_reason xs _
  Extends-note_fdv none none xs = Extends-refl xs
  Extends-note_fdv (some _) fdv xs = Extends-refl xs

  Extends-reasons_of : (c : CryptoEdgeCandidate n) → Extends c.filter_reasons (reasons_of n c)
  unfolding reasons_of
  Extends-reasons_of c = Extends-trans (Extends-note_fdv _ _ _) (
      Extends-trans (Extends-check_market_cap _ _) (
        Extends-trans (Extends-check_volume _ _) (
          Extends-trans (Extends-check_liquidity _ _)
            (Extends-trans (Extends-check_ratio _ _) (Extends-check_pair_age _ _)))))

  status-cases :
      (c : CryptoEdgeCandidate n)
      → ((apply_basic_filters n c).status ≡ CandidateStatus.passed_basic_filter)
        ⊎ ((apply_basic_filters n c).status ≡ CandidateStatus.rejected_basic_filter)
  unfolding apply_basic_filters
  status-cases c = ground arith

  -- The filter only decides the status and appends reasons: what the candidate brought stays in
  -- front, and every other field is as it was.
  pub apply_basic_filters-append :
      (c : CryptoEdgeCandidate n)
      → (rs : List String) × (apply_basic_filters n c ≡ record c {
        status = (apply_basic_filters n c).status;
        filter_reasons = c.filter_reasons ++ rs;
      })
  unfolding apply_basic_filters
  apply_basic_filters-append c = elim (Extends-reasons_of c) [ by rs e ↦ (rs, ground arith) ]

  IsEligible-again :
      (c : CryptoEdgeCandidate n) → IsEligible n c ↔ IsEligible n (apply_basic_filters n c)
  unfolding apply_basic_filters
  IsEligible-again c = (
    λ e. record {
      no_hard_reason = all_soft-All _ (all_soft_of_eligible n c e);
      valued = e.valued;
      traded = e.traded;
      liquid = e.liquid;
      turned_over = e.turned_over;
      aged = e.aged;
    },
    λ e. IsEligible-of_all_soft n c (all_soft_of_All _ e.no_hard_reason),
  )

  -- Filtering a candidate a second time gives the same verdict.
  pub apply_basic_filters_twice :
      (c : CryptoEdgeCandidate n)
      → (apply_basic_filters n (apply_basic_filters n c)).status ≡ (apply_basic_filters n c).status
  apply_basic_filters_twice c =
      let c' = apply_basic_filters n c in
      let (again_pass, again_reject) = apply_basic_filters_iff n c' in
      let (pass, reject) = apply_basic_filters_iff n c in
      elim (status-cases c) [
        | inl passed ↦ again_pass.1 ((IsEligible-again c).0 (pass.0 passed)) ∙ sym passed
        | inr rejected ↦
            again_reject.1 (λ e. reject.0 rejected ((IsEligible-again c).1 e)) ∙ sym rejected
      ]
