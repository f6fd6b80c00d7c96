-- ===== src/Scanner/Security/Verdict.antt =====
-- What each security label of tools/data-poc/src/securityRules.ts says of a token.
use crypto_edge_ai.Common.{
  String, ◌≡◌, ◌↔◌, ◌≢◌, refl, Bool, true, false, Option, none, some, List, [], ◌∷◌, arith,
  includes, is_empty, Bool-cases, inl, inr, ◌⊎◌,
}
use crypto_edge_ai.Number.{Number}
use crypto_edge_ai.Scanner.Types.{
  NormalizedSecurity, SecurityLabel, HoneypotStatus, OwnershipStatus,
}
use crypto_edge_ai.Scanner.Security.{
  push_all, has_inconsistent_honeypot_data, critical_tests, warning_tests, evaluate_security,
}

-- One of the tests passes.
abbrev AnyTest : List (Bool × String) → Type 0
AnyTest [] = ⊥
AnyTest ((test, _) ∷ rest) = (test ≡ true) ⊎ AnyTest rest

AnyTest-of_push_all : (ts : List (Bool × String)) → is_empty (push_all ts) ≡ false → AnyTest ts
AnyTest-of_push_all [] h = cc
AnyTest-of_push_all ((true, _) ∷ ts) h = inl refl
AnyTest-of_push_all ((false, _) ∷ ts) h = inr (AnyTest-of_push_all ts h)

push_all_of_AnyTest : (ts : List (Bool × String)) → AnyTest ts → is_empty (push_all ts) ≡ false
push_all_of_AnyTest [] h = elim h [ ]
push_all_of_AnyTest ((true, _) ∷ ts) h = refl
push_all_of_AnyTest ((false, _) ∷ ts) (inl h) = cc
push_all_of_AnyTest ((false, _) ∷ ts) (inr h) = push_all_of_AnyTest ts h

true_of_ne_false : (b : Bool) → b ≢ false → b ≡ true
true_of_ne_false true h = refl
true_of_ne_false false h = absurd (h refl)

known_true : (o : Option Bool) → o ≢ none → o ≢ some false → o ≡ some true
known_true none present ne = absurd (present refl)
known_true (some true) present ne = refl
known_true (some false) present ne = absurd (ne refl)

module _ (n : Number) (s : NormalizedSecurity n) where
  open n use {Num, lt, literal}

  abbrev pub Exceeds : Num → Option Num → Type 0
  Exceeds limit o = (v : Num) × (o ≡ some v) × (lt limit v ≡ true)

  -- What makes a token a critical risk.
  pub data IsCritical : Type 0 where
    honeypot : s.honeypot_status ≡ HoneypotStatus.failed → IsCritical
    buy_tax : Exceeds (literal 10 0) s.buy_tax → IsCritical
    sell_tax : Exceeds (literal 10 0) s.sell_tax → IsCritical
    unverified : s.contract_verified ≡ some false → IsCritical
    unlocked : s.liquidity_locked ≡ some false → IsCritical
    top_wallet : Exceeds (literal 30 0) s.top_wallet_pct → IsCritical
    top_10_wallets : Exceeds (literal 60 0) s.top_10_wallets_pct → IsCritical
    mint : s.mint_risk ≡ some true → IsCritical
    blacklist : s.blacklist_risk ≡ some true → IsCritical
    sell_restriction : s.sell_restriction_risk ≡ some true → IsCritical

  -- What asks for a manual check.
  pub data IsDoubtful : Type 0 where
    no_goplus : s.goplus_available ≡ false → IsDoubtful
    no_honeypot : s.honeypot_available ≡ false → IsDoubtful
    no_owner : s.ownership_status ≡ OwnershipStatus.unknown → IsDoubtful
    no_lock : s.liquidity_locked ≡ none → IsDoubtful
    no_top_wallet : s.top_wallet_pct ≡ none → IsDoubtful
    no_top_10_wallets : s.top_10_wallets_pct ≡ none → IsDoubtful
    proxy : s.proxy_risk ≡ some true → IsDoubtful
    whitelist : s.whitelist_risk ≡ some true → IsDoubtful
    inconsistent :
        includes s.risk_flags "goplus_honeypot_failed" ≡ true
        → includes s.risk_flags "honeypot_is_passed" ≡ true
        → IsDoubtful

  critical_of_AnyTest : AnyTest (critical_tests n s) → IsCritical
  unfolding critical_tests
  critical_of_AnyTest h = grind (
    arith, honeypot, buy_tax, sell_tax, unverified, unlocked, top_wallet, top_10_wallets, mint,
    blacklist, sell_restriction,
  )

  AnyTest-of_critical : IsCritical → AnyTest (critical_tests n s)
  unfolding critical_tests
  AnyTest-of_critical (honeypot e) = rw e (inl refl)
  AnyTest-of_critical (buy_tax (v, e, h)) = ground arith
  AnyTest-of_critical (sell_tax (v, e, h)) = ground arith
  AnyTest-of_critical (unverified e) = ground arith
  AnyTest-of_critical (unlocked e) = ground arith
  AnyTest-of_critical (top_wallet (v, e, h)) = ground arith
  AnyTest-of_critical (top_10_wallets (v, e, h)) = ground arith
  AnyTest-of_critical (mint e) = ground arith
  AnyTest-of_critical (blacklist e) = ground arith
  AnyTest-of_critical (sell_restriction e) = ground arith

  doubtful_of_AnyTest : AnyTest (warning_tests n s) → IsDoubtful
  unfolding warning_tests has_inconsistent_honeypot_data
  doubtful_of_AnyTest h = grind (
    arith, no_goplus, no_honeypot, no_owner, no_lock, no_top_wallet, no_top_10_wallets, proxy,
    whitelist, inconsistent,
  )

  AnyTest-of_doubtful : IsDoubtful → AnyTest (warning_tests n s)
  unfolding warning_tests has_inconsistent_honeypot_data
  AnyTest-of_doubtful (no_goplus e) = ground arith
  AnyTest-of_doubtful (no_honeypot e) = ground arith
  AnyTest-of_doubtful (no_owner e) = ground arith
  AnyTest-of_doubtful (no_lock e) = ground arith
  AnyTest-of_doubtful (no_top_wallet e) = ground arith
  AnyTest-of_doubtful (no_top_10_wallets e) = ground arith
  AnyTest-of_doubtful (proxy e) = ground arith
  AnyTest-of_doubtful (whitelist e) = ground arith
  AnyTest-of_doubtful (inconsistent e f) = ground arith

  critical-cases :
      (IsCritical × (is_empty (push_all (critical_tests n s)) ≡ false))
      ⊎ ((¬ IsCritical) × (is_empty (push_all (critical_tests n s)) ≡ true))
  critical-cases = elim (Bool-cases (is_empty (push_all (critical_tests n s)))) [
    | inl quiet ↦ inr (λ c. cc (quiet, push_all_of_AnyTest _ (AnyTest-of_critical c)), quiet)
    | inr loud ↦ inl (critical_of_AnyTest (AnyTest-of_push_all _ loud), loud)
  ]

  doubtful-cases :
      (IsDoubtful × (is_empty (push_all (warning_tests n s)) ≡ false))
      ⊎ ((¬ IsDoubtful) × (is_empty (push_all (warning_tests n s)) ≡ true))
  doubtful-cases = elim (Bool-cases (is_empty (push_all (warning_tests n s)))) [
    | inl quiet ↦ inr (λ d. cc (quiet, push_all_of_AnyTest _ (AnyTest-of_doubtful d)), quiet)
    | inr loud ↦ inl (doubtful_of_AnyTest (AnyTest-of_push_all _ loud), loud)
  ]

  abbrev label : SecurityLabel
  label = (evaluate_security n s).security_label

  -- The label is CRITICAL_RISK exactly when the token has one of the ten critical findings; it is
  -- NEEDS_MANUAL_VERIFICATION exactly when it has none of these and one of the nine doubts; and it
  -- is SECURITY_PASSED exactly when it has none of either.
  pub evaluate_security_iff :
      ((label ≡ SecurityLabel.critical_risk) ↔ IsCritical)
      × ((label ≡ SecurityLabel.needs_manual_verification) ↔ ((¬ IsCritical) × IsDoubtful))
      × ((label ≡ SecurityLabel.security_passed) ↔ ((¬ IsCritical) × (¬ IsDoubtful)))
  unfolding evaluate_security
  evaluate_security_iff = elim (critical-cases) [
    | inl (c, loud) ↦
        rw loud
          ((λ _. c, λ _. refl), (λ h. cc, λ h. absurd (h.0 c)), (λ h. cc, λ h. absurd (h.0 c)))
    | inr (nc, quiet) ↦ elim (doubtful-cases) [
      | inl (d, loud) ↦
          rw (quiet, loud)
            (
              (λ h. cc, λ c. absurd (nc c)),
              (λ _. (nc, d), λ _. refl),
              (λ h. cc, λ h. absurd (h.1 d)),
            )
      | inr (nd, quiet') ↦
          rw (quiet, quiet')
            (
              (λ h. cc, λ c. absurd (nc c)),
              (λ h. cc, λ h. absurd (nd h.1)),
              (λ _. (nc, nd), λ _. refl),
            )
    ]
  ]

  known_within :
      (limit : Num) (o : Option Num)
      → o ≢ none
      → ¬ Exceeds limit o
      → (v : Num) × (o ≡ some v) × (lt limit v ≡ false)
  known_within limit none present within = absurd (present refl)
  known_within limit (some v) present within = elim (Bool-cases (lt limit v)) [
    | inl above ↦ absurd (within (v, refl, above))
    | inr below ↦ (v, refl, below)
  ]

  -- A token that passes has both sources, a known owner, liquidity that is known to be locked, and
  -- known shares of the largest wallets, which lie within the limits.
  pub evaluate_security-passed :
      label ≡ SecurityLabel.security_passed
      → (s.goplus_available ≡ true)
        × (s.honeypot_available ≡ true)
        × (s.ownership_status ≢ OwnershipStatus.unknown)
        × (s.liquidity_locked ≡ some true)
        × ((v : Num) × (s.top_wallet_pct ≡ some v) × (lt (literal 30 0) v ≡ false))
        × ((v : Num) × (s.top_10_wallets_pct ≡ some v) × (lt (literal 60 0) v ≡ false))
  evaluate_security-passed h =
      let (sound, unquestioned) = evaluate_security_iff.2.0 h in
      (
        true_of_ne_false _ (λ e. unquestioned (no_goplus e)),
        true_of_ne_false _ (λ e. unquestioned (no_honeypot e)),
        λ e. unquestioned (no_owner e),
        known_true _ (λ e. unquestioned (no_lock e)) (λ e. sound (unlocked e)),
        known_within _ _ (λ e. unquestioned (no_top_wallet e)) (λ e. sound (top_wallet e)),
        known_within _ _ (λ e. unquestioned (no_top_10_wallets e)) (λ e. sound (top_10_wallets e)),
      )
