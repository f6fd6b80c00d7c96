-- ===== src/Scanner/Normalize/Laws.antt =====
-- What the security record of tools/data-poc/src/normalizeSecurity.ts says of the providers' answers.
use crypto_edge_ai.Common.{
  String, ◌≡◌, ◌↔◌, ◌≢◌, refl, ap, Bool, true, false, not, Option, none, some, List, [], ◌∷◌, arith,
  ◌⊎◌,
}
use crypto_edge_ai.Number.{Number}
use crypto_edge_ai.Json.{Fields}
use crypto_edge_ai.Scanner.Types.{NormalizedSecurity, SecurityLabel, HoneypotStatus}
use crypto_edge_ai.Scanner.Security.Verdict.{
  honeypot, evaluate_security_iff, evaluate_security-passed,
}
use crypto_edge_ai.Scanner.Security.{evaluate_security, push_all, is_null}
use crypto_edge_ai.Scanner.Normalize.{
  flag, as_value, extract_goplus_token, merge_honeypot_status, security_of, missing_data_of,
  missing_tests, is_unknown_status, normalize_security,
}

merge-failed :
    (g h : Option Bool)
    → ((merge_honeypot_status g h ≡ HoneypotStatus.failed) ↔ ((g ≡ some true) ⊎ (h ≡ some true)))
      × ((merge_honeypot_status g h ≡ HoneypotStatus.unknown) ↔ ((g ≡ none) × (h ≡ none)))
unfolding merge_honeypot_status
merge-failed g h = ground arith

-- None of the tests passes.
abbrev NoTest : List (Bool × String) → Type 0
NoTest [] = Unit {0}
NoTest ((test, _) ∷ rest) = (test ≡ false) × NoTest rest

NoTest-of_nil : (ts : List (Bool × String)) → push_all ts ≡ [] → NoTest ts
NoTest-of_nil [] h = tt
NoTest-of_nil ((true, _) ∷ ts) h = cc
NoTest-of_nil ((false, _) ∷ ts) h = (refl, NoTest-of_nil ts h)

nil_of_NoTest : (ts : List (Bool × String)) → NoTest ts → push_all ts ≡ []
nil_of_NoTest [] h = refl
nil_of_NoTest ((true, _) ∷ ts) h = cc (h.0)
nil_of_NoTest ((false, _) ∷ ts) h = nil_of_NoTest ts h.1

not_null {ℓ} : {A : Type ℓ} (o : Option A) → o ≢ none → is_null o ≡ false
not_null none h = absurd (h refl)
not_null (some _) h = refl

known_status : (h : HoneypotStatus) → h ≢ HoneypotStatus.unknown → is_unknown_status h ≡ false
known_status HoneypotStatus.passed h = refl
known_status HoneypotStatus.failed h = refl
known_status HoneypotStatus.unknown h = absurd (h refl)

-- Nothing that `collectMissingData` looks for is missing.
pub record IsComplete (n : Number) (s : NormalizedSecurity n) : Type 0 where
  pub honeypot_known : s.honeypot_status ≢ HoneypotStatus.unknown
  pub buy_tax_known : s.buy_tax ≢ none
  pub sell_tax_known : s.sell_tax ≢ none
  pub verification_known : s.contract_verified ≢ none
  pub lock_known : s.liquidity_locked ≢ none
  pub top_wallet_known : s.top_wallet_pct ≢ none
  pub top_10_wallets_known : s.top_10_wallets_pct ≢ none
  pub goplus_answered : s.goplus_available ≡ true
  pub honeypot_answered : s.honeypot_available ≡ true

module _ (n : Number) (s : NormalizedSecurity n) (missing : List String) where
  IsComplete-of_nil : missing_data_of n s ≡ [] → IsComplete n (record s { missing_data = missing })
  IsComplete-of_nil e =
      let none_passes = NoTest-of_nil (missing_tests n s) e in
      record {
        honeypot_known = λ u. ground (arith, none_passes);
        buy_tax_known = λ u. ground (arith, none_passes);
        sell_tax_known = λ u. ground (arith, none_passes);
        verification_known = λ u. ground (arith, none_passes);
        lock_known = λ u. ground (arith, none_passes);
        top_wallet_known = λ u. ground (arith, none_passes);
        top_10_wallets_known = λ u. ground (arith, none_passes);
        goplus_answered = ground (arith, none_passes);
        honeypot_answered = ground (arith, none_passes);
      }

  nil_of_complete : IsComplete n (record s { missing_data = missing }) → missing_data_of n s ≡ []
  nil_of_complete c = nil_of_NoTest (missing_tests n s) (
      assumption (
        known_status _ c.honeypot_known,
        not_null _ c.buy_tax_known,
        not_null _ c.sell_tax_known,
        not_null _ c.verification_known,
        not_null _ c.lock_known,
        not_null _ c.top_wallet_known,
        not_null _ c.top_10_wallets_known,
        ap not c.goplus_answered,
        ap not c.honeypot_answered,
        tt,
      ))

module _ (n : Number) (lower : String → String) (is_blank : String → Bool) where
  pub normalize_security-decision :
      (address : Option String) (goplus_raw honeypot_raw : Option (Fields n))
      → (normalize_security n lower is_blank address goplus_raw honeypot_raw).1
        ≡ evaluate_security n
            (normalize_security n lower is_blank address goplus_raw honeypot_raw).0
  unfolding normalize_security
  normalize_security-decision address goplus_raw honeypot_raw = refl

  -- A token that passes was answered for by both providers.
  pub normalize_security-passed :
      (address : Option String) (goplus_raw honeypot_raw : Option (Fields n))
      → (normalize_security n lower is_blank address goplus_raw honeypot_raw).1.security_label
        ≡ SecurityLabel.security_passed
      → (goplus_raw ≢ none) × (honeypot_raw ≢ none)
  unfolding normalize_security security_of
  normalize_security-passed address goplus_raw honeypot_raw h =
      let facts = evaluate_security-passed n _ h in
      (λ e. ground (arith, facts.0), λ e. ground (arith, facts.1))

  -- What the two providers say of a honeypot, where their answers are read.
  abbrev pub goplus_says : Option String → Option (Fields n) → Option Bool
  goplus_says address goplus_raw =
      flag n lower is_blank
        (as_value n lower is_blank (extract_goplus_token n lower is_blank goplus_raw address))
        (("is_honeypot" ∷ []) ∷ ("honeypot" ∷ []) ∷ [])

  abbrev pub honeypot_says : Option (Fields n) → Option Bool
  honeypot_says honeypot_raw =
      flag n lower is_blank (as_value n lower is_blank honeypot_raw)
        (("honeypotResult" ∷ "isHoneypot" ∷ []) ∷ ("isHoneypot" ∷ []) ∷ ("honeypot" ∷ []) ∷ [])

  abbrev pub status_of : Option String → Option (Fields n) → Option (Fields n) → HoneypotStatus
  status_of address goplus_raw honeypot_raw =
      (normalize_security n lower is_blank address goplus_raw honeypot_raw).0.honeypot_status

  -- The merged honeypot status is `failed` exactly when one of the providers says so, `unknown`
  -- exactly when neither says anything, and `failed` makes the token a critical risk, whatever
  -- the other provider says.
  pub normalize_security-honeypot :
      (address : Option String) (goplus_raw honeypot_raw : Option (Fields n))
      → ((status_of address goplus_raw honeypot_raw ≡ HoneypotStatus.failed) ↔ (
          (goplus_says address goplus_raw ≡ some true) ⊎ (honeypot_says honeypot_raw ≡ some true)))
        × ((status_of address goplus_raw honeypot_raw ≡ HoneypotStatus.unknown)
            ↔ ((goplus_says address goplus_raw ≡ none) × (honeypot_says honeypot_raw ≡ none)))
        × (status_of address goplus_raw honeypot_raw ≡ HoneypotStatus.failed
            → (normalize_security n lower is_blank address goplus_raw honeypot_raw).1.security_label
              ≡ SecurityLabel.critical_risk)
  unfolding normalize_security security_of
  normalize_security-honeypot address goplus_raw honeypot_raw =
      let g = goplus_says address goplus_raw in
      let h = honeypot_says honeypot_raw in
      (
        (merge-failed g h).0,
        (merge-failed g h).1,
        λ e. (evaluate_security_iff n _).0.1 (honeypot e),
      )

  -- The record names nothing missing exactly when both providers answered and each of the seven
  -- facts that it looks for is known: the honeypot status, the two taxes, the verification, the lock
  -- of the liquidity and the shares of the largest wallets. The owner is not one of them.
  pub missing_data-nil :
      (address : Option String) (goplus_raw honeypot_raw : Option (Fields n))
      → let s = (normalize_security n lower is_blank address goplus_raw honeypot_raw).0 in
        (s.missing_data ≡ []) ↔ IsComplete n s
  unfolding normalize_security
  missing_data-nil address goplus_raw honeypot_raw =
      let token = extract_goplus_token n lower is_blank goplus_raw address in
      let s = security_of n lower is_blank goplus_raw honeypot_raw token in
      (IsComplete-of_nil n s (missing_data_of n s), nil_of_complete n s (missing_data_of n s))
