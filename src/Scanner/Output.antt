-- ===== src/Scanner/Output.antt =====
-- tools/data-poc/src/combinedScanner.ts: the security checks of the candidates that pass the basic
-- filter, and the output. A call of the provider is given the number of the calls before it, so
-- that its answers may differ from call to call; it may throw. The number of candidates to check is
-- a natural number, which its callers clamp it to.
pub mod Items
pub mod Laws
mod Tests
use crypto_edge_ai.Common.{
  ℕ, String, Bool, false, not, ◌&&◌, Option, none, some, List, [], ◌∷◌, map, if◌then◌else◌, str_eq,
  length, select, take, Result, ok, ◌>>=◌,
}
use crypto_edge_ai.Number.{Number}
use crypto_edge_ai.Json.{Fields}
use crypto_edge_ai.Scanner.Types.{CryptoEdgeCandidate, NormalizedSecurity, SecurityDecision}
use crypto_edge_ai.Scanner.Normalize.{normalize_security}
use crypto_edge_ai.Scanner.Combined.{
  PocMode, Summary, CombinedScannerCandidate, is_passed, candidate_key, build_combined_candidate,
  build_summary,
}

-- What `buildCombinedScannerOutput` returns.
pub record CombinedScannerOutput (n : Number) : Type 0 where
  pub mode : PocMode
  pub query : String
  pub generated_at : String
  pub max_candidates : ℕ
  pub summary : Summary
  pub candidates : List (CombinedScannerCandidate n)

-- The answers of the two security providers for one candidate.
abbrev pub Answers : Number → Type 0
Answers n = Option (Fields n) × Option (Fields n)

-- The entries of `securityByCandidateKey`, the latest first: `set` replaces what a key had.
abbrev pub SecurityMap : Number → Type 0
SecurityMap n = List (String × NormalizedSecurity n × SecurityDecision)

module _ {n : Number} where
  unfoldable pub find_checked :
      String → SecurityMap n → Option (NormalizedSecurity n × SecurityDecision)
  find_checked key [] = none
  find_checked key ((k, s, d) ∷ rest) = if str_eq k key then some (s, d) else find_checked key rest

  -- `securityResult?.security ?? null`.
  abbrev pub security_part :
      Option (NormalizedSecurity n × SecurityDecision) → Option (NormalizedSecurity n)
  security_part none = none
  security_part (some (s, d)) = some s

  abbrev pub decision_part :
      Option (NormalizedSecurity n × SecurityDecision) → Option SecurityDecision
  decision_part none = none
  decision_part (some (s, d)) = some d

-- A contract address that is neither `null` nor empty.
abbrev pub has_contract : Option String → Bool
has_contract none = false
has_contract (some address) = not (str_eq address "")

module _ {n : Number} where
  pub combine : SecurityMap n → CryptoEdgeCandidate n → CombinedScannerCandidate n
  unfolding find_checked candidate_key build_combined_candidate
  combine known c =
      let found = find_checked (candidate_key n c) known in
      build_combined_candidate n c (security_part found) (decision_part found)

-- What the loop over the candidates keeps: the candidates that the provider was called with, the
-- latest first, and the map.
pub record Progress (n : Number) : Type 0 where
  pub calls : List (CryptoEdgeCandidate n)
  pub known : SecurityMap n

module _ (n : Number) (lower : String → String) (is_blank : String → Bool)
    (provider : ℕ → CryptoEdgeCandidate n → Result (Answers n)) where
  -- The entry of the map for what the provider answered.
  add_answers : CryptoEdgeCandidate n → Progress n → Answers n → Progress n
  unfolding candidate_key
  add_answers c p raw =
      let (security, decision) =
        normalize_security n lower is_blank c.contract_address raw.0 raw.1 in
      record { calls = c ∷ p.calls; known = (candidate_key n c, security, decision) ∷ p.known }

  check_candidate : CryptoEdgeCandidate n → Progress n → Result (Progress n)
  unfolding add_answers
  check_candidate c p = do raw ← provider (length p.calls) c; ok (add_answers c p raw)

  -- The loop: a candidate with no contract is passed over.
  check_candidates : List (CryptoEdgeCandidate n) → Progress n → Result (Progress n)
  check_candidates [] p = ok p
  check_candidates (c ∷ cs) p = do
    next ← if has_contract c.contract_address then check_candidate c p else ok p
    check_candidates cs next

  -- The candidates to check: passed and eligible, the first `max` of them.
  to_check :
      (CryptoEdgeCandidate n → Bool)
      → ℕ
      → List (CryptoEdgeCandidate n)
      → List (CryptoEdgeCandidate n)
  to_check eligible max cs = take max (select (λ c. is_passed c.status && eligible c) cs)

  -- `buildCombinedScannerOutput`: what the provider was called with, and the output.
  pub build_combined_scanner_output :
      (CryptoEdgeCandidate n → Bool)
      → PocMode
      → String
      → String
      → ℕ
      → List (CryptoEdgeCandidate n)
      → Result (List (CryptoEdgeCandidate n) × CombinedScannerOutput n)
  build_combined_scanner_output eligible mode query generated_at max cs = do
    p ← check_candidates (to_check eligible max cs) (record { calls = []; known = [] })
    let combined = map (combine p.known) cs
    ok (
      p.calls,
      record {
        mode = mode;
        query = query;
        generated_at = generated_at;
        max_candidates = max;
        summary = build_summary n (length cs) combined;
        candidates = combined;
      },
    )
