-- ===== src/Scanner/Output/Items.antt =====
-- The items of an output of tools/data-poc/src/combinedScanner.ts: what their labels rest on, and
-- how they are counted.
use crypto_edge_ai.Common.{
  ◌+◌, ◌≤◌, String, ◌≡◌, ◌≢◌, refl, not, Option, none, some, List, [], ◌∷◌, map, arith, str_eq,
  length, All, Bool-cases, inl, inr,
}
use crypto_edge_ai.Number.{Number}
use crypto_edge_ai.Scanner.Types.{
  CryptoEdgeCandidate, CandidateStatus, NormalizedSecurity, SecurityDecision, SecurityLabel,
}
use crypto_edge_ai.Scanner.Security.{evaluate_security}
use crypto_edge_ai.Scanner.Combined.{
  FinalLabel, CombinedScannerCandidate, build_combined_candidate, how_many, is_rejected, is_checked,
  is_manual, is_critical, is_watchlist, is_security_passed,
}
use crypto_edge_ai.Scanner.Output.{SecurityMap, find_checked, security_part, decision_part, combine}

-- What holds of the items of an output.
module _ {n : Number} where
  -- The sums that hold of the items of an output.
  pub record AddsUp (items : List (CombinedScannerCandidate n)) : Type 0 where
    pub by_filter :
        how_many n (λ d. not (is_rejected d.basic_filter_status)) items
          + how_many n (λ d. is_rejected d.basic_filter_status) items
        ≡ length items
    pub by_label :
        how_many n (λ d. is_rejected d.basic_filter_status) items
          + how_many n (λ d. is_watchlist d.final_label) items
          + how_many n (λ d. is_manual d.final_label) items
          + how_many n (λ d. is_critical d.final_label) items
        ≡ length items
    pub by_security :
        how_many n (λ d. is_watchlist d.final_label) items
        ≡ how_many n (λ d. is_security_passed d.security_label) items
    pub checked_passed :
        how_many n (λ d. is_checked d.security_label) items
        ≤ how_many n (λ d. not (is_rejected d.basic_filter_status)) items

  AddsUp-cons :
      (known : SecurityMap n) (c : CryptoEdgeCandidate n)
      (items : List (CombinedScannerCandidate n))
      → AddsUp items
      → AddsUp (combine known c ∷ items)
  unfolding combine
  AddsUp-cons known c items h = ground arith

  pub AddsUp-map :
      (known : SecurityMap n) (cs : List (CryptoEdgeCandidate n)) → AddsUp (map (combine known) cs)
  AddsUp-map known [] = ground arith
  AddsUp-map known (c ∷ cs) = AddsUp-cons known c _ (AddsUp-map known cs)

  -- Every decision of the map is the rules' decision on the record beside it.
  abbrev pub IsGenuine : SecurityMap n → Type 0
  IsGenuine known = All (λ entry. entry.2 ≡ evaluate_security n entry.1) known

  genuine-find_checked :
      (known : SecurityMap n) (key : String) {s : NormalizedSecurity n} {d : SecurityDecision}
      → IsGenuine known
      → find_checked key known ≡ some (s, d)
      → d ≡ evaluate_security n s
  unfolding find_checked
  genuine-find_checked [] key g e = cc
  genuine-find_checked ((k, s', d') ∷ known) key (g, gs) e = elim (Bool-cases (str_eq k key)) [
    | inl same ↦ ground arith
    | inr other ↦ genuine-find_checked known key gs (ground arith)
  ]

  -- A candidate on the watchlist was not rejected, and the security record that is shown with it
  -- passes the rules.
  abbrev pub IsBacked : CombinedScannerCandidate n → Type 0
  IsBacked item =
      item.decision.final_label ≡ FinalLabel.watchlist
      → (item.candidate.status ≢ CandidateStatus.rejected_basic_filter)
        × (s : NormalizedSecurity n) × (item.security ≡ some s)
        × ((evaluate_security n s).security_label ≡ SecurityLabel.security_passed)

  IsBacked-build :
      (c : CryptoEdgeCandidate n) (found : Option (NormalizedSecurity n × SecurityDecision))
      → ((s : NormalizedSecurity n) (d : SecurityDecision)
          → found ≡ some (s, d)
          → d ≡ evaluate_security n s)
      → IsBacked (build_combined_candidate n c (security_part found) (decision_part found))
  unfolding build_combined_candidate
  IsBacked-build c none g w = ground arith
  IsBacked-build c (some (s, d)) g w = (ground arith, s, ground arith, ground (arith, g s d refl))

  IsBacked-combine :
      (known : SecurityMap n) (c : CryptoEdgeCandidate n)
      → IsGenuine known
      → IsBacked (combine known c)
  unfolding combine
  IsBacked-combine known c g = IsBacked-build c _ (λ s d e. genuine-find_checked known _ g e)

  pub IsBacked-map :
      (known : SecurityMap n) (cs : List (CryptoEdgeCandidate n))
      → IsGenuine known
      → All IsBacked (map (combine known) cs)
  IsBacked-map known [] g = tt
  IsBacked-map known (c ∷ cs) g = (IsBacked-combine known c g, IsBacked-map known cs g)

  candidate-combine :
      (known : SecurityMap n) (c : CryptoEdgeCandidate n) → (combine known c).candidate ≡ c
  unfolding combine
  candidate-combine known c = ground arith

  pub candidates-map :
      (known : SecurityMap n) (cs : List (CryptoEdgeCandidate n))
      → map (λ item. item.candidate) (map (combine known) cs) ≡ cs
  candidates-map known [] = refl
  candidates-map known (c ∷ cs) = cc (candidate-combine known c, candidates-map known cs)
