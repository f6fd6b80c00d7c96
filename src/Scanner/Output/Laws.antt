-- ===== src/Scanner/Output/Laws.antt =====
-- What buildCombinedScannerOutput of tools/data-poc/src/combinedScanner.ts promises: which
-- candidates the provider is called with, what a label rests on, and how the summary adds up.
use crypto_edge_ai.Common.{
  ℕ, zero, suc, ◌+◌, ◌≤◌, String, ◌≡◌, refl, Bool, true, ◌&&◌, List, [], ◌∷◌, map, arith, length,
  select, take, Result, ok, err, All, Bool-cases, inl, inr, length-take-le, length-map, bind-eq-ok,
  bind-eq-err, ok_injective,
}
use crypto_edge_ai.Number.{Number}
use crypto_edge_ai.Scanner.Types.{CryptoEdgeCandidate, CandidateStatus}
use crypto_edge_ai.Scanner.Normalize.Laws.{normalize_security-decision}
use crypto_edge_ai.Scanner.Combined.{PocMode, build_summary, is_passed}
use crypto_edge_ai.Scanner.Output.{
  CombinedScannerOutput, Answers, has_contract, Progress, add_answers, check_candidate,
  check_candidates, to_check, build_combined_scanner_output, combine,
}
use crypto_edge_ai.Scanner.Output.Items.{
  AddsUp-map, IsGenuine, IsBacked, IsBacked-map, candidates-map,
}

module _ {ℓ} {A : Type ℓ} where
  All-select : (p : A → Bool) (xs : List A) → All (λ x. p x ≡ true) (select p xs)
  All-select p [] = tt
  All-select p (x ∷ xs) = elim (Bool-cases (p x)) [
    | inl yes' ↦ rw yes' (yes', All-select p xs)
    | inr no' ↦ rw no' (All-select p xs)
  ]

  All-take {κ} : (P : A → Type κ) (k : ℕ) (xs : List A) → All P xs → All P (take k xs)
  All-take P zero xs h = tt
  All-take P (suc k) [] h = tt
  All-take P (suc k) (x ∷ xs) (h, hs) = (h, All-take P k xs hs)

All-implies {ℓ κ μ} :
    {A : Type ℓ} (P : A → Type κ) (Q : A → Type μ)
    → ((x : A) → P x → Q x)
    → (xs : List A) → All P xs
    → All Q xs
All-implies P Q f [] h = tt
All-implies P Q f (x ∷ xs) (h, hs) = (f x h, All-implies P Q f xs hs)

module _ {n : Number} where
  -- The provider is only called with such a candidate.
  abbrev pub IsCallable : CryptoEdgeCandidate n → Type 0
  IsCallable c =
      (c.status ≡ CandidateStatus.passed_basic_filter) × (has_contract c.contract_address ≡ true)

  -- What holds of the loop's variables.
  record IsSound (p : Progress n) : Type 0 where
    genuine : IsGenuine p.known
    callable : All IsCallable p.calls

module _ (n : Number) (lower : String → String) (is_blank : String → Bool)
    (provider : ℕ → CryptoEdgeCandidate n → Result (Answers n)) where
  add_answers-IsSound :
      (c : CryptoEdgeCandidate n) (p : Progress n) (raw : Answers n)
      → IsCallable c
      → IsSound p
      → IsSound (add_answers n lower is_blank provider c p raw)
  unfolding add_answers
  add_answers-IsSound c p raw callable sound = record {
    genuine = (
      normalize_security-decision n lower is_blank c.contract_address raw.0 raw.1,
      sound.genuine,
    );
    callable = (callable, sound.callable);
  }

  calls-add_answers :
      (c : CryptoEdgeCandidate n) (p : Progress n) (raw : Answers n)
      → length (add_answers n lower is_blank provider c p raw).calls ≡ suc (length p.calls)
  unfolding add_answers
  calls-add_answers c p raw = refl

  check_candidates-IsSound :
      (cs : List (CryptoEdgeCandidate n)) (p q : Progress n)
      → check_candidates n lower is_blank provider cs p ≡ ok q
      → All (λ c. c.status ≡ CandidateStatus.passed_basic_filter) cs
      → IsSound p
      → IsSound q × (length q.calls ≤ length cs + length p.calls)
  unfolding check_candidates check_candidate
  check_candidates-IsSound [] p q e h sound = rw (← ok_injective e) (sound, omega arith)
  check_candidates-IsSound (c ∷ cs) p q e (h, hs) sound =
      elim (Bool-cases (has_contract c.contract_address)) [
        | inl here ↦
            let (next, called, e') =
              bind-eq-ok (check_candidate n lower is_blank provider c p)
                (check_candidates n lower is_blank provider cs) (rw here at e) in
            let (raw, answered, same) = bind-eq-ok (provider (length p.calls) c) _ called in
            let p' = add_answers n lower is_blank provider c p raw in
            let (sound', few) =
              check_candidates-IsSound cs p' q (rw (← ok_injective same) at e') hs
                (add_answers-IsSound c p raw (h, here) sound) in
            (sound', omega (arith, few, calls-add_answers c p raw))
        | inr missing ↦
            let (sound', few) = check_candidates-IsSound cs p q (rw missing at e) hs sound in
            (sound', omega arith)
      ]

  -- An error of the loop is one that the provider threw.
  check_candidates-err :
      (cs : List (CryptoEdgeCandidate n)) (p : Progress n) {code : String}
      → check_candidates n lower is_blank provider cs p ≡ err code
      → (i : ℕ) × (c : CryptoEdgeCandidate n) × (provider i c ≡ err code)
  unfolding check_candidates check_candidate
  check_candidates-err [] p e = cc
  check_candidates-err (c ∷ cs) p e = elim (Bool-cases (has_contract c.contract_address)) [
    | inl here ↦
        elim (bind-eq-err (check_candidate n lower is_blank provider c p)
          (check_candidates n lower is_blank provider cs) (rw here at e)) [
            | inl thrown ↦ elim (bind-eq-err (provider (length p.calls) c) _ thrown) [
              | inl asked ↦ (length p.calls, c, asked)
              | inr (raw, _, absurdity) ↦ cc
            ]
            | inr (next, _, later) ↦ check_candidates-err cs next later
          ]
    | inr missing ↦ check_candidates-err cs p (rw missing at e)
  ]

  module _ (eligible : CryptoEdgeCandidate n → Bool) (mode : PocMode) (query generated_at : String)
      (max : ℕ) (cs : List (CryptoEdgeCandidate n)) where
    abbrev pub build : Result (List (CryptoEdgeCandidate n) × CombinedScannerOutput n)
    build =
        build_combined_scanner_output n lower is_blank provider eligible mode query generated_at max
          cs

    to_check-passed :
        All
          (λ c. c.status ≡ CandidateStatus.passed_basic_filter)
          (to_check n lower is_blank provider eligible max cs)
        × (length (to_check n lower is_blank provider eligible max cs) ≤ max)
    unfolding to_check
    to_check-passed =
        let test = λ (c : CryptoEdgeCandidate n). is_passed c.status && eligible c in
        (
          All-implies _ _ (λ c h. ground arith) _ (All-take _ max _ (All-select test cs)),
          length-take-le max (select test cs),
        )

    -- An output, taken apart.
    record IsOutput (calls : List (CryptoEdgeCandidate n)) (out : CombinedScannerOutput n)
        : Type 0 where
      progress : Progress n
      sound : IsSound progress
      bounded : length calls ≤ max
      called : calls ≡ progress.calls
      items : out.candidates ≡ map (combine progress.known) cs
      summary : out.summary ≡ build_summary n (length cs) (map (combine progress.known) cs)

    build-IsOutput :
        (calls : List (CryptoEdgeCandidate n)) (out : CombinedScannerOutput n)
        → build ≡ ok (calls, out)
        → IsOutput calls out
    unfolding build_combined_scanner_output
    build-IsOutput calls out e =
        let chosen = to_check n lower is_blank provider eligible max cs in
        let start : Progress n = record { calls = []; known = [] } in
        let (p, checked, same) =
          bind-eq-ok (check_candidates n lower is_blank provider chosen start) _ e in
        let (passed, few) = to_check-passed in
        let (sound, bounded) =
          check_candidates-IsSound chosen start p checked passed
            (record { genuine = tt; callable = tt }) in
        record {
          progress = p;
          sound = sound;
          bounded = ground arith;
          called = ground arith;
          items = ground arith;
          summary = ground arith;
        }

    -- The security provider is called at most `max` times, and only with candidates that passed the
    -- basic filter and have a contract address.
    pub build-calls :
        (calls : List (CryptoEdgeCandidate n)) (out : CombinedScannerOutput n)
        → build ≡ ok (calls, out)
        → (length calls ≤ max) × All IsCallable calls
    build-calls calls out e =
        let o = build-IsOutput calls out e in (o.bounded, rw o.called o.sound.callable)

    -- The output lists the input's candidates in their order, and a candidate on the watchlist was
    -- not rejected and comes with a security record that passes the rules.
    pub build-watchlist :
        (calls : List (CryptoEdgeCandidate n)) (out : CombinedScannerOutput n)
        → build ≡ ok (calls, out)
        → (map (λ item. item.candidate) out.candidates ≡ cs) × All IsBacked out.candidates
    build-watchlist calls out e =
        let o = build-IsOutput calls out e in
        rw o.items (candidates-map o.progress.known cs, IsBacked-map _ cs o.sound.genuine)

    -- The summary adds up: the passed and the rejected make all; so do the rejected, the watchlist,
    -- those for a manual check and the critical ones; the watchlist is as long as the list of those
    -- that passed the security rules; and no more are checked than passed the filter.
    pub build-summary :
        (calls : List (CryptoEdgeCandidate n)) (out : CombinedScannerOutput n)
        → build ≡ ok (calls, out)
        → let s = out.summary in
          (s.total_raw ≡ length cs)
          × (s.passed_basic_filter + s.rejected_basic_filter ≡ s.total_raw)
          × (s.rejected_basic_filter + s.watchlist_candidates + s.needs_manual_verification
                + s.critical_risk
              ≡ s.total_raw)
          × (s.watchlist_candidates ≡ s.security_passed)
          × (s.security_checked ≤ s.passed_basic_filter)
    unfolding build_summary
    build-summary calls out e =
        let o = build-IsOutput calls out e in
        let sums = AddsUp-map o.progress.known cs in
        let size = length-map (combine o.progress.known) cs in
        rw o.summary (
          refl,
          omega (arith, sums.by_filter, size),
          omega (arith, sums.by_label, size),
          sums.by_security,
          sums.checked_passed,
        )

    -- Without an error of the provider there is an output, and an error is one that the provider
    -- threw.
    pub build-err :
        {code : String}
        → build ≡ err code
        → (i : ℕ) × (c : CryptoEdgeCandidate n) × (provider i c ≡ err code)
    unfolding build_combined_scanner_output
    build-err e =
        elim (bind-eq-err
          (check_candidates n lower is_blank provider
            (to_check n lower is_blank provider eligible max cs)
            (record { calls = []; known = [] }))
          _ e) [ inl thrown ↦ check_candidates-err _ _ thrown | inr (p, _, absurdity) ↦ cc ]
