-- ===== src/Scanner/Discovery/Highest.antt =====
-- The pair that tools/data-poc/src/dexscreenerDiscovery.ts takes for a token.
use crypto_edge_ai.Common.{
  String, ◌≡◌, refl, sym, Bool, true, false, Option, none, some, List, [], ◌∷◌, All, select,
  Bool-cases, inl, inr, ◌⊎◌, arith, if◌then◌else◌,
}
use mathlib.Core.List.{Memᴰ}
use crypto_edge_ai.Number.{Number}
use crypto_edge_ai.Scanner.Pair.{DexScreenerPair}
use crypto_edge_ai.Scanner.Discovery.Match.{IsMatch, matches_iff}
use crypto_edge_ai.Scanner.Discovery.{
  Seed, is_above, matches, better, best_of, highest, select_highest_liquidity_pair,
}

-- What JavaScript's `<` on numbers fulfils, NaN included.
pub record IsStrict (n : Number) : Type 0 where
  pub irreflexive : (a : n.Num) → n.lt a a ≡ false
  pub transitive : (a b c : n.Num) → n.lt a b ≡ true → n.lt b c ≡ true → n.lt a c ≡ true

module _ (n : Number) (strict : IsStrict n) where
  is_above_irreflexive : (a : Option n.Num) → is_above n a a ≡ false
  is_above_irreflexive none = refl
  is_above_irreflexive (some a) = strict.irreflexive a

  -- What is not above a value is not above a greater one.
  is_above_step :
      (p b c : Option n.Num)
      → is_above n c b ≡ true
      → is_above n p b ≡ false
      → is_above n p c ≡ false
  is_above_step none b c h k = refl
  is_above_step (some p) none c h k = absurd (ground arith)
  is_above_step (some p) (some b) none h k = refl
  is_above_step (some p) (some b) (some c) h k = elim (Bool-cases (n.lt c p)) [
    | inl above ↦ absurd (let below = strict.transitive b c p h above in ground arith)
    | inr fine ↦ fine
  ]

  module _ {Info : Type 0} where
    better-keeps :
        (pair best : DexScreenerPair n Info) (p : Option n.Num)
        → is_above n p best.liquidity_usd ≡ false
        → is_above n p (better n pair best).liquidity_usd ≡ false
    better-keeps pair best p h =
        elim (Bool-cases (is_above n pair.liquidity_usd best.liquidity_usd)) [
          | inl above ↦ rw above (is_above_step p best.liquidity_usd pair.liquidity_usd above h)
          | inr below ↦ rw below h
        ]

    better_self :
        (pair best : DexScreenerPair n Info)
        → is_above n pair.liquidity_usd (better n pair best).liquidity_usd ≡ false
    better_self pair best = elim (Bool-cases (is_above n pair.liquidity_usd best.liquidity_usd)) [
      | inl above ↦ rw above (is_above_irreflexive pair.liquidity_usd)
      | inr below ↦ rw below below
    ]

    best_of-keeps :
        (best : DexScreenerPair n Info) (pairs : List (DexScreenerPair n Info)) (p : Option n.Num)
        → is_above n p best.liquidity_usd ≡ false
        → is_above n p (best_of n best pairs).liquidity_usd ≡ false
    best_of-keeps best [] p h = h
    best_of-keeps best (pair ∷ pairs) p h =
        best_of-keeps (better n pair best) pairs p (better-keeps pair best p h)

    -- No pair has more liquidity than the best.
    best_of-unbeaten :
        (best : DexScreenerPair n Info) (pairs : List (DexScreenerPair n Info))
        → All (λ p. is_above n p.liquidity_usd (best_of n best pairs).liquidity_usd ≡ false) pairs
    best_of-unbeaten best [] = tt
    best_of-unbeaten best (pair ∷ pairs) = (
      best_of-keeps (better n pair best) pairs pair.liquidity_usd (better_self pair best),
      best_of-unbeaten (better n pair best) pairs,
    )

    better-cases :
        (pair best : DexScreenerPair n Info)
        → (better n pair best ≡ pair) ⊎ (better n pair best ≡ best)
    better-cases pair best = elim (Bool-cases (is_above n pair.liquidity_usd best.liquidity_usd)) [
      | inl above ↦ rw above (inl refl)
      | inr below ↦ rw below (inr refl)
    ]

    best_of-All :
        (P : DexScreenerPair n Info → Type 0) (best : DexScreenerPair n Info)
        (pairs : List (DexScreenerPair n Info))
        → P best
        → All P pairs
        → P (best_of n best pairs)
    best_of-All P best [] h hs = h
    best_of-All P best (pair ∷ pairs) h (k, ks) = elim (better-cases pair best) [
      | inl new ↦ best_of-All P (better n pair best) pairs (rw new k) ks
      | inr old ↦ best_of-All P (better n pair best) pairs (rw old h) ks
    ]

All-map {ℓ} :
    {A : Type ℓ} {P Q : A → Type 0} → ((x : A) → P x → Q x) → (xs : List A) → All P xs → All Q xs
All-map f [] h = tt
All-map f (x ∷ xs) (h, hs) = (f x h, All-map f xs hs)

All-equal {ℓ} : {A : Type ℓ} (Q : A → Type ℓ) {xs ys : List A} → xs ≡ ys → All Q xs → All Q ys
All-equal Q e h = rw (sym e) h

-- A list and its selection.
module _ {ℓ} {A : Type ℓ} (p : A → Bool) where
  All-if :
      (Q : A → Type ℓ) (b : Bool) (x : A) (ys : List A)
      → (b ≡ true → Q x)
      → All Q ys
      → All Q (if b then x ∷ ys else ys)
  All-if Q true x ys h hs = (h refl, hs)
  All-if Q false x ys h hs = hs

  All-of_if :
      (Q : A → Type ℓ) (b : Bool) (x : A) (ys : List A)
      → All Q (if b then x ∷ ys else ys)
      → ((b ≡ false) ⊎ Q x) × All Q ys
  All-of_if Q true x ys (h, hs) = (inr h, hs)
  All-of_if Q false x ys hs = (inl refl, hs)

  select-All :
      (xs every : List A)
      → ((x : A) → Memᴰ x xs → Memᴰ x every)
      → All (λ x. Memᴰ x every × (p x ≡ true)) (select p xs)
  select-All [] every h = tt
  select-All (x ∷ xs) every h =
      All-if (λ y. Memᴰ y every × (p y ≡ true)) (p x) x (select p xs)
        (λ e. (h x (Memᴰ.head refl), e)) (select-All xs every (λ y m. h y (Memᴰ.tail m)))

  All-of_select :
      (Q : A → Type ℓ) (xs : List A) → All Q (select p xs) → All (λ x. (p x ≡ false) ⊎ Q x) xs
  All-of_select Q [] h = tt
  All-of_select Q (x ∷ xs) h =
      let (first, rest) = All-of_if Q (p x) x (select p xs) h in (first, All-of_select Q xs rest)

  All-of_none :
      (b : Bool) (x : A) (ys : List A) → (if b then x ∷ ys else ys) ≡ [] → (b ≡ false) × (ys ≡ [])
  All-of_none true x ys h = absurd (cc)
  All-of_none false x ys h = (refl, h)

  select-nil : (xs : List A) → select p xs ≡ [] → All (λ x. p x ≡ false) xs
  select-nil [] h = tt
  select-nil (x ∷ xs) h =
      let (first, rest) = All-of_none (p x) x (select p xs) h in (first, select-nil xs rest)

module _ (lower trim : String → String) (n : Number) {Info : Type 0} where
  -- Of the pairs that match, the one that is taken is among them and none has more liquidity.
  pub IsHighest : Seed → List (DexScreenerPair n Info) → Option (DexScreenerPair n Info) → Type 0
  IsHighest seed pairs none = All (λ pair. ¬ IsMatch lower n seed pair) pairs
  IsHighest seed pairs (some best) =
      (Memᴰ best pairs × IsMatch lower n seed best)
      × All
          (λ pair.
            (¬ IsMatch lower n seed pair)
            ⊎ (is_above n pair.liquidity_usd best.liquidity_usd ≡ false))
          pairs

  fails :
      (seed : Seed) (pair : DexScreenerPair n Info)
      → matches lower trim n seed pair ≡ false
      → ¬ IsMatch lower n seed pair
  fails seed pair h m = let good = (matches_iff lower trim n seed pair).1 m in absurd (cc)

  abbrev IsOne : Seed → List (DexScreenerPair n Info) → DexScreenerPair n Info → Type 0
  IsOne seed pairs pair = Memᴰ pair pairs × (matches lower trim n seed pair ≡ true)

  abbrev IsBelow : DexScreenerPair n Info → DexScreenerPair n Info → Type 0
  IsBelow best pair = is_above n pair.liquidity_usd best.liquidity_usd ≡ false

  highest-IsHighest :
      (strict : IsStrict n) (seed : Seed) (pairs matching : List (DexScreenerPair n Info))
      → select (matches lower trim n seed) pairs ≡ matching
      → IsHighest seed pairs (highest n matching)
  unfolding IsHighest
  highest-IsHighest strict seed pairs [] e =
      All-map (fails seed) pairs (select-nil (matches lower trim n seed) pairs e)
  highest-IsHighest strict seed pairs (pair ∷ rest) e =
      let test = matches lower trim n seed in
      let best = best_of n pair rest in
      let (first, others) : IsOne seed pairs pair × All (IsOne seed pairs) rest =
        All-equal (IsOne seed pairs) e (select-All test pairs pairs (λ _ m. m)) in
      (
        (let (among, good) = best_of-All n strict (IsOne seed pairs) pair rest first others in
            (among, (matches_iff lower trim n seed best).0 good)),
        All-map (λ p o. elim o [ inl no' ↦ inl (fails seed p no') | inr below ↦ inr below ]) pairs
            (All-of_select test (IsBelow best) pairs (
              rw e (
                best_of-keeps n strict pair rest pair.liquidity_usd
                    (is_above_irreflexive n strict pair.liquidity_usd),
                best_of-unbeaten n strict pair rest,
              ))),
      )

  -- The pair taken for a seed is one of the given pairs; its chain and the address of its base token
  -- are the seed's up to case, its liquidity is known, finite and not negative, and no pair of this
  -- kind has more liquidity. No pair is taken only if none is of this kind. `<` is taken to be
  -- irreflexive and transitive.
  pub select_highest_liquidity_pair-IsHighest :
      (strict : IsStrict n) (seed : Seed) (pairs : List (DexScreenerPair n Info))
      → IsHighest seed pairs (select_highest_liquidity_pair lower trim n seed pairs)
  unfolding select_highest_liquidity_pair
  select_highest_liquidity_pair-IsHighest strict seed pairs =
      highest-IsHighest strict seed pairs (select (matches lower trim n seed) pairs) refl
