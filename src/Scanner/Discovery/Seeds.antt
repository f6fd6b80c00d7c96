-- ===== src/Scanner/Discovery/Seeds.antt =====
-- The tokens that tools/data-poc/src/dexscreenerDiscovery.ts asks for.
use crypto_edge_ai.Common.{
  ℕ, suc, ◌≤◌, String, ◌≡◌, refl, ap, true, Option, none, some, List, [], ◌∷◌, ◌++◌, leb, includes,
  length, length-append, map, All, All-append, Bool-cases, inl, inr, arith,
}
use mathlib.Core.List.{Memᴰ}
use crypto_edge_ai.Scanner.Discovery.Distinct.{Distinct, Distinct-snoc, map-append}
use crypto_edge_ai.Scanner.Discovery.{
  DexScreenerTokenProfile, Seed, clamp_seed_limit, seed_key, seed_of, keep, seed_loop,
}

pub clamp_seed_limit-bounds :
    (limit : Option ℕ) → (1 ≤ clamp_seed_limit limit) × (clamp_seed_limit limit ≤ 30)
unfolding clamp_seed_limit
clamp_seed_limit-bounds none = (ground arith, ground arith)
clamp_seed_limit-bounds (some v) = (ground arith, ground arith)

module _ (lower trim : String → String) where
  -- The loop's state: the keys that were seen are those of the seeds, and each once.
  pub record IsState (limit : ℕ) (state : List Seed × List String) : Type 0 where
    pub seen : state.1 ≡ map (seed_key lower trim) state.0
    pub distinct : Distinct state.1
    pub few : length state.0 ≤ limit

  abbrev pub OfSeed : (Seed → Type 0) → Option Seed → Type 0
  OfSeed P none = Unit
  OfSeed P (some seed) = P seed

  pub keep-IsState :
      (limit : ℕ) (seed : Option Seed) (state : List Seed × List String)
      → IsState limit state
      → suc (length state.0) ≤ limit
      → IsState limit (keep lower trim seed state)
  keep-IsState limit none state s h = s
  keep-IsState limit (some seed) (selected, seen) s h =
      elim (Bool-cases (includes seen (seed_key lower trim seed))) [
        | inl known ↦ rw known s
        | inr fresh ↦ rw fresh (record {
          seen =
              rw (map-append (seed_key lower trim) selected (seed ∷ []))
                (ap (λ xs. xs ++ seed_key lower trim seed ∷ []) s.seen);
          distinct = Distinct-snoc seen _ s.distinct fresh;
          few = omega (arith, length-append selected (seed ∷ []));
        })
      ]

  pub IsState-start : (limit : ℕ) → IsState limit ([], [])
  IsState-start limit = record { seen = refl; distinct = tt; few = omega arith }

  -- Every seed comes from a profile.
  abbrev pub IsSeedOf : List DexScreenerTokenProfile → Seed → Type 0
  IsSeedOf profiles seed =
      (profile : DexScreenerTokenProfile) × Memᴰ profile profiles
      × (seed_of lower trim profile ≡ some seed)

  -- The key of the seed, if there is one, is among the keys.
  abbrev pub IsCovered : List Seed → Option Seed → Type 0
  IsCovered seeds none = Unit
  IsCovered seeds (some seed) =
      includes (map (seed_key lower trim) seeds) (seed_key lower trim seed) ≡ true

  pub seed_loop-IsState :
      (limit : ℕ) (profiles : List DexScreenerTokenProfile) (state : List Seed × List String)
      → IsState limit state
      → (seen : List String) × IsState limit (seed_loop lower trim limit profiles state, seen)
  seed_loop-IsState limit [] state s = (state.1, s)
  seed_loop-IsState limit (profile ∷ profiles) state s =
      elim (Bool-cases (leb limit (length state.0))) [
        | inl full ↦ rw full (state.1, s)
        | inr free ↦ rw free (
            seed_loop-IsState limit profiles _
              (keep-IsState limit (seed_of lower trim profile) state s (ground arith)))
      ]

  keep-All :
      (P : Seed → Type 0) (seed : Option Seed) (state : List Seed × List String)
      → All P state.0
      → OfSeed P seed
      → All P (keep lower trim seed state).0
  keep-All P none state all h = all
  keep-All P (some seed) (selected, seen) all h =
      elim (Bool-cases (includes seen (seed_key lower trim seed))) [
        | inl known ↦ rw known all
        | inr fresh ↦ rw fresh (All-append P selected (seed ∷ []) all (h, tt))
      ]

  pub seed_loop-All :
      (P : Seed → Type 0) (limit : ℕ) (profiles : List DexScreenerTokenProfile)
      (state : List Seed × List String)
      → All P state.0
      → All (λ profile. OfSeed P (seed_of lower trim profile)) profiles
      → All P (seed_loop lower trim limit profiles state)
  seed_loop-All P limit [] state all h = all
  seed_loop-All P limit (profile ∷ profiles) state all (h, hs) =
      elim (Bool-cases (leb limit (length state.0))) [
        | inl full ↦ rw full all
        | inr free ↦ rw free (
            seed_loop-All P limit profiles _ (keep-All P (seed_of lower trim profile) state all h)
              hs)
      ]

  OfSeed-self :
      (profiles : List DexScreenerTokenProfile) (profile : DexScreenerTokenProfile)
      (seed : Option Seed)
      → Memᴰ profile profiles
      → seed_of lower trim profile ≡ seed
      → OfSeed (IsSeedOf profiles) seed
  OfSeed-self profiles profile none m e = tt
  OfSeed-self profiles profile (some seed) m e = (profile, m, e)

  pub OfSeed-All :
      (every profiles : List DexScreenerTokenProfile)
      → ((p : DexScreenerTokenProfile) → Memᴰ p profiles → Memᴰ p every)
      → All (λ profile. OfSeed (IsSeedOf every) (seed_of lower trim profile)) profiles
  OfSeed-All every [] h = tt
  OfSeed-All every (profile ∷ profiles) h = (
    OfSeed-self every profile (seed_of lower trim profile) (h profile (Memᴰ.head refl)) refl,
    OfSeed-All every profiles (λ p m. h p (Memᴰ.tail m)),
  )
