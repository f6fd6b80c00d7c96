-- ===== src/Scanner/Discovery/Complete.antt =====
-- Which profiles tools/data-poc/src/dexscreenerDiscovery.ts asks for.
use crypto_edge_ai.Common.{
  ℕ, ◌≤◌, String, ◌≡◌, refl, sym, true, Option, none, some, List, [], ◌∷◌, eq_refl, leb, includes,
  length, map, All, Bool-cases, inl, inr, ◌⊎◌, arith,
}
use crypto_edge_ai.Scanner.Discovery.Distinct.{Distinct, includes-append, map-append}
use crypto_edge_ai.Scanner.Discovery.Seeds.{
  IsState, IsState-start, keep-IsState, seed_loop-IsState, seed_loop-All, OfSeed-All,
  clamp_seed_limit-bounds, IsSeedOf, IsCovered,
}
use crypto_edge_ai.Scanner.Discovery.{
  DexScreenerTokenProfile, Seed, clamp_seed_limit, seed_key, seed_of, keep, seed_loop,
  select_profile_seeds,
}

module _ (lower trim : String → String) where
  -- A key that is there stays.
  keep-includes :
      (seed : Option Seed) (state : List Seed × List String) (k : String)
      → includes (map (seed_key lower trim) state.0) k ≡ true
      → includes (map (seed_key lower trim) (keep lower trim seed state).0) k ≡ true
  keep-includes none state k h = h
  keep-includes (some seed) (selected, seen) k h =
      elim (Bool-cases (includes seen (seed_key lower trim seed))) [
        | inl known ↦ rw known h
        | inr fresh ↦
            rw
              (
                fresh,
                map-append (seed_key lower trim) selected (seed ∷ []),
                includes-append (map (seed_key lower trim) selected) (seed_key lower trim seed ∷ [])
                    k,
                h,
              )
              refl
      ]

  seed_loop-includes :
      (limit : ℕ) (profiles : List DexScreenerTokenProfile) (state : List Seed × List String)
      (k : String)
      → includes (map (seed_key lower trim) state.0) k ≡ true
      → includes (map (seed_key lower trim) (seed_loop lower trim limit profiles state)) k ≡ true
  seed_loop-includes limit [] state k h = h
  seed_loop-includes limit (profile ∷ profiles) state k h =
      elim (Bool-cases (leb limit (length state.0))) [
        | inl full ↦ rw full h
        | inr free ↦ rw free (
            seed_loop-includes limit profiles _ k
              (keep-includes (seed_of lower trim profile) state k h))
      ]

  keep-covers :
      (limit : ℕ) (seed : Seed) (state : List Seed × List String)
      → IsState lower trim limit state
      → IsCovered lower trim (keep lower trim (some seed) state).0 (some seed)
  unfolding includes
  keep-covers limit seed (selected, seen) s =
      elim (Bool-cases (includes seen (seed_key lower trim seed))) [
        | inl known ↦ rw known (rw (sym s.seen) known)
        | inr fresh ↦
            rw
              (
                fresh,
                map-append (seed_key lower trim) selected (seed ∷ []),
                includes-append (map (seed_key lower trim) selected) (seed_key lower trim seed ∷ [])
                    (seed_key lower trim seed),
                eq_refl (seed_key lower trim seed),
              )
              (ground arith)
      ]

  seed_loop-covers :
      (limit : ℕ) (profiles : List DexScreenerTokenProfile) (seed : Option Seed)
      (state : List Seed × List String)
      → IsState lower trim limit state
      → IsCovered lower trim (seed_loop lower trim limit profiles (keep lower trim seed state)) seed
  seed_loop-covers limit profiles none state s = tt
  seed_loop-covers limit profiles (some seed) state s =
      seed_loop-includes limit profiles _ _ (keep-covers limit seed state s)

  -- Either the list is full, or it has the key of every profile.
  pub IsComplete : ℕ → List DexScreenerTokenProfile → List Seed → Type 0
  IsComplete limit profiles seeds =
      (length seeds ≡ limit)
      ⊎ All (λ profile. IsCovered lower trim seeds (seed_of lower trim profile)) profiles

  IsComplete-cons :
      (limit : ℕ) (profile : DexScreenerTokenProfile) (profiles : List DexScreenerTokenProfile)
      (seeds : List Seed)
      → IsCovered lower trim seeds (seed_of lower trim profile)
      → IsComplete limit profiles seeds
      → IsComplete limit (profile ∷ profiles) seeds
  unfolding IsComplete
  IsComplete-cons limit profile profiles seeds h (inl full) = inl full
  IsComplete-cons limit profile profiles seeds h (inr all) = inr (h, all)

  IsComplete-full :
      (limit : ℕ) (profiles : List DexScreenerTokenProfile) (seeds : List Seed)
      → length seeds ≡ limit
      → IsComplete limit profiles seeds
  unfolding IsComplete
  IsComplete-full limit profiles seeds h = inl h

  IsComplete-nil : (limit : ℕ) (seeds : List Seed) → IsComplete limit [] seeds
  unfolding IsComplete
  IsComplete-nil limit seeds = inr tt

  seed_loop-IsComplete :
      (limit : ℕ) (profiles : List DexScreenerTokenProfile) (state : List Seed × List String)
      → IsState lower trim limit state
      → IsComplete limit profiles (seed_loop lower trim limit profiles state)
  seed_loop-IsComplete limit [] state s = IsComplete-nil limit state.0
  seed_loop-IsComplete limit (profile ∷ profiles) state s =
      elim (Bool-cases (leb limit (length state.0))) [
        | inl full ↦ rw full (IsComplete-full limit _ state.0 (let few = s.few in ground arith))
        | inr free ↦ rw free (
            IsComplete-cons limit profile profiles _
              (seed_loop-covers limit profiles (seed_of lower trim profile) state s)
              (seed_loop-IsComplete limit profiles _ (
                keep-IsState lower trim limit (seed_of lower trim profile) state s (ground arith))))
      ]

  -- The seeds come from the profiles, no key occurs twice among them, there are at most as many as
  -- the clamped limit, which is between 1 and 30, and if there are fewer, then every profile whose
  -- chain and address are filled texts has its key among them.
  pub select_profile_seeds-IsComplete :
      (profiles : List DexScreenerTokenProfile) (limit : Option ℕ)
      → All (IsSeedOf lower trim profiles) (select_profile_seeds lower trim profiles limit)
        × Distinct (map (seed_key lower trim) (select_profile_seeds lower trim profiles limit))
        × (length (select_profile_seeds lower trim profiles limit) ≤ clamp_seed_limit limit)
        × (1 ≤ clamp_seed_limit limit)
        × (clamp_seed_limit limit ≤ 30)
        × IsComplete
            (clamp_seed_limit limit)
            profiles
            (select_profile_seeds lower trim profiles limit)
  unfolding select_profile_seeds
  select_profile_seeds-IsComplete profiles limit =
      let start = IsState-start lower trim (clamp_seed_limit limit) in
      let (_, end) =
        seed_loop-IsState lower trim (clamp_seed_limit limit) profiles ([], []) start in
      (
        seed_loop-All lower trim (IsSeedOf lower trim profiles) (clamp_seed_limit limit) profiles
            ([], []) tt (OfSeed-All lower trim profiles profiles (λ p m. m)),
        rw (sym end.seen) end.distinct,
        end.few,
        (clamp_seed_limit-bounds limit).0,
        (clamp_seed_limit-bounds limit).1,
        seed_loop-IsComplete (clamp_seed_limit limit) profiles ([], []) start,
      )
