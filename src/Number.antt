-- ===== src/Number.antt =====
-- JavaScript's `number`: what the scanner's code uses of it, with no law assumed. The comparisons
-- are separate operations, since on NaN neither `a < b` nor `b <= a` holds.
use crypto_edge_ai.Common.{ℕ, String, Bool, Option}

pub record Number : Type 1 where
  pub Num : Type 0
  pub lt : Num → Num → Bool
  pub le : Num → Num → Bool
  -- `a === b`.
  pub eq : Num → Num → Bool
  pub div : Num → Num → Num
  pub times : Num → Num → Num
  -- The decimal literal `m · 10 ^ -k`.
  pub literal : (m k : ℕ) → Num
  -- `Number.isFinite`.
  pub is_finite : Num → Bool
  -- `Number(text)` where that is finite.
  pub parse : String → Option Num
