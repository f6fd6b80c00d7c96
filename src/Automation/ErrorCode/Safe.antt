-- ===== src/Automation/ErrorCode/Safe.antt =====
-- What the error codes of tools/data-poc/src/automation/centralAutomationCoordinator.ts look like.
use Prim.Native.Char.{code}
use Prim.Native.String.{String, [], ◌∷◌}
use crypto_edge_ai.Common.{
  ℕ, zero, suc, ◌≤◌, ◌≡◌, refl, Bool, true, false, ◌&&◌, arith, Bool-cases, inl, inr,
}
use crypto_edge_ai.Automation.ErrorCode.{
  is_code_char, is_underscore, is_id_tail, is_safe_text, replace_runs, strip_leading,
  strip_trailing, take_text, is_empty_text, Thrown, candidate_code, safe_error_code,
}

-- Upper-case letters, digits and underscores only.
abbrev IsCode : String → Type 0
IsCode [] = Unit {0}
IsCode (c ∷ s) = (is_code_char (code c) ≡ true) × IsCode s

-- The first character is no underscore.
abbrev HasFirm : String → Type 0
HasFirm [] = Unit {0}
HasFirm (c ∷ s) = is_underscore (code c) ≡ false

replace_runs-IsCode : (in_run : Bool) (s : String) → IsCode (replace_runs in_run s)
unfolding replace_runs
replace_runs-IsCode in_run [] = tt
replace_runs-IsCode in_run (c ∷ s) = elim (Bool-cases (is_code_char (code c))) [
  | inl keep ↦ rw keep (keep, replace_runs-IsCode false s)
  | inr skip ↦ elim (Bool-cases in_run) [
    | inl inside ↦ rw (skip, inside) (replace_runs-IsCode true s)
    | inr first ↦ rw (skip, first) (refl, replace_runs-IsCode true s)
  ]
]

strip_leading-IsCode :
    (s : String) → IsCode s → IsCode (strip_leading s) × HasFirm (strip_leading s)
unfolding strip_leading
strip_leading-IsCode [] h = (tt, tt)
strip_leading-IsCode (c ∷ s) (h, hs) = elim (Bool-cases (is_underscore (code c))) [
  | inl blank ↦ rw blank (strip_leading-IsCode s hs)
  | inr firm ↦ rw firm ((h, hs), firm)
]

strip_trailing-IsCode : (s : String) → IsCode s → IsCode (strip_trailing s)
unfolding strip_trailing
strip_trailing-IsCode [] h = tt
strip_trailing-IsCode (c ∷ s) (h, hs) =
    elim (Bool-cases (is_empty_text (strip_trailing s) && is_underscore (code c))) [
      | inl dropped ↦ rw dropped tt
      | inr kept ↦ rw kept (h, strip_trailing-IsCode s hs)
    ]

strip_trailing-HasFirm : (s : String) → HasFirm s → HasFirm (strip_trailing s)
unfolding strip_trailing
strip_trailing-HasFirm [] f = tt
strip_trailing-HasFirm (c ∷ s) f =
    elim (Bool-cases (is_empty_text (strip_trailing s) && is_underscore (code c))) [
      | inl dropped ↦ rw dropped tt
      | inr kept ↦ rw kept f
    ]

is_id_tail_take :
    (n room : ℕ) (s : String) → IsCode s → n ≤ room → is_id_tail room (take_text n s) ≡ true
unfolding is_id_tail take_text
is_id_tail_take zero zero s h le = refl
is_id_tail_take zero (suc room) s h le = refl
is_id_tail_take (suc n) zero s h le = absurd (omega arith)
is_id_tail_take (suc n) (suc room) [] h le = refl
is_id_tail_take (suc n) (suc room) (c ∷ s) (h, hs) le = ground (arith, is_id_tail_take n room s hs)

-- A text of the codes' characters that begins with no underscore is an id once it is cut.
is_safe_text_take :
    (s : String)
    → IsCode s
    → HasFirm s
    → is_empty_text (take_text 96 s) ≡ false
    → is_safe_text (take_text 96 s) ≡ true
unfolding is_safe_text take_text
is_safe_text_take [] h f e = cc
is_safe_text_take (c ∷ s) (h, hs) f e = ground (arith, is_id_tail_take 95 127 s hs (omega arith))

-- Whatever was thrown, its code is a text that the state accepts: a letter or digit, and at most
-- 127 letters, digits, dots, dashes and underscores behind it.
pub safe_error_code-is_safe_text :
    (upper : String → String) (error : Thrown) → is_safe_text (safe_error_code upper error) ≡ true
unfolding safe_error_code
safe_error_code-is_safe_text upper error =
    let runs = replace_runs false (upper (candidate_code error)) in
    let (coded', firm) =
      strip_leading-IsCode runs (replace_runs-IsCode false (upper (candidate_code error))) in
    let text = strip_trailing (strip_leading runs) in
    elim (Bool-cases (is_empty_text (take_text 96 text))) [
      | inl blank ↦ rw blank (unfold is_safe_text in refl)
      | inr filled ↦ rw filled (
          is_safe_text_take text (strip_trailing-IsCode (strip_leading runs) coded')
            (strip_trailing-HasFirm (strip_leading runs) firm) filled)
    ]
