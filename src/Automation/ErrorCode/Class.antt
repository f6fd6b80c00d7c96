-- ===== src/Automation/ErrorCode/Class.antt =====
-- Which error codes of tools/data-poc/src/automation/centralAutomationCoordinator.ts are
-- deterministic failures.
use Prim.Native.Char.{Char, code}
use Prim.Native.String.{String, [], ◌∷◌}
use text.Mathlib.TextEquality.{Char-path}
use text.Mathlib.TextLemmas.{nil-append, cons-append}
use Prim.Native.String
use crypto_edge_ai.Common.{
  ◌≡◌, ◌↔◌, ◌⊎◌, refl, sym, ap, ◌∙◌, Bool, true, false, ◌&&◌, ◌||◌, if◌then◌else◌, str_eq, eq_iff,
  eq_refl, arith, List, any, Bool-cases, inl, inr,
}
use crypto_edge_ai.Automation.State.{deterministic}
use crypto_edge_ai.Automation.ErrorCode.{
  is_underscore, has_word, has_marker, find_marker, ends_with, classify_automation_failure,
}

-- The parts of a text between its underscores.
first_part : String → String
first_part [] = ""
first_part (c ∷ s) = if is_underscore (code c) then "" else c ∷ first_part s

later_parts : String → List String
later_parts [] = List.[]
later_parts (c ∷ s) =
    let rest = later_parts s in
    if is_underscore (code c) then List.◌∷◌ (first_part s) rest else rest

pub parts : String → List String
unfolding first_part later_parts
parts s = List.◌∷◌ (first_part s) (later_parts s)

abbrev NoUnderscore : String → Type 0
NoUnderscore [] = Unit {0}
NoUnderscore (c ∷ s) = (is_underscore (code c) ≡ false) × NoUnderscore s

has_word_sound : (w s : String) → NoUnderscore w → has_word w s ≡ true → w ≡ first_part s
unfolding has_word first_part
has_word_sound [] [] n h = refl
has_word_sound [] (c ∷ s) n h = ground arith
has_word_sound (w ∷ ws) [] n h = cc
has_word_sound (w ∷ ws) (c ∷ s) (firm, n) h =
    let same : w ≡ c = Char-path w c (ground arith) in
    let rest = has_word_sound ws s n (ground arith) in rw (← same) (rw firm (rw (← rest)))

has_word_complete : (w s : String) → NoUnderscore w → w ≡ first_part s → has_word w s ≡ true
unfolding has_word first_part
has_word_complete [] [] n h = refl
has_word_complete [] (c ∷ s) n h = elim (Bool-cases (is_underscore (code c))) [
  | inl ends ↦ rw ends
  | inr goes ↦ cc (rw goes at h)
]
has_word_complete (w ∷ ws) [] n h = cc
has_word_complete (w ∷ ws) (c ∷ s) (firm, n) h = elim (Bool-cases (is_underscore (code c))) [
  | inl ends ↦ cc (rw ends at h)
  | inr goes ↦
      let both : (w ∷ ws) ≡ (c ∷ first_part s) = rw goes at h in
      let same : w ≡ c = cc in
      let rest : has_word ws s ≡ true = has_word_complete ws s n (cc) in rw same (ground arith)
]

bool_ext : (a b : Bool) → (a ≡ true → b ≡ true) → (b ≡ true → a ≡ true) → a ≡ b
bool_ext true b f g = sym (f refl)
bool_ext false true f g = g refl
bool_ext false false f g = refl

has_word_iff : (w s : String) → NoUnderscore w → has_word w s ≡ str_eq w (first_part s)
has_word_iff w s n =
    bool_ext _ _ (λ h. (eq_iff w (first_part s)).1 (has_word_sound w s n h))
      (λ h. has_word_complete w s n ((eq_iff w (first_part s)).0 h))

abbrev pub is_marker : String → Bool
is_marker part =
    str_eq "SCHEMA" part
    || str_eq "CONTRACT" part
    || str_eq "LINEAGE" part
    || str_eq "VERSION" part
    || str_eq "PROVENANCE" part

has_marker-first_part : (s : String) → has_marker s ≡ is_marker (first_part s)
has_marker-first_part s = rw (
  has_word_iff "SCHEMA" s (ground arith),
  has_word_iff "CONTRACT" s (ground arith),
  has_word_iff "LINEAGE" s (ground arith),
  has_word_iff "VERSION" s (ground arith),
  has_word_iff "PROVENANCE" s (ground arith),
)

find_marker-cons :
    (at_word : Bool) (c : Char) (s : String)
    → find_marker at_word (c ∷ s)
      ≡ ((at_word && has_marker (c ∷ s)) || find_marker (is_underscore (code c)) s)
unfolding find_marker
find_marker-cons at_word c s = refl

later_parts-cons :
    (c : Char) (s : String)
    → any is_marker (later_parts (c ∷ s))
      ≡ ((is_underscore (code c) && is_marker (first_part s)) || any is_marker (later_parts s))
unfolding later_parts
later_parts-cons c s = elim (Bool-cases (is_underscore (code c))) [
  | inl ends ↦ rw ends
  | inr goes ↦ rw goes
]

find_marker-parts :
    (at_word : Bool) (s : String)
    → find_marker at_word s
      ≡ ((at_word && is_marker (first_part s)) || any is_marker (later_parts s))
find_marker-parts at_word [] = nothing at_word
  where
    nothing :
        (b : Bool)
        → find_marker b [] ≡ ((b && is_marker (first_part [])) || any is_marker (later_parts []))
    nothing b = unfold find_marker first_part later_parts in (ground arith)
find_marker-parts at_word (c ∷ s) = rw (
  find_marker-cons at_word c s,
  has_marker-first_part (c ∷ s),
  find_marker-parts (is_underscore (code c)) s,
  later_parts-cons c s,
)

ends_with_sound :
    (suffix s : String)
    → ends_with suffix s ≡ true
    → (front : String) × (s ≡ String.◌++◌ front suffix)
unfolding ends_with
ends_with_sound suffix [] h = ([], rw nil-append (sym ((eq_iff suffix []).0 h)))
ends_with_sound suffix (c ∷ s) h = elim (Bool-cases (str_eq suffix (c ∷ s))) [
  | inl whole ↦ ([], rw nil-append (sym ((eq_iff suffix (c ∷ s)).0 whole)))
  | inr not' ↦
      let (front, e) = ends_with_sound suffix s (rw not' at h) in
      (c ∷ front, rw cons-append (ap (λ t. c ∷ t) e))
]

ends_with-cons :
    (suffix : String) (c : Char) (s : String)
    → ends_with suffix s ≡ true
    → ends_with suffix (c ∷ s) ≡ true
unfolding ends_with
ends_with-cons suffix c s h = ground arith

ends_with_self : (suffix : String) → ends_with suffix suffix ≡ true
unfolding ends_with
ends_with_self [] = refl
ends_with_self (c ∷ s) = ground (arith, eq_refl (c ∷ s))

ends_with_complete : (suffix front : String) → ends_with suffix (String.◌++◌ front suffix) ≡ true
ends_with_complete suffix [] = rw nil-append (ends_with_self suffix)
ends_with_complete suffix (c ∷ front) =
    rw cons-append
      (ends_with-cons suffix c (String.◌++◌ front suffix) (ends_with_complete suffix front))

classify-tests :
    (error_code : String)
    → (classify_automation_failure error_code ≡ deterministic) ↔ (
        (str_eq error_code "SCANNER_METADATA_INVALID" ≡ true)
        ⊎ (ends_with "_METADATA_INVALID" error_code ≡ true)
        ⊎ (find_marker true error_code ≡ true))
unfolding classify_automation_failure
classify-tests error_code = (λ h. ground arith, λ h. ground arith)

-- A failure is deterministic exactly when its code is that of the scanner's metadata, ends in
-- `_METADATA_INVALID`, or has one of the five marker words among its parts between underscores.
pub classify_automation_failure_iff :
    (error_code : String)
    → (classify_automation_failure error_code ≡ deterministic) ↔ (
        (error_code ≡ "SCANNER_METADATA_INVALID")
        ⊎ ((front : String) × (error_code ≡ String.◌++◌ front "_METADATA_INVALID"))
        ⊎ (any is_marker (parts error_code) ≡ true))
unfolding parts
classify_automation_failure_iff error_code = (
  λ h. elim ((classify-tests error_code).0 h) [
    | inl e ↦ inl ((eq_iff error_code "SCANNER_METADATA_INVALID").0 e)
    | inr (inl e) ↦ inr (inl (ends_with_sound "_METADATA_INVALID" error_code e))
    | inr (inr e) ↦ inr (inr (sym (find_marker-parts true error_code) ∙ e))
  ],
  λ d. (classify-tests error_code).1 (elim d [
    | inl e ↦ inl ((eq_iff error_code "SCANNER_METADATA_INVALID").1 e)
    | inr (inl (front, e)) ↦ inr (inl (rw e (ends_with_complete "_METADATA_INVALID" front)))
    | inr (inr e) ↦ inr (inr (find_marker-parts true error_code ∙ e))
  ]),
)
