-- ===== src/Automation/Store/Fixtures.antt =====
-- A format for the tests of the state's file: natural numbers are the multiples of 10000, and a time
-- is written as so many strokes.
use crypto_edge_ai.Common.{
  ℕ, zero, suc, ◌*◌, ◌/◌, ◌≤◌, ◌≡◌, refl, String, Option, none, some, leb, ◌==◌, ◌&&◌,
  if◌then◌else◌, arith, str_eq, eq_iff, Bool-cases, Option-cases, inl, inr,
}
use crypto_edge_ai.Date.{DateText, iso, other, max_time}
use crypto_edge_ai.Scanner.Fixtures.{ten_thousandths}
use crypto_edge_ai.Automation.Store.Values.{Format, max_safe_integer, text_of}

abbrev natural : ℕ → Option ℕ
natural x =
    if x / 10000 * 10000 == x && leb (x / 10000) max_safe_integer then some (x / 10000) else none

pub natural-number : (k : ℕ) → k ≤ max_safe_integer → natural (k * 10000) ≡ some k
natural-number k h = ground arith

pub natural-le : (x k : ℕ) → natural x ≡ some k → k ≤ max_safe_integer
natural-le x k e = ground arith

pub strokes : ℕ → String
strokes zero = String.[]
strokes (suc t) = String.◌∷◌ "z" (strokes t)

abbrev longer : Option ℕ → Option ℕ
longer none = none
longer (some t) = some (suc t)

pub count_strokes : String → Option ℕ
count_strokes String.[] = some 0
count_strokes (String.◌∷◌ c s) =
    if str_eq (String.◌∷◌ c String.[]) "z" then longer (count_strokes s) else none

abbrev read_date : String → Option ℕ → DateText
read_date s none = other s none
read_date s (some t) = iso t

count_strokes-strokes : (t : ℕ) → count_strokes (strokes t) ≡ some t
unfolding count_strokes strokes
count_strokes-strokes zero = refl
count_strokes-strokes (suc t) = rw (count_strokes-strokes t)

strokes-count_strokes : (s : String) (t : ℕ) → count_strokes s ≡ some t → strokes t ≡ s
unfolding count_strokes strokes
strokes-count_strokes String.[] t e = let here : 0 ≡ t = ground arith in rw (← here) refl
strokes-count_strokes (String.◌∷◌ c s) t e =
    elim (Bool-cases (str_eq (String.◌∷◌ c String.[]) "z")) [
      | inr other' ↦ let wrong = rw other' at e in cc
      | inl same ↦ elim (Option-cases (count_strokes s)) [
        | inl none' ↦ let wrong = rw (same, none') at e in cc
        | inr (k, counted) ↦
            let it = (eq_iff (String.◌∷◌ c String.[]) "z").0 same in
            let ih = strokes-count_strokes s k counted in
            let here : suc k ≡ t = ground (arith, rw (same, counted) at e) in
            rw (← here) (cc (it, ih))
      ]
    ]

abbrev date_of : String → DateText
date_of s = read_date s (count_strokes s)

pub date_of-strokes : (t : ℕ) → t ≤ max_time → date_of (strokes t) ≡ iso t
date_of-strokes t h = rw (count_strokes-strokes t)

text_of-read_date :
    (s : String) (o : Option ℕ) → count_strokes s ≡ o → text_of strokes (read_date s o) ≡ s
text_of-read_date s none e = refl
text_of-read_date s (some t) e = strokes-count_strokes s t e

pub text_of-date_of : (s : String) → text_of strokes (date_of s) ≡ s
text_of-date_of s = text_of-read_date s (count_strokes s) refl

abbrev pub tallies : Format ten_thousandths
tallies = record {
  natural = natural;
  number = λ k. k * 10000;
  iso_text = strokes;
  date_of = date_of;
  natural-number = natural-number;
  natural-le = natural-le;
  date_of-iso_text = date_of-strokes;
  text_of-date_of = text_of-date_of;
}
