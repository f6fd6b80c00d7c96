-- ===== src/Date.antt =====
-- JavaScript's dates, as the automation code uses them. A time value is a number of milliseconds
-- counted from the earliest instant that a `Date` holds (8,640,000,000,000,000 ms before 1970), so
-- that a valid date is a natural number up to `max_time`.
use crypto_edge_ai.Common.{
  ℕ, ◌-◌, ◌≤◌, String, ◌≡◌, Option, none, some, leb, if◌then◌else◌, Result, ok, err, arith,
}

abbrev pub max_time : ℕ
max_time = 17280000000000000

-- A text that stands for a date: what `toISOString` writes for a time value, or any other text,
-- with the time value that `Date.parse` gives for it (`none` for NaN).
pub data DateText : Type 0 where
  iso : ℕ → DateText
  other : String → Option ℕ → DateText

-- A time value out of range is NaN.
abbrev pub time_clip : ℕ → Option ℕ
time_clip t = if leb t max_time then some t else none

-- `Date.parse`.
unfoldable pub parse : DateText → Option ℕ
parse (iso t) = time_clip t
parse (other text none) = none
parse (other text (some t)) = time_clip t

-- `new Date(t).toISOString()`.
unfoldable pub to_iso_string : ℕ → Result DateText
to_iso_string t = if leb t max_time then ok (iso t) else err "RangeError"

-- `new Date(t - interval).toISOString()`, for a difference that may lie before the first instant.
unfoldable pub to_iso_string_before : ℕ → ℕ → Result DateText
unfolding to_iso_string
to_iso_string_before t interval =
    if leb interval t then to_iso_string (t - interval) else err "RangeError"

pub parse-to_iso_string : (t : ℕ) {d : DateText} → to_iso_string t ≡ ok d → parse d ≡ some t
unfolding parse to_iso_string
parse-to_iso_string t e = ground arith

pub parse-le : (d : DateText) {t : ℕ} → parse d ≡ some t → t ≤ max_time
unfolding parse
parse-le (iso s) e = ground arith
parse-le (other text none) e = cc
parse-le (other text (some s)) e = ground arith

pub parse-iso : (t : ℕ) → t ≤ max_time → parse (iso t) ≡ some t
unfolding parse
parse-iso t h = ground arith

pub to_iso_string-eq-ok :
    (t : ℕ) {d : DateText} → to_iso_string t ≡ ok d → (t ≤ max_time) × (d ≡ iso t)
unfolding to_iso_string
to_iso_string-eq-ok t e = ground arith
